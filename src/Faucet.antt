-- ===== src/Faucet.antt =====
-- lootcoin-faucet/src/main.rs: the cooldowns and the dispense of coins. Instants and durations are
-- numbers of nanoseconds; what the node answers, the clocks and the database are arguments. A handler
-- gives its lock up while it waits for the node, so that it has two steps: the checks, and the record
-- of the cooldown.
pub mod Cooldown
pub mod Overlap
pub mod Restart
mod Tests
use lootcoin.Base.{
  ℕ, ◌+◌, ◌-◌, ◌*◌, ◌/◌, Bool, not, Bytes, bytes_eq, List, [], ◌∷◌, ◌++◌, Option, none, some, Map,
  get, insert, is_some, add64, leb, ltb, if◌then◌else◌,
}
use lootcoin.Db.Redb.{Redb, bytes_ord}

-- The nanoseconds of a second.
abbrev pub nanos : ℕ
nanos = 1000000000

-- The wallet, the URL of the node and the client are not part of the state.
pub record Faucet (R : Redb) : Type 0 where
  pub dispense_amount : ℕ
  pub fee : ℕ
  pub cooldown : ℕ
  pub cooldowns : Map Bytes ℕ
  pub cooldown_db : R.Table Bytes ℕ

-- The errors of `handle_dispense`, by their messages; `cooldown_active` with the minutes that remain.
pub data DispenseError : Type 0 where
  invalid_address : DispenseError
  cooldown_active : ℕ → DispenseError
  balance_unreachable : DispenseError
  balance_unexpected : DispenseError
  faucet_empty : DispenseError
  relay_unreachable : DispenseError
  relay_rejected : DispenseError

-- The node's answer to GET /balance.
pub data BalanceReply : Type 0 where
  unanswered : BalanceReply
  unreadable : BalanceReply
  spendable : ℕ → BalanceReply

-- The node's answer to POST /transactions/relay.
pub data RelayReply : Type 0 where
  unsent : RelayReply
  turned_down : RelayReply
  taken : RelayReply

-- The loop of `load_cooldowns`, over the entries of the table.
unfoldable pub restore_cooldowns : ℕ → ℕ → ℕ → Map Bytes ℕ → Map Bytes ℕ → Map Bytes ℕ
restore_cooldowns now_inst now_secs cooldown_secs [] map = map
restore_cooldowns now_inst now_secs cooldown_secs ((addr, stored_ts) ∷ entries) map =
    let age_secs = now_secs - stored_ts in
    let skipped = restore_cooldowns now_inst now_secs cooldown_secs entries map in
    let last_instant : ℕ =
      if leb (age_secs * nanos) now_inst then now_inst - age_secs * nanos else now_inst in
    let kept =
      restore_cooldowns now_inst now_secs cooldown_secs entries (insert addr last_instant map) in
    if leb cooldown_secs age_secs then skipped else kept

unfoldable pub load_cooldowns : (R : Redb) → R.Table Bytes ℕ → ℕ → ℕ → ℕ → Map Bytes ℕ
load_cooldowns R db cooldown now_inst now_secs =
    restore_cooldowns now_inst now_secs (cooldown / nanos) (R.entries db) []

module _ {R : Redb} where
  unfoldable pub persist_cooldown : Faucet R → Bytes → ℕ → Faucet R
  persist_cooldown f address ts = record f { cooldown_db = R.put f.cooldown_db address ts }

  -- Step 2: the minutes that remain of an active cooldown.
  unfoldable pub check_cooldown : Faucet R → ℕ → Bytes → Option ℕ
  check_cooldown f now address = elim (get address f.cooldowns) [
    | none ↦ none
    | some last ↦
        if ltb (now - last) f.cooldown
        then some ((f.cooldown - (now - last)) / nanos / 60 + 1)
        else none
  ]

  -- Step 3: the balance.
  unfoldable pub check_balance : Faucet R → BalanceReply → Option DispenseError
  check_balance f unanswered = some balance_unreachable
  check_balance f unreadable = some balance_unexpected
  check_balance f (spendable amount) =
      if ltb amount (add64 f.dispense_amount f.fee) then some faucet_empty else none

  -- Steps 1 to 3, at the instant of the cooldown check.
  unfoldable pub admit : (Bytes → Bool) → Faucet R → ℕ → Bytes → BalanceReply → Option DispenseError
  admit is_valid_address f now address balance =
      if not (is_valid_address address)
      then some invalid_address
      else elim (check_cooldown f now address) [
        | some remaining_mins ↦ some (cooldown_active remaining_mins)
        | none ↦ check_balance f balance
      ]

  -- Step 5: the cooldown is recorded and persisted.
  unfoldable pub record_cooldown : Faucet R → ℕ → ℕ → Bytes → Faucet R
  record_cooldown f now unix address =
      persist_cooldown (record f { cooldowns = insert address now f.cooldowns }) address unix

  -- Steps 4 and 5, at the answer of the node: an error, or the coins are sent.
  unfoldable pub finish : Faucet R → ℕ → ℕ → Bytes → RelayReply → Option DispenseError × Faucet R
  finish f now unix address unsent = (some relay_unreachable, f)
  finish f now unix address turned_down = (some relay_rejected, f)
  finish f now unix address taken = (none, record_cooldown f now unix address)

  -- A request that no other interrupts: checked at one instant, and answered at a later one.
  unfoldable pub handle_dispense :
      (Bytes → Bool)
      → Faucet R
      → ℕ
      → Bytes
      → BalanceReply
      → RelayReply
      → ℕ
      → ℕ
      → Option DispenseError × Faucet R
  handle_dispense is_valid_address f now address balance relay later unix =
      elim (admit is_valid_address f now address balance) [
        | some e ↦ (some e, f)
        | none ↦ finish f later unix address relay
      ]

  -- The state that `main` builds from the settings and the database of `f`.
  unfoldable pub restarted : Faucet R → ℕ → ℕ → Faucet R
  restarted f now_inst now_secs = record f {
    cooldowns = load_cooldowns R f.cooldown_db f.cooldown now_inst now_secs;
  }

-- The faucet, the addresses whose handlers wait for the node's answer, oldest first, and the coins
-- that were sent, newest first, with the instants.
pub record Running (R : Redb) : Type 0 where
  pub faucet : Faucet R
  pub waiting : List Bytes
  pub sent : List (Bytes × ℕ)

module _ {R : Redb} (is_valid_address : Bytes → Bool) where
  -- A handler runs until it sends the transaction: refused, or waiting for the answer.
  unfoldable pub begin_dispense : Running R → ℕ → Bytes → BalanceReply → Running R
  begin_dispense r now address balance =
      elim (admit is_valid_address r.faucet now address balance) [
        | some e ↦ r
        | none ↦ record r { waiting = r.waiting ++ address ∷ [] }
      ]

  -- The oldest handler that waits gets the answer, and runs to its end.
  unfoldable pub end_dispense : Running R → ℕ → ℕ → RelayReply → Running R
  end_dispense r now unix relay = elim r.waiting [
    | [] ↦ r
    | address ∷ others ↦
        let (refusal, after) = finish r.faucet now unix address relay in
        record {
          faucet = after;
          waiting = others;
          sent = elim refusal [ none ↦ (address, now) ∷ r.sent | some e ↦ r.sent ];
        }
  ]

  unfoldable pub begin_all : Running R → Bytes → List (ℕ × BalanceReply) → Running R
  begin_all r address [] = r
  begin_all r address ((now, balance) ∷ requests) =
      begin_all (begin_dispense r now address balance) address requests

  unfoldable pub end_all : Running R → List (ℕ × ℕ × RelayReply) → Running R
  end_all r [] = r
  end_all r ((now, unix, relay) ∷ answers) = end_all (end_dispense r now unix relay) answers
