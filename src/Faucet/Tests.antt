-- ===== src/Faucet/Tests.antt =====
-- A small faucet, and the theorems on its rate limit applied to it.
use lootcoin.Base.{
  ℕ, ◌+◌, ◌-◌, ◌*◌, ◌≤◌, ◌<◌, ◌≡◌, refl, Bool, true, Bytes, bytes_eq, [], ◌∷◌, none, some, All, get,
  insert, add64, arith,
}
use lootcoin.Db.Redb.Memory.{memory, memory-IsLawful, sorted, put_sorted}
use lootcoin.Faucet.{
  BalanceReply, Running, begin_dispense, end_dispense, begin_all, end_all, nanos, Faucet,
  cooldown_active, spendable, taken, check_cooldown, check_balance, admit, finish, handle_dispense,
  record_cooldown, persist_cooldown, restarted,
}
use lootcoin.Faucet.Restart.{Lists, handle_dispense-restart}
use lootcoin.Faucet.Cooldown.{handle_dispense-limits}
use lootcoin.Faucet.Overlap.{times_sent, all_taken, overlapping_dispenses}

abbrev faucet : Faucet memory
faucet = record {
  dispense_amount = 500;
  fee = 2;
  cooldown = 86400000000000;
  cooldowns = [];
  cooldown_db = [];
}

abbrev any_address : Bytes → Bool
any_address address = true

abbrev address : Bytes
address = 7 ∷ []

sends : (handle_dispense any_address faucet 5 address (spendable 1000) taken 6 100).0 ≡ none
unfolding handle_dispense admit check_cooldown check_balance finish get add64
sends = refl

handle_dispense-limits_example :
    let after : Faucet memory =
      (handle_dispense any_address faucet 5 address (spendable 1000) taken 6 100).1 in
    (minutes : ℕ) × (handle_dispense any_address after 60000000006 address
        (spendable 400)
        taken
        8
        160
      ≡ (some (cooldown_active minutes), after))
    × (0 < minutes)
    × (faucet.cooldown ≤ 60000000006 - 6 + minutes * 60 * nanos)
handle_dispense-limits_example =
    handle_dispense-limits any_address faucet 5 address (spendable 1000) (spendable 400) taken taken
      6 100 60000000006 8 160 refl sends (omega arith)

one_entry :
    Lists memory
      (handle_dispense any_address faucet 5 address (spendable 1000) taken 6 100).1.cooldown_db
unfolding handle_dispense admit check_cooldown check_balance finish get add64 record_cooldown
    persist_cooldown sorted put_sorted insert
one_entry = (refl, tt)

-- The system clock shows 160 at the start, 60 seconds after the record.
handle_dispense-restart_example :
    let after : Faucet memory =
      (handle_dispense any_address faucet 5 address (spendable 1000) taken 6 100).1 in
    let start : Faucet memory = restarted after 10 160 in
    (minutes : ℕ) × (handle_dispense any_address start 20 address (spendable 400) taken 21 160
      ≡ (some (cooldown_active minutes), start))
handle_dispense-restart_example =
    handle_dispense-restart memory-IsLawful any_address faucet 5 address (spendable 1000)
      (spendable 400) taken taken 6 100 10 160 20 21 160 refl sends one_entry (omega arith)
      (omega arith) (omega arith)

admits :
    All
      (λ (q : ℕ × BalanceReply). admit any_address faucet q.0 address q.1 ≡ none)
      ((5, spendable 1000) ∷ (6, spendable 1000) ∷ [])
unfolding admit check_cooldown check_balance get add64
admits = (refl, (refl, tt))

-- Two requests overlap; the second is answered while the cooldown of the first runs.
overlapping_dispenses_example :
    let idle : Running memory = record { faucet = faucet; waiting = []; sent = [] } in
    let begun : Running memory =
      begin_all any_address idle address ((5, spendable 1000) ∷ (6, spendable 1000) ∷ []) in
    let answered : Running memory = end_dispense any_address begun 7 100 taken in
    let ended : Running memory = end_all any_address answered (all_taken ((9, 100) ∷ [])) in
    (begin_dispense any_address answered 8 address (spendable 500) ≡ answered)
    × (times_sent address ended.sent ≡ times_sent address [] + 2)
overlapping_dispenses_example =
    overlapping_dispenses any_address address faucet []
      ((5, spendable 1000) ∷ (6, spendable 1000) ∷ []) 7 100 8 (spendable 500) ((9, 100) ∷ [])
      admits refl (omega arith)
