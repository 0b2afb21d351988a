-- ===== src/Faucet/Overlap.antt =====
-- Requests to the faucet that overlap (`handle_dispense` of lootcoin-faucet/src/main.rs): each is
-- checked, and waits for the node, before the first is answered.
use lootcoin.Base.{
  ℕ, zero, suc, ◌+◌, ◌-◌, ◌<◌, ◌≡◌, ◌∙◌, ap, sym, Bool, true, Bytes, bytes_eq, bytes_beq,
  bytes_beq_iff, List, [], ◌∷◌, ◌++◌, append-nil, append_assoc, map, none, length, keep, All, arith,
}
use lootcoin.Db.Redb.{Redb}
use lootcoin.Faucet.{
  Faucet, BalanceReply, RelayReply, taken, check_cooldown, admit, record_cooldown, finish, Running,
  begin_dispense, end_dispense, begin_all, end_all,
}
use lootcoin.Faucet.Cooldown.{record_cooldown-get, record_cooldown-cooldown}

-- How often coins were sent to the address.
abbrev pub times_sent : Bytes → List (Bytes × ℕ) → ℕ
times_sent address sent = length (keep (λ e. bytes_beq e.0 address) sent)

-- The node takes the transaction.
abbrev pub all_taken : List (ℕ × ℕ) → List (ℕ × ℕ × RelayReply)
all_taken answers = map (λ a. (a.0, a.1, taken)) answers

abbrev copies : ℕ → Bytes → List Bytes
copies zero address = []
copies (suc n) address = address ∷ copies n address

module _ {R : Redb} (is_valid_address : Bytes → Bool) (address : Bytes) where
  begin_all-admitted :
      (f : Faucet R) (waiting : List Bytes) (sent : List (Bytes × ℕ))
      (requests : List (ℕ × BalanceReply))
      → All (λ q. admit is_valid_address f q.0 address q.1 ≡ none) requests
      → begin_all is_valid_address
          (record { faucet = f; waiting = waiting; sent = sent })
          address
          requests
        ≡ record { faucet = f; waiting = waiting ++ copies (length requests) address; sent = sent }
  unfolding begin_all begin_dispense
  begin_all-admitted f waiting sent [] fine =
      let queue : List Bytes → Running R = λ w. record { faucet = f; waiting = w; sent = sent } in
      ap queue (sym (append-nil waiting))
  begin_all-admitted f waiting sent ((now, balance) ∷ requests) fine =
      let queue : List Bytes → Running R = λ w. record { faucet = f; waiting = w; sent = sent } in
      rw (fine.0, begin_dispense)
        (begin_all-admitted f (waiting ++ address ∷ []) sent requests fine.1
          ∙ ap queue (append_assoc waiting (address ∷ []) (copies (length requests) address)))

  end_all-times_sent :
      (f : Faucet R) (sent : List (Bytes × ℕ)) (answers : List (ℕ × ℕ))
      → times_sent address
          (end_all is_valid_address
            (record { faucet = f; waiting = copies (length answers) address; sent = sent })
            (all_taken answers)).sent
        ≡ times_sent address sent + length answers
  unfolding end_all end_dispense finish
  end_all-times_sent f sent [] = ground arith
  end_all-times_sent f sent ((now, unix) ∷ answers) = ground (
    arith,
    bytes_beq_iff address address,
    end_all-times_sent (record_cooldown f now unix address) ((address, now) ∷ sent) answers,
  )

  admit-valid :
      (f : Faucet R) (now : ℕ) (balance : BalanceReply)
      → admit is_valid_address f now address balance ≡ none
      → is_valid_address address ≡ true
  unfolding admit
  admit-valid f now balance fine = ground arith

  begin_dispense-refused :
      (f : Faucet R) (waiting : List Bytes) (sent : List (Bytes × ℕ)) (later unix again : ℕ)
      (balance : BalanceReply)
      → is_valid_address address ≡ true
      → again - later < f.cooldown
      → let r : Running R = record {
        faucet = record_cooldown f later unix address;
        waiting = waiting;
        sent = sent;
      } in
        begin_dispense is_valid_address r again address balance ≡ r
  unfolding begin_dispense admit check_cooldown
  begin_dispense-refused f waiting sent later unix again balance valid soon = ground (
    arith,
    record_cooldown-get is_valid_address f later unix address,
    record_cooldown-cooldown is_valid_address f later unix address,
  )

  -- Requests for one address, each of which the idle faucet would admit, are checked before the
  -- first of them is answered. When the node then takes every transaction, the faucet sends coins
  -- to the address once for each request, though a request that is checked after the first answer,
  -- less than the cooldown later, is refused.
  pub overlapping_dispenses :
      (f : Faucet R) (sent : List (Bytes × ℕ)) (requests : List (ℕ × BalanceReply))
      (later unix again : ℕ) (balance : BalanceReply) (others : List (ℕ × ℕ))
      → All (λ q. admit is_valid_address f q.0 address q.1 ≡ none) requests
      → length requests ≡ suc (length others)
      → again - later < f.cooldown
      → let idle : Running R = record { faucet = f; waiting = []; sent = sent } in
        let begun : Running R = begin_all is_valid_address idle address requests in
        let answered : Running R = end_dispense is_valid_address begun later unix taken in
        let ended : Running R = end_all is_valid_address answered (all_taken others) in
        (begin_dispense is_valid_address answered again address balance ≡ answered)
        × (times_sent address ended.sent ≡ times_sent address sent + length requests)
  unfolding end_dispense finish
  overlapping_dispenses f sent [] later unix again balance others fine same soon =
      absurd (omega arith)
  overlapping_dispenses f sent ((now, first_balance) ∷ requests) later unix again balance others
        fine same soon =
      let n : length requests ≡ length others = omega arith in
      rw (begin_all-admitted f [] sent ((now, first_balance) ∷ requests) fine, n)
        (
          begin_dispense-refused f (copies (length others) address) ((address, later) ∷ sent) later
              unix again balance (admit-valid f now first_balance fine.0) soon,
          ground (
            arith,
            bytes_beq_iff address address,
            end_all-times_sent (record_cooldown f later unix address) ((address, later) ∷ sent)
                others,
          ),
        )
