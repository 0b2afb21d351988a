-- ===== src/Faucet/Cooldown.antt =====
-- The rate limit of the faucet (`handle_dispense` of lootcoin-faucet/src/main.rs), for requests one
-- after another.
use lootcoin.Base.{
  ℕ, ◌+◌, ◌-◌, ◌*◌, ◌/◌, ◌≤◌, ◌<◌, ◌≡◌, refl, ◌∙◌, sym, subst, inl, inr, Bool, true, Option-cases,
  Bytes, bytes_eq, bytes_beq_iff, none, some, get, get-insert, arith,
}
use lootcoin.Db.Redb.{Redb, bytes_ord}
use lootcoin.Faucet.{
  nanos, Faucet, cooldown_active, BalanceReply, RelayReply, taken, turned_down, unsent,
  check_cooldown, admit, persist_cooldown, record_cooldown, finish, handle_dispense,
}

module _ {R : Redb} (is_valid_address : Bytes → Bool) where
  pub record_cooldown-get :
      (f : Faucet R) (later unix : ℕ) (address : Bytes)
      → get address (record_cooldown f later unix address).cooldowns ≡ some later
  unfolding record_cooldown persist_cooldown
  record_cooldown-get f later unix address =
      get-insert address address later f.cooldowns ∙ ground (arith, bytes_beq_iff address address)

  pub record_cooldown-cooldown :
      (f : Faucet R) (later unix : ℕ) (address : Bytes)
      → (record_cooldown f later unix address).cooldown ≡ f.cooldown
  unfolding record_cooldown persist_cooldown
  record_cooldown-cooldown f later unix address = refl

  finish-recorded :
      (f : Faucet R) (later unix : ℕ) (address : Bytes) (relay : RelayReply)
      → (finish f later unix address relay).0 ≡ none
      → (finish f later unix address relay).1 ≡ record_cooldown f later unix address
  unfolding finish
  finish-recorded f later unix address unsent e = absurd (ground arith)
  finish-recorded f later unix address turned_down e = absurd (ground arith)
  finish-recorded f later unix address taken e = refl

  pub sent-recorded :
      (f : Faucet R) (now : ℕ) (address : Bytes) (balance : BalanceReply) (relay : RelayReply)
      (later unix : ℕ)
      → (handle_dispense is_valid_address f now address balance relay later unix).0 ≡ none
      → (handle_dispense is_valid_address f now address balance relay later unix).1
        ≡ record_cooldown f later unix address
  unfolding handle_dispense
  sent-recorded f now address balance relay later unix sent =
      elim (Option-cases (admit is_valid_address f now address balance)) [
        | inr (e, refused) ↦ absurd (ground arith)
        | inl fine ↦
            rw (fine, handle_dispense)
              (finish-recorded f later unix address relay (rw (fine, handle_dispense) at sent))
      ]

  pub handle_dispense-refuses :
      (f : Faucet R) (again last : ℕ) (address : Bytes) (balance : BalanceReply)
      (relay : RelayReply) (later unix : ℕ) {period : ℕ}
      → is_valid_address address ≡ true
      → get address f.cooldowns ≡ some last
      → f.cooldown ≡ period
      → again - last < period
      → handle_dispense is_valid_address f again address balance relay later unix
        ≡ (some (cooldown_active ((period - (again - last)) / nanos / 60 + 1)), f)
  unfolding handle_dispense admit check_cooldown
  handle_dispense-refuses f again last address balance relay later unix valid there same soon =
      ground arith

  -- After a request that sends coins to a valid address, a request for the same address that is
  -- checked less than the cooldown later is refused, and changes nothing; the minutes that it is
  -- told are at least one, and the cooldown is over when they have passed.
  pub handle_dispense-limits :
      (f : Faucet R) (now : ℕ) (address : Bytes) (balance balance' : BalanceReply)
      (relay relay' : RelayReply) (later unix again later' unix' : ℕ)
      → is_valid_address address ≡ true
      → (handle_dispense is_valid_address f now address balance relay later unix).0 ≡ none
      → again - later < f.cooldown
      → let after : Faucet R =
          (handle_dispense is_valid_address f now address balance relay later unix).1 in
        (minutes : ℕ) × (handle_dispense is_valid_address after again address balance' relay' later'
            unix'
          ≡ (some (cooldown_active minutes), after))
        × (0 < minutes)
        × (f.cooldown ≤ again - later + minutes * 60 * nanos)
  handle_dispense-limits f now address balance balance' relay relay' later unix again later' unix'
        valid sent soon =
      let minutes = (f.cooldown - (again - later)) / nanos / 60 + 1 in
      let recorded_f : Faucet R = record_cooldown f later unix address in
      let left = sent-recorded f now address balance relay later unix sent in
      let refusal =
        handle_dispense-refuses recorded_f again later address balance' relay' later' unix' valid
          (record_cooldown-get f later unix address) (record_cooldown-cooldown f later unix address)
          soon in
      (
        minutes,
        subst
            (λ (g : Faucet R).
              handle_dispense is_valid_address g again address balance' relay' later' unix'
              ≡ (some (cooldown_active minutes), g))
            (sym left) refusal,
        omega arith,
        omega (arith, soon),
      )
