-- ===== src/Faucet/Restart.antt =====
-- The rate limit of the faucet over a restart: what `persist_cooldown` of lootcoin-faucet/src/main.rs
-- writes, and what `load_cooldowns` reads again.
use lootcoin.Base.{
  ℕ, ◌+◌, ◌-◌, ◌*◌, ◌/◌, ◌≤◌, ◌<◌, ◌≡◌, refl, ◌∙◌, sym, ap, subst, inl, inr, Bool, true, false,
  Bool-cases, Bytes, bytes_eq, bytes_beq, bytes_beq_iff, [], ◌∷◌, none, some, Map, get, insert,
  get-insert, All, leb, if◌then◌else◌, arith,
}
use lootcoin.Db.Redb.{Redb, bytes_ord, IsLawful}
use lootcoin.Faucet.{
  nanos, Faucet, cooldown_active, BalanceReply, RelayReply, restore_cooldowns, load_cooldowns,
  persist_cooldown, record_cooldown, handle_dispense, restarted,
}
use lootcoin.Faucet.Cooldown.{sent-recorded, handle_dispense-refuses}

-- The instant that `load_cooldowns` gives to an age in seconds.
abbrev last_instant : ℕ → ℕ → ℕ
last_instant now_inst age_secs =
    if leb (age_secs * nanos) now_inst then now_inst - age_secs * nanos else now_inst

-- Every entry of an address is the one given.
abbrev OnlyAt : Bytes → ℕ → Map Bytes ℕ → Type 0
OnlyAt address ts = All (λ e. bytes_beq address e.0 ≡ true → e.1 ≡ ts)

-- A table lists what it holds.
abbrev pub Lists : (R : Redb) → R.Table Bytes ℕ → Type 0
Lists R db = All (λ e. R.find db e.0 ≡ some e.1) (R.entries db)

module _ (now_inst now_secs cooldown_secs : ℕ) (address : Bytes) (ts : ℕ) where
  restored-stays :
      (entries map : Map Bytes ℕ)
      → OnlyAt address ts entries
      → get address map ≡ some (last_instant now_inst (now_secs - ts))
      → get address (restore_cooldowns now_inst now_secs cooldown_secs entries map)
        ≡ some (last_instant now_inst (now_secs - ts))
  unfolding restore_cooldowns
  restored-stays [] map only there = there
  restored-stays ((addr, stored_ts) ∷ entries) map only there =
      let last = last_instant now_inst (now_secs - stored_ts) in
      elim (Bool-cases (leb cooldown_secs (now_secs - stored_ts))) [
        | inl old ↦ rw old (restored-stays entries map only.1 there)
        | inr active ↦ rw active (
            restored-stays entries (insert addr last map) only.1 (
              get-insert addr address last map ∙ elim (Bool-cases (bytes_beq address addr)) [
                | inl same ↦
                    rw same (ap (λ t. some (last_instant now_inst (now_secs - t))) (only.0 same))
                | inr other ↦ rw other there
              ]))
      ]

  restored :
      (entries map : Map Bytes ℕ)
      → OnlyAt address ts entries
      → now_secs - ts < cooldown_secs
      → get address entries ≡ some ts
      → get address (restore_cooldowns now_inst now_secs cooldown_secs entries map)
        ≡ some (last_instant now_inst (now_secs - ts))
  unfolding restore_cooldowns get
  restored [] map only active found = absurd (ground arith)
  restored ((addr, stored_ts) ∷ entries) map only active found =
      let last = last_instant now_inst (now_secs - stored_ts) in
      elim (Bool-cases (bytes_beq address addr)) [
        | inl same ↦
            let young : leb cooldown_secs (now_secs - stored_ts) ≡ false =
              rw (only.0 same) (ground arith) in
            rw young (
              restored-stays entries (insert addr last map) only.1 (
                get-insert addr address last map
                ∙ rw same (ap (λ t. some (last_instant now_inst (now_secs - t))) (only.0 same))))
        | inr other ↦ elim (Bool-cases (leb cooldown_secs (now_secs - stored_ts))) [
          | inl old ↦ rw old (restored entries map only.1 active (ground arith))
          | inr young ↦
              rw young (restored entries (insert addr last map) only.1 active (ground arith))
        ]
      ]

recent_enough :
    (now_inst age_secs again cooldown : ℕ)
    → now_inst ≤ again
    → (again - now_inst) + age_secs * nanos < cooldown
    → again - last_instant now_inst age_secs < cooldown
recent_enough now_inst age_secs again cooldown since soon = ground arith

module _ {R : Redb} (lawful : IsLawful R) (is_valid_address : Bytes → Bool) where
  only_at :
      (db : R.Table Bytes ℕ) (address : Bytes) (ts : ℕ) (entries : Map Bytes ℕ)
      → R.find db address ≡ some ts
      → All (λ e. R.find db e.0 ≡ some e.1) entries
      → OnlyAt address ts entries
  only_at db address ts [] there listed = tt
  only_at db address ts ((addr, stored_ts) ∷ entries) there listed = (
    λ same.
        let at : address ≡ addr = (bytes_beq_iff address addr).0 same in
        let equal : some ts ≡ some stored_ts =
          sym there ∙ ap (λ key. R.find db key) at ∙ listed.0 in
        ground (arith, equal),
    only_at db address ts entries there listed.1,
  )

  load_cooldowns-get :
      (db : R.Table Bytes ℕ) (cooldown now_inst now_secs : ℕ) (address : Bytes) (ts : ℕ)
      → Lists R db
      → R.find db address ≡ some ts
      → now_secs - ts < cooldown / nanos
      → get address (load_cooldowns R db cooldown now_inst now_secs)
        ≡ some (last_instant now_inst (now_secs - ts))
  unfolding load_cooldowns
  load_cooldowns-get db cooldown now_inst now_secs address ts listed there active =
      restored now_inst now_secs (cooldown / nanos) address ts (R.entries db) []
        (only_at db address ts (R.entries db) there listed) active
        (lawful.get-entries db address ∙ there)

  -- A faucet sends coins to a valid address and is started again, while less than the cooldown, in
  -- whole seconds, has passed on the system clock; its table, of a lawful database, lists what it
  -- holds. A request for the address is refused as long as the age of the record and the time since
  -- the start are together less than the cooldown, whatever the clock of instants shows at the
  -- start.
  pub handle_dispense-restart :
      (f : Faucet R) (now : ℕ) (address : Bytes) (balance balance' : BalanceReply)
      (relay relay' : RelayReply) (later unix now_inst now_secs again later' unix' : ℕ)
      → is_valid_address address ≡ true
      → (handle_dispense is_valid_address f now address balance relay later unix).0 ≡ none
      → let after : Faucet R =
          (handle_dispense is_valid_address f now address balance relay later unix).1 in
        Lists R after.cooldown_db
        → now_secs - unix < f.cooldown / nanos
        → now_inst ≤ again
        → (again - now_inst) + (now_secs - unix) * nanos < f.cooldown
        → let start : Faucet R = restarted after now_inst now_secs in
          (minutes : ℕ) × (handle_dispense is_valid_address start again address balance' relay'
              later' unix'
            ≡ (some (cooldown_active minutes), start))
  unfolding record_cooldown persist_cooldown restarted
  handle_dispense-restart f now address balance balance' relay relay' later unix now_inst now_secs
        again later' unix' valid sent listed active since soon =
      let left = sent-recorded is_valid_address f now address balance relay later unix sent in
      let recorded : Faucet R = record_cooldown f later unix address in
      let last = last_instant now_inst (now_secs - unix) in
      let minutes = (f.cooldown - (again - last)) / nanos / 60 + 1 in
      let stored : R.find recorded.cooldown_db address ≡ some unix =
        lawful.find-put f.cooldown_db address address unix
        ∙ rw ((bytes_beq_iff address address).1 refl) refl in
      let read_again =
        load_cooldowns-get recorded.cooldown_db f.cooldown now_inst now_secs address unix
          (subst (λ (g : Faucet R). Lists R g.cooldown_db) left listed) stored active in
      let recent : again - last < f.cooldown =
        recent_enough now_inst (now_secs - unix) again f.cooldown since soon in
      let refusal =
        handle_dispense-refuses is_valid_address (restarted recorded now_inst now_secs) again last
          address balance' relay' later' unix' valid read_again refl recent in
      (
        minutes,
        subst
            (λ (g : Faucet R).
              handle_dispense is_valid_address (restarted g now_inst now_secs) again address
                balance' relay' later' unix'
              ≡ (some (cooldown_active minutes), restarted g now_inst now_secs))
            (sym left) refusal,
      )
