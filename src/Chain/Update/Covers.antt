-- ===== src/Chain/Update/Covers.antt =====
-- What the pre-validation of lootcoin-node/src/blockchain.rs reserves for the transactions of a
-- block, and what `apply_transaction` then takes.
use native.Mathlib.Nat.{zero-add, add-zero}
use lootcoin.Base.{
  ℕ, ◌+◌, ◌-◌, ◌≤◌, ◌<◌, ◌≡◌, ◌≢◌, refl, true, false, ◌||◌, inl, inr, Bool-cases, Bytes, bytes_eq,
  bytes_beq, bytes_beq_iff, List, [], ◌∷◌, map, none, some, Option-cases, contains, add_to, get_or,
  get_or-upsert, upsert, add64, add64_lem, checked_add64, saturating_add64, saturating_add64_lem,
  is_some, sum_by, u64_mod, if◌then◌else◌, arith,
}
use lootcoin.Core.{Transaction, Core, is_coinbase, user_txs}
use lootcoin.Chain.State.{Books}
use lootcoin.Chain.Ledger.{get_balance, coins, apply_transaction}
use lootcoin.Chain.Ledger.Supply.{
  Applied, apply_transaction-Applied, apply_transaction-coinbase, get_balance-le-coins,
}
use lootcoin.Chain.Validate.{Seen, reserve, prevalidate_tx, prevalidate}
use lootcoin.Chain.Update.{apply_all}

-- The fees and the minted coins of a list of transactions, as numbers without bound.
abbrev pub fee_of : Transaction → ℕ
fee_of tx = if is_coinbase tx then 0 else tx.fee

abbrev pub mint_of : Transaction → ℕ
mint_of tx = if is_coinbase tx then tx.amount else 0

abbrev pub fees_of : List Transaction → ℕ
fees_of = sum_by fee_of

abbrev pub mints_of : List Transaction → ℕ
mints_of = sum_by mint_of

abbrev pub signatures_of : List Transaction → List Bytes
signatures_of txs = map (λ tx. tx.signature) (user_txs txs)

-- A transaction with a sender that the loop's body lets through.
pub record Passes {F : Type 0} (core : Core F) (b : Books) (seen : Seen) (tx : Transaction)
    (seen' : Seen) : Type 0 where
  pub verified : core.verify tx ≡ true
  pub fee : core.min_tx_fee ≤ tx.fee
  pub receiver : is_some (core.decode_address tx.receiver) ≡ true
  pub unconfirmed : contains tx.signature b.confirmed_signatures ≡ false
  pub unseen : contains tx.signature seen.block_sigs ≡ false
  pub funded : tx.amount + tx.fee ≤ get_balance b tx.sender - get_or tx.sender 0 seen.pending_debits
  pub fits : tx.amount + tx.fee < u64_mod
  pub debits :
      seen'.pending_debits
      ≡ upsert tx.sender 0 (λ w. add64 w (tx.amount + tx.fee)) seen.pending_debits
  pub sigs : seen'.block_sigs ≡ add_to tx.signature seen.block_sigs

module _ {F : Type 0} (core : Core F) where
  pub prevalidate_tx-Passes :
      (b : Books) (seen : Seen) (tx : Transaction) (seen' : Seen)
      → is_coinbase tx ≡ false
      → prevalidate_tx core b seen tx ≡ some seen'
      → Passes core b seen tx seen'
  unfolding prevalidate_tx reserve checked_add64
  prevalidate_tx-Passes b seen tx seen' user h = ground arith

  pub prevalidate_tx-coinbase :
      (b : Books) (seen : Seen) (tx : Transaction) (seen' : Seen)
      → is_coinbase tx ≡ true
      → prevalidate_tx core b seen tx ≡ some seen'
      → seen' ≡ seen
  unfolding prevalidate_tx
  prevalidate_tx-coinbase b seen tx seen' coinbase h = ground arith

-- The books that the block is checked against (`b0`), those that its first transactions have left
-- (`b`), and what the check of these has reserved.
pub record Covers (b0 : Books) (seen : Seen) (b : Books) : Type 0 where
  pub reserved : (a : Bytes) → get_or a 0 seen.pending_debits ≤ get_balance b0 a
  pub left : (a : Bytes) → get_balance b0 a ≤ get_balance b a + get_or a 0 seen.pending_debits

module _ {F : Type 0} (core : Core F) (b0 : Books) where
  Covers-user :
      (seen seen' : Seen) (b b' : Books) (tx : Transaction)
      → Covers b0 seen b
      → Passes core b0 seen tx seen'
      → Applied b tx b'
      → coins b0 < u64_mod
      → Covers b0 seen' b'
  Covers-user seen seen' b b' tx c p applied bound = record {
    reserved = λ a. reserved a;
    left = λ a. left a;
  }
    where
      debits :
          (a : Bytes)
          → get_or a 0 seen'.pending_debits ≡ (
              if bytes_beq a tx.sender
              then get_or tx.sender 0 seen.pending_debits + (tx.amount + tx.fee)
              else get_or a 0 seen.pending_debits)
      debits a = rw (
        p.debits,
        get_or-upsert tx.sender a 0 (λ w. add64 w (tx.amount + tx.fee)) seen.pending_debits,
        add64_lem (get_or tx.sender 0 seen.pending_debits) (tx.amount + tx.fee) (
            omega
              (arith, p.funded, c.reserved tx.sender, p.fits, get_balance-le-coins b0 tx.sender)),
      )

      reserved : (a : Bytes) → get_or a 0 seen'.pending_debits ≤ get_balance b0 a
      reserved a =
          ground (
            arith,
            debits a,
            c.reserved a,
            c.reserved tx.sender,
            p.funded,
            bytes_beq_iff a tx.sender,
          )

      left : (a : Bytes) → get_balance b0 a ≤ get_balance b' a + get_or a 0 seen'.pending_debits
      left a = ground (arith, debits a, c.left a, applied.balance_left a, bytes_beq_iff a tx.sender)

-- What the loop over a list of transactions leaves: the minted coins are added, the fees are in the
-- pot, and exactly the signatures of the transactions with a sender are new.
pub record Ran (b : Books) (txs : List Transaction) (b' : Books) : Type 0 where
  pub coins_minted : coins b' ≡ coins b + mints_of txs
  pub fees_in_pot : b'.pot ≡ b.pot + fees_of txs
  pub signatures :
      (s : Bytes)
      → contains s b'.confirmed_signatures
        ≡ (contains s (signatures_of txs) || contains s b.confirmed_signatures)

-- The first transaction has been applied to give `b1`, the others run from there.
abbrev Runs : Books → ℕ → List Transaction → Type 0
Runs b fees txs =
    (b' : Books) × (apply_all b fees txs ≡ some (b', fees + fees_of txs)) × Ran b txs b'

Ran-coinbase :
    (b : Books) (tx : Transaction) (txs : List Transaction) (fees : ℕ)
    → is_coinbase tx ≡ true
    → coins b + tx.amount < u64_mod
    → Runs (apply_transaction b tx) fees txs
    → Runs b fees (tx ∷ txs)
unfolding apply_all
Ran-coinbase b tx txs fees coinbase bound (b', runs, ran) =
    let effect = apply_transaction-coinbase b tx coinbase bound in
    (
      b',
      rw (coinbase, apply_all) (rw zero-add runs),
      record {
        coins_minted = ground (arith, effect.0, ran.coins_minted);
        fees_in_pot = ground (arith, effect.1, ran.fees_in_pot);
        signatures = λ s. ground (arith, effect.2, ran.signatures s);
      },
    )

Ran-user :
    (b : Books) (tx : Transaction) (txs : List Transaction) (fees : ℕ)
    → is_coinbase tx ≡ false
    → Applied b tx (apply_transaction b tx)
    → fees + tx.fee < u64_mod
    → Runs (apply_transaction b tx) (saturating_add64 fees tx.fee) txs
    → Runs b fees (tx ∷ txs)
unfolding apply_all
Ran-user b tx txs fees user applied bound (b', runs, ran) = (
  b',
  ground (
    arith,
    runs,
    applied.signatures tx.signature,
    bytes_beq_iff tx.signature tx.signature,
    saturating_add64_lem fees tx.fee bound,
  ),
  record {
    coins_minted = ground (arith, applied.coins_kept, ran.coins_minted);
    fees_in_pot = ground (arith, applied.pot_grows, ran.fees_in_pot);
    signatures = λ s. unfold contains in ground (arith, ran.signatures s, applied.signatures s);
  },
)

module _ {F : Type 0} (core : Core F) (b0 : Books) where
  pub prevalidate-rest :
      (tx : Transaction) (txs : List Transaction) (seen seen' : Seen)
      → prevalidate_tx core b0 seen tx ≡ some seen'
      → prevalidate core b0 seen (tx ∷ txs) ≡ true
      → prevalidate core b0 seen' txs ≡ true
  unfolding prevalidate
  prevalidate-rest tx txs seen seen' e h = ground arith

  pub prevalidate-first :
      (tx : Transaction) (txs : List Transaction) (seen : Seen)
      → prevalidate core b0 seen (tx ∷ txs) ≡ true
      → prevalidate_tx core b0 seen tx ≢ none
  unfolding prevalidate
  prevalidate-first tx txs seen h e = ground arith

module _ {F : Type 0} (core : Core F) (b0 : Books) (fits : coins b0 < u64_mod) where
  Covers-coinbase :
      (seen : Seen) (b : Books) (tx : Transaction)
      → Covers b0 seen b
      → is_coinbase tx ≡ true
      → coins b + tx.amount < u64_mod
      → Covers b0 seen (apply_transaction b tx)
  Covers-coinbase seen b tx c coinbase bound = record {
    reserved = c.reserved;
    left = λ a. omega (arith, c.left a, (apply_transaction-coinbase b tx coinbase bound).3 a);
  }

  -- No transaction that the pre-validation has passed is skipped, whatever the earlier ones did.
  pub apply_all-Ran :
      (txs : List Transaction) (seen : Seen) (b : Books) (fees : ℕ)
      → Covers b0 seen b
      → prevalidate core b0 seen txs ≡ true
      → coins b + mints_of txs < u64_mod
      → fees ≤ b.pot
      → Runs b fees txs
  apply_all-Ran [] seen b fees c checked bound paid = (
    b,
    unfold apply_all in rw add-zero refl,
    record {
      coins_minted = omega arith;
      fees_in_pot = omega arith;
      signatures = λ s. unfold contains in refl;
    },
  )
  apply_all-Ran (tx ∷ txs) seen b fees c checked bound paid =
      elim (Option-cases (prevalidate_tx core b0 seen tx)) [
        | inl refused ↦ absurd (prevalidate-first core b0 tx txs seen checked refused)
        | inr (seen', e) ↦ elim (Bool-cases (is_coinbase tx)) [
          | inl coinbase ↦
              let same = prevalidate_tx-coinbase core b0 seen tx seen' coinbase e in
              let fitting : coins b + tx.amount < u64_mod = ground arith in
              let effect = apply_transaction-coinbase b tx coinbase fitting in
              Ran-coinbase b tx txs fees coinbase fitting (
                apply_all-Ran txs seen' (apply_transaction b tx) fees
                  (rw same (Covers-coinbase seen b tx c coinbase fitting))
                  (prevalidate-rest core b0 tx txs seen seen' e checked) (ground (arith, effect.0))
                  (ground (arith, effect.1)))
          | inr user ↦
              let p = prevalidate_tx-Passes core b0 seen tx seen' user e in
              let fitting : coins b < u64_mod = omega arith in
              let covered : tx.amount + tx.fee ≤ get_balance b tx.sender =
                omega (arith, p.funded, c.left tx.sender) in
              let applied = apply_transaction-Applied b tx user covered fitting in
              let room : fees + tx.fee < u64_mod =
                omega (arith, applied.pot_grows, applied.coins_kept) in
              Ran-user b tx txs fees user applied room (
                apply_all-Ran txs seen' (apply_transaction b tx) (saturating_add64 fees tx.fee)
                  (Covers-user core b0 seen seen' b (apply_transaction b tx) tx c p applied fits)
                  (prevalidate-rest core b0 tx txs seen seen' e checked)
                  (ground (arith, applied.coins_kept))
                  (omega (arith, applied.pot_grows, saturating_add64_lem fees tx.fee room)))
        ]
      ]
