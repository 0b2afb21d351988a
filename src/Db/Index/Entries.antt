-- ===== src/Db/Index/Entries.antt =====
-- The transaction index after an applied block (`save_applied_block` of lootcoin-node/src/db.rs).
use lootcoin.Base.{
  ℕ, zero, suc, ◌+◌, ◌^◌, ◌≤◌, ◌<◌, ◌≡◌, ◌≢◌, refl, ◌∙◌, ap, sym, subst, ◌⊎◌, inl, inr, false,
  Bool-cases, Bytes, bytes_eq, bytes_beq, bytes_beq_iff, nat_eq, List, [], ◌∷◌, some, All,
  get_elem?, length, is_empty, arith,
}
use lootcoin.Core.{Transaction, Block, LootTicket, is_coinbase}
use lootcoin.Chain.State.{Payout}
use lootcoin.Db.{make_tx_key}
use lootcoin.Db.Keys.{ZeroFree, make_tx_key-injective}
use lootcoin.Db.Redb.{Redb, IsLawful, bytes_ord}
use lootcoin.Db.Tables.{Db, TxValue}
use lootcoin.Db.Index.{
  Codec, payout_base, make_tx_value, index_tx, index_txs, index_payouts, write_payouts,
  save_applied_block,
}

-- The transaction is in the history of the address.
abbrev pub Concerns : Transaction → Bytes → Type 0
Concerns tx a = (a ≡ tx.receiver) ⊎ ((is_coinbase tx ≡ false) × (a ≡ tx.sender))

abbrev pub HasAddresses : Transaction → Type 0
HasAddresses tx = ZeroFree tx.sender × ZeroFree tx.receiver

get_elem?-inside :
    {A : Type 0} (xs : List A) (k : ℕ) (x : A) → get_elem? xs k ≡ some x → k < length xs
get_elem?-inside [] k x e = absurd (ground arith)
get_elem?-inside (y ∷ xs) zero x e = omega arith
get_elem?-inside (y ∷ xs) (suc k) x e = omega (arith, get_elem?-inside xs k x e)

module _ {R : Redb} (lawful : IsLawful R) (codec : Codec) (i : ℕ) (fits : i < 2 ^ 64) where
  key_differs :
      (a b : Bytes) (p q : ℕ)
      → ZeroFree a
      → ZeroFree b
      → p < 2 ^ 32
      → q < 2 ^ 32
      → p ≢ q
      → bytes_beq (make_tx_key a i p) (make_tx_key b i q) ≡ false
  key_differs a b p q ha hb hp hq ne =
      elim (Bool-cases (bytes_beq (make_tx_key a i p) (make_tx_key b i q))) [
        | inr other ↦ other
        | inl same ↦ absurd (
            ne
              (make_tx_key-injective a b i i p q ha hb fits fits hp hq
                ((bytes_beq_iff (make_tx_key a i p) (make_tx_key b i q)).0 same)).2)
      ]

  module _ (a : Bytes) (p : ℕ) (ha : ZeroFree a) (hp : p < 2 ^ 32) where
    abbrev key : Bytes
    key = make_tx_key a i p

    put-other :
        (b : Bytes) (q : ℕ) (v : TxValue) (t : R.Table Bytes TxValue)
        → ZeroFree b
        → q < 2 ^ 32
        → p ≢ q
        → R.find (R.put t (make_tx_key b i q) v) key ≡ R.find t key
    put-other b q v t hb hq ne =
        lawful.find-put t (make_tx_key b i q) key v
        ∙ ground (arith, key_differs a b p q ha hb hp hq ne)

    index_tx-other :
        (q : ℕ) (tx : Transaction) (t : R.Table Bytes TxValue)
        → HasAddresses tx
        → q < 2 ^ 32
        → p ≢ q
        → R.find (index_tx codec R i q tx t) key ≡ R.find t key
    unfolding index_tx
    index_tx-other q tx t h hq ne = elim (Bool-cases (is_coinbase tx)) [
      | inl c ↦ rw (c, index_tx) (put-other tx.receiver q _ t h.1 hq ne)
      | inr user ↦
          rw (user, index_tx)
            (put-other tx.sender q _ _ h.0 hq ne ∙ put-other tx.receiver q _ t h.1 hq ne)
    ]

    index_txs-other :
        (txs : List Transaction) (q : ℕ) (t : R.Table Bytes TxValue)
        → All HasAddresses txs
        → p < q
        → q + length txs ≤ 2 ^ 32
        → R.find (index_txs codec R i q txs t) key ≡ R.find t key
    unfolding index_txs
    index_txs-other [] q t h lt le = refl
    index_txs-other (tx ∷ txs) q t h lt le =
        index_txs-other txs (suc q) (index_tx codec R i q tx t) h.1 (omega arith) (omega arith)
        ∙ index_tx-other q tx t h.0 (omega arith) (omega arith)

    index_payouts-other :
        (ps : List Payout) (j : ℕ) (t : R.Table Bytes TxValue)
        → All (λ r. ZeroFree r.receiver) ps
        → p < payout_base
        → payout_base + j + length ps ≤ 2 ^ 32
        → R.find (index_payouts codec R i j ps t) key ≡ R.find t key
    unfolding index_payouts
    index_payouts-other [] j t h lt le = refl
    index_payouts-other (r ∷ ps) j t h lt le =
        index_payouts-other ps (suc j) _ h.1 lt (omega arith)
        ∙ put-other r.receiver (payout_base + j) _ t h.0 (omega arith) (omega arith)

    put-same :
        (b : Bytes) (v : TxValue) (t : R.Table Bytes TxValue)
        → a ≡ b
        → R.find (R.put t (make_tx_key b i p) v) key ≡ some v
    put-same b v t e =
        lawful.find-put t (make_tx_key b i p) key v
        ∙ ground (arith, (bytes_beq_iff key (make_tx_key b i p)).1 (ap (λ c. make_tx_key c i p) e))

    put-again :
        (b : Bytes) (v : TxValue) (t : R.Table Bytes TxValue)
        → R.find t key ≡ some v
        → R.find (R.put t (make_tx_key b i p) v) key ≡ some v
    put-again b v t e =
        lawful.find-put t (make_tx_key b i p) key v
        ∙ elim (Bool-cases (bytes_beq key (make_tx_key b i p))) [
          | inl y ↦ rw y refl
          | inr n' ↦ rw n' e
        ]

    index_tx-found :
        (tx : Transaction) (t : R.Table Bytes TxValue)
        → Concerns tx a
        → R.find (index_tx codec R i p tx t) key ≡ some (make_tx_value codec tx i p)
    unfolding index_tx
    index_tx-found tx t (inl receives) = elim (Bool-cases (is_coinbase tx)) [
      | inl c ↦ rw (c, index_tx) (put-same tx.receiver _ t receives)
      | inr user ↦ rw (user, index_tx) (put-again tx.sender _ _ (put-same tx.receiver _ t receives))
    ]
    index_tx-found tx t (inr (user, sends)) = rw (user, index_tx) (put-same tx.sender _ _ sends)

  index_txs-found :
      (a : Bytes) (txs : List Transaction) (q k : ℕ) (tx : Transaction) (t : R.Table Bytes TxValue)
      → ZeroFree a
      → All HasAddresses txs
      → q + length txs ≤ 2 ^ 32
      → get_elem? txs k ≡ some tx
      → Concerns tx a
      → R.find (index_txs codec R i q txs t) (make_tx_key a i (q + k))
        ≡ some (make_tx_value codec tx i (q + k))
  unfolding index_txs
  index_txs-found a [] q k tx t ha h le at c = absurd (ground arith)
  index_txs-found a (x ∷ txs) q zero tx t ha h le at c =
      let none_before : q + 0 ≡ q = omega arith in
      let same : x ≡ tx = ground arith in
      let low : q < 2 ^ 32 = omega arith in
      rw none_before (
        index_txs-other a q ha low txs (suc q) (index_tx codec R i q x t) h.1 (omega arith)
          (omega arith)
        ∙ index_tx-found a q ha low x t (subst (λ y. Concerns y a) (sym same) c)
        ∙ ap (λ y. some (make_tx_value codec y i q)) same)
  index_txs-found a (x ∷ txs) q (suc k) tx t ha h le at c =
      let shift : q + suc k ≡ suc q + k = omega arith in
      rw shift
        (index_txs-found a txs (suc q) k tx (index_tx codec R i q x t) ha h.1 (omega arith) at c)

module _ {R : Redb} {F : Type 0} (lawful : IsLawful R) (codec : Codec) where
  -- `save_applied_block` puts every transaction of the block into the history of its receiver and,
  -- if it has one, of its sender, under the block's index and its position, whatever was indexed
  -- before and whatever payouts the block settles: on a lawful database, when neither the address
  -- nor any address of the block or of the payouts has a zero byte, the index fits a `u64`, the
  -- block has at most `payout_base` transactions and at most 65536 payouts.
  pub save_applied_block-indexed :
      (db : Db R F) (block : Block) (tickets : List LootTicket) (payouts : List Payout) (a : Bytes)
      (k : ℕ) (tx : Transaction)
      → block.index < 2 ^ 64
      → All HasAddresses block.transactions
      → All (λ r. ZeroFree r.receiver) payouts
      → length block.transactions ≤ payout_base
      → length payouts ≤ 65536
      → ZeroFree a
      → get_elem? block.transactions k ≡ some tx
      → Concerns tx a
      → R.find
          (save_applied_block codec db block tickets payouts).tx_index
          (make_tx_key a block.index k)
        ≡ some (make_tx_value codec tx block.index k)
  unfolding save_applied_block write_payouts
  save_applied_block-indexed db block tickets payouts a k tx fits has pays few some_paid ha at c =
      let low : k < payout_base = omega (arith, get_elem?-inside block.transactions k tx at) in
      let indexed =
        index_txs-found lawful codec block.index fits a block.transactions 0 k tx db.tx_index ha has
          (omega arith) at c in
      let from_zero : 0 + k ≡ k = omega arith in
      let here = rw from_zero at indexed in
      elim (Bool-cases (is_empty payouts)) [
        | inl unpaid ↦ rw unpaid here
        | inr paid ↦ rw paid (
            index_payouts-other lawful codec block.index fits a k ha (omega arith) payouts 0 _ pays
              low (omega arith)
            ∙ here)
      ]
