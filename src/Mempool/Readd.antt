-- ===== src/Mempool/Readd.antt =====
-- The displaced transactions of lootcoin-node/src/mempool.rs: the loop of `readd_displaced`, by what
-- every insertion keeps.
use lootcoin.Base.{
  ℕ, ◌-◌, ◌≤◌, ◌<◌, ◌≡◌, inl, inr, false, Bool-cases, Bytes, bytes_eq, List, [], ◌∷◌, Map, has_key,
  length, leb, ltb, arith,
}
use lootcoin.Core.{Transaction, is_coinbase}
use lootcoin.Mempool.{
  max_mempool_size, max_pending_per_sender, MempoolEntry, Mempool, Store, pending_count, put,
  readd_displaced, cost, pending_debit, save,
}
use lootcoin.Mempool.Bounds.{IsPool, put-IsPool}

module _ {D : Type 0} (store : Store D) where
  -- What every insertion of `readd_displaced` keeps, the loop keeps.
  pub readd_displaced-induct :
      (P : Map Bytes MempoolEntry → Type 0) (get_balance : Bytes → ℕ) (height : ℕ)
      → ((entries : Map Bytes MempoolEntry) (tx : Transaction)
          → P entries
          → is_coinbase tx ≡ false
          → has_key tx.signature entries ≡ false
          → pending_count entries tx.sender < max_pending_per_sender
          → length entries < max_mempool_size
          → cost tx ≤ get_balance tx.sender - pending_debit entries tx.sender
          → P (put entries tx height))
      → (txs : List Transaction) (pool : Mempool D) → P pool.entries
      → P (readd_displaced store pool txs get_balance height).entries
  unfolding readd_displaced
  readd_displaced-induct P get_balance height keeps [] pool p = p
  readd_displaced-induct P get_balance height keeps (tx ∷ txs) pool p =
      let entries = pool.entries in
      let skipped = readd_displaced-induct P get_balance height keeps txs pool p in
      let room = leb max_pending_per_sender (pending_count entries tx.sender) in
      let poor = ltb (get_balance tx.sender - pending_debit entries tx.sender) (cost tx) in
      elim (Bool-cases (is_coinbase tx)) [
        | inl e ↦ rw e skipped
        | inr user ↦ elim (Bool-cases (has_key tx.signature entries)) [
          | inl e ↦ rw (user, e) skipped
          | inr new ↦ elim (Bool-cases room) [
            | inl e ↦ rw (user, new, e) skipped
            | inr few ↦ elim (Bool-cases (leb max_mempool_size (length entries))) [
              | inl e ↦ rw (user, new, few, e) p
              | inr space ↦ elim (Bool-cases poor) [
                | inl e ↦ rw (user, new, few, space, e) skipped
                | inr funded ↦
                    rw (user, new, few, space, funded)
                      (readd_displaced-induct P get_balance height keeps txs
                        (record {
                          entries = put entries tx height;
                          db = save store pool.db tx height;
                        })
                        (keeps entries tx p user new (ground arith) (ground arith) (ground arith)))
              ]
            ]
          ]
        ]
      ]

  -- `readd_displaced` keeps a well-formed pool well-formed: at most `max_mempool_size`
  -- transactions, at most `max_pending_per_sender` of a sender, each under its own signature and
  -- none a coinbase.
  pub readd_displaced-IsPool :
      (txs : List Transaction) (pool : Mempool D) (get_balance : Bytes → ℕ) (height : ℕ)
      → IsPool pool.entries
      → IsPool (readd_displaced store pool txs get_balance height).entries
  readd_displaced-IsPool txs pool get_balance height p =
      readd_displaced-induct IsPool get_balance height
        (λ entries tx q user new room space funded.
          put-IsPool entries tx height q user new room space)
        txs pool p
