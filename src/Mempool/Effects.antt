-- ===== src/Mempool/Effects.antt =====
-- What the operations of lootcoin-node/src/mempool.rs do to the pending transactions.
use lootcoin.Base.{
  ℕ, ◌+◌, ◌-◌, ◌≤◌, ◌≡◌, refl, Bool, false, ◌&&◌, not, Bytes, bytes_eq, bytes_beq, bytes_beq_iff,
  List, [], ◌∷◌, ◌++◌, map, none, some, Map, get, get-insert, get-remove, has_key, has_key-get,
  append-nil, remove, length, length-insert_new, keep, contains, saturating_add64,
  saturating_add64-le, leb, ltb, if◌then◌else◌, arith,
}
use lootcoin.Core.{Transaction, is_coinbase, user_txs}
use lootcoin.Mempool.{
  max_mempool_size, max_pending_per_sender, tx_expiry_blocks, MempoolEntry, Mempool, Store, is_from,
  is_fresh, cost, debit_from, pending_count, pending_debit, put, remove_each, new, add_transaction,
  remove_included, evict_expired, readd_displaced,
}
use lootcoin.Mempool.Bounds.{IsPool, DistinctKeys}
use lootcoin.Mempool.Readd.{readd_displaced-induct}

-- The signatures of the transactions with a sender.
abbrev pub included_signatures : List Transaction → List Bytes
included_signatures txs = map (λ tx. tx.signature) (user_txs txs)

remove_each-get :
    (txs : List Transaction) (entries : Map Bytes MempoolEntry) (s : Bytes)
    → get s (remove_each entries txs).0
      ≡ (if contains s (included_signatures txs) then none else get s entries)
unfolding remove_each contains
remove_each-get [] entries s = refl
remove_each-get (tx ∷ txs) entries s = ground (
  arith,
  remove_each-get txs entries s,
  remove_each-get txs (remove tx.signature entries) s,
  get-remove tx.signature s entries,
)

debit_from-append :
    (acc : ℕ) (es : Map Bytes MempoolEntry) (e : Bytes × MempoolEntry)
    → debit_from acc (es ++ e ∷ []) ≡ saturating_add64 (debit_from acc es) (cost e.1.tx)
unfolding debit_from
debit_from-append acc [] e = refl
debit_from-append acc (x ∷ es) e = debit_from-append (saturating_add64 acc (cost x.1.tx)) es e

keep-append :
    (q : Bytes × MempoolEntry → Bool) (es : Map Bytes MempoolEntry) (e : Bytes × MempoolEntry)
    → keep q (es ++ e ∷ []) ≡ keep q es ++ (if q e then e ∷ [] else [])
keep-append q [] e = refl
keep-append q (x ∷ es) e = ground (arith, keep-append q es e)

-- A new entry adds its cost to the debit of its sender.
pending_debit-put-le :
    (entries : Map Bytes MempoolEntry) (tx : Transaction) (height : ℕ) (s : Bytes)
    → has_key tx.signature entries ≡ false
    → pending_debit (put entries tx height) s
      ≤ pending_debit entries s + (if bytes_beq tx.sender s then cost tx else 0)
unfolding put pending_debit
pending_debit-put-le entries tx height s new =
    let e : MempoolEntry = record { tx = tx; added_height = height } in
    rw
      (
        length-insert_new tx.signature e entries new,
        keep-append (is_from s) entries (tx.signature, e),
      )
      (ground (
        arith,
        append-nil (keep (is_from s) entries),
        debit_from-append 0 (keep (is_from s) entries) (tx.signature, e),
        saturating_add64-le (debit_from 0 (keep (is_from s) entries)) (cost tx),
      ))

-- Every sender's balance covers what is pending.
abbrev pub IsCovered : (Bytes → ℕ) → Map Bytes MempoolEntry → Type 0
IsCovered get_balance entries = (s : Bytes) → pending_debit entries s ≤ get_balance s

-- A new transaction that its sender can pay beside what is pending keeps the pool covered.
pub put-IsCovered :
    (get_balance : Bytes → ℕ) (entries : Map Bytes MempoolEntry) (tx : Transaction) (height : ℕ)
    → IsCovered get_balance entries
    → has_key tx.signature entries ≡ false
    → cost tx ≤ get_balance tx.sender - pending_debit entries tx.sender
    → IsCovered get_balance (put entries tx height)
put-IsCovered get_balance entries tx height covered new funded s = ground (
  arith,
  pending_debit-put-le entries tx height s new,
  covered s,
  covered tx.sender,
  bytes_beq_iff tx.sender s,
)

keep-get :
    (q : Bytes × MempoolEntry → Bool) (entries : Map Bytes MempoolEntry) (s : Bytes)
    → DistinctKeys entries
    → get s (keep q entries)
      ≡ elim (get s entries) [ none ↦ none | some e ↦ if q (s, e) then some e else none ]
unfolding get
keep-get q [] s d = refl
keep-get q (e ∷ entries) s d =
    ground (arith, keep-get q entries s d.1, bytes_beq_iff s e.0, has_key-get e.0 entries d.0)

module _ {D : Type 0} (store : Store D) where
  -- After a block, `remove_included` has taken out the pending transactions with the signatures of
  -- its transactions with a sender, and every other signature is as before.
  pub remove_included-get :
      (pool : Mempool D) (included : List Transaction) (s : Bytes)
      → get s (remove_included store pool included).entries
        ≡ (if contains s (included_signatures included) then none else get s pool.entries)
  unfolding remove_included
  remove_included-get pool included s = remove_each-get included pool.entries s

  -- On a well-formed pool, `evict_expired` takes out exactly the transactions that have been
  -- pending for more than `tx_expiry_blocks` blocks.
  pub evict_expired-get :
      (pool : Mempool D) (height : ℕ) (s : Bytes)
      → IsPool pool.entries
      → get s (evict_expired store pool height).entries ≡ elim (get s pool.entries) [
        | none ↦ none
        | some e ↦ if leb (height - e.added_height) tx_expiry_blocks then some e else none
      ]
  unfolding evict_expired
  evict_expired-get pool height s p = keep-get (is_fresh height) pool.entries s p.distinct

  -- When each sender's balance covers what is pending from it, it still does after
  -- `readd_displaced` has taken displaced transactions back.
  pub readd_displaced-IsCovered :
      (txs : List Transaction) (pool : Mempool D) (get_balance : Bytes → ℕ) (height : ℕ)
      → IsCovered get_balance pool.entries
      → IsCovered get_balance (readd_displaced store pool txs get_balance height).entries
  readd_displaced-IsCovered txs pool get_balance height p =
      readd_displaced-induct store (IsCovered get_balance) get_balance height
        (λ entries tx q user new room space funded.
          put-IsCovered get_balance entries tx height q new funded)
        txs pool p

  -- `add_transaction` accepts a transaction exactly when it is no coinbase, its signature is new,
  -- its sender has fewer than `max_pending_per_sender` pending transactions and the pool fewer than
  -- `max_mempool_size`; then it is pending under its signature at the given height, and every other
  -- signature is as before, as every signature is after a refusal.
  pub add_transaction_lem :
      (pool : Mempool D) (tx : Transaction) (height : ℕ) (s : Bytes)
      → let accepted =
          not (is_coinbase tx)
          && not (has_key tx.signature pool.entries)
          && ltb (pending_count pool.entries tx.sender) max_pending_per_sender
          && ltb (length pool.entries) max_mempool_size in
        ((add_transaction store pool tx height).1 ≡ accepted)
        × (get s (add_transaction store pool tx height).0.entries ≡ (
            if accepted && bytes_beq s tx.signature
            then some (record { tx = tx; added_height = height })
            else get s pool.entries))
  unfolding add_transaction put
  add_transaction_lem pool tx height s = (
    ground arith,
    ground
        (arith, get-insert tx.signature s (record { tx = tx; added_height = height }) pool.entries),
  )
