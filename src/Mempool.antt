-- ===== src/Mempool.antt =====
-- lootcoin-node/src/mempool.rs: the pending transactions by signature, with their write-through to
-- the database, whose two operations are an interface here (their errors are only logged).
pub mod Bounds
pub mod Effects
pub mod Readd
mod Tests
use lootcoin.Base.{
  ℕ, ◌+◌, ◌-◌, ◌/◌, Bool, true, false, not, Bytes, bytes_eq, bytes_beq, List, [], ◌∷◌, ◌++◌, map,
  Option, none, some, Map, get, has_key, insert, remove, values, length, keep, get_elem?,
  saturating_add64, is_empty, ltb, leb, ◌==◌, if◌then◌else◌,
}
use lootcoin.Core.{Transaction, is_coinbase}

abbrev pub max_mempool_size : ℕ
max_mempool_size = 10000

abbrev pub tx_expiry_blocks : ℕ
tx_expiry_blocks = 100

abbrev pub max_pending_per_sender : ℕ
max_pending_per_sender = 25

pub record MempoolEntry : Type 0 where
  pub tx : Transaction
  pub added_height : ℕ

pub record Mempool (D : Type 0) : Type 0 where
  pub entries : Map Bytes MempoolEntry
  pub db : Option D

-- `Db::save_mempool_tx` and `Db::remove_mempool_txs`, and `Transaction::txid`.
pub record Store (D : Type 0) : Type 0 where
  pub save_mempool_tx : D → Transaction → ℕ → D
  pub remove_mempool_txs : D → List Bytes → D
  pub txid : Transaction → Bytes

-- `e.tx.sender == sender`
abbrev pub is_from : Bytes → Bytes × MempoolEntry → Bool
is_from sender e = bytes_beq e.1.tx.sender sender

abbrev pub cost : Transaction → ℕ
cost tx = saturating_add64 tx.amount tx.fee

-- The fold of `pending_debit`.
unfoldable pub debit_from : ℕ → Map Bytes MempoolEntry → ℕ
debit_from acc [] = acc
debit_from acc (e ∷ es) = debit_from (saturating_add64 acc (cost e.1.tx)) es

-- `fees.sort_unstable_by(|a, b| b.cmp(a))`
unfoldable pub sort_down_into : ℕ → List ℕ → List ℕ
sort_down_into x [] = x ∷ []
sort_down_into x (y ∷ ys) = if leb y x then x ∷ y ∷ ys else y ∷ sort_down_into x ys

unfoldable pub sort_down : List ℕ → List ℕ
sort_down [] = []
sort_down (x ∷ xs) = sort_down_into x (sort_down xs)

unfoldable pub pending_count : Map Bytes MempoolEntry → Bytes → ℕ
pending_count entries sender = length (keep (is_from sender) entries)

unfoldable pub pending_debit : Map Bytes MempoolEntry → Bytes → ℕ
pending_debit entries sender = debit_from 0 (keep (is_from sender) entries)

unfoldable pub put : Map Bytes MempoolEntry → Transaction → ℕ → Map Bytes MempoolEntry
put entries tx height = insert tx.signature (record { tx = tx; added_height = height }) entries

-- The loop of `restore`: `break` when the pool is full, `continue` on what is skipped.
unfoldable pub restore_entries :
    Map Bytes MempoolEntry → List (Transaction × ℕ) → Map Bytes MempoolEntry
restore_entries entries [] = entries
restore_entries entries ((tx, added_height) ∷ rest) =
    let skipped = restore_entries entries rest in
    let kept = restore_entries (put entries tx added_height) rest in
    if is_coinbase tx
    then skipped
    else if leb max_mempool_size (length entries)
    then entries
    else if has_key tx.signature entries
    then skipped
    else if leb max_pending_per_sender (pending_count entries tx.sender)
    then skipped
    else kept

-- The loop of `remove_included`: the entries left, and the entries removed.
unfoldable pub remove_each :
    Map Bytes MempoolEntry → List Transaction → Map Bytes MempoolEntry × List MempoolEntry
remove_each entries [] = (entries, [])
remove_each entries (tx ∷ txs) =
    let skipped = remove_each entries txs in
    let (left, removed) = remove_each (remove tx.signature entries) txs in
    if is_coinbase tx then skipped else elim (get tx.signature entries) [
      | none ↦ (left, removed)
      | some entry ↦ (left, entry ∷ removed)
    ]

-- `current_height.saturating_sub(entry.added_height) <= TX_EXPIRY_BLOCKS`
abbrev pub is_fresh : ℕ → Bytes × MempoolEntry → Bool
is_fresh current_height e = leb (current_height - e.1.added_height) tx_expiry_blocks

unfoldable pub all_transactions_with_height : Map Bytes MempoolEntry → List (Transaction × ℕ)
all_transactions_with_height = map (λ e. (e.1.tx, e.1.added_height))

unfoldable pub median_fee : Map Bytes MempoolEntry → Option ℕ
median_fee entries =
    if length entries == 0
    then none
    else get_elem? (sort_down (map (λ e. e.1.tx.fee) entries)) (length entries / 2)

module _ {D : Type 0} where
  unfoldable pub new : Option D → Mempool D
  new db = record { entries = []; db = db }

  unfoldable pub restore : Mempool D → List (Transaction × ℕ) → Mempool D
  restore pool entries = record pool { entries = restore_entries pool.entries entries }

  module _ (store : Store D) where
    -- The write-through of one transaction.
    unfoldable pub save : Option D → Transaction → ℕ → Option D
    save none tx height = none
    save (some db) tx height = some (store.save_mempool_tx db tx height)

    unfoldable pub forget : Option D → List MempoolEntry → Option D
    forget none entries = none
    forget (some db) entries =
        some (store.remove_mempool_txs db (map (λ e. store.txid e.tx) entries))

    unfoldable pub add_transaction : Mempool D → Transaction → ℕ → Mempool D × Bool
    add_transaction pool tx current_height =
        if is_coinbase tx
        then (pool, false)
        else if has_key tx.signature pool.entries
        then (pool, false)
        else if leb max_pending_per_sender (pending_count pool.entries tx.sender)
        then (pool, false)
        else if leb max_mempool_size (length pool.entries)
        then (pool, false)
        else (
          record {
            entries = put pool.entries tx current_height;
            db = save pool.db tx current_height;
          },
          true,
        )

    unfoldable pub remove_included : Mempool D → List Transaction → Mempool D
    remove_included pool included =
        let (left, removed) = remove_each pool.entries included in
        record { entries = left; db = forget pool.db removed }

    unfoldable pub evict_expired : Mempool D → ℕ → Mempool D
    evict_expired pool current_height = record {
      entries = keep (is_fresh current_height) pool.entries;
      db = forget pool.db (values (keep (λ e. not (is_fresh current_height e)) pool.entries));
    }

    -- The loop of `readd_displaced`.
    unfoldable pub readd_displaced : Mempool D → List Transaction → (Bytes → ℕ) → ℕ → Mempool D
    readd_displaced pool [] get_balance current_height = pool
    readd_displaced pool (tx ∷ txs) get_balance current_height =
        let skipped = readd_displaced pool txs get_balance current_height in
        let kept =
          readd_displaced
            (record {
              entries = put pool.entries tx current_height;
              db = save pool.db tx current_height;
            })
            txs get_balance current_height in
        if is_coinbase tx
        then skipped
        else if has_key tx.signature pool.entries
        then skipped
        else if leb max_pending_per_sender (pending_count pool.entries tx.sender)
        then skipped
        else if leb max_mempool_size (length pool.entries)
        then pool
        else if ltb (get_balance tx.sender - pending_debit pool.entries tx.sender) (cost tx)
        then skipped
        else kept
