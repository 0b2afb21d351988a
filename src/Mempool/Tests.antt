-- ===== src/Mempool/Tests.antt =====
-- Concrete pools, and the theorems on the mempool applied to them.
use lootcoin.Base.{
  ℕ, suc, ◌≡◌, refl, true, false, bytes_eq, [], ◌∷◌, some, has_key, insert, length,
  saturating_add64, arith,
}
use lootcoin.Core.{Transaction}
use lootcoin.Mempool.{
  Mempool, Store, new, restore, restore_entries, put, debit_from, pending_count, pending_debit,
  add_transaction, readd_displaced,
}
use lootcoin.Mempool.Bounds.{IsPool, restore-IsPool}
use lootcoin.Mempool.Effects.{IsCovered, readd_displaced-IsCovered}

-- A database that counts its writes.
abbrev test_store : Store ℕ
test_store = record {
  save_mempool_tx = λ db tx height. suc db;
  remove_mempool_txs = λ db txids. suc db;
  txid = λ tx. tx.signature;
}

abbrev payment : ℕ → ℕ → Transaction
payment signature amount = record {
  sender = 2 ∷ [];
  receiver = 3 ∷ [];
  amount = amount;
  fee = 4;
  nonce = 0;
  public_key = 5 ∷ [];
  signature = signature ∷ [];
}

abbrev empty_pool : Mempool ℕ
empty_pool = new (some 0)

abbrev pool : Mempool ℕ
pool = restore empty_pool ((payment 7 10, 5) ∷ (payment 8 20, 90) ∷ [])

no_entries : IsPool []
unfolding pending_count
no_entries = record { size = omega arith; senders = λ s. omega arith; sound = tt; distinct = tt }

starting_pool_lem : IsPool pool.entries
unfolding new
starting_pool_lem =
    restore-IsPool empty_pool ((payment 7 10, 5) ∷ (payment 8 20, 90) ∷ []) no_entries

abbrev refilled : Mempool ℕ
refilled = readd_displaced test_store empty_pool (payment 9 1 ∷ payment 10 99 ∷ []) (λ s. 100) 100

covers_nothing : IsCovered (λ s. 100) empty_pool.entries
unfolding pending_debit debit_from new
covers_nothing = λ s. omega arith

readd_displaced-IsCovered_example : IsCovered (λ s. 100) refilled.entries
readd_displaced-IsCovered_example =
    readd_displaced-IsCovered test_store (payment 9 1 ∷ payment 10 99 ∷ []) empty_pool (λ s. 100)
      100 covers_nothing

takes_back_covered : length refilled.entries ≡ 1
unfolding readd_displaced new put pending_count pending_debit debit_from has_key insert
    saturating_add64
takes_back_covered = refl

accepts_fresh : (add_transaction test_store pool (payment 9 1) 100).1 ≡ true
unfolding add_transaction restore new restore_entries put pending_count has_key insert
accepts_fresh = refl

refuses_known : (add_transaction test_store pool (payment 8 1) 100).1 ≡ false
unfolding add_transaction restore new restore_entries put pending_count has_key insert
refuses_known = refl
