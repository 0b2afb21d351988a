-- ===== src/Chain/Ledger.antt =====
-- The ledger of lootcoin-node/src/blockchain.rs: balances, the pot, the confirmed signatures, and
-- the application of one transaction.
pub mod Supply
use lootcoin.Base.{
  ℕ, ◌+◌, ◌-◌, ◌%◌, Bool, true, false, ◌&&◌, not, Bytes, bytes_eq, Option, none, some, Map,
  contains, add_to, get_or, upsert, total, add64, saturating_add64, checked_add64, u128_mod, ltb,
  leb, if◌then◌else◌,
}
use lootcoin.Core.{Transaction, Core, is_coinbase}
use lootcoin.Chain.State.{Books}

-- `*balances.entry(k).or_insert(0) += v`
unfoldable pub credit : Bytes → ℕ → Map Bytes ℕ → Map Bytes ℕ
credit k v = upsert k 0 (λ w. add64 w v)

-- `balances.entry(k).or_insert(0)`, the table that it leaves
unfoldable pub touch : Bytes → Map Bytes ℕ → Map Bytes ℕ
touch k = upsert k 0 (λ w. w)

-- `*sender_balance -= v`, where the balance covers `v`
unfoldable pub debit : Bytes → ℕ → Map Bytes ℕ → Map Bytes ℕ
debit k v = upsert k 0 (λ w. w - v)

unfoldable pub get_balance : Books → Bytes → ℕ
get_balance b address = get_or address 0 b.balances

-- The coins in existence, as a number without bound; `total_supply` is the `u128` sum.
abbrev pub coins : Books → ℕ
coins b = total b.balances + b.pot

unfoldable pub total_supply : Books → ℕ
total_supply b = (total b.balances % u128_mod + b.pot) % u128_mod

unfoldable pub validate_transaction_state : {F : Type 0} → Core F → Books → Transaction → Bool
validate_transaction_state core b tx =
    if ltb tx.fee core.min_tx_fee
    then false
    else if contains tx.signature b.confirmed_signatures
    then false
    else leb (saturating_add64 tx.amount tx.fee) (get_balance b tx.sender)

-- The branch of `apply_transaction` for a transaction with a sender, at its total.
unfoldable pub transfer : Books → Transaction → ℕ → Books
transfer b tx cost =
    let balances = touch tx.sender b.balances in
    if ltb (get_or tx.sender 0 balances) cost then record b { balances = balances } else record b {
      balances = credit tx.receiver tx.amount (debit tx.sender cost balances);
      confirmed_signatures = add_to tx.signature b.confirmed_signatures;
      pot = saturating_add64 b.pot tx.fee;
    }

unfoldable pub apply_transaction : Books → Transaction → Books
apply_transaction b tx =
    if is_coinbase tx
    then record b { balances = credit tx.receiver tx.amount b.balances }
    else elim (checked_add64 tx.amount tx.fee) [
      | none ↦ record b { balances = touch tx.sender b.balances }
      | some cost ↦ transfer b tx cost
    ]
