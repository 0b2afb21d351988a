-- ===== src/Chain/Ledger/Supply.antt =====
-- What a transaction does to the coins in existence, to each balance and to the confirmed
-- signatures (`apply_transaction` of lootcoin-node/src/blockchain.rs).
use lootcoin.Base.{
  ℕ, ◌+◌, ◌-◌, ◌≤◌, ◌<◌, ◌≡◌, refl, true, false, ◌||◌, Bytes, bytes_eq, bytes_beq, bytes_beq_iff,
  Map, contains, contains-add_to, add_to, get_or, get_or-upsert, total, get_or-le-total,
  total-upsert, add64, add64_lem, saturating_add64, saturating_add64_lem, checked_add64, u64_mod,
  if◌then◌else◌, arith,
}
use lootcoin.Core.{Transaction, is_coinbase}
use lootcoin.Chain.State.{Books}
use lootcoin.Chain.Ledger.{credit, touch, debit, get_balance, coins, transfer, apply_transaction}

pub total-credit :
    (k : Bytes) (v : ℕ) (m : Map Bytes ℕ)
    → total m + v < u64_mod
    → total (credit k v m) ≡ total m + v
unfolding credit
total-credit k v m h = omega (
  arith,
  total-upsert k (λ w. add64 w v) m,
  get_or-le-total k m,
  add64_lem (get_or k 0 m) v (omega (arith, get_or-le-total k m)),
)

pub get_or-credit :
    (k j : Bytes) (v : ℕ) (m : Map Bytes ℕ)
    → total m + v < u64_mod
    → get_or j 0 (credit k v m) ≡ (if bytes_beq j k then get_or k 0 m + v else get_or j 0 m)
unfolding credit
get_or-credit k j v m h = rw (
  get_or-upsert k j 0 (λ w. add64 w v) m,
  add64_lem (get_or k 0 m) v (omega (arith, get_or-le-total k m)),
)

pub get_or-touch : (k j : Bytes) (m : Map Bytes ℕ) → get_or j 0 (touch k m) ≡ get_or j 0 m
unfolding touch
get_or-touch k j m = ground (arith, get_or-upsert k j 0 (λ w. w) m, bytes_beq_iff j k)

pub total-touch : (k : Bytes) (m : Map Bytes ℕ) → total (touch k m) ≡ total m
unfolding touch
total-touch k m = omega (arith, total-upsert k (λ w. w) m)

pub total-debit :
    (k : Bytes) (v : ℕ) (m : Map Bytes ℕ) → v ≤ get_or k 0 m → total (debit k v m) + v ≡ total m
unfolding debit
total-debit k v m h = omega (arith, total-upsert k (λ w. w - v) m)

pub get_or-debit :
    (k j : Bytes) (v : ℕ) (m : Map Bytes ℕ)
    → get_or j 0 (debit k v m) ≡ (if bytes_beq j k then get_or k 0 m - v else get_or j 0 m)
unfolding debit
get_or-debit k j v m = get_or-upsert k j 0 (λ w. w - v) m

-- A crediting leaves every balance at least as large.
pub credit-grows :
    (k j : Bytes) (v : ℕ) (m : Map Bytes ℕ)
    → total m + v < u64_mod
    → get_or j 0 m ≤ get_or j 0 (credit k v m)
credit-grows k j v m h = ground (arith, get_or-credit k j v m h, bytes_beq_iff j k)

-- What a transaction whose sender covers it leaves behind.
pub record Applied (b : Books) (tx : Transaction) (b' : Books) : Type 0 where
  pub coins_kept : coins b' ≡ coins b
  pub pot_grows : b'.pot ≡ b.pot + tx.fee
  pub signatures :
      (s : Bytes)
      → contains s b'.confirmed_signatures
        ≡ (bytes_beq s tx.signature || contains s b.confirmed_signatures)
  pub balance_left :
      (a : Bytes)
      → get_balance b a
        ≤ get_balance b' a + (if bytes_beq a tx.sender then tx.amount + tx.fee else 0)

-- The books after a transaction that is applied in full.
abbrev moved : Books → Transaction → Books
moved b tx = record b {
  balances =
      credit tx.receiver tx.amount
        (debit tx.sender (tx.amount + tx.fee) (touch tx.sender b.balances));
  confirmed_signatures = add_to tx.signature b.confirmed_signatures;
  pot = saturating_add64 b.pot tx.fee;
}

module _ (b : Books) (tx : Transaction) (covered : tx.amount + tx.fee ≤ get_balance b tx.sender)
    (bound : coins b < u64_mod) where
  held : get_or tx.sender 0 (touch tx.sender b.balances) ≡ get_balance b tx.sender
  unfolding get_balance
  held = get_or-touch tx.sender tx.sender b.balances

  total-debited :
      total (debit tx.sender (tx.amount + tx.fee) (touch tx.sender b.balances))
        + (tx.amount + tx.fee)
      ≡ total b.balances
  total-debited = omega (
    arith,
    held,
    total-debit tx.sender (tx.amount + tx.fee) (touch tx.sender b.balances) (omega (arith, held)),
    total-touch tx.sender b.balances,
  )

  apply_transaction-moved : is_coinbase tx ≡ false → apply_transaction b tx ≡ moved b tx
  unfolding apply_transaction transfer checked_add64 get_balance
  apply_transaction-moved user = ground (arith, held, get_or-le-total tx.sender b.balances)

  moved-Applied : Applied b tx (moved b tx)
  moved-Applied = record {
    coins_kept = omega (
      arith,
      total-debited,
      total-credit tx.receiver tx.amount
          (debit tx.sender (tx.amount + tx.fee) (touch tx.sender b.balances))
          (omega (arith, total-debited)),
      saturating_add64_lem b.pot tx.fee (omega (arith, total-debited)),
    );
    pot_grows = saturating_add64_lem b.pot tx.fee (omega (arith, total-debited));
    signatures = λ s. contains-add_to tx.signature s b.confirmed_signatures;
    balance_left = λ a. balance_left a;
  }
    where
      balance_left :
          (a : Bytes)
          → get_balance b a
            ≤ get_balance (moved b tx) a + (if bytes_beq a tx.sender then tx.amount + tx.fee else 0)
      balance_left a =
          unfold get_balance in
          ground (
            arith,
            bytes_beq_iff a tx.sender,
            get_or-touch tx.sender a b.balances,
            get_or-debit tx.sender a (tx.amount + tx.fee) (touch tx.sender b.balances),
            credit-grows tx.receiver a tx.amount
                (debit tx.sender (tx.amount + tx.fee) (touch tx.sender b.balances))
                (omega (arith, total-debited)),
          )

-- A transaction from a sender that covers amount and fee is applied in full, if the coins in
-- existence fit a `u64`.
pub apply_transaction-Applied :
    (b : Books) (tx : Transaction)
    → is_coinbase tx ≡ false
    → tx.amount + tx.fee ≤ get_balance b tx.sender
    → coins b < u64_mod
    → Applied b tx (apply_transaction b tx)
apply_transaction-Applied b tx user covered bound =
    rw (apply_transaction-moved b tx covered bound user) (moved-Applied b tx covered bound)

-- A coinbase adds its amount to its receiver's balance, and changes nothing else.
pub apply_transaction-coinbase :
    (b : Books) (tx : Transaction)
    → is_coinbase tx ≡ true
    → coins b + tx.amount < u64_mod
    → (coins (apply_transaction b tx) ≡ coins b + tx.amount)
      × ((apply_transaction b tx).pot ≡ b.pot)
      × ((apply_transaction b tx).confirmed_signatures ≡ b.confirmed_signatures)
      × ((a : Bytes) → get_balance b a ≤ get_balance (apply_transaction b tx) a)
unfolding apply_transaction get_balance
apply_transaction-coinbase b tx coinbase bound =
    rw (coinbase, apply_transaction)
      (
        omega (arith, total-credit tx.receiver tx.amount b.balances (omega arith)),
        refl,
        refl,
        λ a. credit-grows tx.receiver a tx.amount b.balances (omega arith),
      )

pub get_balance-le-coins : (b : Books) (a : Bytes) → get_balance b a ≤ coins b
unfolding get_balance
get_balance-le-coins b a = omega (arith, get_or-le-total a b.balances)
