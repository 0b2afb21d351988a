-- ===== src/Api/Checks.antt =====
-- The checks of `apply_incoming_block` (lootcoin-node/src/api.rs) beside those of the chain.
use lootcoin.Base.{
  ◌≡◌, refl, ◌⊎◌, inl, inr, Bool, false, ◌&&◌, not, Bool-cases, Option-cases, bytes_eq, bytes_beq,
  List, [], ◌∷◌, none, some, any, is_some, arith,
}
use lootcoin.Core.{Transaction, Block, Core, is_coinbase, user_txs}
use lootcoin.Chain.Validate.{count_ok, coinbase_ok}
use lootcoin.Api.{check_coinbase, check_hash, check_incoming, is_valid_address}

-- The first transaction is there, and is a coinbase.
abbrev pub starts_with_coinbase : List Transaction → Bool
starts_with_coinbase [] = false
starts_with_coinbase (tx ∷ txs) = is_coinbase tx

List-cases : {A : Type 0} (xs : List A) → (xs ≡ []) ⊎ ((x : A) × (rest : List A) × (xs ≡ x ∷ rest))
List-cases [] = inl refl
List-cases (x ∷ rest) = inr (x, rest, refl)

user_txs_all : (txs : List Transaction) → any is_coinbase txs ≡ false → user_txs txs ≡ txs
user_txs_all [] h = refl
user_txs_all (tx ∷ txs) h = elim (Bool-cases (is_coinbase tx)) [
  | inl c ↦ absurd (ground arith)
  | inr u ↦ rw (u, user_txs_all txs (ground arith)) refl
]

module _ {F : Type 0} (core : Core F) where
  -- The block's hash is the hash of its contents.
  abbrev pub hash_matches : Block → Bool
  hash_matches block = elim (core.calculate_hash block) [
    | none ↦ false
    | some h ↦ bytes_beq h block.hash
  ]

  -- The checks of `apply_incoming_block` before it takes the chain pass exactly when the block
  -- starts with a coinbase and passes the chain's own checks on its contents: the number of
  -- transactions, the coinbase, and that its hash is the hash of its contents.
  pub check_incoming_lem :
      (block : Block)
      → not (is_some (check_incoming core block)) ≡ (
          starts_with_coinbase block.transactions
          && count_ok core block
          && coinbase_ok core block
          && hash_matches block)
  unfolding check_incoming check_coinbase check_hash count_ok coinbase_ok is_valid_address
  check_incoming_lem block = elim (List-cases block.transactions) [
    | inl e ↦ rw e refl
    | inr (tx, rest, e) ↦ elim (Bool-cases (any is_coinbase rest)) [
      | inl extra ↦ ground arith
      | inr single ↦ elim (Option-cases (core.calculate_hash block)) [
        | inl failed ↦ ground (arith, user_txs_all rest single)
        | inr (h, hashed) ↦ ground (arith, user_txs_all rest single)
      ]
    ]
  ]
