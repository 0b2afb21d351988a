-- ===== src/Chain/Validate.antt =====
-- The checks of `update_state` in lootcoin-node/src/blockchain.rs, in the order of the code.

use lootcoin.Base.{
  ℕ, ◌+◌, ◌-◌, ◌/◌, Bool, true, false, ◌&&◌, ◌||◌, not, Bytes, bytes_eq, bytes_beq, List, [], ◌∷◌,
  map, reverse, Option, none, some, Map, contains, add_to, get_or, upsert, length, first, last, any,
  take, drop, get_elem?, add64, checked_add64, is_some, ltb, leb, ◌==◌, if◌then◌else◌,
}
use lootcoin.Core.{Transaction, Block, Core, is_coinbase, user_txs}
use lootcoin.Chain.State.{Books, Blockchain}
use lootcoin.Chain.Ledger.{get_balance}

-- `MTP_WINDOW`
abbrev pub mtp_window : ℕ
mtp_window = 11

-- The signatures and the debits that the loop of the pre-validation has seen.
pub record Seen : Type 0 where
  pub pending_debits : Map Bytes ℕ
  pub block_sigs : List Bytes

abbrev pub nothing_seen : Seen
nothing_seen = record { pending_debits = []; block_sigs = [] }

-- `sort_unstable` on `u64`
unfoldable pub sort_into : ℕ → List ℕ → List ℕ
sort_into x [] = x ∷ []
sort_into x (y ∷ ys) = if leb x y then x ∷ y ∷ ys else y ∷ sort_into x ys

unfoldable pub sort_unstable : List ℕ → List ℕ
sort_unstable [] = []
sort_unstable (x ∷ xs) = sort_into x (sort_unstable xs)

module _ {F : Type 0} where
  unfoldable pub get_height : Blockchain F → ℕ
  get_height chain = chain.blocks_offset + length chain.blocks

  -- `none` is the panic of an empty window.
  unfoldable pub get_latest_hash : Blockchain F → Option Bytes
  get_latest_hash chain = elim (last chain.blocks) [ none ↦ none | some b ↦ some b.hash ]

  -- The block follows the tip: its index and its previous hash.
  unfoldable pub links : Blockchain F → Block → Bool
  links chain block =
      block.index == get_height chain
      && elim (get_latest_hash chain) [ none ↦ false | some h ↦ bytes_beq block.previous_hash h ]

  -- `recent`: the timestamps of the last blocks, sorted.
  unfoldable pub recent_timestamps : Blockchain F → List ℕ
  recent_timestamps chain =
      sort_unstable (map (λ b. b.timestamp) (take mtp_window (reverse chain.blocks)))

  unfoldable pub timestamp_ok : ℕ → Blockchain F → Block → Bool
  timestamp_ok now_secs chain block =
      not (ltb (now_secs + 120) block.timestamp)
      && elim (get_elem? (recent_timestamps chain) (length (recent_timestamps chain) / 2)) [
        | none ↦ true
        | some median ↦ ltb median block.timestamp
      ]

  module _ (core : Core F) where
    -- The hash is the hash of the contents, and meets the difficulty.
    unfoldable pub hash_ok : Blockchain F → Block → Bool
    hash_ok chain block =
        elim (core.calculate_hash block) [ none ↦ false | some h ↦ bytes_beq h block.hash ]
        && core.meets_difficulty block.hash chain.current_difficulty

    unfoldable pub count_ok : Block → Bool
    count_ok block = leb (length (user_txs block.transactions)) core.max_block_txs

    -- At most the first transaction is a coinbase, of at most one coin, to an address.
    unfoldable pub coinbase_ok : Block → Bool
    coinbase_ok block =
        not (any is_coinbase (drop 1 block.transactions)) && elim (first block.transactions) [
          | none ↦ true
          | some tx ↦
              if is_coinbase tx
              then leb tx.amount 1 && tx.fee == 0 && is_some (core.decode_address tx.receiver)
              else true
        ]

    unfoldable pub tx_root_ok : Block → Bool
    tx_root_ok block = elim (core.compute_tx_root block.transactions) [
      | none ↦ false
      | some root ↦ bytes_beq root block.tx_root
    ]

    -- The last checks of the loop on a transaction with a sender, at its total: the funds.
    unfoldable pub reserve : Books → Seen → Transaction → ℕ → Option Seen
    reserve b seen tx cost =
        if ltb (get_balance b tx.sender - get_or tx.sender 0 seen.pending_debits) cost
        then none
        else some (record {
          pending_debits = upsert tx.sender 0 (λ w. add64 w cost) seen.pending_debits;
          block_sigs = add_to tx.signature seen.block_sigs;
        })

    -- The loop's body: `none` is `return false`.
    unfoldable pub prevalidate_tx : Books → Seen → Transaction → Option Seen
    prevalidate_tx b seen tx =
        if is_coinbase tx
        then some seen
        else if not (core.verify tx)
        then none
        else if ltb tx.fee core.min_tx_fee
        then none
        else if not (is_some (core.decode_address tx.receiver))
        then none
        else if contains tx.signature b.confirmed_signatures
            || contains tx.signature seen.block_sigs
        then none
        else elim (checked_add64 tx.amount tx.fee) [
          | none ↦ none
          | some cost ↦ reserve b seen tx cost
        ]

    unfoldable pub prevalidate : Books → Seen → List Transaction → Bool
    prevalidate b seen [] = true
    prevalidate b seen (tx ∷ txs) = elim (prevalidate_tx b seen tx) [
      | none ↦ false
      | some seen' ↦ prevalidate b seen' txs
    ]

    -- All the checks.
    unfoldable pub is_valid : ℕ → Blockchain F → Block → Bool
    is_valid now_secs chain block =
        links chain block
        && timestamp_ok now_secs chain block
        && hash_ok chain block
        && count_ok block
        && coinbase_ok block
        && tx_root_ok block
        && prevalidate chain.books nothing_seen block.transactions
