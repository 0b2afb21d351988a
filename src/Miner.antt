-- ===== src/Miner.antt =====
-- lootcoin-miner/src/main.rs: the choice of transactions, the candidate block, the search for a
-- nonce, and the outcome of a submission. The network and the clock are arguments.
pub mod Candidate
pub mod Nonce
pub mod Outcome
mod Tests
use lootcoin.Base.{
  ℕ, zero, suc, ◌+◌, ◌-◌, ◌/◌, ◌%◌, Bool, false, ◌&&◌, Bytes, List, [], ◌∷◌, map, Option, none,
  some, length, take, keep, add64, leb, ltb, ◌==◌, if◌then◌else◌,
}
use lootcoin.Core.{Transaction, Block, Core}

pub record HeadResp (F : Type 0) : Type 0 where
  pub height : ℕ
  pub latest_hash : Bytes
  pub difficulty : F

pub record MempoolEntry : Type 0 where
  pub transaction : Transaction
  pub added_height : ℕ

-- `guarantee_after` is the constant of lootcoin-core.
unfoldable pub is_eligible : ℕ → ℕ → MempoolEntry → Bool
is_eligible guarantee_after current_height entry =
    if entry.transaction.fee == 0
    then false
    else leb (guarantee_after / entry.transaction.fee - 1) (current_height - entry.added_height)

-- `sort_by(|a, b| b.fee.cmp(&a.fee))`, which is stable.
unfoldable pub sort_fee_into : Transaction → List Transaction → List Transaction
sort_fee_into tx [] = tx ∷ []
sort_fee_into tx (u ∷ us) = if leb u.fee tx.fee then tx ∷ u ∷ us else u ∷ sort_fee_into tx us

unfoldable pub sort_by_fee : List Transaction → List Transaction
sort_by_fee [] = []
sort_by_fee (tx ∷ txs) = sort_fee_into tx (sort_by_fee txs)

-- Step 2 of the main loop.
unfoldable pub select_txs : ℕ → ℕ → ℕ → List MempoolEntry → List Transaction
select_txs max_block_txs guarantee_after height entries =
    if leb (length entries) max_block_txs
    then sort_by_fee (map (λ e. e.transaction) entries)
    else take max_block_txs
        (sort_by_fee (map (λ e. e.transaction) (keep (is_eligible guarantee_after height) entries)))

-- `[0u8; 32]`
abbrev pub zero_key : Bytes
zero_key =
    0 ∷ 0 ∷ 0 ∷ 0 ∷ 0 ∷ 0 ∷ 0 ∷ 0 ∷ 0 ∷ 0 ∷ 0 ∷ 0 ∷ 0 ∷ 0 ∷ 0 ∷ 0 ∷ 0 ∷ 0 ∷ 0 ∷ 0 ∷ 0 ∷ 0 ∷ 0 ∷ 0
    ∷ 0 ∷ 0 ∷ 0 ∷ 0 ∷ 0 ∷ 0 ∷ 0 ∷ 0 ∷ []

-- Step 3: the coinbase of the miner.
unfoldable pub reward : Bytes → Transaction
reward miner_address = record {
  sender = [];
  receiver = miner_address;
  amount = 1;
  fee = 0;
  nonce = 0;
  public_key = zero_key;
  signature = [];
}

pub data SubmitOutcome : Type 0 where
  accepted : SubmitOutcome
  orphaned : SubmitOutcome
  rejected : SubmitOutcome
  unreachable : SubmitOutcome

unfoldable pub merge_outcome : SubmitOutcome → SubmitOutcome → SubmitOutcome
merge_outcome accepted new = accepted
merge_outcome orphaned accepted = accepted
merge_outcome orphaned orphaned = orphaned
merge_outcome orphaned rejected = orphaned
merge_outcome orphaned unreachable = orphaned
merge_outcome rejected accepted = accepted
merge_outcome rejected orphaned = orphaned
merge_outcome rejected rejected = rejected
merge_outcome rejected unreachable = rejected
merge_outcome unreachable new = new

-- The loop of `submit_block` over the nodes' answers.
unfoldable pub best_outcome : SubmitOutcome → List SubmitOutcome → SubmitOutcome
best_outcome best [] = best
best_outcome best (outcome ∷ outcomes) = best_outcome (merge_outcome best outcome) outcomes

-- `found` is `Some(tries)` with the block that the call leaves, `cancelled` is `None`; `panicked` is a
-- hash that fails, and `exhausted` the end of the rounds given.
pub data Mined : Type 0 where
  found : Block → ℕ → Mined
  cancelled : Mined
  panicked : Mined
  exhausted : Mined

module _ {F : Type 0} (core : Core F) where
  -- Step 4; `none` is a panic.
  unfoldable pub candidate : HeadResp F → Bytes → List Transaction → ℕ → ℕ → Option Block
  candidate head miner_address txs now_ts nonce =
      elim (core.compute_tx_root (reward miner_address ∷ txs)) [
        | none ↦ none
        | some tx_root ↦ some (record {
          index = head.height;
          previous_hash = head.latest_hash;
          timestamp = now_ts;
          nonce = nonce;
          tx_root = tx_root;
          transactions = reward miner_address ∷ txs;
          hash = [];
        })
      ]

  -- The loop of `mine`; `stop` is whether a flag is set when it is read after that many tries.
  unfoldable pub mine_from : (ℕ → Bool) → F → ℕ → Block → Bytes → ℕ → Mined
  mine_from stop difficulty zero block hash tries = exhausted
  mine_from stop difficulty (suc n) block hash tries =
      let next : Block = record block { nonce = add64 block.nonce 1 } in
      let rest : Mined = elim (core.calculate_hash next) [
        | none ↦ panicked
        | some hash' ↦ mine_from stop difficulty n next hash' (add64 tries 1)
      ] in
      if core.meets_difficulty hash difficulty
      then found (record block { hash = hash }) tries
      else if (tries % 10000 == 0) && stop tries
      then cancelled
      else rest

  unfoldable pub mine : (ℕ → Bool) → F → ℕ → Block → Mined
  mine stop difficulty rounds block = elim (core.calculate_hash block) [
    | none ↦ panicked
    | some hash ↦ mine_from stop difficulty rounds block hash 0
  ]
