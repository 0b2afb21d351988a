-- ===== src/Chain/Tests.antt =====
-- Concrete chains on which the theorems on the chain are applied.
mod Updates
mod Forks
use lootcoin.Base.{
  ℕ, suc, ◌+◌, ◌≤◌, ◌<◌, ◌≡◌, refl, ◌≢◌, inl, true, false, Bytes, bytes_eq, nat_eq, List, [], ◌∷◌,
  ◌++◌, Option, none, some, All, contains, keep, ltb, ◌||◌, u64_mod, arith, get, get_or, has_key,
  insert, remove, upsert, add_to, remove_from, add64, sub64, mul64, saturating_add64, checked_add64,
  saturating_add128,
}
use lootcoin.Core.{Transaction, Block, LootTicket, Float, Constants, Core}
use lootcoin.Chain.State.{Blockchain, CheckpointState, BlockOutcome, reorged, rejected}
use lootcoin.Chain.Ledger.{
  coins, credit, touch, debit, get_balance, total_supply, validate_transaction_state, transfer,
  apply_transaction,
}
use lootcoin.Chain.Lottery.{
  matures, block_hash_at, entropy_from, settle_tickets, from_le_bytes, loot_bucket_from_digest,
  prize, compute_ticket_reward, pay_draw,
}
use lootcoin.Chain.Difficulty.{
  shifted_work, leading_zeros, leading_bits, block_work, asert, adjust_difficulty, add_work,
}
use lootcoin.Chain.Validate.{
  is_valid, sort_into, sort_unstable, get_height, get_latest_hash, links, recent_timestamps,
  timestamp_ok, hash_ok, count_ok, coinbase_ok, tx_root_ok, reserve, prevalidate_tx, prevalidate,
}
use lootcoin.Chain.Update.{
  refused, aborted, updated, minted, update_state, extract_miner_address, apply_all, pay_miner,
  settle_block, issue_ticket, record_block, split_fees, finish_block, apply_valid,
}
use lootcoin.Chain.Window.{
  new, seed_pot, prune_to_window, snapshot, restore_from_checkpoint, credit_all, forget_hashes,
}
use lootcoin.Chain.Fork.{
  find_longest_fork, chain_work_of, beats_main, bytes_ltb, least_from, least, trace_back, heavier,
  find_block_timestamp, expected_difficulty_for, validate_block_standalone, trace_fork_chain,
  stored_ancestor, ancestor_of, better, consider, consider_all,
}
use lootcoin.Chain.Reorg.{
  add_orphan, replay, reset_to, new_canonical, displaced, choose_fork, apply_in_memory,
  evict_lowest, evict_at, replay_from_genesis, reorg_to,
}
use lootcoin.Chain.Update.Conserves.{update_state-conserves}
use lootcoin.Chain.Update.Extends.{update_state-extends}
use lootcoin.Chain.Update.Replay.{replayed_refused, update_state-signatures, Distinct, NoneIn}
use lootcoin.Chain.Update.Covers.{signatures_of}
use lootcoin.Chain.Window.Invariant.{
  IsWindow, update_state-IsWindow, prune_to_window-height, prune_to_window-IsWindow,
}
use lootcoin.Chain.Window.Entropy.{entropy_complete, restored_draw_differs}
use lootcoin.Chain.Fork.Heaviest.{
  find_longest_fork-heaviest, find_longest_fork-outweighs, work_of, offer,
}
use lootcoin.Chain.Reorg.Pool.{IsBounded, add_orphan-IsBounded}
use lootcoin.Chain.Reorg.Outcomes.{apply_in_memory-IsBounded, apply_in_memory-Leaves, Leaves}

abbrev test_constants : Constants
test_constants = record {
  max_block_txs = 10;
  min_tx_fee = 1;
  reveal_blocks = 2;
  ppm = 1000000;
  small_bucket_start = 0;
  medium_bucket_start = 100;
  large_bucket_start = 200;
  jackpot_bucket_start = 300;
  small_divisor = 1000;
  medium_divisor = 100;
  large_divisor = 10;
  jackpot_divisor = 2;
}

abbrev test_float : Float ℕ
test_float = record {
  of_ℕ = λ n. n;
  add = λ a b. a + b;
  sub = λ a b. 0;
  div = λ a b. 0;
  clamp = λ a low high. a;
  lt = ltb;
  differs = λ a b. false;
  to_u32 = λ a. 3;
  halflife = 3600;
  min_difficulty = 8;
  max_difficulty = 127;
  initial_difficulty = 25;
}

abbrev pub test_core : Core ℕ
test_core = record {
  constants = test_constants;
  float = test_float;
  calculate_hash = λ b. some (b.nonce ∷ b.index ∷ []);
  compute_tx_root = λ txs. some [];
  meets_difficulty = λ hash difficulty. true;
  verify = λ tx. true;
  txid = λ tx. tx.signature;
  decode_address = λ address. some address;
  digest = λ bytes. bytes;
  serialize_draw = λ entropy height miner. entropy;
}

abbrev pub coinbase : Transaction
coinbase = record {
  sender = [];
  receiver = 1 ∷ [];
  amount = 1;
  fee = 0;
  nonce = 0;
  public_key = [];
  signature = [];
}

abbrev pub payment : Transaction
payment = record {
  sender = 2 ∷ [];
  receiver = 3 ∷ [];
  amount = 10;
  fee = 4;
  nonce = 0;
  public_key = 5 ∷ [];
  signature = 7 ∷ [];
}

abbrev grant : Transaction
grant = record {
  sender = [];
  receiver = 2 ∷ [];
  amount = 50;
  fee = 0;
  nonce = 0;
  public_key = [];
  signature = [];
}

abbrev block_at : ℕ → ℕ → Bytes → ℕ → List Transaction → Block
block_at nonce index previous_hash timestamp transactions = record {
  index = index;
  previous_hash = previous_hash;
  timestamp = timestamp;
  nonce = nonce;
  tx_root = [];
  transactions = transactions;
  hash = nonce ∷ index ∷ [];
}

abbrev pub genesis : Block
genesis = block_at 0 0 [] 100 (grant ∷ [])

abbrev pub first_block : Block
first_block = block_at 200 1 genesis.hash 200 (coinbase ∷ payment ∷ [])

-- A block that repeats the payment of the first block.
abbrev repeating : Block
repeating = block_at 0 2 first_block.hash 300 (coinbase ∷ payment ∷ [])

-- A block beside the first block, of more work.
abbrev pub rival : Block
rival = block_at 0 1 genesis.hash 200 (coinbase ∷ [])

-- The same, but older than genesis.
abbrev stale_rival : Block
stale_rival = block_at 0 1 genesis.hash 50 (coinbase ∷ [])

abbrev pub start : Blockchain ℕ
start = seed_pot (new 25 genesis) 1000

abbrev pub step : Blockchain ℕ → Block → Blockchain ℕ
step chain block = elim (update_state test_core 1000 chain block) [
  | refused ↦ chain
  | aborted ↦ chain
  | updated chain' ↦ chain'
]

abbrev pub second : Blockchain ℕ
second = step start first_block

-- A block on the first block.
abbrev pub second_block : Block
second_block = block_at 200 2 first_block.hash 300 (coinbase ∷ [])

-- The start from a checkpoint at the first block.
abbrev pub restored : Blockchain ℕ
restored = elim (snapshot second) [
  | none ↦ second
  | some state ↦ restore_from_checkpoint start 1 state first_block
]

abbrev with_orphan : Block → Blockchain ℕ
with_orphan block = record second { orphan_pool = (block.hash, block) ∷ [] }

-- Unfolds the whole model.
unfoldable pub program : Unit {0}
unfolding get get_or has_key insert remove upsert contains add_to remove_from add64 sub64 mul64
    saturating_add64 checked_add64 saturating_add128 credit touch debit get_balance total_supply
    validate_transaction_state transfer apply_transaction block_hash_at entropy_from settle_tickets
    from_le_bytes loot_bucket_from_digest prize compute_ticket_reward pay_draw shifted_work
    leading_zeros leading_bits block_work asert adjust_difficulty add_work is_valid sort_into
    sort_unstable get_height get_latest_hash links recent_timestamps timestamp_ok hash_ok count_ok
    coinbase_ok tx_root_ok reserve prevalidate_tx prevalidate minted update_state
    extract_miner_address apply_all pay_miner settle_block issue_ticket record_block split_fees
    finish_block apply_valid new seed_pot prune_to_window restore_from_checkpoint credit_all
    forget_hashes find_longest_fork chain_work_of beats_main bytes_ltb least_from least trace_back
    heavier find_block_timestamp expected_difficulty_for validate_block_standalone trace_fork_chain
    stored_ancestor ancestor_of better consider consider_all add_orphan replay reset_to
    new_canonical displaced choose_fork apply_in_memory snapshot evict_lowest evict_at
    replay_from_genesis reorg_to
program = tt
