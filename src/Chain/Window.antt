-- ===== src/Chain/Window.antt =====
-- The life of the state in lootcoin-node/src/blockchain.rs outside block application: its creation,
-- the sliding window of recent blocks, checkpoints, and the payouts that wait to be persisted.
pub mod Invariant
pub mod Entropy
use lootcoin.Base.{
  ℕ, ◌+◌, ◌-◌, ◌≤◌, Bool, Bytes, bytes_eq, nat_eq, List, [], ◌∷◌, Option, none, some, Map, get,
  insert, remove, length, take, drop, keep, last, get_elem?, min, saturating_add64, ltb, leb, ◌==◌,
  if◌then◌else◌,
}
use lootcoin.Core.{Transaction, Block, LootTicket, Float}
use lootcoin.Chain.State.{Books, Blockchain, CheckpointState, Payout}
use lootcoin.Chain.Ledger.{credit}
use lootcoin.Chain.Validate.{get_latest_hash}

-- `REORG_WINDOW`
abbrev pub reorg_window : ℕ
reorg_window = 100

-- `for tx in genesis.transactions`, which credits every receiver.
unfoldable pub credit_all : List Transaction → Map Bytes ℕ → Map Bytes ℕ
credit_all [] balances = balances
credit_all (tx ∷ txs) balances = credit_all txs (credit tx.receiver tx.amount balances)

-- `remove` of each evicted block's hash.
unfoldable pub forget_hashes : List Block → Map Bytes ℕ → Map Bytes ℕ
forget_hashes [] m = m
forget_hashes (b ∷ bs) m = forget_hashes bs (remove b.hash m)

-- `Blockchain::new`; the difficulty is that of `initial_difficulty_from_env`.
unfoldable pub new : {F : Type 0} → F → Block → Blockchain F
new initial genesis = record {
  books = record {
    balances = credit_all genesis.transactions [];
    confirmed_signatures = [];
    pot = 0;
  };
  blocks = genesis ∷ [];
  blocks_offset = 0;
  block_hashes = (genesis.hash, 0) ∷ [];
  orphan_pool = [];
  pending_tickets = [];
  genesis_pot = 0;
  settled_payouts_by_block = [];
  initial_difficulty = initial;
  current_difficulty = initial;
  asert_anchor = none;
  chain_work = 0;
  metrics = none;
}

-- `initial_difficulty_from_env`, at the parsed value of the environment variable.
unfoldable pub initial_difficulty_from_env : {F : Type 0} → Float F → F → Option F → F
initial_difficulty_from_env float one none = float.initial_difficulty
initial_difficulty_from_env float one (some d) = float.clamp d one float.initial_difficulty

module _ {F : Type 0} where
  unfoldable pub get_last_block_timestamp : Blockchain F → ℕ
  get_last_block_timestamp chain = elim (last chain.blocks) [ none ↦ 0 | some b ↦ b.timestamp ]

  unfoldable pub restore_tickets : Blockchain F → List LootTicket → Blockchain F
  restore_tickets chain tickets = record chain { pending_tickets = tickets }

  -- `none` is the panic of `get_latest_hash` on an empty window.
  unfoldable pub snapshot : Blockchain F → Option (CheckpointState F)
  snapshot chain = elim (get_latest_hash chain) [
    | none ↦ none
    | some hash ↦ some (record {
      books = chain.books;
      chain_work = chain.chain_work;
      block_hash = hash;
      current_difficulty = chain.current_difficulty;
      asert_anchor = chain.asert_anchor;
      tickets = chain.pending_tickets;
    })
  ]

  unfoldable pub restore_from_checkpoint :
      Blockchain F → ℕ → CheckpointState F → Block → Blockchain F
  restore_from_checkpoint chain height state checkpoint_block = record chain {
    books = state.books;
    blocks = checkpoint_block ∷ [];
    blocks_offset = height;
    block_hashes = [];
    orphan_pool = [];
    pending_tickets = state.tickets;
    settled_payouts_by_block = [];
    current_difficulty = state.current_difficulty;
    asert_anchor = state.asert_anchor;
    chain_work = state.chain_work;
  }

  unfoldable pub seed_pot : Blockchain F → ℕ → Blockchain F
  seed_pot chain amount = record chain {
    genesis_pot = amount;
    books = record (chain.books) { pot = saturating_add64 chain.pot amount };
  }

  unfoldable pub prune_to_window : Blockchain F → Blockchain F
  prune_to_window chain =
      if ltb reorg_window (length chain.blocks)
      then (let to_drop = length chain.blocks - reorg_window in
          record chain {
            blocks = drop to_drop chain.blocks;
            block_hashes = forget_hashes (take to_drop chain.blocks) chain.block_hashes;
            blocks_offset = chain.blocks_offset + to_drop;
            settled_payouts_by_block =
                keep (λ e. leb (chain.blocks_offset + to_drop) e.0) chain.settled_payouts_by_block;
          })
      else chain

  -- The payouts of a block, and the state without them.
  unfoldable pub drain_payouts_for_block : Blockchain F → ℕ → List Payout × Blockchain F
  drain_payouts_for_block chain index = (
    elim (get index chain.settled_payouts_by_block) [ none ↦ [] | some p ↦ p ],
    record chain { settled_payouts_by_block = remove index chain.settled_payouts_by_block },
  )

  unfoldable pub take_all_settled_payouts : Blockchain F → Map ℕ (List Payout) × Blockchain F
  take_all_settled_payouts chain =
      (chain.settled_payouts_by_block, record chain { settled_payouts_by_block = [] })

  -- The oldest sample of `get_avg_block_time_secs` and its number of intervals, where `start` is the
  -- first position of the window of `window` blocks.
  unfoldable pub oldest_sample : Blockchain F → ℕ → ℕ → Option (ℕ × ℕ)
  oldest_sample chain start window = elim (get_elem? chain.blocks start) [
    | none ↦ none
    | some b ↦
        if b.index == 0
        then elim (get_elem? chain.blocks (start + 1)) [
          | none ↦ none
          | some c ↦ some (c.timestamp, window - 2)
        ]
        else some (b.timestamp, window - 1)
  ]

  unfoldable pub get_avg_block_time_secs : Float F → Blockchain F → Option F
  get_avg_block_time_secs float chain =
      let n = length chain.blocks in
      if ltb n 3 then none else elim (oldest_sample chain (n - min n 11) (min n 11)) [
        | none ↦ none
        | some (oldest, intervals) ↦
            if intervals == 0
            then none
            else if leb (get_last_block_timestamp chain) oldest
            then none
            else some (
                float.div (float.of_ℕ (get_last_block_timestamp chain - oldest))
                  (float.of_ℕ intervals))
      ]
