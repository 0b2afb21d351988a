-- ===== src/Chain/Reorg.antt =====
-- `reorg_to`, `apply_in_memory` and `apply_block` in lootcoin-node/src/blockchain.rs. A result is
-- `none` where the process panics or aborts. The clock is read once for a call.
pub mod Pool
pub mod Outcomes
pub mod Persist
pub mod Rebuilt
use lootcoin.Base.{
  ℕ, ◌+◌, ◌-◌, ◌%◌, Bool, true, false, ◌&&◌, ◌||◌, not, Bytes, bytes_eq, bytes_beq, nat_eq, List,
  [], ◌∷◌, ◌++◌, Option, none, some, Map, get, insert, remove, length, take, drop, keep, first,
  last, is_empty, ltb, leb, ◌==◌, if◌then◌else◌,
}
use lootcoin.Core.{Block, LootTicket, Core}
use lootcoin.Chain.State.{
  Books, Blockchain, CheckpointState, Payout, BlockOutcome, applied, reorged, orphaned, rejected,
}
use lootcoin.Chain.Validate.{links}
use lootcoin.Chain.Update.{Update, refused, aborted, updated, update_state}
use lootcoin.Chain.Window.{
  credit_all, snapshot, prune_to_window, drain_payouts_for_block, take_all_settled_payouts,
}
use lootcoin.Chain.Fork.{
  ReadBlocks, max_orphans_per_height, max_orphan_pool_size, bytes_ltb, least,
  validate_block_standalone, find_longest_fork,
}

-- `CHECKPOINT_INTERVAL`
abbrev pub checkpoint_interval : ℕ
checkpoint_interval = 1000

-- The database as `apply_block` uses it. An error of an operation is only logged, so what counts is
-- the database that it leaves.
pub record Store (F D : Type 0) : Type 0 where
  pub get_blocks_range : D → ReadBlocks
  pub save_block_indexed : D → Block → D
  pub save_applied_block : D → Block → List LootTicket → List Payout → D
  pub save_checkpoint : D → ℕ → CheckpointState F → D
  pub delete_checkpoints_from : D → ℕ → D
  pub apply_reorg_incremental :
      D → List Block → List Block → List LootTicket → Map ℕ (List Payout) → D
  pub rebuild_indices_with_tickets : D → List LootTicket → Map ℕ (List Payout) → D

-- The eviction of the pool's lowest block when the pool is full.
unfoldable pub evict_lowest : Map Bytes Block → Map Bytes Block
evict_lowest pool =
    if leb max_orphan_pool_size (length pool)
    then elim (least (λ a b. ltb a.index b.index) pool) [
      | none ↦ pool
      | some hash ↦ remove hash pool
    ]
    else pool

-- The eviction of the least hash at a height that is full.
unfoldable pub evict_at : ℕ → Map Bytes Block → Map Bytes Block
evict_at index pool =
    if leb max_orphans_per_height (length (keep (λ e. e.1.index == index) pool))
    then elim (least (λ a b. bytes_ltb a.hash b.hash) (keep (λ e. e.1.index == index) pool)) [
      | none ↦ pool
      | some hash ↦ remove hash pool
    ]
    else pool

unfoldable pub add_orphan : Map Bytes Block → Block → Map Bytes Block
add_orphan pool block = insert block.hash block (evict_at block.index (evict_lowest pool))

module _ {F : Type 0} where
  -- The loop of `reorg_to`: it returns at the first block that is refused.
  unfoldable pub replay : Core F → ℕ → Blockchain F → List Block → Option (Blockchain F)
  replay core now_secs chain [] = some chain
  replay core now_secs chain (block ∷ blocks) = elim (update_state core now_secs chain block) [
    | refused ↦ some chain
    | aborted ↦ none
    | updated chain' ↦ replay core now_secs chain' blocks
  ]

  -- The cleared state that `reorg_to` starts its replay from.
  unfoldable pub reset_to : Blockchain F → Block → Blockchain F
  reset_to chain genesis = record chain {
    books = record {
      balances = credit_all genesis.transactions [];
      confirmed_signatures = [];
      pot = chain.genesis_pot;
    };
    blocks = genesis ∷ [];
    blocks_offset = 0;
    block_hashes = (genesis.hash, 0) ∷ [];
    orphan_pool = [];
    pending_tickets = [];
    settled_payouts_by_block = [];
    current_difficulty = chain.initial_difficulty;
    asert_anchor = none;
    chain_work = 0;
  }

  unfoldable pub replay_from_genesis :
      Core F → ℕ → Blockchain F → List Block → Option (Blockchain F)
  replay_from_genesis core now_secs chain [] = none
  replay_from_genesis core now_secs chain (genesis ∷ blocks) =
      replay core now_secs (reset_to chain genesis) blocks

  unfoldable pub reorg_to :
      Core F → ℕ → Blockchain F → List Block → Option ReadBlocks → Option (Blockchain F)
  reorg_to core now_secs chain new_canonical db = elim (first new_canonical) [
    | none ↦ none
    | some b ↦
        if ltb 0 b.index
        then elim db [
          | none ↦ none
          | some read ↦ elim (read 0 b.index) [
            | none ↦ some chain
            | some prefix ↦ replay_from_genesis core now_secs chain (prefix ++ new_canonical)
          ]
        ]
        else replay_from_genesis core now_secs chain new_canonical
  ]

  -- The blocks up to the ancestor, and the fork; for an ancestor before the window, the fork alone.
  unfoldable pub new_canonical : Blockchain F → List Block → ℕ → List Block
  new_canonical chain fork_chain ancestor_index =
      if leb chain.blocks_offset ancestor_index
      then take (ancestor_index - chain.blocks_offset + 1) chain.blocks ++ fork_chain
      else fork_chain

  unfoldable pub displaced : Blockchain F → ℕ → List Block
  displaced chain ancestor_index =
      if leb chain.blocks_offset ancestor_index
      then drop (ancestor_index - chain.blocks_offset + 1) chain.blocks
      else []

  -- The end of `apply_in_memory`, with the block in the pool.
  unfoldable pub choose_fork :
      Core F → ℕ → Blockchain F → Option ReadBlocks → Option (BlockOutcome × Blockchain F)
  choose_fork core now_secs chain db = elim (find_longest_fork chain db) [
    | none ↦ some (orphaned, chain)
    | some (fork_chain, ancestor_index) ↦
        elim (reorg_to core now_secs chain (new_canonical chain fork_chain ancestor_index) db) [
          | none ↦ none
          | some chain' ↦ some (reorged (displaced chain ancestor_index) fork_chain, chain')
        ]
  ]

  unfoldable pub apply_in_memory :
      Core F → ℕ → Blockchain F → Block → Option ReadBlocks → Option (BlockOutcome × Blockchain F)
  apply_in_memory core now_secs chain block db = elim (update_state core now_secs chain block) [
    | updated chain' ↦ some (applied, chain')
    | aborted ↦ none
    | refused ↦
        if links chain block
        then some (rejected, chain)
        else if not (validate_block_standalone core chain block)
        then some (rejected, chain)
        else choose_fork core now_secs
            (record chain { orphan_pool = add_orphan chain.orphan_pool block }) db
  ]

  -- The payouts of the fork's blocks, taken out of the state.
  unfoldable pub drain_all :
      Blockchain F → List Block → Map ℕ (List Payout) → Map ℕ (List Payout) × Blockchain F
  drain_all chain [] payouts = (payouts, chain)
  drain_all chain (b ∷ bs) payouts =
      let (p, chain') = drain_payouts_for_block chain b.index in
      drain_all chain' bs (if is_empty p then payouts else insert b.index p payouts)

  module _ {D : Type 0} (store : Store F D) where
    unfoldable pub save_blocks : D → List Block → D
    save_blocks db [] = db
    save_blocks db (b ∷ bs) = save_blocks (store.save_block_indexed db b) bs

    -- `BlockOutcome::Applied`; an empty window panics.
    unfoldable pub persist_applied : D → Blockchain F → Option (D × Blockchain F)
    persist_applied db chain = elim (last chain.blocks) [
      | none ↦ none
      | some block ↦
          let (payouts, drained) = drain_payouts_for_block chain block.index in
          let saved = store.save_applied_block db block drained.pending_tickets payouts in
          let checked : D =
            if ltb 0 block.index && block.index % checkpoint_interval == 0
            then elim (snapshot drained) [
              | none ↦ saved
              | some state ↦ store.save_checkpoint saved block.index state
            ]
            else saved in
          some (checked, prune_to_window drained)
    ]

    -- `BlockOutcome::Reorged`, by the displaced blocks.
    unfoldable pub persist_reorged : D → Blockchain F → List Block → List Block → D × Blockchain F
    persist_reorged db chain [] new_blocks =
        let cleared = store.delete_checkpoints_from db 0 in
        let (all_payouts, taken) = take_all_settled_payouts chain in
        (
          store.rebuild_indices_with_tickets (save_blocks cleared new_blocks) taken.pending_tickets
              all_payouts,
          prune_to_window taken,
        )
    persist_reorged db chain (old ∷ old_blocks) new_blocks =
        let cleared = store.delete_checkpoints_from db old.index in
        let (new_payouts, drained) = drain_all chain new_blocks [] in
        (
          store.apply_reorg_incremental cleared (old ∷ old_blocks) new_blocks
              drained.pending_tickets new_payouts,
          prune_to_window drained,
        )

    unfoldable pub persist :
        D → BlockOutcome → Blockchain F → Option (BlockOutcome × D × Blockchain F)
    persist db applied chain = elim (persist_applied db chain) [
      | none ↦ none
      | some (db', chain') ↦ some (applied, db', chain')
    ]
    persist db (reorged old_blocks new_blocks) chain =
        let (db', chain') = persist_reorged db chain old_blocks new_blocks in
        some (reorged old_blocks new_blocks, db', chain')
    persist db orphaned chain = some (orphaned, db, chain)
    persist db rejected chain = some (rejected, db, chain)

    unfoldable pub apply_block :
        Core F → ℕ → D → Blockchain F → Block → Option (BlockOutcome × D × Blockchain F)
    apply_block core now_secs db chain block =
        elim (apply_in_memory core now_secs chain block (some (store.get_blocks_range db))) [
          | none ↦ none
          | some (outcome, chain') ↦ persist db outcome chain'
        ]
