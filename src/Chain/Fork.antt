-- ===== src/Chain/Fork.antt =====
-- Fork choice in lootcoin-node/src/blockchain.rs: the orphan pool, the heaviest fork, and the replay
-- of a new canonical chain. The database is read through `get_blocks_range` alone, which is an
-- argument here: `read from limit`, where `none` is an error.
pub mod Heaviest
use lootcoin.Base.{
  ℕ, zero, suc, ◌+◌, ◌-◌, ◌*◌, ◌≤◌, Bool, true, false, ◌&&◌, ◌||◌, not, Bytes, bytes_eq, bytes_beq,
  List, [], ◌∷◌, ◌++◌, map, reverse, Option, none, some, Map, get, insert, remove, has_key,
  contains, keys, values, length, take, drop, keep, first, get_elem?, saturating_add128, mul64,
  is_some, is_empty, ltb, leb, ◌==◌, if◌then◌else◌,
}
use lootcoin.Core.{Block, Core, user_txs}
use lootcoin.Chain.State.{Blockchain}
use lootcoin.Chain.Difficulty.{target_block_time_secs, block_work, asert}
use lootcoin.Chain.Validate.{get_height}

-- `MAX_ORPHAN_DEPTH`, `MAX_ORPHANS_PER_HEIGHT`, `MAX_ORPHAN_POOL_SIZE`
abbrev pub max_orphan_depth : ℕ
max_orphan_depth = 10

abbrev pub max_orphans_per_height : ℕ
max_orphans_per_height = 3

abbrev pub max_orphan_pool_size : ℕ
max_orphan_pool_size = max_orphan_depth * max_orphans_per_height

abbrev pub ReadBlocks : Type 0
ReadBlocks = ℕ → ℕ → Option (List Block)

-- A sum of `block_work` by `saturating_add`.
unfoldable pub chain_work_of : ℕ → List Block → ℕ
chain_work_of acc [] = acc
chain_work_of acc (b ∷ bs) = chain_work_of (saturating_add128 acc (block_work b.hash)) bs

-- `a < b` of byte strings.
unfoldable pub bytes_ltb : Bytes → Bytes → Bool
bytes_ltb a [] = false
bytes_ltb [] (y ∷ ys) = true
bytes_ltb (x ∷ xs) (y ∷ ys) = ltb x y || (x == y && bytes_ltb xs ys)

-- `min_by_key` over the entries of the pool: the key of the first least entry, where `less` compares
-- blocks; `best` is the least so far.
unfoldable pub least_from : (Block → Block → Bool) → Bytes × Block → Map Bytes Block → Bytes
least_from less best [] = best.0
least_from less best (e ∷ es) = least_from less (if less e.1 best.1 then e else best) es

unfoldable pub least : (Block → Block → Bool) → Map Bytes Block → Option Bytes
least less [] = none
least less (e ∷ es) = some (least_from less e es)

-- The `while let` loop of `trace_fork_chain`, newest first. A pool of `n` blocks is walked in at most
-- `n` rounds unless the links between its blocks run in a circle, and the loop is given `n`.
unfoldable pub trace_back : ℕ → Map Bytes Block → Bytes → List Block
trace_back zero pool prev_hash = []
trace_back (suc n) pool prev_hash = elim (get prev_hash pool) [
  | none ↦ []
  | some b ↦ b ∷ trace_back n pool b.previous_hash
]

-- The best candidate so far: the fork, its ancestor, its work.
abbrev pub Candidate : Type 0
Candidate = List Block × ℕ × ℕ

-- `is_better`: the candidate replaces none, or one of less work.
unfoldable pub heavier : Option Candidate → Candidate → Option Candidate
heavier none c = some c
heavier (some best) c = if ltb best.2 c.2 then some c else some best

module _ {F : Type 0} where
  unfoldable pub find_block_timestamp : Blockchain F → Bytes → Option ℕ
  find_block_timestamp chain hash =
      let pooled : Option ℕ = elim (get hash chain.orphan_pool) [
        | none ↦ none
        | some b ↦ some b.timestamp
      ] in
      elim (get hash chain.block_hashes) [
        | none ↦ pooled
        | some index ↦
            if leb chain.blocks_offset index
            then elim (get_elem? chain.blocks (index - chain.blocks_offset)) [
              | none ↦ pooled
              | some b ↦ some b.timestamp
            ]
            else pooled
      ]

  unfoldable pub expected_difficulty_for : Core F → Blockchain F → Block → F
  expected_difficulty_for core chain block = elim chain.asert_anchor [
    | none ↦ chain.current_difficulty
    | some (anchor_height, anchor_ts, anchor_diff) ↦
        if core.float.lt anchor_diff core.float.min_difficulty
        then chain.current_difficulty
        else elim (find_block_timestamp chain block.previous_hash) [
          | none ↦ chain.current_difficulty
          | some prev_ts ↦
              if ltb (block.index - 1) anchor_height
              then chain.current_difficulty
              else asert core.float anchor_diff
                  (mul64 (block.index - 1 - anchor_height) target_block_time_secs)
                  (prev_ts - anchor_ts)
        ]
  ]

  unfoldable pub validate_block_standalone : Core F → Blockchain F → Block → Bool
  validate_block_standalone core chain block =
      elim (core.calculate_hash block) [ none ↦ false | some h ↦ bytes_beq h block.hash ]
      && core.meets_difficulty block.hash (expected_difficulty_for core chain block)
      && leb block.index (get_height chain + max_orphan_depth)
      && leb (length (user_txs block.transactions)) core.max_block_txs

  -- `trace_fork_chain` of the block under a key; the source indexes the pool by one of its keys.
  unfoldable pub trace_fork_chain : Blockchain F → Block → List Block
  trace_fork_chain chain tip =
      reverse (tip ∷ trace_back (length chain.orphan_pool) chain.orphan_pool tip.previous_hash)

  -- The database's part of the search for the ancestor.
  unfoldable pub stored_ancestor : Blockchain F → Option ReadBlocks → Block → Option ℕ
  stored_ancestor chain db oldest =
      if oldest.index == 0
      then none
      else if leb chain.blocks_offset (oldest.index - 1)
      then none
      else elim db [
        | none ↦ none
        | some read ↦ elim (read (oldest.index - 1) 1) [
          | none ↦ none
          | some blocks ↦ elim blocks [
            | [] ↦ none
            | b ∷ _ ↦
                if bytes_beq b.hash oldest.previous_hash then some (oldest.index - 1) else none
          ]
        ]
      ]

  unfoldable pub ancestor_of : Blockchain F → Option ReadBlocks → Block → Option ℕ
  ancestor_of chain db oldest = elim (get oldest.previous_hash chain.block_hashes) [
    | some index ↦ some index
    | none ↦ stored_ancestor chain db oldest
  ]

  -- `fork_beats_main`
  unfoldable pub beats_main : Blockchain F → Option ReadBlocks → ℕ → ℕ → Bool
  beats_main chain db ancestor_index fork_work =
      if leb chain.blocks_offset ancestor_index
      then ltb (chain_work_of 0 (keep (λ b. ltb ancestor_index b.index) chain.blocks)) fork_work
      else elim db [
        | none ↦ false
        | some read ↦
            let pre_window : List Block =
              elim (read (ancestor_index + 1) (chain.blocks_offset - (ancestor_index + 1))) [
                | none ↦ []
                | some blocks ↦ blocks
              ] in
            ltb (saturating_add128 (chain_work_of 0 pre_window) (chain_work_of 0 chain.blocks))
              fork_work
      ]

  -- A fork with an ancestor, as a candidate against the best one.
  unfoldable pub better :
      Blockchain F → Option ReadBlocks → Option Candidate → List Block → ℕ → Option Candidate
  better chain db best fork_chain ancestor_index =
      let fork_work = chain_work_of 0 fork_chain in
      if not (beats_main chain db ancestor_index fork_work)
      then best
      else heavier best (fork_chain, ancestor_index, fork_work)

  -- The body of the loop over the pool's keys.
  unfoldable pub consider :
      Blockchain F
      → Option ReadBlocks
      → List Bytes
      → Option Candidate
      → Bytes × Block
      → Option Candidate
  consider chain db referenced best (hash, tip) =
      if contains hash referenced then best else elim (first (trace_fork_chain chain tip)) [
        | none ↦ best
        | some oldest ↦ elim (ancestor_of chain db oldest) [
          | none ↦ best
          | some ancestor_index ↦ better chain db best (trace_fork_chain chain tip) ancestor_index
        ]
      ]

  unfoldable pub consider_all :
      Blockchain F
      → Option ReadBlocks
      → List Bytes
      → Option Candidate
      → Map Bytes Block
      → Option Candidate
  consider_all chain db referenced best [] = best
  consider_all chain db referenced best (e ∷ es) =
      consider_all chain db referenced (consider chain db referenced best e) es

  unfoldable pub find_longest_fork : Blockchain F → Option ReadBlocks → Option (List Block × ℕ)
  find_longest_fork chain db =
      elim (consider_all chain db (map (λ b. b.previous_hash) (values chain.orphan_pool)) none
        chain.orphan_pool) [ none ↦ none | some (fork, ancestor, work) ↦ some (fork, ancestor) ]
