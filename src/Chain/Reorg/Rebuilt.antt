-- ===== src/Chain/Reorg/Rebuilt.antt =====
-- The state after a reorganisation (`reorg_to` and `apply_in_memory` of
-- lootcoin-node/src/blockchain.rs), against a node that starts afresh and takes the blocks one by one.
use lootcoin.Base.{
  ℕ, ◌≡◌, refl, ◌∙◌, ap, subst, ◌⊎◌, inl, inr, Bool-cases, Option-cases, List, [], ◌∷◌, ◌++◌,
  Option, none, some, first, u64_mod, saturating_add64, saturating_add64_lem, ◌<◌, ltb, arith,
}
use lootcoin.Core.{Block, Core}
use lootcoin.Chain.State.{Blockchain, reorged}
use lootcoin.Chain.Update.{refused, update_state}
use lootcoin.Chain.Update.Runs.{Runs, done, applies, Runs-blocks}
use lootcoin.Chain.Window.{new, seed_pot}
use lootcoin.Chain.Fork.{ReadBlocks, find_longest_fork}
use lootcoin.Chain.Reorg.{
  add_orphan, replay, reset_to, replay_from_genesis, reorg_to, new_canonical, displaced,
  choose_fork, apply_in_memory,
}
use lootcoin.Chain.Reorg.Outcomes.{Update-cases}

-- A node that has genesis alone, with the settings and the counters of another.
abbrev pub fresh : {F : Type 0} → Blockchain F → Block → Blockchain F
fresh chain genesis = record (seed_pot (new chain.initial_difficulty genesis) chain.genesis_pot) {
  metrics = chain.metrics;
}

module _ {F : Type 0} (core : Core F) (now_secs : ℕ) where
  -- What follows is nothing, or starts with a block that is refused.
  abbrev pub Stops : Blockchain F → List Block → Type 0
  Stops chain [] = Unit
  Stops chain (block ∷ blocks) = update_state core now_secs chain block ≡ refused

  -- What stands before the blocks: nothing before genesis, else what the database has up to them.
  abbrev pub IsHistory : Option ReadBlocks → List Block → List Block → Type 0
  IsHistory db [] prefix = prefix ≡ []
  IsHistory db (b ∷ bs) prefix =
      ((b.index ≡ 0) × (prefix ≡ []))
      ⊎ ((read : ReadBlocks) × (db ≡ some read) × (read 0 b.index ≡ some prefix))

  -- The database cannot be read up to the blocks.
  abbrev pub IsUnreadable : Option ReadBlocks → List Block → Type 0
  IsUnreadable db canonical =
      (b : Block) × (read : ReadBlocks) × (first canonical ≡ some b)
      × (db ≡ some read)
      × (read 0 b.index ≡ none)

  -- A fresh node that takes the blocks behind genesis, up to the first that it refuses.
  pub record IsRebuilt (chain : Blockchain F) (db : Option ReadBlocks) (canonical : List Block)
      (chain' : Blockchain F) : Type 0 where
    pub prefix : List Block
    pub genesis : Block
    pub accepted : List Block
    pub rest : List Block
    pub history : IsHistory db canonical prefix
    pub whole : prefix ++ canonical ≡ genesis ∷ accepted ++ rest
    pub takes : Runs core now_secs (fresh chain genesis) accepted chain'
    pub stops : Stops chain' rest
    pub blocks : chain'.blocks ≡ genesis ∷ accepted

  replay-Runs :
      (blocks : List Block) (chain chain' : Blockchain F)
      → replay core now_secs chain blocks ≡ some chain'
      → (accepted : List Block) × (rest : List Block) × (blocks ≡ accepted ++ rest)
        × Runs core now_secs chain accepted chain'
        × Stops chain' rest
  unfolding replay
  replay-Runs [] chain chain' h =
      let same : chain ≡ chain' = ground arith in
      ([], [], refl, subst (Runs core now_secs chain []) same (done chain), tt)
  replay-Runs (b ∷ blocks) chain chain' h =
      elim (Update-cases (update_state core now_secs chain b)) [
        | inl e ↦
            (let same : chain ≡ chain' = ground arith in
              (
                [],
                b ∷ blocks,
                refl,
                subst (Runs core now_secs chain []) same (done chain),
                subst (λ c. update_state core now_secs c b ≡ refused) same e,
              ))
        | inr (inl e) ↦ absurd (ground arith)
        | inr (inr (c, e)) ↦
            (let (accepted, rest, split, takes, stops) =
                replay-Runs blocks c chain' (rw (e, replay) at h) in
              (
                b ∷ accepted,
                rest,
                ap (λ l. b ∷ l) split,
                applies chain c chain' b accepted e takes,
                stops,
              ))
      ]

  reset_to-fresh :
      (chain : Blockchain F) (genesis : Block)
      → chain.genesis_pot < u64_mod
      → reset_to chain genesis ≡ fresh chain genesis
  unfolding reset_to new seed_pot
  reset_to-fresh chain genesis fits =
      let unsaturated : saturating_add64 0 chain.genesis_pot ≡ chain.genesis_pot =
        omega (arith, saturating_add64_lem 0 chain.genesis_pot (omega arith)) in
      rw unsaturated refl

  rebuilds_from :
      (chain : Blockchain F) (db : Option ReadBlocks) (canonical prefix blocks : List Block)
      (chain' : Blockchain F)
      → prefix ++ canonical ≡ blocks
      → chain.genesis_pot < u64_mod
      → IsHistory db canonical prefix
      → replay_from_genesis core now_secs chain blocks ≡ some chain'
      → IsRebuilt chain db canonical chain'
  unfolding replay_from_genesis seed_pot new
  rebuilds_from chain db canonical prefix [] chain' e fits history h = absurd (ground arith)
  rebuilds_from chain db canonical prefix (genesis ∷ blocks) chain' e fits history h =
      let (accepted, rest, split, takes, stops) =
        replay-Runs blocks (reset_to chain genesis) chain' h in
      let run : Runs core now_secs (fresh chain genesis) accepted chain' =
        subst (λ c. Runs core now_secs c accepted chain') (reset_to-fresh chain genesis fits)
          takes in
      record {
        prefix = prefix;
        genesis = genesis;
        accepted = accepted;
        rest = rest;
        history = history;
        whole = e ∙ ap (λ l. genesis ∷ l) split;
        takes = run;
        stops = stops;
        blocks = (Runs-blocks core now_secs (fresh chain genesis) chain' accepted run).0;
      }

  rebuilds :
      (chain : Blockchain F) (db : Option ReadBlocks) (canonical prefix : List Block)
      (chain' : Blockchain F)
      → chain.genesis_pot < u64_mod
      → IsHistory db canonical prefix
      → replay_from_genesis core now_secs chain (prefix ++ canonical) ≡ some chain'
      → IsRebuilt chain db canonical chain'
  rebuilds chain db canonical prefix chain' fits history h =
      rebuilds_from chain db canonical prefix (prefix ++ canonical) chain' refl fits history h

  reorg_to-IsRebuilt :
      (chain : Blockchain F) (canonical : List Block) (db : Option ReadBlocks)
      (chain' : Blockchain F)
      → chain.genesis_pot < u64_mod
      → reorg_to core now_secs chain canonical db ≡ some chain'
      → (IsUnreadable db canonical × (chain' ≡ chain)) ⊎ IsRebuilt chain db canonical chain'
  unfolding reorg_to
  reorg_to-IsRebuilt chain [] db chain' fits h = absurd (ground arith)
  reorg_to-IsRebuilt chain (b ∷ bs) db chain' fits h = elim (Bool-cases (ltb 0 b.index)) [
    | inr e ↦
        inr (rebuilds chain db (b ∷ bs) [] chain' fits (inl (ground arith, refl)) (ground arith))
    | inl e ↦ elim (Option-cases db) [
      | inl panic ↦ absurd (ground arith)
      | inr (read, given) ↦ elim (Option-cases (read 0 b.index)) [
        | inl failed ↦ inl ((b, read, refl, given, failed), ground arith)
        | inr (prefix, found) ↦ inr (
            rebuilds chain db (b ∷ bs) prefix chain' fits (inr (read, given, found))
              (rw (given, e, found) at h))
      ]
    ]
  ]

  -- What a reorganisation of a chain leaves: for the heaviest fork, the rebuilt state, or the chain
  -- itself where the database cannot be read.
  abbrev pub Reorganised :
      Blockchain F → Option ReadBlocks → List Block → List Block → Blockchain F → Type 0
  Reorganised chain db old_blocks new_blocks chain' =
      (ancestor : ℕ) × (find_longest_fork chain db ≡ some (new_blocks, ancestor))
      × (old_blocks ≡ displaced chain ancestor)
      × ((IsUnreadable db (new_canonical chain new_blocks ancestor) × (chain' ≡ chain))
          ⊎ IsRebuilt chain db (new_canonical chain new_blocks ancestor) chain')

  choose_fork-Reorganised :
      (chain : Blockchain F) (db : Option ReadBlocks) (old_blocks new_blocks : List Block)
      (chain' : Blockchain F)
      → chain.genesis_pot < u64_mod
      → choose_fork core now_secs chain db ≡ some (reorged old_blocks new_blocks, chain')
      → Reorganised chain db old_blocks new_blocks chain'
  unfolding choose_fork
  choose_fork-Reorganised chain db old_blocks new_blocks chain' fits h =
      elim (Option-cases (find_longest_fork chain db)) [
        | inl e ↦ absurd (ground arith)
        | inr ((fork, ancestor), e) ↦
            elim (Option-cases
              (reorg_to core now_secs chain (new_canonical chain fork ancestor) db)) [
                | inl e' ↦ absurd (ground arith)
                | inr (c, e') ↦
                    (let same : fork ≡ new_blocks = ground arith in
                      let olds : old_blocks ≡ displaced chain ancestor = ground arith in
                      (
                        ancestor,
                        e ∙ ap (λ f. some (f, ancestor)) same,
                        olds,
                        subst
                            (λ f.
                              (IsUnreadable db (new_canonical chain f ancestor) × (chain' ≡ chain))
                              ⊎ IsRebuilt chain db (new_canonical chain f ancestor) chain')
                            same
                            (reorg_to-IsRebuilt chain (new_canonical chain fork ancestor) db chain'
                              fits (ground arith)),
                      ))
              ]
      ]

  -- When `apply_in_memory` answers `Reorged`, the new blocks are the fork that `find_longest_fork`
  -- finds with the block in the orphan pool, and the old ones are those behind its ancestor. The
  -- state is that of a node that starts with the first block of the new chain alone, with the
  -- settings and counters of the old one, and accepts the others one after another, up to the first
  -- that it refuses; it holds the first block and the accepted ones. The new chain is the blocks in
  -- memory up to the ancestor and the fork, or the fork alone when the ancestor is before the
  -- window; and, unless it starts at position 0, in front of it what the database has up to there.
  -- Only where the database cannot be read is the state the chain as it was, with the block in the
  -- orphan pool. The seeded pot fits a `u64`.
  pub apply_in_memory-Reorganised :
      (chain : Blockchain F) (block : Block) (db : Option ReadBlocks)
      (old_blocks new_blocks : List Block) (chain' : Blockchain F)
      → chain.genesis_pot < u64_mod
      → apply_in_memory core now_secs chain block db ≡ some (reorged old_blocks new_blocks, chain')
      → Reorganised
          (record chain { orphan_pool = add_orphan chain.orphan_pool block })
          db
          old_blocks
          new_blocks
          chain'
  unfolding apply_in_memory
  apply_in_memory-Reorganised chain block db old_blocks new_blocks chain' fits h =
      choose_fork-Reorganised (record chain { orphan_pool = add_orphan chain.orphan_pool block }) db
        old_blocks new_blocks chain' fits (ground arith)
