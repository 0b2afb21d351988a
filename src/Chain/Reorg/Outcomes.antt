-- ===== src/Chain/Reorg/Outcomes.antt =====
-- What `apply_in_memory` of lootcoin-node/src/blockchain.rs leaves, by its outcome.
use lootcoin.Base.{
  ℕ, ◌≡◌, refl, sym, subst, ◌⊎◌, inl, inr, true, false, Bool-cases, Option-cases, List, [], ◌∷◌,
  ◌++◌, Option, none, some, ltb, arith,
}
use lootcoin.Core.{Block, Core}
use lootcoin.Chain.State.{Blockchain, BlockOutcome, applied, reorged, orphaned, rejected}
use lootcoin.Chain.Validate.{links}
use lootcoin.Chain.Update.{Update, refused, aborted, updated, update_state}
use lootcoin.Chain.Update.Extends.{Accepts-Grows, update_state-Accepts}
use lootcoin.Chain.Fork.{ReadBlocks, validate_block_standalone, find_longest_fork}
use lootcoin.Chain.Reorg.{
  add_orphan, replay, reset_to, replay_from_genesis, reorg_to, new_canonical, choose_fork,
  apply_in_memory,
}
use lootcoin.Chain.Reorg.Pool.{IsBounded, add_orphan-IsBounded}

pub Update-cases :
    {F : Type 0} (u : Update F)
    → (u ≡ refused) ⊎ ((u ≡ aborted) ⊎ ((c : Blockchain F) × (u ≡ updated c)))
Update-cases refused = inl refl
Update-cases aborted = inr (inl refl)
Update-cases (updated c) = inr (inr (c, refl))

module _ {F : Type 0} (core : Core F) (now_secs : ℕ) where
  update_state-pool :
      (chain : Blockchain F) (b : Block) (c : Blockchain F)
      → update_state core now_secs chain b ≡ updated c
      → c.orphan_pool ≡ chain.orphan_pool
  update_state-pool chain b c e =
      let g =
        Accepts-Grows core now_secs chain b c (update_state-Accepts core now_secs chain b c e) in
      g.orphan_pool

  replay-pool :
      (blocks : List Block) (chain chain' : Blockchain F)
      → IsBounded chain.orphan_pool
      → replay core now_secs chain blocks ≡ some chain'
      → IsBounded chain'.orphan_pool
  unfolding replay
  replay-pool [] chain chain' w h = subst IsBounded (ground arith) w
  replay-pool (b ∷ blocks) chain chain' w h =
      elim (Update-cases (update_state core now_secs chain b)) [
        | inl e ↦ subst IsBounded (ground arith) w
        | inr (inl e) ↦ absurd (ground arith)
        | inr (inr (c, e)) ↦
            replay-pool blocks c chain' (subst IsBounded (sym (update_state-pool chain b c e)) w)
              (rw (e, replay) at h)
      ]

  replay_from_genesis-pool :
      (blocks : List Block) (chain chain' : Blockchain F)
      → replay_from_genesis core now_secs chain blocks ≡ some chain'
      → IsBounded chain'.orphan_pool
  unfolding replay_from_genesis
  replay_from_genesis-pool [] chain chain' h = absurd (ground arith)
  replay_from_genesis-pool (genesis ∷ blocks) chain chain' h =
      replay-pool blocks (reset_to chain genesis) chain'
        (unfold reset_to in record { size = omega arith; heights = λ i. omega arith }) h

  -- A reorganisation either leaves the state alone, where the history cannot be read, or ends in a
  -- replay from genesis.
  reorg_to-cases :
      (chain : Blockchain F) (canonical : List Block) (db : Option ReadBlocks)
      (chain' : Blockchain F)
      → reorg_to core now_secs chain canonical db ≡ some chain'
      → (chain' ≡ chain)
        ⊎ ((blocks : List Block) × (replay_from_genesis core now_secs chain blocks ≡ some chain'))
  unfolding reorg_to
  reorg_to-cases chain [] db chain' h = absurd (ground arith)
  reorg_to-cases chain (b ∷ bs) none chain' h = inr (b ∷ bs, ground arith)
  reorg_to-cases chain (b ∷ bs) (some read) chain' h = elim (Bool-cases (ltb 0 b.index)) [
    | inr e ↦ inr (b ∷ bs, ground arith)
    | inl e ↦ elim (Option-cases (read 0 b.index)) [
      | inl failed ↦ inl (ground arith)
      | inr (prefix, found) ↦ inr (prefix ++ b ∷ bs, rw (e, found) at h)
    ]
  ]

  reorg_to-pool :
      (chain : Blockchain F) (canonical : List Block) (db : Option ReadBlocks)
      (chain' : Blockchain F)
      → IsBounded chain.orphan_pool
      → reorg_to core now_secs chain canonical db ≡ some chain'
      → IsBounded chain'.orphan_pool
  reorg_to-pool chain canonical db chain' w h = elim (reorg_to-cases chain canonical db chain' h) [
    | inl same ↦ subst (λ (c : Blockchain F). IsBounded c.orphan_pool) (sym same) w
    | inr (blocks, e) ↦ replay_from_genesis-pool blocks chain chain' e
  ]

  choose_fork-pool :
      (chain : Blockchain F) (db : Option ReadBlocks) (o : BlockOutcome) (chain' : Blockchain F)
      → IsBounded chain.orphan_pool
      → choose_fork core now_secs chain db ≡ some (o, chain')
      → IsBounded chain'.orphan_pool
  unfolding choose_fork
  choose_fork-pool chain db o chain' w h = elim (Option-cases (find_longest_fork chain db)) [
    | inl e ↦
        (let same : chain ≡ chain' = ground arith in
          subst (λ (c : Blockchain F). IsBounded c.orphan_pool) same w)
    | inr ((fork, ancestor), e) ↦
        elim (Option-cases (reorg_to core now_secs chain (new_canonical chain fork ancestor) db)) [
          | inl e' ↦ absurd (ground arith)
          | inr (c, e') ↦
              reorg_to-pool chain (new_canonical chain fork ancestor) db chain' w (ground arith)
        ]
  ]

  -- Whatever the block and the outcome, when `apply_in_memory` answers it leaves an orphan pool
  -- within its size and its cap at each height, if the pool was so before.
  pub apply_in_memory-IsBounded :
      (chain : Blockchain F) (block : Block) (db : Option ReadBlocks) (o : BlockOutcome)
      (chain' : Blockchain F)
      → IsBounded chain.orphan_pool
      → apply_in_memory core now_secs chain block db ≡ some (o, chain')
      → IsBounded chain'.orphan_pool
  unfolding apply_in_memory
  apply_in_memory-IsBounded chain block db o chain' w h =
      elim (Update-cases (update_state core now_secs chain block)) [
        | inr (inl e) ↦ absurd (ground arith)
        | inr (inr (c, e)) ↦
            subst IsBounded (sym (update_state-pool chain block chain' (ground arith))) w
        | inl e ↦ elim (Bool-cases (links chain block)) [
          | inl linked ↦
              (let same : chain ≡ chain' = ground arith in
                subst (λ (c : Blockchain F). IsBounded c.orphan_pool) same w)
          | inr loose ↦ elim (Bool-cases (validate_block_standalone core chain block)) [
            | inr bad ↦
                (let same : chain ≡ chain' = ground arith in
                  subst (λ (c : Blockchain F). IsBounded c.orphan_pool) same w)
            | inl good ↦
                choose_fork-pool (record chain { orphan_pool = add_orphan chain.orphan_pool block })
                  db o chain' (add_orphan-IsBounded chain.orphan_pool block w) (ground arith)
          ]
        ]
      ]

  -- What each outcome that leaves the chain alone leaves behind.
  abbrev pub Leaves : Blockchain F → Block → BlockOutcome → Blockchain F → Type 0
  Leaves chain block rejected chain' = chain' ≡ chain
  Leaves chain block orphaned chain' =
      chain' ≡ record chain { orphan_pool = add_orphan chain.orphan_pool block }
  Leaves chain block applied chain' = update_state core now_secs chain block ≡ updated chain'
  Leaves chain block (reorged old new) chain' =
      (update_state core now_secs chain block ≡ refused)
      × (links chain block ≡ false)
      × (validate_block_standalone core chain block ≡ true)

  -- What each outcome of `apply_in_memory` means for the state, when it answers: after `Rejected`
  -- it is the same; after `Orphaned` the same but for the orphan pool, which has taken the block;
  -- after `Applied` it is what `update_state` gives; and `Reorged` is answered only to a block that
  -- `update_state` refuses, that does not follow the tip, and that passes the standalone checks.
  pub apply_in_memory-Leaves :
      (chain : Blockchain F) (block : Block) (db : Option ReadBlocks) (o : BlockOutcome)
      (chain' : Blockchain F)
      → apply_in_memory core now_secs chain block db ≡ some (o, chain')
      → Leaves chain block o chain'
  unfolding apply_in_memory choose_fork
  apply_in_memory-Leaves chain block db rejected chain' h = ground arith
  apply_in_memory-Leaves chain block db orphaned chain' h = ground arith
  apply_in_memory-Leaves chain block db applied chain' h = ground arith
  apply_in_memory-Leaves chain block db (reorged old new) chain' h =
      (ground arith, ground arith, ground arith)

  -- A replay ends at the first block that is refused: what follows it is never looked at.
  pub replay-stops :
      (before rest : List Block) (bad : Block) (chain c : Blockchain F)
      → replay core now_secs chain before ≡ some c
      → update_state core now_secs c bad ≡ refused
      → replay core now_secs chain (before ++ bad ∷ rest) ≡ some c
  unfolding replay
  replay-stops [] rest bad chain c h refusal =
      let same : chain ≡ c = ground arith in
      rw (subst (λ d. update_state core now_secs d bad ≡ refused) (sym same) refusal, replay) h
  replay-stops (b ∷ before) rest bad chain c h refusal =
      elim (Update-cases (update_state core now_secs chain b)) [
        | inl e ↦ rw (e, replay) (rw (e, replay) at h)
        | inr (inl e) ↦ absurd (ground arith)
        | inr (inr (d, e)) ↦
            rw (e, replay) (replay-stops before rest bad d c (rw (e, replay) at h) refusal)
      ]
