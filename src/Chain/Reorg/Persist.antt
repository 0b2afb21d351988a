-- ===== src/Chain/Reorg/Persist.antt =====
-- What `apply_block` (lootcoin-node/src/blockchain.rs) does to the chain after `apply_in_memory`.
use lootcoin.Base.{
  ℕ, ◌≡◌, refl, ◌∙◌, sym, subst, Option-cases, inl, inr, nat_eq, List, [], ◌∷◌, Option, none, some,
  Map, last, arith,
}
use lootcoin.Core.{Block, Core}
use lootcoin.Chain.State.{Blockchain, Payout, BlockOutcome, applied, reorged, orphaned, rejected}
use lootcoin.Chain.Window.{prune_to_window, drain_payouts_for_block, take_all_settled_payouts}
use lootcoin.Chain.Reorg.{
  Store, apply_in_memory, drain_all, persist_applied, persist_reorged, persist, apply_block,
}
use lootcoin.Chain.Reorg.Pool.{IsBounded}
use lootcoin.Chain.Reorg.Outcomes.{apply_in_memory-IsBounded}

module _ {F : Type 0} where
  prune_to_window-pool :
      (chain : Blockchain F) → (prune_to_window chain).orphan_pool ≡ chain.orphan_pool
  unfolding prune_to_window
  prune_to_window-pool chain = ground arith

  drain_all-pool :
      (bs : List Block) (chain : Blockchain F) (payouts : Map ℕ (List Payout))
      → (drain_all chain bs payouts).1.orphan_pool ≡ chain.orphan_pool
  unfolding drain_all drain_payouts_for_block
  drain_all-pool [] chain payouts = refl
  drain_all-pool (b ∷ bs) chain payouts =
      drain_all-pool bs (drain_payouts_for_block chain b.index).1 _

  module _ {D : Type 0} (store : Store F D) where
    abbrev PoolIs : Blockchain F → Option (BlockOutcome × D × Blockchain F) → Type 0
    PoolIs chain none = Unit
    PoolIs chain (some (o, db, chain')) = chain'.orphan_pool ≡ chain.orphan_pool

    persist-pool :
        (db : D) (o : BlockOutcome) (chain : Blockchain F) → PoolIs chain (persist store db o chain)
    unfolding persist persist_applied persist_reorged drain_payouts_for_block
        take_all_settled_payouts
    persist-pool db applied chain = elim (Option-cases (last chain.blocks)) [
      | inl e ↦ rw (e, persist, persist_applied) tt
      | inr (block, e) ↦
          rw (e, persist, persist_applied)
            (prune_to_window-pool (drain_payouts_for_block chain block.index).1)
    ]
    persist-pool db (reorged [] news) chain =
        prune_to_window-pool (take_all_settled_payouts chain).1
    persist-pool db (reorged (b ∷ olds) news) chain =
        prune_to_window-pool (drain_all chain news []).1 ∙ drain_all-pool news chain []
    persist-pool db orphaned chain = refl
    persist-pool db rejected chain = refl

    -- `apply_block` leaves an orphan pool within its caps, if the pool was so before, whatever the
    -- outcome.
    pub apply_block-IsBounded :
        (core : Core F) (now_secs : ℕ) (db : D) (chain : Blockchain F) (block : Block)
        (o : BlockOutcome) (db' : D) (chain' : Blockchain F)
        → IsBounded chain.orphan_pool
        → apply_block store core now_secs db chain block ≡ some (o, db', chain')
        → IsBounded chain'.orphan_pool
    unfolding apply_block
    apply_block-IsBounded core now_secs db chain block o db' chain' w h =
        let read = some (store.get_blocks_range db) in
        elim (Option-cases (apply_in_memory core now_secs chain block read)) [
          | inl panic ↦ absurd (ground arith)
          | inr ((o1, c), e) ↦
              let left : persist store db o1 c ≡ some (o, db', chain') = rw (e, apply_block) at h in
              let same : chain'.orphan_pool ≡ c.orphan_pool =
                subst (PoolIs c) left (persist-pool db o1 c) in
              subst IsBounded (sym same)
                (apply_in_memory-IsBounded core now_secs chain block read o1 c w e)
        ]
