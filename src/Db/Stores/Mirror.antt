-- ===== src/Db/Stores/Mirror.antt =====
-- The blocks table beside the chain in memory: `apply_block` of lootcoin-node/src/blockchain.rs on the
-- database of lootcoin-node/src/db.rs.
use lootcoin.Base.{
  ℕ, ◌+◌, ◌-◌, ◌%◌, ◌≡◌, refl, ◌∙◌, ap, sym, subst, Bool, true, false, ◌&&◌, Bool-cases,
  Option-cases, inl, inr, nat_eq, List, [], ◌∷◌, ◌++◌, length-append, length-take, take-append-drop,
  last-append, last, take, drop, Option, none, some, length, append_assoc, ltb, ◌==◌, arith,
}
use lootcoin.Core.{Block, Core}
use lootcoin.Chain.State.{Blockchain, BlockOutcome, applied, reorged, orphaned, rejected}
use lootcoin.Chain.Validate.{get_height}
use lootcoin.Chain.Update.{updated, update_state}
use lootcoin.Chain.Update.Extends.{update_state-Accepts, update_state-extends, Accepts-Grows}
use lootcoin.Chain.Window.{reorg_window, snapshot, prune_to_window, drain_payouts_for_block}
use lootcoin.Chain.Reorg.{
  checkpoint_interval, apply_in_memory, apply_block, persist, persist_applied,
}
use lootcoin.Chain.Reorg.Outcomes.{Leaves, apply_in_memory-Leaves}
use lootcoin.Db.Redb.{Redb, IsLawful, nat_ord}
use lootcoin.Db.Tables.{Db, save_checkpoint}
use lootcoin.Db.Tables.Blocks.{IsStored}
use lootcoin.Db.Index.{Codec, save_applied_block}
use lootcoin.Db.Index.Blocks.{save_applied_block-IsStored}
use lootcoin.Db.Stores.{chain_store}

abbrev pub is_reorged : BlockOutcome → Bool
is_reorged applied = false
is_reorged (reorged olds news) = true
is_reorged orphaned = false
is_reorged rejected = false

module _ {R : Redb} {F : Type 0} where
  -- The table holds the chain: the blocks that were pruned, and then those in memory.
  pub record Mirrors (db : Db R F) (chain : Blockchain F) : Type 0 where
    pub history : List Block
    pub stored : IsStored db (history ++ chain.blocks)
    pub offset : length history ≡ chain.blocks_offset

  -- The database and the chain that are left, if the process goes on.
  abbrev Left : Option (Db R F × Blockchain F) → Type 0
  Left none = Unit
  Left (some (db, chain)) = Mirrors db chain

  abbrev Answered : Option (BlockOutcome × Db R F × Blockchain F) → Type 0
  Answered none = Unit
  Answered (some (o, db, chain)) = Mirrors db chain

  abbrev outcome_kept : Option (BlockOutcome × Db R F × Blockchain F) → Bool
  outcome_kept none = false
  outcome_kept (some (o, db, chain)) = is_reorged o

  pub prune_to_window-Mirrors :
      (db : Db R F) (chain : Blockchain F) → Mirrors db chain → Mirrors db (prune_to_window chain)
  unfolding prune_to_window
  prune_to_window-Mirrors db chain m = elim (Bool-cases (ltb reorg_window (length chain.blocks))) [
    | inr small ↦ rw (small, prune_to_window) m
    | inl large ↦
        let dropped = length chain.blocks - reorg_window in
        let whole : (m.history ++ take dropped chain.blocks) ++ drop dropped chain.blocks
            ≡ m.history ++ chain.blocks =
          append_assoc m.history (take dropped chain.blocks) (drop dropped chain.blocks)
          ∙ ap (◌++◌ m.history) (take-append-drop dropped chain.blocks) in
        let held : IsStored db
            ((m.history ++ take dropped chain.blocks) ++ drop dropped chain.blocks) =
          subst (IsStored db) (sym whole) m.stored in
        let start : length (m.history ++ take dropped chain.blocks)
            ≡ chain.blocks_offset + dropped =
          ground (
            arith,
            length-append m.history (take dropped chain.blocks),
            length-take dropped chain.blocks,
            m.offset,
          ) in
        rw (large, prune_to_window)
          (record {
            history = m.history ++ take dropped chain.blocks;
            stored = held;
            offset = start;
          })
  ]

  module _ (lawful : IsLawful R) (codec : Codec) (core : Core F) (now_secs : ℕ) where
    -- The state that `persist_applied` leaves in memory, before pruning, and its database write.
    abbrev drained : Blockchain F → Block → Blockchain F
    drained chain block = (drain_payouts_for_block chain block.index).1

    abbrev saved : Db R F → Blockchain F → Block → Db R F
    saved db chain block =
        save_applied_block codec db block (drained chain block).pending_tickets
          (drain_payouts_for_block chain block.index).0

    persist_applied-blocks :
        (db : Db R F) (chain : Blockchain F) (block : Block)
        → last chain.blocks ≡ some block
        → (checked : Db R F) × (persist_applied (chain_store codec) db chain
            ≡ some (checked, prune_to_window (drained chain block)))
          × (checked.blocks ≡ (saved db chain block).blocks)
    unfolding persist_applied save_checkpoint
    persist_applied-blocks db chain block tip =
        let due = ltb 0 block.index && block.index % checkpoint_interval == 0 in
        elim (Bool-cases due) [
          | inr early ↦ (saved db chain block, rw (tip, persist_applied, early) refl, refl)
          | inl now ↦ elim (Option-cases (snapshot (drained chain block))) [
            | inl empty ↦ (saved db chain block, rw (tip, persist_applied, now, empty) refl, refl)
            | inr (state, taken) ↦ (
              save_checkpoint (saved db chain block) block.index state,
              rw (tip, persist_applied, now, taken) refl,
              refl,
            )
          ]
        ]

    persist_applied-Mirrors :
        (db : Db R F) (chain : Blockchain F) (history recent : List Block) (block : Block)
        (db' : Db R F) (chain' : Blockchain F)
        → chain.blocks ≡ recent ++ block ∷ []
        → IsStored db (history ++ recent)
        → length history ≡ chain.blocks_offset
        → block.index ≡ length (history ++ recent)
        → persist_applied (chain_store codec) db chain ≡ some (db', chain')
        → Mirrors db' chain'
    persist_applied-Mirrors db chain history recent block db' chain' shape stored offset at h =
        let tip : last chain.blocks ≡ some block = ap last shape ∙ last-append recent block in
        let (checked, left, written) = persist_applied-blocks db chain block tip in
        let same : some (checked, prune_to_window (drained chain block)) ≡ some (db', chain') =
          sym left ∙ h in
        let whole : (history ++ recent) ++ block ∷ [] ≡ history ++ chain.blocks =
          append_assoc history recent (block ∷ []) ∙ ap (◌++◌ history) (sym shape) in
        let appended : IsStored checked (history ++ chain.blocks) = λ i.
          ap (λ t. R.find t i) written
          ∙ subst (IsStored (saved db chain block)) whole
              (save_applied_block-IsStored lawful codec db (history ++ recent) block
                (drained chain block).pending_tickets (drain_payouts_for_block chain block.index).0
                stored at)
              i in
        let pruned : Mirrors checked (prune_to_window (drained chain block)) =
          prune_to_window-Mirrors checked (drained chain block) (
            unfold drain_payouts_for_block in
            record { history = history; stored = appended; offset = offset }) in
        subst Left same pruned

    applied-Mirrors :
        (db : Db R F) (chain chain1 : Blockchain F) (block : Block) (db' : Db R F)
        (chain' : Blockchain F)
        → Mirrors db chain
        → update_state core now_secs chain block ≡ updated chain1
        → persist_applied (chain_store codec) db chain1 ≡ some (db', chain')
        → Mirrors db' chain'
    applied-Mirrors db chain chain1 block db' chain' m e h =
        let (at, _, _, _) = update_state-extends core now_secs chain block chain1 e in
        let g =
          Accepts-Grows core now_secs chain block chain1
            (update_state-Accepts core now_secs chain block chain1 e) in
        persist_applied-Mirrors db chain1 m.history chain.blocks block db' chain' g.blocks m.stored
          (m.offset ∙ sym g.blocks_offset)
          (at
            ∙ (unfold get_height in ground (arith, m.offset, length-append m.history chain.blocks)))
          h

    persist-Mirrors :
        (db : Db R F) (chain chain1 : Blockchain F) (block : Block) (o1 o : BlockOutcome)
        (db' : Db R F) (chain' : Blockchain F)
        → Mirrors db chain
        → Leaves core now_secs chain block o1 chain1
        → persist (chain_store codec) db o1 chain1 ≡ some (o, db', chain')
        → is_reorged o ≡ false
        → Mirrors db' chain'
    unfolding persist
    persist-Mirrors db chain chain1 block applied o db' chain' m e h kept =
        elim (Option-cases (persist_applied (chain_store codec) db chain1)) [
          | inl panic ↦ absurd (ground arith)
          | inr ((d, c), wrote) ↦
              let left : some (applied, d, c) ≡ some (o, db', chain') = rw (wrote, persist) at h in
              subst Answered left (applied-Mirrors db chain chain1 block d c m e wrote)
        ]
    persist-Mirrors db chain chain1 block (reorged olds news) o db' chain' m e h kept =
        let clash : true ≡ is_reorged o = ap outcome_kept h in absurd (ground arith)
    persist-Mirrors db chain chain1 block orphaned o db' chain' m e h kept = subst Answered h (
        subst (Mirrors db) (sym e)
          (record { history = m.history; stored = m.stored; offset = m.offset }))
    persist-Mirrors db chain chain1 block rejected o db' chain' m e h kept =
        subst Answered h (subst (Mirrors db) (sym e) m)

    -- When the blocks table holds the chain, the pruned blocks and then those in memory, it holds
    -- the chain after `apply_block`, for each outcome but a reorganisation, on a lawful database.
    pub apply_block-Mirrors :
        (db : Db R F) (chain : Blockchain F) (block : Block) (o : BlockOutcome) (db' : Db R F)
        (chain' : Blockchain F)
        → Mirrors db chain
        → apply_block (chain_store codec) core now_secs db chain block ≡ some (o, db', chain')
        → is_reorged o ≡ false
        → Mirrors db' chain'
    unfolding apply_block
    apply_block-Mirrors db chain block o db' chain' m h kept =
        let read = some ((chain_store codec).get_blocks_range db) in
        elim (Option-cases (apply_in_memory core now_secs chain block read)) [
          | inl panic ↦ absurd (ground arith)
          | inr ((o1, chain1), e) ↦
              persist-Mirrors db chain chain1 block o1 o db' chain' m
                (apply_in_memory-Leaves core now_secs chain block read o1 chain1 e)
                (rw (e, apply_block) at h) kept
        ]
