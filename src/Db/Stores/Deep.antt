-- ===== src/Db/Stores/Deep.antt =====
-- The blocks table after a reorganisation from before the window: the branch of `apply_block` in
-- lootcoin-node/src/blockchain.rs that has no displaced blocks.
use lootcoin.Base.{
  ℕ, zero, suc, ◌≡◌, refl, ◌∙◌, ap, sym, subst, inl, inr, Option-cases, nat_eq, List, [], ◌∷◌, ◌++◌,
  length-append, drop, some, Map, get_elem?, length, append_assoc, ◌==◌, if◌then◌else◌, arith,
}
use lootcoin.Core.{Block, LootTicket, Core}
use lootcoin.Chain.State.{Blockchain, Payout, BlockOutcome, applied, reorged, orphaned, rejected}
use lootcoin.Chain.Window.{take_all_settled_payouts}
use lootcoin.Chain.Window.Invariant.{Aligned}
use lootcoin.Chain.Reorg.{
  save_blocks, persist_applied, persist_reorged, persist, apply_in_memory, apply_block,
}
use lootcoin.Db.Redb.{Redb, IsLawful, nat_ord}
use lootcoin.Db.Tables.{Db, save_block_indexed, delete_checkpoints_from}
use lootcoin.Db.Tables.Blocks.{IsStored}
use lootcoin.Db.Index.{
  Codec, clear_index, index_blocks, write_all_payouts, with_tickets, rebuild_indices_with_tickets,
}
use lootcoin.Db.Index.Blocks.{write_payouts-blocks, write_payouts_of-blocks}
use lootcoin.Db.Stores.{chain_store}

drop-nil : (n : ℕ) (bs : List Block) → bs ≡ [] → drop n bs ≡ []
drop-nil zero bs e = e
drop-nil (suc n) [] e = refl
drop-nil (suc n) (b ∷ bs) e = absurd (ground arith)

drop-suc : (n : ℕ) (bs : List Block) → drop n (drop 1 bs) ≡ drop (suc n) bs
drop-suc n [] = drop-nil n [] refl
drop-suc n (b ∷ bs) = refl

get_elem?-replace :
    (bs olds : List Block) (b : Block) (i : ℕ)
    → (if length bs == i then some b else get_elem? (bs ++ olds) i)
      ≡ get_elem? (bs ++ b ∷ drop 1 olds) i
get_elem?-replace [] olds b zero = refl
get_elem?-replace [] [] b (suc i) = ground arith
get_elem?-replace [] (o ∷ olds) b (suc i) = ground arith
get_elem?-replace (c ∷ bs) olds b zero = ground arith
get_elem?-replace (c ∷ bs) olds b (suc i) = ground (arith, get_elem?-replace bs olds b i)

module _ {R : Redb} {F : Type 0} (lawful : IsLawful R) (codec : Codec) where
  save_block_indexed-IsStored :
      (db : Db R F) (bs olds : List Block) (b : Block)
      → IsStored db (bs ++ olds)
      → b.index ≡ length bs
      → IsStored (save_block_indexed db b) (bs ++ b ∷ drop 1 olds)
  unfolding save_block_indexed
  save_block_indexed-IsStored db bs olds b stored at i =
      lawful.find-put db.blocks b.index i b
      ∙ ground (arith, stored i, get_elem?-replace bs olds b i)

  save_blocks-IsStored :
      (news bs olds : List Block) (db : Db R F)
      → IsStored db (bs ++ olds)
      → Aligned (length bs) news
      → IsStored (save_blocks (chain_store codec) db news) (bs ++ (news ++ drop (length news) olds))
  unfolding save_blocks
  save_blocks-IsStored [] bs olds db stored al = stored
  save_blocks-IsStored (b ∷ news) bs olds db stored al =
      let next = save_block_indexed db b in
      let tail = drop 1 olds in
      let put_in : IsStored next ((bs ++ b ∷ []) ++ tail) =
        subst (IsStored next) (sym (append_assoc bs (b ∷ []) tail))
          (save_block_indexed-IsStored db bs olds b stored al.0) in
      let longer : Aligned (length (bs ++ b ∷ [])) news =
        subst (λ n. Aligned n news) (ground (arith, length-append bs (b ∷ []))) al.1 in
      let further = save_blocks-IsStored news (bs ++ b ∷ []) tail next put_in longer in
      subst (IsStored (save_blocks (chain_store codec) next news))
        (append_assoc bs (b ∷ []) (news ++ drop (length news) tail)
          ∙ ap (λ l. bs ++ b ∷ (news ++ l)) (drop-suc (length news) olds))
        further

  pub index_blocks-blocks :
      (m : Map ℕ (List Payout)) (bs : List Block) (db : Db R F)
      → (index_blocks codec m bs db).blocks ≡ db.blocks
  unfolding index_blocks
  index_blocks-blocks m [] db = refl
  index_blocks-blocks m (b ∷ bs) db =
      index_blocks-blocks m bs _ ∙ write_payouts_of-blocks lawful codec m b.index _

  write_all_payouts-blocks :
      (m : Map ℕ (List Payout)) (db : Db R F) → (write_all_payouts codec m db).blocks ≡ db.blocks
  unfolding write_all_payouts
  write_all_payouts-blocks [] db = refl
  write_all_payouts-blocks ((i, ps) ∷ m) db =
      write_all_payouts-blocks m _ ∙ write_payouts-blocks lawful codec i ps db

  rebuild_indices-blocks :
      (db : Db R F) (tickets : List LootTicket) (m : Map ℕ (List Payout))
      → (rebuild_indices_with_tickets codec db tickets m).blocks ≡ db.blocks
  unfolding rebuild_indices_with_tickets with_tickets clear_index
  rebuild_indices-blocks db tickets m = write_all_payouts-blocks m _ ∙ index_blocks-blocks [] _ _

  persist_reorged-deep :
      (db : Db R F) (chain : Blockchain F) (bs olds news : List Block)
      → IsStored db (bs ++ olds)
      → Aligned (length bs) news
      → IsStored
          (persist_reorged (chain_store codec) db chain [] news).0
          (bs ++ (news ++ drop (length news) olds))
  unfolding persist_reorged delete_checkpoints_from
  persist_reorged-deep db chain bs olds news stored al i =
      let cleared = delete_checkpoints_from db 0 in
      let (payouts, taken) = take_all_settled_payouts chain in
      ap (λ t. R.find t i)
        (rebuild_indices-blocks (save_blocks (chain_store codec) cleared news) taken.pending_tickets
          payouts)
      ∙ save_blocks-IsStored news bs olds cleared stored al i

  persist-deep :
      (db db' : Db R F) (o : BlockOutcome) (chain chain' : Blockchain F) (bs olds news : List Block)
      → IsStored db (bs ++ olds)
      → Aligned (length bs) news
      → persist (chain_store codec) db o chain ≡ some (reorged [] news, db', chain')
      → IsStored db' (bs ++ (news ++ drop (length news) olds))
  unfolding persist
  persist-deep db db' applied chain chain' bs olds news stored al h =
      elim (Option-cases (persist_applied (chain_store codec) db chain)) [
        | inl panic ↦ absurd (ground arith)
        | inr ((d, c), wrote) ↦ absurd (ground arith)
      ]
  persist-deep db db' orphaned chain chain' bs olds news stored al h = absurd (ground arith)
  persist-deep db db' rejected chain chain' bs olds news stored al h = absurd (ground arith)
  persist-deep db db' (reorged old_blocks new_blocks) chain chain' bs olds news stored al h =
      let none_displaced : old_blocks ≡ [] = ground arith in
      let same : new_blocks ≡ news = ground arith in
      let left : (persist_reorged (chain_store codec) db chain old_blocks new_blocks).0 ≡ db' =
        ground arith in
      let rewritten : (persist_reorged (chain_store codec) db chain [] news).0 ≡ db' =
        rw (none_displaced, same) at left in
      subst (λ d. IsStored d (bs ++ (news ++ drop (length news) olds))) rewritten
        (persist_reorged-deep db chain bs olds news stored al)

  -- After `apply_block` has reorganised the chain and names no displaced blocks, as it does from
  -- before the window, on a lawful database, the blocks table holds the chain up to the ancestor,
  -- then the new blocks, and then what it held behind their last position: a displaced chain that
  -- was longer leaves its last blocks there. The table held the chain, and the new blocks stand at
  -- the positions behind the ancestor.
  pub apply_block-deep :
      (core : Core F) (now_secs : ℕ) (db db' : Db R F) (chain chain' : Blockchain F) (block : Block)
      (bs olds news : List Block)
      → IsStored db (bs ++ olds)
      → Aligned (length bs) news
      → apply_block (chain_store codec) core now_secs db chain block
        ≡ some (reorged [] news, db', chain')
      → IsStored db' (bs ++ (news ++ drop (length news) olds))
  unfolding apply_block
  apply_block-deep core now_secs db db' chain chain' block bs olds news stored al h =
      let read = some ((chain_store codec).get_blocks_range db) in
      elim (Option-cases (apply_in_memory core now_secs chain block read)) [
        | inl panic ↦ absurd (ground arith)
        | inr ((o, chain1), e) ↦
            persist-deep db db' o chain1 chain' bs olds news stored al (rw (e, apply_block) at h)
      ]
