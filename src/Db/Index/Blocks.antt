-- ===== src/Db/Index/Blocks.antt =====
-- The blocks table under the operations of lootcoin-node/src/db.rs that write several tables:
-- `save_applied_block`, `apply_reorg_incremental`, `rebuild_indices_with_tickets`.
use lootcoin.Base.{
  ℕ, zero, suc, ◌+◌, ◌≤◌, ◌≡◌, refl, ◌∙◌, ap, sym, subst, ◌&&◌, Bool-cases, Option-cases, inl, inr,
  nat_eq, List, [], ◌∷◌, ◌++◌, length-append, none, some, Map, get, get_elem?,
  get_elem?-append_left, length, append_assoc, append-nil, leb, ltb, ◌==◌, if◌then◌else◌, arith,
}
use lootcoin.Core.{Block, LootTicket}
use lootcoin.Chain.State.{Payout}
use lootcoin.Chain.Window.Invariant.{Aligned}
use lootcoin.Db.Redb.{Redb, IsLawful, nat_ord}
use lootcoin.Db.Tables.{Db}
use lootcoin.Db.Tables.Blocks.{IsStored}
use lootcoin.Db.Index.{
  Codec, write_payouts, write_payouts_of, save_applied_block, remove_block, remove_blocks,
  insert_block, insert_blocks, apply_reorg_incremental, with_tickets,
}

get_elem?-past : {A : Type 0} (xs : List A) (i : ℕ) → length xs ≤ i → get_elem? xs i ≡ none
get_elem?-past [] i h = refl
get_elem?-past (x ∷ xs) zero h = absurd (omega arith)
get_elem?-past (x ∷ xs) (suc i) h = get_elem?-past xs i (omega arith)

get_elem?-append_one :
    {A : Type 0} (xs : List A) (x : A) (i : ℕ)
    → get_elem? (xs ++ x ∷ []) i ≡ (if length xs == i then some x else get_elem? xs i)
get_elem?-append_one [] x zero = refl
get_elem?-append_one [] x (suc i) = ground arith
get_elem?-append_one (y ∷ xs) x zero = ground arith
get_elem?-append_one (y ∷ xs) x (suc i) = ground (arith, get_elem?-append_one xs x i)

module _ {R : Redb} {F : Type 0} (lawful : IsLawful R) (codec : Codec) where
  pub write_payouts-blocks :
      (i : ℕ) (ps : List Payout) (db : Db R F) → (write_payouts codec i ps db).blocks ≡ db.blocks
  unfolding write_payouts
  write_payouts-blocks i [] db = refl
  write_payouts-blocks i (p ∷ ps) db = refl

  pub write_payouts_of-blocks :
      (m : Map ℕ (List Payout)) (i : ℕ) (db : Db R F)
      → (write_payouts_of codec m i db).blocks ≡ db.blocks
  unfolding write_payouts_of
  write_payouts_of-blocks m i db = elim (Option-cases (get i m)) [
    | inl e ↦ rw (e, write_payouts_of) refl
    | inr (ps, e) ↦ rw (e, write_payouts_of) (write_payouts-blocks i ps db)
  ]

  -- A block put at the end of the stored ones.
  put-IsStored :
      (db db' : Db R F) (bs : List Block) (b : Block)
      → IsStored db bs
      → b.index ≡ length bs
      → db'.blocks ≡ R.put db.blocks b.index b
      → IsStored db' (bs ++ b ∷ [])
  put-IsStored db db' bs b stored at wrote i =
      ap (λ t. R.find t i) wrote
      ∙ lawful.find-put db.blocks b.index i b
      ∙ ground (arith, get_elem?-append_one bs b i, stored i)

  -- `save_applied_block` appends the block to the stored chain, when its index is the chain's length.
  pub save_applied_block-IsStored :
      (db : Db R F) (bs : List Block) (b : Block) (tickets : List LootTicket)
      (payouts : List Payout)
      → IsStored db bs
      → b.index ≡ length bs
      → IsStored (save_applied_block codec db b tickets payouts) (bs ++ b ∷ [])
  unfolding save_applied_block
  save_applied_block-IsStored db bs b tickets payouts stored at =
      put-IsStored db (save_applied_block codec db b tickets payouts) bs b stored at
        (write_payouts-blocks b.index payouts _)

  insert_block-blocks :
      (m : Map ℕ (List Payout)) (b : Block) (db : Db R F)
      → (insert_block codec m b db).blocks ≡ R.put db.blocks b.index b
  unfolding insert_block
  insert_block-blocks m b db = write_payouts_of-blocks m b.index _

  insert_blocks-IsStored :
      (m : Map ℕ (List Payout)) (news : List Block) (bs : List Block) (db : Db R F)
      → IsStored db bs
      → Aligned (length bs) news
      → IsStored (insert_blocks codec m news db) (bs ++ news)
  unfolding insert_blocks
  insert_blocks-IsStored m [] bs db stored al = subst (IsStored db) (sym (append-nil bs)) stored
  insert_blocks-IsStored m (b ∷ news) bs db stored al =
      let next = insert_block codec m b db in
      let at : b.index ≡ length bs = al.0 in
      let appended = put-IsStored db next bs b stored at (insert_block-blocks m b db) in
      let longer : Aligned (length (bs ++ b ∷ [])) news =
        subst (λ n. Aligned n news) (ground (arith, length-append bs (b ∷ []))) al.1 in
      subst (IsStored (insert_blocks codec m news next)) (append_assoc bs (b ∷ []) news)
        (insert_blocks-IsStored m news (bs ++ b ∷ []) next appended longer)

  remove_blocks-find :
      (olds : List Block) (n i : ℕ) (db : Db R F)
      → Aligned n olds
      → R.find (remove_blocks codec olds db).blocks i
        ≡ (if leb n i && ltb i (n + length olds) then none else R.find db.blocks i)
  unfolding remove_blocks remove_block
  remove_blocks-find [] n i db al = ground arith
  remove_blocks-find (b ∷ olds) n i db al =
      remove_blocks-find olds (suc n) i (remove_block codec b db) al.1
      ∙ ground (arith, lawful.find-delete db.blocks b.index i, al.0)

  remove_blocks-IsStored :
      (olds bs : List Block) (db : Db R F)
      → IsStored db (bs ++ olds)
      → Aligned (length bs) olds
      → IsStored (remove_blocks codec olds db) bs
  remove_blocks-IsStored olds bs db stored al i =
      remove_blocks-find olds (length bs) i db al ∙ elim (Bool-cases (ltb i (length bs))) [
        | inl before ↦ ground (arith, stored i, get_elem?-append_left bs olds i (ground arith))
        | inr after ↦ ground (
          arith,
          stored i,
          get_elem?-past bs i (ground arith),
          get_elem?-past (bs ++ olds) i,
          length-append bs olds,
        )
      ]

  -- When the table holds the chain up to a common ancestor and then the displaced blocks, and the
  -- displaced and the new blocks both stand at the indices behind the ancestor,
  -- `apply_reorg_incremental` leaves exactly the chain up to the ancestor and then the new blocks,
  -- whether the fork is longer or shorter, on a lawful database.
  pub apply_reorg_incremental-IsStored :
      (db : Db R F) (bs olds news : List Block) (tickets : List LootTicket)
      (payouts : Map ℕ (List Payout))
      → IsStored db (bs ++ olds)
      → Aligned (length bs) olds
      → Aligned (length bs) news
      → IsStored (apply_reorg_incremental codec db olds news tickets payouts) (bs ++ news)
  unfolding apply_reorg_incremental with_tickets
  apply_reorg_incremental-IsStored db bs olds news tickets payouts stored al_olds al_news =
      insert_blocks-IsStored payouts news bs (remove_blocks codec olds db)
        (remove_blocks-IsStored olds bs db stored al_olds) al_news
