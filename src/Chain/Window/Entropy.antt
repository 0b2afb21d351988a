-- ===== src/Chain/Window/Entropy.antt =====
-- Which hashes of its reveal window a draw sees (`block_hash_at` and the loop of
-- `compute_ticket_reward`), in a window that has grown block by block and in one restored from a
-- checkpoint.
use lootcoin.Base.{
  ℕ, zero, suc, ◌+◌, ◌-◌, ◌≤◌, ◌<◌, ◌≡◌, ◌≢◌, ◌∙◌, refl, true, Bytes, List, [], ◌∷◌, ◌++◌, some,
  length, All, get_elem?, add64, u64_mod, arith, subst, sym,
}
use lootcoin.Core.{Block, LootTicket, Core}
use lootcoin.Chain.State.{Blockchain, CheckpointState}
use lootcoin.Chain.Lottery.{block_hash_at, entropy_from, matures}
use lootcoin.Chain.Validate.{get_height}
use lootcoin.Chain.Window.{reorg_window, restore_from_checkpoint}
use lootcoin.Chain.Window.Invariant.{Aligned, IsWindow}

-- The block at a position of an aligned list.
get_elem?-Aligned :
    (n : ℕ) (bs : List Block) (i : ℕ)
    → Aligned n bs
    → i < length bs
    → (b : Block) × (get_elem? bs i ≡ some b) × (b.index ≡ n + i)
get_elem?-Aligned n [] i h lt = elim lt [ ]
get_elem?-Aligned n (b ∷ bs) zero h lt = (b, refl, omega (arith, h.0))
get_elem?-Aligned n (b ∷ bs) (suc i) h lt =
    let (c, found, at) = get_elem?-Aligned (suc n) bs i h.1 (omega arith) in
    (c, found, omega (arith, at))

module _ {F : Type 0} (core : Core F) (chain : Blockchain F) where
  -- At the height at which a ticket matures, every hash of its reveal window is found by
  -- `block_hash_at`, and is that of the block with that very index, when the chain meets the
  -- window's invariant, the reveal window is no longer than the reorganisation window, and the
  -- heights fit a `u64`.
  pub entropy_complete :
      (t : LootTicket) (i : ℕ)
      → IsWindow core chain
      → core.reveal_blocks ≤ reorg_window
      → t.created_height + core.reveal_blocks < u64_mod
      → matures core (get_height chain) t ≡ true
      → i < core.reveal_blocks
      → (b : Block) × (block_hash_at chain (t.created_height + i) ≡ some b.hash)
        × (b.index ≡ t.created_height + i)
  unfolding block_hash_at get_height
  entropy_complete t i w wide fits now lt =
      let at : t.created_height + core.reveal_blocks ≡ chain.blocks_offset + length chain.blocks =
        unfold add64 in ground arith in
      let early : chain.blocks_offset ≤ t.created_height = ground (arith, w.deep) in
      let (b, found, index) =
        get_elem?-Aligned chain.blocks_offset chain.blocks
          (t.created_height + i - chain.blocks_offset) w.aligned (omega arith) in
      (b, ground (arith, found), omega (arith, index))

  -- Hashes before the window do not exist for a draw.
  pub entropy_from-before :
      (index n : ℕ) → index + n ≤ chain.blocks_offset → entropy_from chain index n ≡ []
  unfolding entropy_from block_hash_at
  entropy_from-before index zero h = refl
  entropy_from-before index (suc n) h =
      ground (arith, entropy_from-before (suc index) n (omega arith))

All-get_elem? :
    (P : Block → Type 0) (bs : List Block) (i : ℕ) (b : Block)
    → All P bs
    → get_elem? bs i ≡ some b
    → P b
All-get_elem? P [] i b h e = absurd (cc)
All-get_elem? P (c ∷ bs) zero b h e = subst P (ground arith) h.0
All-get_elem? P (c ∷ bs) (suc i) b h e = All-get_elem? P bs i b h.1 e

append-nonempty : (xs ys : Bytes) → xs ≢ [] → xs ++ ys ≢ []
append-nonempty [] ys h e = h refl
append-nonempty (x ∷ xs) ys h e = cc

module _ {F : Type 0} (core : Core F) (chain fresh : Blockchain F) where
  entropy_from-nonempty :
      (index n : ℕ)
      → IsWindow core chain
      → All (λ b. b.hash ≢ []) chain.blocks
      → chain.blocks_offset ≤ index
      → index < get_height chain
      → entropy_from chain index (suc n) ≢ []
  unfolding get_height
  entropy_from-nonempty index n w hashed inside below =
      let (b, found, _) =
        get_elem?-Aligned chain.blocks_offset chain.blocks (index - chain.blocks_offset) w.aligned
          (omega arith) in
      let shown : block_hash_at chain index ≡ some b.hash =
        unfold block_hash_at in ground (arith, found) in
      unfold entropy_from in
      rw (shown, entropy_from)
        (append-nonempty b.hash (entropy_from chain (suc index) n) (
          All-get_elem? (λ c. c.hash ≢ []) chain.blocks (index - chain.blocks_offset) b hashed
            found))

  -- The part of a reveal window that lies before a checkpoint gives other entropy on a node that
  -- has restored the checkpoint than on a node that has grown past it, when that node meets the
  -- window's invariant, its blocks have hashes that are not empty, and it still holds the window's
  -- first block.
  pub restored_draw_differs :
      (state : CheckpointState F) (checkpoint_block : Block) (t : LootTicket) (n : ℕ)
      → IsWindow core chain
      → All (λ b. b.hash ≢ []) chain.blocks
      → chain.blocks_offset ≤ t.created_height
      → t.created_height + suc n ≤ checkpoint_block.index
      → checkpoint_block.index < get_height chain
      → entropy_from
          (restore_from_checkpoint fresh checkpoint_block.index state checkpoint_block)
          t.created_height
          (suc n)
        ≢ entropy_from chain t.created_height (suc n)
  restored_draw_differs state checkpoint_block t n w hashed inside before below e =
      let none_left =
        entropy_from-before core
          (restore_from_checkpoint fresh checkpoint_block.index state checkpoint_block)
          t.created_height (suc n) (unfold restore_from_checkpoint in before) in
      entropy_from-nonempty t.created_height n w hashed inside (omega arith) (sym e ∙ none_left)
