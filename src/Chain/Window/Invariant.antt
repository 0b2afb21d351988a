-- ===== src/Chain/Window/Invariant.antt =====
-- The window and the tickets across `update_state` and `prune_to_window`
-- (lootcoin-node/src/blockchain.rs).
use lootcoin.Base.{
  ℕ, zero, suc, ◌+◌, ◌-◌, ◌≤◌, ◌<◌, ◌≡◌, ◌⊎◌, inl, inr, false, not, Bool-cases, List, [], ◌∷◌, ◌++◌,
  length, length-append, length-drop, drop, keep, All, All-append, add64, u64_mod, ltb, arith,
  subst, sym,
}
use lootcoin.Core.{Block, LootTicket, Core}
use lootcoin.Chain.State.{Blockchain}
use lootcoin.Chain.Lottery.{matures}
use lootcoin.Chain.Validate.{get_height}
use lootcoin.Chain.Update.{updated, update_state}
use lootcoin.Chain.Update.Finish.{ticket_of}
use lootcoin.Chain.Update.Extends.{Accepts-Grows, update_state-Accepts, update_state-extends}
use lootcoin.Chain.Window.{reorg_window, prune_to_window}

-- The blocks stand at consecutive indices.
abbrev pub Aligned : ℕ → List Block → Type 0
Aligned n [] = Unit
Aligned n (b ∷ bs) = (b.index ≡ n) × Aligned (suc n) bs

-- A pending ticket is older than the tip, and not yet past its settlement.
abbrev pub Waits : ℕ → ℕ → LootTicket → Type 0
Waits reveal height t = (t.created_height < height) × (height ≤ t.created_height + reveal)

pub record IsWindow {F : Type 0} (core : Core F) (chain : Blockchain F) : Type 0 where
  pub aligned : Aligned chain.blocks_offset chain.blocks
  pub deep : (chain.blocks_offset ≡ 0) ⊎ (reorg_window ≤ length chain.blocks)
  pub tickets : All (Waits core.reveal_blocks (get_height chain)) chain.pending_tickets

Aligned-append :
    (n : ℕ) (bs : List Block) (b : Block)
    → Aligned n bs
    → b.index ≡ n + length bs
    → Aligned n (bs ++ b ∷ [])
Aligned-append n [] b h e = (omega arith, tt)
Aligned-append n (c ∷ bs) b h e = (h.0, Aligned-append (suc n) bs b h.1 (omega arith))

Aligned-drop : (k n : ℕ) (bs : List Block) → Aligned n bs → Aligned (n + k) (drop k bs)
Aligned-drop zero n bs h = subst (λ m. Aligned m bs) (omega arith) h
Aligned-drop (suc k) n [] h = tt
Aligned-drop (suc k) n (b ∷ bs) h =
    subst (λ m. Aligned m (drop k bs)) (omega arith) (Aligned-drop k (suc n) bs h.1)

Waits-keep :
    {F : Type 0} (core : Core F) (height : ℕ) (ts : List LootTicket)
    → height + core.reveal_blocks < u64_mod
    → All (Waits core.reveal_blocks height) ts
    → All (Waits core.reveal_blocks (suc height)) (keep (λ t. not (matures core height t)) ts)
unfolding add64
Waits-keep core height [] fits h = tt
Waits-keep core height (t ∷ ts) fits h = elim (Bool-cases (matures core height t)) [
  | inl e ↦ rw e (Waits-keep core height ts fits h.1)
  | inr e ↦ rw e ((omega (arith, h.0), ground (arith, h.0)), Waits-keep core height ts fits h.1)
]

Waits-ticket_of :
    (reveal : ℕ) (block : Block)
    → 0 < reveal
    → All (Waits reveal (suc block.index)) (ticket_of block)
unfolding ticket_of
Waits-ticket_of reveal block h = ground arith

module _ {F : Type 0} (core : Core F) (now_secs : ℕ) (chain : Blockchain F) (block : Block) where
  -- An accepted block keeps the window's invariant, when the reveal window is not empty and the
  -- heights fit a `u64`: every block in memory has the index of its position, either nothing has
  -- been dropped or a reorganisation window of blocks is in memory, and every pending ticket has
  -- still to mature.
  pub update_state-IsWindow :
      (chain' : Blockchain F)
      → update_state core now_secs chain block ≡ updated chain'
      → 0 < core.reveal_blocks
      → get_height chain + core.reveal_blocks < u64_mod
      → IsWindow core chain
      → IsWindow core chain'
  update_state-IsWindow chain' h reveals fits w =
      let (at, _, higher, _) = update_state-extends core now_secs chain block chain' h in
      let g =
        Accepts-Grows core now_secs chain block chain'
          (update_state-Accepts core now_secs chain block chain' h) in
      record {
        aligned =
            rw (g.blocks, g.blocks_offset)
              (Aligned-append chain.blocks_offset chain.blocks block w.aligned
                (unfold get_height in at));
        deep =
            rw (g.blocks, g.blocks_offset)
              (ground (arith, w.deep, length-append chain.blocks (block ∷ [])));
        tickets =
            rw (higher, g.pending_tickets)
              (All-append (Waits core.reveal_blocks (suc (get_height chain)))
                (keep (λ t. not (matures core block.index t)) chain.pending_tickets)
                (ticket_of block)
                (rw at (Waits-keep core (get_height chain) chain.pending_tickets fits w.tickets))
                (rw (← at) (Waits-ticket_of core.reveal_blocks block reveals)));
      }

module _ {F : Type 0} (core : Core F) (chain : Blockchain F) where
  -- Pruning keeps the height of the chain.
  pub prune_to_window-height : get_height (prune_to_window chain) ≡ get_height chain
  unfolding prune_to_window get_height
  prune_to_window-height =
      ground (arith, length-drop (length chain.blocks - reorg_window) chain.blocks)

  -- Pruning keeps the window's invariant.
  pub prune_to_window-IsWindow : IsWindow core chain → IsWindow core (prune_to_window chain)
  prune_to_window-IsWindow w = elim (Bool-cases (ltb reorg_window (length chain.blocks))) [
    | inr small ↦ subst (IsWindow core) (sym (kept small)) w
    | inl large ↦ record {
      aligned =
          unfold prune_to_window in
          rw large (Aligned-drop dropped chain.blocks_offset chain.blocks w.aligned);
      deep =
          inr
            (unfold prune_to_window in rw large (ground (arith, length-drop dropped chain.blocks)));
      tickets = rw prune_to_window-height (unfold prune_to_window in rw large w.tickets);
    }
  ]
    where
      dropped : ℕ
      dropped = length chain.blocks - reorg_window

      kept : ltb reorg_window (length chain.blocks) ≡ false → prune_to_window chain ≡ chain
      kept e = unfold prune_to_window in rw e
