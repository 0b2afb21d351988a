-- ===== src/Chain/Update/Runs.antt =====
-- Blocks that are accepted one after another (`update_state` of lootcoin-node/src/blockchain.rs).
use lootcoin.Base.{◌≡◌, refl, ◌∙◌, ap, sym, ℕ, List, [], ◌∷◌, ◌++◌, append_assoc, append-nil}
use lootcoin.Core.{Block, Core}
use lootcoin.Chain.State.{Blockchain}
use lootcoin.Chain.Update.{updated, update_state}
use lootcoin.Chain.Update.Extends.{update_state-Accepts, Accepts-Grows}

module _ {F : Type 0} (core : Core F) (now_secs : ℕ) where
  -- The blocks are applied one after another, each at the tip.
  pub data Runs : Blockchain F → List Block → Blockchain F → Type 0 where
    done : (chain : Blockchain F) → Runs chain [] chain
    applies :
        (chain chain1 chain' : Blockchain F) (b : Block) (bs : List Block)
        → update_state core now_secs chain b ≡ updated chain1
        → Runs chain1 bs chain'
        → Runs chain (b ∷ bs) chain'

  pub Runs-blocks :
      (chain chain' : Blockchain F) (bs : List Block)
      → Runs chain bs chain'
      → (chain'.blocks ≡ chain.blocks ++ bs) × (chain'.blocks_offset ≡ chain.blocks_offset)
  Runs-blocks chain chain' bs (done c) = (sym (append-nil chain.blocks), refl)
  Runs-blocks chain chain' bs (applies c c1 c' b rest e r) =
      let g = Accepts-Grows core now_secs c b c1 (update_state-Accepts core now_secs c b c1 e) in
      let later = Runs-blocks c1 c' rest r in
      (
        later.0 ∙ ap (λ l. l ++ rest) g.blocks ∙ append_assoc c.blocks (b ∷ []) rest,
        later.1 ∙ g.blocks_offset,
      )
