-- ===== src/Chain/Update/Extends.antt =====
-- The place of an accepted block in the chain (`update_state` of lootcoin-node/src/blockchain.rs).
use lootcoin.Base.{
  ℕ, suc, ◌≡◌, refl, ◌∙◌, ap, true, inl, inr, Bool-cases, Option-cases, bytes_beq_iff, [], ◌∷◌,
  ◌++◌, Option, none, some, length-append, last, last-append, arith, keep, not,
}
use lootcoin.Core.{Block, Core}
use lootcoin.Chain.State.{Books, Blockchain}
use lootcoin.Chain.Validate.{is_valid, links, get_height, get_latest_hash}
use lootcoin.Chain.Update.{
  updated, apply_all, apply_valid, settle_block, split_fees, finish_block, update_state,
}
use lootcoin.Chain.Update.Finish.{ticket_of, finish_block-Finishes}
use lootcoin.Chain.Lottery.{matures}
use lootcoin.Chain.Update.Settled.{settle_block-Keeps}

latest :
    {F : Type 0} (chain : Blockchain F) (block : Block)
    → last chain.blocks ≡ some block
    → get_latest_hash chain ≡ some block.hash
unfolding get_latest_hash
latest chain block h = ground arith

module _ {F : Type 0} (core : Core F) (now_secs : ℕ) (chain : Blockchain F) (block : Block) where
  -- The shape of an accepted update: the block is valid, and its last steps follow its loop.
  pub record Accepts (chain' : Blockchain F) : Type 0 where
    pub valid : is_valid core now_secs chain block ≡ true
    pub b : Books
    pub fees : ℕ
    pub ran : apply_all (settle_block core chain block).books 0 block.transactions ≡ some (b, fees)
    pub result :
        chain' ≡ finish_block core (split_fees (settle_block core chain block) block b fees) block

  apply_valid-inv :
      (chain' : Blockchain F) (r : Option (Books × ℕ))
      → apply_all (settle_block core chain block).books 0 block.transactions ≡ r
      → is_valid core now_secs chain block ≡ true
      → apply_valid core chain block ≡ updated chain'
      → Accepts chain'
  unfolding apply_valid
  apply_valid-inv chain' none e valid h = absurd (ground arith)
  apply_valid-inv chain' (some (b, fees)) e valid h = record {
    valid = valid;
    b = b;
    fees = fees;
    ran = e;
    result = ground arith;
  }

  pub update_state-Accepts :
      (chain' : Blockchain F)
      → update_state core now_secs chain block ≡ updated chain'
      → Accepts chain'
  unfolding update_state
  update_state-Accepts chain' h = elim (Bool-cases (is_valid core now_secs chain block)) [
    | inl valid ↦
        apply_valid-inv chain'
          (apply_all (settle_block core chain block).books 0 block.transactions) refl valid
          (rw valid at h)
    | inr invalid ↦ absurd (ground arith)
  ]

  pub links-index : links chain block ≡ true → block.index ≡ get_height chain
  unfolding links
  links-index h = ground arith

  links-hash : links chain block ≡ true → get_latest_hash chain ≡ some block.previous_hash
  unfolding links
  links-hash h = elim (Option-cases (get_latest_hash chain)) [
    | inl e ↦ absurd (ground arith)
    | inr (hash, e) ↦ ground (arith, bytes_beq_iff block.previous_hash hash)
  ]

  is_valid-links : is_valid core now_secs chain block ≡ true → links chain block ≡ true
  unfolding is_valid
  is_valid-links h = ground arith

  -- The parts of the accepted state that fork choice and the window read.
  pub record Grows (chain' : Blockchain F) : Type 0 where
    pub blocks : chain'.blocks ≡ chain.blocks ++ block ∷ []
    pub blocks_offset : chain'.blocks_offset ≡ chain.blocks_offset
    pub orphan_pool : chain'.orphan_pool ≡ chain.orphan_pool
    pub pending_tickets :
        chain'.pending_tickets
        ≡ keep (λ t. not (matures core block.index t)) chain.pending_tickets ++ ticket_of block
    pub genesis_pot : chain'.genesis_pot ≡ chain.genesis_pot

  pub Accepts-Grows : (chain' : Blockchain F) → Accepts chain' → Grows chain'
  unfolding split_fees
  Accepts-Grows chain' a =
      let split = split_fees (settle_block core chain block) block a.b a.fees in
      let finishes = finish_block-Finishes core split block in
      let kept = settle_block-Keeps core chain block in
      record {
        blocks =
            ap (λ c. c.blocks) a.result ∙ finishes.blocks ∙ ap (λ l. l ++ block ∷ []) kept.blocks;
        blocks_offset =
            ap (λ c. c.blocks_offset) a.result ∙ finishes.blocks_offset ∙ kept.blocks_offset;
        orphan_pool = ap (λ c. c.orphan_pool) a.result ∙ finishes.orphan_pool ∙ kept.orphan_pool;
        pending_tickets =
            ap (λ c. c.pending_tickets) a.result
            ∙ finishes.pending_tickets
            ∙ ap (λ l. l ++ ticket_of block) kept.pending_tickets;
        genesis_pot = ap (λ c. c.genesis_pot) a.result ∙ finishes.genesis_pot ∙ kept.genesis_pot;
      }

  -- An accepted block stood at the next height and named the tip as its predecessor; afterwards it
  -- is the tip, and the height is one more.
  pub update_state-extends :
      (chain' : Blockchain F)
      → update_state core now_secs chain block ≡ updated chain'
      → (block.index ≡ get_height chain)
        × (get_latest_hash chain ≡ some block.previous_hash)
        × (get_height chain' ≡ suc (get_height chain))
        × (get_latest_hash chain' ≡ some block.hash)
  update_state-extends chain' h =
      let a = update_state-Accepts chain' h in
      let linked = is_valid-links a.valid in
      let g = Accepts-Grows chain' a in
      (
        links-index linked,
        links-hash linked,
        unfold get_height in
            rw (g.blocks, g.blocks_offset, length-append chain.blocks (block ∷ [])) (omega arith),
        latest chain' block (ap last g.blocks ∙ last-append chain.blocks block),
      )
