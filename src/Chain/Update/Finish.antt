-- ===== src/Chain/Update/Finish.antt =====
-- What the last steps of `update_state` (lootcoin-node/src/blockchain.rs) change and keep.
use lootcoin.Base.{
  ◌≡◌, List, [], ◌∷◌, ◌++◌, none, some, any, if◌then◌else◌, arith, not, ◌∙◌, append-nil,
}
use lootcoin.Core.{Block, LootTicket, Core, Float, is_coinbase}
use lootcoin.Chain.State.{Blockchain}
use lootcoin.Chain.Difficulty.{adjust_difficulty, add_work}
use lootcoin.Chain.Update.{extract_miner_address, record_block, issue_ticket, finish_block}

-- The ticket that a block earns, if any.
unfoldable pub ticket_of : Block → List LootTicket
ticket_of block =
    if any (λ tx. not (is_coinbase tx)) block.transactions
    then elim (extract_miner_address block) [
      | none ↦ []
      | some miner ↦ record { miner = miner; created_height = block.index } ∷ []
    ]
    else []

module _ {F : Type 0} where
  pub record Finishes (chain : Blockchain F) (block : Block) (chain' : Blockchain F) : Type 0 where
    pub books : chain'.books ≡ chain.books
    pub blocks : chain'.blocks ≡ chain.blocks ++ block ∷ []
    pub blocks_offset : chain'.blocks_offset ≡ chain.blocks_offset
    pub orphan_pool : chain'.orphan_pool ≡ chain.orphan_pool
    pub pending_tickets : chain'.pending_tickets ≡ chain.pending_tickets ++ ticket_of block
    pub genesis_pot : chain'.genesis_pot ≡ chain.genesis_pot

  adjust_difficulty-keeps :
      (float : Float F) (chain : Blockchain F) (block : Block)
      → ((adjust_difficulty float chain block).books ≡ chain.books)
        × ((adjust_difficulty float chain block).blocks ≡ chain.blocks)
        × ((adjust_difficulty float chain block).blocks_offset ≡ chain.blocks_offset)
        × ((adjust_difficulty float chain block).orphan_pool ≡ chain.orphan_pool)
        × ((adjust_difficulty float chain block).pending_tickets ≡ chain.pending_tickets)
        × ((adjust_difficulty float chain block).genesis_pot ≡ chain.genesis_pot)
  unfolding adjust_difficulty
  adjust_difficulty-keeps float chain block = ground arith

  issue_ticket-tickets :
      (chain : Blockchain F) (block : Block)
      → (issue_ticket chain block).pending_tickets ≡ chain.pending_tickets ++ ticket_of block
  unfolding issue_ticket ticket_of
  issue_ticket-tickets chain block = ground (arith, append-nil chain.pending_tickets)

  issue_ticket-keeps :
      (chain : Blockchain F) (block : Block)
      → ((issue_ticket chain block).books ≡ chain.books)
        × ((issue_ticket chain block).blocks ≡ chain.blocks)
        × ((issue_ticket chain block).blocks_offset ≡ chain.blocks_offset)
        × ((issue_ticket chain block).orphan_pool ≡ chain.orphan_pool)
        × ((issue_ticket chain block).genesis_pot ≡ chain.genesis_pot)
  unfolding issue_ticket
  issue_ticket-keeps chain block = ground arith

  pub finish_block-Finishes :
      (core : Core F) (chain : Blockchain F) (block : Block)
      → Finishes chain block (finish_block core chain block)
  unfolding finish_block add_work record_block
  finish_block-Finishes core chain block =
      let recorded = record_block chain block in
      let issued = issue_ticket recorded block in
      let adjusted = adjust_difficulty-keeps core.float (add_work core.float issued) block in
      let kept = issue_ticket-keeps recorded block in
      record {
        books = adjusted.0 ∙ kept.0;
        blocks = adjusted.1 ∙ kept.1;
        blocks_offset = adjusted.2 ∙ kept.2;
        orphan_pool = adjusted.3 ∙ kept.3;
        pending_tickets = adjusted.4 ∙ issue_ticket-tickets recorded block;
        genesis_pot = adjusted.5 ∙ kept.4;
      }
