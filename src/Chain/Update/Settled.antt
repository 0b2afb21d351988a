-- ===== src/Chain/Update/Settled.antt =====
-- Step 1 of `update_state` (lootcoin-node/src/blockchain.rs): what settlement changes and keeps.
use lootcoin.Base.{◌<◌, inl, inr, Bool-cases, List, [], keep, not, is_empty, u64_mod}
use lootcoin.Core.{Block, LootTicket, Core}
use lootcoin.Chain.State.{Blockchain, Payout}
use lootcoin.Chain.Ledger.{coins}
use lootcoin.Chain.Lottery.{settle_tickets, matures}
use lootcoin.Chain.Lottery.Payouts.{Settles, Keeps, settle_tickets-Settles, settle_tickets-Keeps}
use lootcoin.Chain.Update.{settle_block}

module _ {F : Type 0} (core : Core F) (chain : Blockchain F) (block : Block) where
  -- The state with the maturing tickets taken out.
  abbrev pub waiting : Blockchain F
  waiting = record chain {
    pending_tickets = keep (λ t. not (matures core block.index t)) chain.pending_tickets;
  }

  abbrev maturing : List LootTicket
  maturing = keep (matures core block.index) chain.pending_tickets

  abbrev draws : Blockchain F × List Payout
  draws = settle_tickets core waiting maturing []

  pub settle_block-Settles :
      coins chain.books < u64_mod → Settles waiting (settle_block core chain block)
  unfolding settle_block
  settle_block-Settles bound =
      let settles = settle_tickets-Settles core waiting maturing [] bound in
      elim (Bool-cases (is_empty draws.1)) [
        | inl e ↦ rw (e, settle_block) settles
        | inr e ↦
            rw (e, settle_block)
              (record {
                coins_kept = settles.coins_kept;
                pot_falls = settles.pot_falls;
                balances = settles.balances;
              })
      ]

  pub settle_block-Keeps : Keeps waiting (settle_block core chain block)
  unfolding settle_block
  settle_block-Keeps =
      let kept = settle_tickets-Keeps core waiting maturing [] in
      elim (Bool-cases (is_empty draws.1)) [
        | inl e ↦ rw (e, settle_block) kept
        | inr e ↦
            rw (e, settle_block)
              (record {
                signatures = kept.signatures;
                blocks = kept.blocks;
                blocks_offset = kept.blocks_offset;
                orphan_pool = kept.orphan_pool;
                pending_tickets = kept.pending_tickets;
                genesis_pot = kept.genesis_pot;
              })
      ]
