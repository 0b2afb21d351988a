-- ===== src/Chain/Lottery.antt =====
-- The lottery of lootcoin-node/src/blockchain.rs: the draw of a ticket from the hashes of its
-- reveal window, and the settlement of the tickets that mature at a block.

pub mod Payouts
use lootcoin.Base.{
  ℕ, zero, suc, ◌+◌, ◌-◌, ◌*◌, ◌/◌, ◌%◌, ◌^◌, min, Bool, ◌&&◌, not, Bytes, List, [], ◌∷◌, ◌++◌,
  Option, none, some, keep, take, get_elem?, add64, ltb, leb, ◌==◌, if◌then◌else◌,
}
use lootcoin.Core.{Block, LootTicket, Core}
use lootcoin.Metrics.{Metrics, Tier, record_lottery_win}
use lootcoin.Chain.State.{Blockchain, Payout}
use lootcoin.Chain.Ledger.{credit}

-- `u64::from_le_bytes`
unfoldable pub from_le_bytes : Bytes → ℕ
from_le_bytes [] = 0
from_le_bytes (b ∷ bs) = b + 256 * from_le_bytes bs

unfoldable pub loot_bucket_from_digest : {F : Type 0} → Core F → Bytes → ℕ
loot_bucket_from_digest core digest = (from_le_bytes (take 8 digest) % core.ppm) % 2 ^ 32

module _ {F : Type 0} where
  unfoldable pub block_hash_at : Blockchain F → ℕ → Option Bytes
  block_hash_at chain index =
      if ltb index chain.blocks_offset
      then none
      else elim (get_elem? chain.blocks (index - chain.blocks_offset)) [
        | none ↦ none
        | some b ↦ some b.hash
      ]

  -- The loop `for i in 0..REVEAL_BLOCKS`, at the first index and the number of rounds left.
  unfoldable pub entropy_from : Blockchain F → ℕ → ℕ → Bytes
  entropy_from chain index zero = []
  entropy_from chain index (suc n) =
      elim (block_hash_at chain index) [ none ↦ [] | some h ↦ h ]
      ++ entropy_from chain (suc index) n

  -- The `match` on the bucket.
  unfoldable pub prize : Core F → ℕ → ℕ → ℕ × Tier
  prize core pot bucket =
      if ltb bucket core.small_bucket_start
      then (0, Tier.no_win)
      else if leb core.small_bucket_start bucket && ltb bucket core.medium_bucket_start
      then (pot / core.small_divisor, Tier.small)
      else if leb core.medium_bucket_start bucket && ltb bucket core.large_bucket_start
      then (pot / core.medium_divisor, Tier.medium)
      else if leb core.large_bucket_start bucket && ltb bucket core.jackpot_bucket_start
      then (pot / core.large_divisor, Tier.large)
      else (pot / core.jackpot_divisor, Tier.jackpot)

  unfoldable pub compute_ticket_reward : Core F → Blockchain F → ℕ → LootTicket → ℕ × Tier
  compute_ticket_reward core chain reveal_start ticket = prize core chain.pot (
      loot_bucket_from_digest core (
        core.digest (
          core.serialize_draw (entropy_from chain reveal_start core.reveal_blocks)
            ticket.created_height ticket.miner)))

  -- The effect of a draw: a payout of at most the pot, and the metrics.
  unfoldable pub pay_draw :
      Blockchain F → LootTicket → ℕ × Tier → List Payout → Blockchain F × List Payout
  pay_draw chain t (amount, tier) payouts =
      let payout = min amount chain.pot in
      if ltb 0 payout
      then (
        record chain {
          books = record (chain.books) {
            balances = credit t.miner payout chain.balances;
            pot = chain.pot - payout;
          };
          metrics = elim chain.metrics [
            | none ↦ none
            | some m ↦ some (record_lottery_win m tier payout)
          ];
        },
        payouts ++ record { receiver = t.miner; amount = payout; tier = tier } ∷ [],
      )
      else (chain, payouts)

  -- The loop over `to_settle`.
  unfoldable pub settle_tickets :
      Core F → Blockchain F → List LootTicket → List Payout → Blockchain F × List Payout
  settle_tickets core chain [] payouts = (chain, payouts)
  settle_tickets core chain (t ∷ ts) payouts =
      let (chain', payouts') =
        pay_draw chain t (compute_ticket_reward core chain t.created_height t) payouts in
      settle_tickets core chain' ts payouts'

  -- `t.created_height + REVEAL_BLOCKS == current_index`
  abbrev pub matures : Core F → ℕ → LootTicket → Bool
  matures core current_index t = add64 t.created_height core.reveal_blocks == current_index
