-- ===== src/Chain/State.antt =====
-- `Blockchain`, `CheckpointState` and `BlockOutcome` of lootcoin-node/src/blockchain.rs. The three
-- fields that transactions change are a record of their own, `Books`.
use lootcoin.Base.{ℕ, Bytes, List, Option, Map}
use lootcoin.Core.{Block, LootTicket}
use lootcoin.Metrics.{Metrics, Tier}

-- An entry of `settled_payouts_by_block`: receiver, amount, tier.
pub record Payout : Type 0 where
  pub receiver : Bytes
  pub amount : ℕ
  pub tier : Tier

pub record Books : Type 0 where
  pub balances : Map Bytes ℕ
  pub confirmed_signatures : List Bytes
  pub pot : ℕ

pub record Blockchain (F : Type 0) : Type 0 where
  pub books : Books
  pub open books use *
  pub blocks : List Block
  pub blocks_offset : ℕ
  pub block_hashes : Map Bytes ℕ
  pub orphan_pool : Map Bytes Block
  pub pending_tickets : List LootTicket
  pub genesis_pot : ℕ
  pub settled_payouts_by_block : Map ℕ (List Payout)
  pub initial_difficulty : F
  pub current_difficulty : F
  pub asert_anchor : Option (ℕ × ℕ × F)
  pub chain_work : ℕ
  pub metrics : Option Metrics

pub record CheckpointState (F : Type 0) : Type 0 where
  pub books : Books
  pub chain_work : ℕ
  pub block_hash : Bytes
  pub current_difficulty : F
  pub asert_anchor : Option (ℕ × ℕ × F)
  pub tickets : List LootTicket

pub data BlockOutcome : Type 0 where
  applied : BlockOutcome
  reorged : List Block → List Block → BlockOutcome
  orphaned : BlockOutcome
  rejected : BlockOutcome
