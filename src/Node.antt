-- ===== src/Node.antt =====
-- lootcoin-node/src/main.rs: the synchronisation with peers, the snapshot of a peer, and the start of
-- a node. What a peer answers is a parameter, as is the clock; `none` is a panic.
pub mod Sync
pub mod Snapshot
pub mod Startup
mod Tests
use lootcoin.Base.{ℕ, Bytes, List, Option, Map}
use lootcoin.Core.{Block, LootTicket}

pub record PeerHead : Type 0 where
  pub height : ℕ
  pub chain_work_hex : Bytes

-- An entry of a peer's list of snapshots.
pub record SnapshotInfo : Type 0 where
  pub height : ℕ
  pub block_hash_hex : Bytes

pub record SnapshotPayload (F : Type 0) : Type 0 where
  pub block_hash_hex : Bytes
  pub balances : Map Bytes ℕ
  pub confirmed_signatures : List Bytes
  pub pot : ℕ
  pub chain_work_hex : Bytes
  pub current_difficulty : F
  pub asert_anchor : Option (ℕ × ℕ × F)
  pub tickets : List LootTicket

-- What the peers answer to GET /chain/head, /blocks, /peers, /snapshots and /snapshot; `none` is a
-- failed request or an answer that does not parse. `parse_hex` is `u128::from_str_radix` of a text
-- without the prefix.
pub record Network (F : Type 0) : Type 0 where
  pub head : Bytes → Option PeerHead
  pub blocks : Bytes → ℕ → ℕ → Option (List Block)
  pub peers : Bytes → Option (List Bytes)
  pub snapshots : Bytes → Option (List SnapshotInfo)
  pub snapshot : Bytes → ℕ → Option (SnapshotPayload F)
  pub parse_hex : Bytes → Option ℕ
