-- ===== src/Core.antt =====
-- What the node takes from lootcoin-core and from the standard library: the structs that every
-- crate shares (their fields are those that the struct literals of lootcoin-node/src/main.rs and
-- lootcoin-wallet/src/lib.rs write out), the constants and the functions of lootcoin-core, cubehash
-- and bincode as parameters, and `f64` as an abstract type with the operations that are called.
use lootcoin.Base.{ℕ, Bool, Bytes, List, Option, is_empty, keep, not}

pub record Transaction : Type 0 where
  pub sender : Bytes
  pub receiver : Bytes
  pub amount : ℕ
  pub fee : ℕ
  pub nonce : ℕ
  pub public_key : Bytes
  pub signature : Bytes

pub record Block : Type 0 where
  pub index : ℕ
  pub previous_hash : Bytes
  pub timestamp : ℕ
  pub nonce : ℕ
  pub tx_root : Bytes
  pub transactions : List Transaction
  pub hash : Bytes

-- `LootTicket`
pub record LootTicket : Type 0 where
  pub miner : Bytes
  pub created_height : ℕ

-- The operations on `f64` that the difficulty code calls. Nothing is assumed of them.
pub record Float (F : Type 0) : Type 0 where
  pub of_ℕ : ℕ → F
  pub add : F → F → F
  pub sub : F → F → F
  pub div : F → F → F
  pub clamp : F → F → F → F
  pub lt : F → F → Bool
  pub differs : F → F → Bool
  pub to_u32 : F → ℕ
  pub halflife : F
  pub min_difficulty : F
  pub max_difficulty : F
  pub initial_difficulty : F

-- `lootcoin_core::lottery` and `lootcoin_core::block`.
pub record Constants : Type 0 where
  pub max_block_txs : ℕ
  pub min_tx_fee : ℕ
  pub reveal_blocks : ℕ
  pub ppm : ℕ
  pub small_bucket_start : ℕ
  pub medium_bucket_start : ℕ
  pub large_bucket_start : ℕ
  pub jackpot_bucket_start : ℕ
  pub small_divisor : ℕ
  pub medium_divisor : ℕ
  pub large_divisor : ℕ
  pub jackpot_divisor : ℕ

pub record Core (F : Type 0) : Type 0 where
  pub constants : Constants
  pub open constants use *
  pub float : Float F
  -- `Block::calculate_hash` and `Block::compute_tx_root`; `none` is an error.
  pub calculate_hash : Block → Option Bytes
  pub compute_tx_root : List Transaction → Option Bytes
  pub meets_difficulty : Bytes → F → Bool
  -- `Transaction::verify` and `Transaction::txid`
  pub verify : Transaction → Bool
  pub txid : Transaction → Bytes
  pub decode_address : Bytes → Option Bytes
  -- `CubeHash256::digest` and `bincode::serialize` of a draw's entropy, height and miner.
  pub digest : Bytes → Bytes
  pub serialize_draw : Bytes → ℕ → Bytes → Bytes

-- `tx.sender.is_empty()`
abbrev pub is_coinbase : Transaction → Bool
is_coinbase tx = is_empty tx.sender

-- The transactions with a sender.
abbrev pub user_txs : List Transaction → List Transaction
user_txs = keep (λ tx. not (is_coinbase tx))
