-- ===== src/Db/Stores.antt =====
-- The database of lootcoin-node/src/db.rs as the chain and the mempool use it.
pub mod Mirror
pub mod Deep
use lootcoin.Base.{ℕ, Bytes, List, Option, none, some, Map}
use lootcoin.Core.{Transaction, Block, LootTicket}
use lootcoin.Chain.State.{Payout, CheckpointState}
use lootcoin.Chain.Reorg
use lootcoin.Mempool
use lootcoin.Db.Redb.{Redb}
use lootcoin.Db.Tables.{
  Db, save_block_indexed, get_blocks_range, save_mempool_tx, remove_mempool_txs, save_checkpoint,
  delete_checkpoints_from,
}
use lootcoin.Db.Index.{
  Codec, save_applied_block, apply_reorg_incremental, rebuild_indices_with_tickets,
}
use lootcoin.Api.{Stores}

module _ {R : Redb} {F : Type 0} (codec : Codec) where
  abbrev pub chain_store : Reorg.Store F (Db R F)
  chain_store = record {
    get_blocks_range = λ db from limit. some (get_blocks_range db from limit);
    save_block_indexed = save_block_indexed;
    save_applied_block = save_applied_block codec;
    save_checkpoint = save_checkpoint;
    delete_checkpoints_from = delete_checkpoints_from;
    apply_reorg_incremental = apply_reorg_incremental codec;
    rebuild_indices_with_tickets = rebuild_indices_with_tickets codec;
  }

  abbrev pub mempool_store : Mempool.Store (Db R F)
  mempool_store = record {
    save_mempool_tx = save_mempool_tx codec.txid;
    remove_mempool_txs = remove_mempool_txs;
    txid = codec.txid;
  }

  abbrev pub stores : Stores F (Db R F)
  stores = record { of_chain = chain_store; of_mempool = mempool_store }
