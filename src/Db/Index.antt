-- ===== src/Db/Index.antt =====
-- The transaction index of lootcoin-node/src/db.rs, and the operations that write several tables in
-- one redb transaction: an applied block, a reorganisation, a rebuild.
pub mod Entries
pub mod Blocks
use lootcoin.Base.{
  ℕ, suc, ◌+◌, ◌%◌, ◌^◌, Bool, not, ◌&&◌, Bytes, bytes_eq, nat_eq, List, [], ◌∷◌, ◌++◌, map,
  reverse, Option, none, some, Map, get, length, keep, take, drop, keys, is_empty, if◌then◌else◌,
}
use lootcoin.Core.{Transaction, Block, LootTicket, is_coinbase}
use lootcoin.Chain.State.{Payout}
use lootcoin.Chain.Fork.{bytes_ltb}
use lootcoin.Db.{make_tx_key, block_index_of}
use lootcoin.Db.Redb.{Redb, nat_ord, bytes_ord}
use lootcoin.Db.Tables.{TxValue, Db, delete_all, delete_keys, replace_tickets, load_canonical_chain}

-- What the values of the index take from other libraries: `hex::encode`, `Transaction::txid`, and the
-- digest of bincode's encoding of a mark, a block index and a position.
pub record Codec : Type 0 where
  pub hex : Bytes → Bytes
  pub txid : Transaction → Bytes
  pub mark_digest : Bytes → ℕ → ℕ → Bytes

-- `b"coinbase"` and "lottery"
abbrev pub coinbase_mark : Bytes
coinbase_mark = 99 ∷ 111 ∷ 105 ∷ 110 ∷ 98 ∷ 97 ∷ 115 ∷ 101 ∷ []

abbrev pub lottery_mark : Bytes
lottery_mark = 108 ∷ 111 ∷ 116 ∷ 116 ∷ 101 ∷ 114 ∷ 121 ∷ []

-- `0xFFFF_0000`, the position of a block's first payout
abbrev pub payout_base : ℕ
payout_base = 4294901760

pub record TxRecord : Type 0 where
  pub block_index : ℕ
  pub value : TxValue

-- `skip(offset).take(limit)` of the entries with a key of the address, newest first
unfoldable pub page : {V : Type 0} → ℕ → ℕ → Map Bytes V → Map Bytes V
page offset limit entries = take limit (drop offset (reverse entries))

-- The entries with `address 0x00 ≤ key < address 0x01`.
unfoldable pub address_range : {V : Type 0} → Bytes → Map Bytes V → Map Bytes V
address_range address =
    keep (λ e. not (bytes_ltb e.0 (address ++ 0 ∷ [])) && bytes_ltb e.0 (address ++ 1 ∷ []))

module _ (codec : Codec) where
  unfoldable pub make_tx_value : Transaction → ℕ → ℕ → TxValue
  make_tx_value tx block_index tx_pos = record {
    sender = tx.sender;
    receiver = tx.receiver;
    amount = tx.amount;
    fee = tx.fee;
    txid_hex = codec.hex (
        if is_coinbase tx
        then codec.mark_digest coinbase_mark block_index (tx_pos % 2 ^ 32)
        else codec.txid tx);
  }

  unfoldable pub make_lottery_value : Bytes → ℕ → ℕ → ℕ → TxValue
  make_lottery_value receiver amount block_index payout_pos = record {
    sender = lottery_mark;
    receiver = receiver;
    amount = amount;
    fee = 0;
    txid_hex = codec.hex (codec.mark_digest lottery_mark block_index (payout_pos % 2 ^ 32));
  }

  module _ (R : Redb) where
    -- The entries of one transaction: under its receiver, and under its sender if it has one.
    unfoldable pub index_tx : ℕ → ℕ → Transaction → R.Table Bytes TxValue → R.Table Bytes TxValue
    index_tx block_index tx_pos tx t =
        let value = make_tx_value tx block_index tx_pos in
        let received = R.put t (make_tx_key tx.receiver block_index tx_pos) value in
        if is_coinbase tx
        then received
        else R.put received (make_tx_key tx.sender block_index tx_pos) value

    -- The loop over the transactions of a block, from a position on.
    unfoldable pub index_txs :
        ℕ → ℕ → List Transaction → R.Table Bytes TxValue → R.Table Bytes TxValue
    index_txs block_index tx_pos [] t = t
    index_txs block_index tx_pos (tx ∷ txs) t =
        index_txs block_index (suc tx_pos) txs (index_tx block_index tx_pos tx t)

    unfoldable pub index_payouts :
        ℕ → ℕ → List Payout → R.Table Bytes TxValue → R.Table Bytes TxValue
    index_payouts block_index i [] t = t
    index_payouts block_index i (p ∷ ps) t = index_payouts block_index (suc i) ps (
        R.put t (make_tx_key p.receiver block_index (payout_base + i))
          (make_lottery_value p.receiver p.amount block_index i))

    unfoldable pub unindex_txs :
        ℕ → ℕ → List Transaction → R.Table Bytes TxValue → R.Table Bytes TxValue
    unindex_txs block_index tx_pos [] t = t
    unindex_txs block_index tx_pos (tx ∷ txs) t =
        let received = R.delete t (make_tx_key tx.receiver block_index tx_pos) in
        unindex_txs block_index (suc tx_pos) txs (
          if is_coinbase tx
          then received
          else R.delete received (make_tx_key tx.sender block_index tx_pos))

    unfoldable pub unindex_payouts :
        ℕ → ℕ → List Payout → R.Table Bytes TxValue → R.Table Bytes TxValue
    unindex_payouts block_index i [] t = t
    unindex_payouts block_index i (p ∷ ps) t =
        unindex_payouts block_index (suc i) ps
          (R.delete t (make_tx_key p.receiver block_index (payout_base + i)))

  module _ {R : Redb} {F : Type 0} where
    -- The payouts of a block and their index entries, if there are any.
    unfoldable pub write_payouts : ℕ → List Payout → Db R F → Db R F
    write_payouts block_index payouts db = if is_empty payouts then db else record db {
      lottery_payouts = R.put db.lottery_payouts block_index payouts;
      tx_index = index_payouts R block_index 0 payouts db.tx_index;
    }

    unfoldable pub save_applied_block : Db R F → Block → List LootTicket → List Payout → Db R F
    save_applied_block db block tickets payouts = write_payouts block.index payouts (record db {
      blocks = R.put db.blocks block.index block;
      tx_index = index_txs R block.index 0 block.transactions db.tx_index;
      tickets = replace_tickets R db.tickets tickets;
    })

    unfoldable pub get_transactions_for_address : Db R F → Bytes → ℕ → ℕ → List TxRecord
    get_transactions_for_address db address offset limit =
        map (λ e. record { block_index = block_index_of address e.0; value = e.1 })
          (page offset limit (address_range address (R.entries db.tx_index)))

    -- The payouts that a map has for a block.
    unfoldable pub write_payouts_of : Map ℕ (List Payout) → ℕ → Db R F → Db R F
    write_payouts_of payouts_by_block block_index db = elim (get block_index payouts_by_block) [
      | none ↦ db
      | some payouts ↦ write_payouts block_index payouts db
    ]

    unfoldable pub clear_index : Db R F → Db R F
    clear_index db = record db {
      tx_index = delete_keys R db.tx_index (keys (R.entries db.tx_index));
      lottery_payouts = delete_all R db.lottery_payouts (keys (R.entries db.lottery_payouts));
    }

    unfoldable pub index_blocks : Map ℕ (List Payout) → List Block → Db R F → Db R F
    index_blocks payouts_by_block [] db = db
    index_blocks payouts_by_block (b ∷ bs) db = index_blocks payouts_by_block bs (
        write_payouts_of payouts_by_block b.index
          (record db { tx_index = index_txs R b.index 0 b.transactions db.tx_index }))

    unfoldable pub rebuild_tx_index : Db R F → List Block → Map ℕ (List Payout) → Db R F
    rebuild_tx_index db blocks payouts_by_block =
        index_blocks payouts_by_block blocks (clear_index db)

    -- A displaced block is taken out of every table.
    unfoldable pub remove_block : Block → Db R F → Db R F
    remove_block b db =
        let unpaid : R.Table Bytes TxValue = elim (R.find db.lottery_payouts b.index) [
          | none ↦ db.tx_index
          | some old_payouts ↦ unindex_payouts R b.index 0 old_payouts db.tx_index
        ] in
        record db {
          blocks = R.delete db.blocks b.index;
          lottery_payouts = R.delete db.lottery_payouts b.index;
          tx_index = unindex_txs R b.index 0 b.transactions unpaid;
        }

    unfoldable pub remove_blocks : List Block → Db R F → Db R F
    remove_blocks [] db = db
    remove_blocks (b ∷ bs) db = remove_blocks bs (remove_block b db)

    unfoldable pub insert_block : Map ℕ (List Payout) → Block → Db R F → Db R F
    insert_block new_payouts_by_block b db =
        write_payouts_of new_payouts_by_block b.index (record db {
          blocks = R.put db.blocks b.index b;
          tx_index = index_txs R b.index 0 b.transactions db.tx_index;
        })

    unfoldable pub insert_blocks : Map ℕ (List Payout) → List Block → Db R F → Db R F
    insert_blocks new_payouts_by_block [] db = db
    insert_blocks new_payouts_by_block (b ∷ bs) db =
        insert_blocks new_payouts_by_block bs (insert_block new_payouts_by_block b db)

    unfoldable pub with_tickets : List LootTicket → Db R F → Db R F
    with_tickets tickets db = record db { tickets = replace_tickets R db.tickets tickets }

    unfoldable pub apply_reorg_incremental :
        Db R F → List Block → List Block → List LootTicket → Map ℕ (List Payout) → Db R F
    apply_reorg_incremental db old_blocks new_blocks tickets new_payouts_by_block =
        with_tickets tickets
          (insert_blocks new_payouts_by_block new_blocks (remove_blocks old_blocks db))

    unfoldable pub write_all_payouts : Map ℕ (List Payout) → Db R F → Db R F
    write_all_payouts [] db = db
    write_all_payouts ((block_index, payouts) ∷ rest) db =
        write_all_payouts rest (write_payouts block_index payouts db)

    unfoldable pub rebuild_indices_with_tickets :
        Db R F → List LootTicket → Map ℕ (List Payout) → Db R F
    rebuild_indices_with_tickets db tickets new_payouts_by_block = with_tickets tickets (
        write_all_payouts new_payouts_by_block
          (index_blocks [] (load_canonical_chain db) (clear_index db)))
