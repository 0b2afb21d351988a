-- ===== src/Db/Tables.antt =====
-- The tables of lootcoin-node/src/db.rs and the operations on one of them: blocks, tickets, peers, the
-- mempool, checkpoints. An operation is modelled as it commits; a redb transaction that fails leaves
-- the tables as they were.
pub mod Blocks
pub mod Checkpoints
use lootcoin.Base.{
  ℕ, ◌+◌, ◌/◌, Bool, not, ◌&&◌, Bytes, bytes_eq, nat_eq, List, [], ◌∷◌, ◌++◌, map, reverse, Option,
  none, some, Map, length, keep, last, keys, values, upsert, get_or, insert, is_empty,
  saturating_add64, add64, leb, ltb, if◌then◌else◌,
}
use lootcoin.Core.{Transaction, Block, LootTicket, is_coinbase, user_txs}
use lootcoin.Metrics.{Tier, tier_eq, tier_beq}
use lootcoin.Chain.State.{Payout, CheckpointState}
use lootcoin.Db.Redb.{Redb, nat_ord, bytes_ord}

-- The value of a transaction index entry: sender, receiver, amount, fee, id.
pub record TxValue : Type 0 where
  pub sender : Bytes
  pub receiver : Bytes
  pub amount : ℕ
  pub fee : ℕ
  pub txid_hex : Bytes

pub record PayoutRecord : Type 0 where
  pub block_index : ℕ
  pub block_timestamp : Option ℕ
  pub receiver : Bytes
  pub amount : ℕ
  pub tier : Tier

pub record Db (R : Redb) (F : Type 0) : Type 0 where
  pub tx_index : R.Table Bytes TxValue
  pub peers : R.Table Bytes (Unit {0})
  pub tickets : R.Table ℕ Bytes
  pub blocks : R.Table ℕ Block
  pub lottery_payouts : R.Table ℕ (List Payout)
  pub mempool : R.Table Bytes (Transaction × ℕ)
  pub checkpoints : R.Table ℕ (CheckpointState F)

-- `range(from..end)`, of the entries of a table
unfoldable pub range : {V : Type 0} → ℕ → ℕ → Map ℕ V → Map ℕ V
range from end = keep (λ e. leb from e.0 && ltb e.0 end)

-- `range(from..)`
unfoldable pub range_from : {V : Type 0} → ℕ → Map ℕ V → Map ℕ V
range_from from = keep (λ e. leb from e.0)

-- The payouts of one block that match the tier, newest results last, up to the limit; and whether
-- the limit was met. The program takes the tier as a text; one that names no tier, which matches no
-- payout, is left out.
unfoldable pub push_payouts :
    Option Tier → ℕ → ℕ → Option ℕ → List Payout → List PayoutRecord → List PayoutRecord × Bool
push_payouts tier limit block_index timestamp [] results = (results, Bool.false)
push_payouts tier limit block_index timestamp (p ∷ ps) results =
    let pushed : List PayoutRecord =
      results
      ++ record {
        block_index = block_index;
        block_timestamp = timestamp;
        receiver = p.receiver;
        amount = p.amount;
        tier = p.tier;
      }
        ∷ [] in
    let after = push_payouts tier limit block_index timestamp ps pushed in
    let skipped = push_payouts tier limit block_index timestamp ps results in
    let matches : Bool = elim tier [ none ↦ Bool.true | some t ↦ tier_beq t p.tier ] in
    if matches then if leb limit (length pushed) then (pushed, Bool.true) else after else skipped

-- The totals of `scan_fee_totals`; `sum` wraps.
unfoldable pub block_fees : List Transaction → ℕ
block_fees [] = 0
block_fees (tx ∷ txs) = add64 (if is_coinbase tx then 0 else tx.fee) (block_fees txs)

unfoldable pub fee_totals : List Block → ℕ × ℕ → ℕ × ℕ
fee_totals [] acc = acc
fee_totals (b ∷ bs) (total_fees, miner_share_total) = fee_totals bs (
  saturating_add64 total_fees (block_fees b.transactions),
  saturating_add64 miner_share_total (block_fees b.transactions / 2),
)

unfoldable pub payout_totals : List Payout → Map Tier (ℕ × ℕ) → Map Tier (ℕ × ℕ)
payout_totals [] totals = totals
payout_totals (p ∷ ps) totals =
    payout_totals ps
      (upsert p.tier (0, 0) (λ e. (add64 e.0 1, saturating_add64 e.1 p.amount)) totals)

unfoldable pub payout_totals_all : List (List Payout) → Map Tier (ℕ × ℕ) → Map Tier (ℕ × ℕ)
payout_totals_all [] totals = totals
payout_totals_all (ps ∷ rest) totals = payout_totals_all rest (payout_totals ps totals)

module _ (R : Redb) where
  unfoldable pub delete_all : {V : Type 0} → R.Table ℕ V → List ℕ → R.Table ℕ V
  delete_all t [] = t
  delete_all t (k ∷ ks) = delete_all (R.delete t k) ks

  unfoldable pub delete_keys : {V : Type 0} → R.Table Bytes V → List Bytes → R.Table Bytes V
  delete_keys t [] = t
  delete_keys t (k ∷ ks) = delete_keys (R.delete t k) ks

  unfoldable pub put_tickets : R.Table ℕ Bytes → List LootTicket → R.Table ℕ Bytes
  put_tickets t [] = t
  put_tickets t (l ∷ ls) = put_tickets (R.put t l.created_height l.miner) ls

  -- `TICKETS` is emptied key by key, and filled.
  unfoldable pub replace_tickets : R.Table ℕ Bytes → List LootTicket → R.Table ℕ Bytes
  replace_tickets t tickets = put_tickets (delete_all t (keys (R.entries t))) tickets

  -- The loop of `get_recent_lottery_payouts`, over the entries newest first.
  unfoldable pub recent_payouts :
      R.Table ℕ Block
      → Option Tier
      → ℕ
      → Map ℕ (List Payout)
      → List PayoutRecord
      → List PayoutRecord
  recent_payouts blocks tier limit [] results = results
  recent_payouts blocks tier limit ((block_index, payouts) ∷ rest) results =
      let timestamp : Option ℕ = elim (R.find blocks block_index) [
        | none ↦ none
        | some b ↦ some b.timestamp
      ] in
      let (pushed, done) = push_payouts tier limit block_index timestamp payouts results in
      let further = recent_payouts blocks tier limit rest pushed in if done then pushed else further

module _ {R : Redb} {F : Type 0} where
  unfoldable pub save_block_indexed : Db R F → Block → Db R F
  save_block_indexed db block = record db { blocks = R.put db.blocks block.index block }

  unfoldable pub get_blocks_range : Db R F → ℕ → ℕ → List Block
  get_blocks_range db from limit =
      values (range from (saturating_add64 from limit) (R.entries db.blocks))

  unfoldable pub load_canonical_chain : Db R F → List Block
  load_canonical_chain db = values (R.entries db.blocks)

  unfoldable pub load_blocks_from : Db R F → ℕ → List Block
  load_blocks_from db from = values (range_from from (R.entries db.blocks))

  unfoldable pub get_lottery_payouts_range : Db R F → ℕ → ℕ → Map ℕ (List Payout)
  get_lottery_payouts_range db from limit =
      range from (saturating_add64 from limit) (R.entries db.lottery_payouts)

  unfoldable pub get_recent_lottery_payouts : Db R F → Option Tier → ℕ → List PayoutRecord
  get_recent_lottery_payouts db tier limit =
      recent_payouts R db.blocks tier limit (reverse (R.entries db.lottery_payouts)) []

  unfoldable pub load_tickets : Db R F → List LootTicket
  load_tickets db = map (λ e. record { miner = e.1; created_height = e.0 }) (R.entries db.tickets)

  unfoldable pub save_peer : Db R F → Bytes → Db R F
  save_peer db url = record db { peers = R.put db.peers url tt }

  unfoldable pub delete_peer : Db R F → Bytes → Db R F
  delete_peer db url = record db { peers = R.delete db.peers url }

  unfoldable pub load_peers : Db R F → List Bytes
  load_peers db = keys (R.entries db.peers)

  unfoldable pub scan_fee_totals : Db R F → ℕ × ℕ
  scan_fee_totals db = fee_totals (values (R.entries db.blocks)) (0, 0)

  unfoldable pub scan_lottery_payout_totals : Db R F → Map Tier (ℕ × ℕ)
  scan_lottery_payout_totals db = payout_totals_all (values (R.entries db.lottery_payouts)) []

  unfoldable pub save_mempool_tx : (Transaction → Bytes) → Db R F → Transaction → ℕ → Db R F
  save_mempool_tx txid db tx added_height = record db {
    mempool = R.put db.mempool (txid tx) (tx, added_height);
  }

  unfoldable pub remove_mempool_txs : Db R F → List Bytes → Db R F
  remove_mempool_txs db txids =
      if is_empty txids then db else record db { mempool = delete_keys R db.mempool txids }

  unfoldable pub load_mempool : Db R F → List (Transaction × ℕ)
  load_mempool db = values (R.entries db.mempool)

  unfoldable pub save_checkpoint : Db R F → ℕ → CheckpointState F → Db R F
  save_checkpoint db height state = record db { checkpoints = R.put db.checkpoints height state }

  unfoldable pub load_checkpoint : Db R F → ℕ → Option (CheckpointState F)
  load_checkpoint db height = R.find db.checkpoints height

  unfoldable pub load_latest_checkpoint : Db R F → Option (ℕ × CheckpointState F)
  load_latest_checkpoint db = last (R.entries db.checkpoints)

  unfoldable pub delete_checkpoints_from : Db R F → ℕ → Db R F
  delete_checkpoints_from db from_height = record db {
    checkpoints =
        delete_all R db.checkpoints (keys (range_from from_height (R.entries db.checkpoints)));
  }
