-- ===== src/Api/Views.antt =====
-- The handlers of lootcoin-node/src/api.rs that only read: what they compute from the state and from
-- the database. A database error is not modelled.
use lootcoin.Base.{
  ℕ, ◌+◌, ◌-◌, ◌≡◌, refl, min, Bytes, bytes_eq, bytes_beq, nat_eq, List, [], ◌∷◌, map, Option, none,
  some, take, drop, u64_mod, ◌<◌, ◌∙◌, ap, Map, get, first, length, saturating_add64, add64,
  if◌then◌else◌,
}
use lootcoin.Core.{Transaction, Block, LootTicket, Core}
use lootcoin.Metrics.{Tier}
use lootcoin.Chain.State.{Payout, CheckpointState}
use lootcoin.Chain.Ledger.{get_balance}
use lootcoin.Chain.Validate.{get_height, get_latest_hash}
use lootcoin.Chain.Window.{get_avg_block_time_secs}
use lootcoin.Mempool.{pending_debit, all_transactions_with_height, median_fee}
use lootcoin.Gossip.{peer_urls}
use lootcoin.Db.Redb.{Redb, IsLawful}
use lootcoin.Db.Tables.{
  Db, PayoutRecord, get_blocks_range, get_lottery_payouts_range, get_recent_lottery_payouts,
  load_checkpoint,
}
use lootcoin.Db.Tables.Blocks.{IsStored, get_blocks_range-IsStored}
use lootcoin.Db.Index.{Codec, TxRecord, get_transactions_for_address}
use lootcoin.Api.{AppState, Answer, ok, err}

pub record BalanceResponse : Type 0 where
  pub address : Bytes
  pub balance : ℕ
  pub spendable_balance : ℕ

pub record PendingTicket : Type 0 where
  pub miner : Bytes
  pub created_height : ℕ
  pub settle_height : ℕ

pub record LotteryPayoutView : Type 0 where
  pub receiver : Bytes
  pub amount : ℕ

-- `BlockView`, as the block and the field that it adds.
pub record BlockView : Type 0 where
  pub block : Block
  pub lottery_payouts : List LotteryPayoutView

-- `chain_work` is printed in hexadecimal and `latest_hash` by `hex::encode`.
pub record ChainHeadResponse (F : Type 0) : Type 0 where
  pub height : ℕ
  pub latest_hash : Bytes
  pub difficulty : F
  pub mempool_size : ℕ
  pub mempool_median_fee : Option ℕ
  pub avg_block_time_secs : Option F
  pub chain_work : ℕ
  pub pot : ℕ

-- The gauges that `metrics_handler` sets, but for those of the clock.
pub record Gauges : Type 0 where
  pub chain_height : ℕ
  pub pot_coins : ℕ
  pub total_supply : ℕ
  pub circulating_coins : ℕ
  pub mempool_size : ℕ
  pub peer_count : ℕ

pub record SnapshotInfo : Type 0 where
  pub height : ℕ
  pub block_hash_hex : Bytes

-- The limit of a page: the query's, or the default, up to the maximum.
abbrev pub page_limit : Option ℕ → ℕ → ℕ → ℕ
page_limit none otherwise most = min otherwise most
page_limit (some limit) otherwise most = min limit most

unfoldable pub view : Map ℕ (List Payout) → Block → BlockView
view payouts block = record {
  block = block;
  lottery_payouts = elim (get block.index payouts) [
    | none ↦ []
    | some ps ↦ map (λ (p : Payout). record { receiver = p.receiver; amount = p.amount }) ps
  ];
}

map-view :
    (payouts : Map ℕ (List Payout)) (bs : List Block)
    → map (λ v. v.block) (map (view payouts) bs) ≡ bs
unfolding view
map-view payouts [] = refl
map-view payouts (b ∷ bs) = ap (◌∷◌ b) (map-view payouts bs)

module _ {R : Redb} {F : Type 0} where
  unfoldable pub get_address_transactions_handler :
      Codec → AppState F (Db R F) → Bytes → Option ℕ → Option ℕ → List TxRecord
  get_address_transactions_handler codec state address offset limit =
      get_transactions_for_address codec state.db address (elim offset [ none ↦ 0 | some n ↦ n ])
        (page_limit limit 50 500)

  unfoldable pub get_balance_handler : AppState F (Db R F) → Bytes → BalanceResponse
  get_balance_handler state address =
      let balance = get_balance state.chain.books address in
      record {
        address = address;
        balance = balance;
        spendable_balance = balance - pending_debit state.mempool.entries address;
      }

  unfoldable pub list_mempool_handler : AppState F (Db R F) → List (Transaction × ℕ)
  list_mempool_handler state = all_transactions_with_height state.mempool.entries

  unfoldable pub get_pending_tickets_handler : Core F → AppState F (Db R F) → List PendingTicket
  get_pending_tickets_handler core state =
      map
        (λ (t : LootTicket). record {
          miner = t.miner;
          created_height = t.created_height;
          settle_height = add64 t.created_height core.reveal_blocks;
        })
        state.chain.pending_tickets

  unfoldable pub get_recent_lottery_payouts_handler :
      AppState F (Db R F) → Option Tier → Option ℕ → List PayoutRecord
  get_recent_lottery_payouts_handler state tier limit =
      get_recent_lottery_payouts state.db tier (page_limit limit 10 100)

  unfoldable pub get_blocks_handler : AppState F (Db R F) → ℕ → Option ℕ → List BlockView
  get_blocks_handler state from limit =
      let bound = page_limit limit 500 500 in
      map (view (get_lottery_payouts_range state.db from bound))
        (get_blocks_range state.db from bound)

  -- `none` is the panic of `get_latest_hash` on an empty window.
  unfoldable pub chain_head_handler : Core F → AppState F (Db R F) → Option (ChainHeadResponse F)
  chain_head_handler core state = elim (get_latest_hash state.chain) [
    | none ↦ none
    | some hash ↦ some (record {
      height = get_height state.chain;
      latest_hash = hash;
      difficulty = state.chain.current_difficulty;
      mempool_size = length state.mempool.entries;
      mempool_median_fee = median_fee state.mempool.entries;
      avg_block_time_secs = get_avg_block_time_secs core.float state.chain;
      chain_work = state.chain.chain_work;
      pot = state.chain.books.pot;
    })
  ]

  unfoldable pub metrics_handler : AppState F (Db R F) → Gauges
  metrics_handler state =
      let total = saturating_add64 100000000 (get_height state.chain) in
      record {
        chain_height = get_height state.chain;
        pot_coins = state.chain.books.pot;
        total_supply = total;
        circulating_coins = total - state.chain.books.pot;
        mempool_size = length state.mempool.entries;
        peer_count = length (peer_urls state.gossip);
      }

  -- The checkpoints that are trusted, by height and hash, and that the database has with this hash.
  unfoldable pub get_snapshots_handler :
      (Bytes → Bytes) → List (ℕ × Bytes) → AppState F (Db R F) → List SnapshotInfo
  get_snapshots_handler encode [] state = []
  get_snapshots_handler encode ((height, trusted_hash) ∷ rest) state =
      let others = get_snapshots_handler encode rest state in
      elim (load_checkpoint state.db height) [
        | none ↦ others
        | some cp ↦
            if bytes_beq (encode cp.block_hash) trusted_hash
            then record { height = height; block_hash_hex = encode cp.block_hash } ∷ others
            else others
      ]

  -- The checkpoint of a trusted height, or the status.
  unfoldable pub get_snapshot_handler :
      (Bytes → Bytes) → Map ℕ Bytes → AppState F (Db R F) → ℕ → Answer ℕ (CheckpointState F)
  get_snapshot_handler encode trusted state height = elim (get height trusted) [
    | none ↦ err 404
    | some trusted_hash ↦ elim (load_checkpoint state.db height) [
      | none ↦ err 404
      | some cp ↦ if bytes_beq (encode cp.block_hash) trusted_hash then ok cp else err 500
    ]
  ]

  -- The hash of the block at a height, or the status.
  unfoldable pub block_hash_handler : (Bytes → Bytes) → AppState F (Db R F) → ℕ → Answer ℕ Bytes
  block_hash_handler encode state height = elim (first (get_blocks_range state.db height 1)) [
    | none ↦ err 404
    | some b ↦ ok (encode b.hash)
  ]

  -- The page of `get_blocks_handler` is the blocks of the stored chain from the position on, as
  -- many as asked for up to 500, on a lawful database, when the end of the page fits a `u64`.
  pub get_blocks_handler-IsStored :
      (lawful : IsLawful R) (state : AppState F (Db R F)) (bs : List Block) (from : ℕ)
      (limit : Option ℕ)
      → IsStored state.db bs
      → from + page_limit limit 500 500 < u64_mod
      → map (λ v. v.block) (get_blocks_handler state from limit)
        ≡ take (page_limit limit 500 500) (drop from bs)
  unfolding get_blocks_handler
  get_blocks_handler-IsStored lawful state bs from limit stored fits =
      let bound = page_limit limit 500 500 in
      map-view (get_lottery_payouts_range state.db from bound)
        (get_blocks_range state.db from bound)
      ∙ get_blocks_range-IsStored lawful state.db bs from bound stored fits
