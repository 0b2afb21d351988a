-- ===== src/Api.antt =====
-- lootcoin-node/src/api.rs: the state that the handlers share, and the handlers that change the chain
-- and the mempool. A handler runs as one step: it holds the lock of what it changes. `none` is a
-- panic of the chain. What is posted to peers leaves the node and is not part of the state.
pub mod Urls
pub mod Views
pub mod Peers
pub mod Relay
pub mod Checks
pub mod Handlers
pub mod Incoming
pub mod Reachable
pub mod Tests
use lootcoin.Base.{
  ℕ, ◌+◌, ◌-◌, Bool, true, false, ◌&&◌, not, Bytes, bytes_eq, bytes_beq, List, [], ◌∷◌, Option,
  none, some, length, any, is_some, saturating_add64, add64, sub64, leb, ltb, ◌==◌, if◌then◌else◌,
}
use lootcoin.Core.{Transaction, Block, Core, is_coinbase}
use lootcoin.Chain.State.{Blockchain, BlockOutcome, applied, reorged, orphaned, rejected}
use lootcoin.Chain.Ledger.{get_balance, validate_transaction_state}
use lootcoin.Chain.Validate.{get_height}
use lootcoin.Chain.Reorg
use lootcoin.Mempool
use lootcoin.Mempool.{
  Mempool, cost, pending_debit, add_transaction, remove_included, evict_expired, readd_displaced,
}
use lootcoin.Gossip.{Gossip, NodeEvent, publish_block, publish_transaction}

-- `MAX_SSE_SUBSCRIBERS`
abbrev pub max_sse_subscribers : ℕ
max_sse_subscribers = 100

-- An answer: of a handler, or an error.
pub data Answer (E A : Type 0) : Type 0 where
  err : E → Answer E A
  ok : A → Answer E A

-- The errors of `apply_incoming_block`, by their messages.
pub data BlockError : Type 0 where
  no_transactions : BlockError
  too_many_transactions : BlockError
  first_not_coinbase : BlockError
  coinbase_amount_too_high : BlockError
  coinbase_fee_not_zero : BlockError
  coinbase_receiver_invalid : BlockError
  extra_coinbase : BlockError
  hash_failed : BlockError
  invalid_block_hash : BlockError
  block_rejected : BlockError

-- The mempool's `db` is the node's.
pub record AppState (F D : Type 0) : Type 0 where
  pub db : D
  pub chain : Blockchain F
  pub mempool : Mempool D
  pub gossip : Gossip
  pub sse_subscribers : ℕ
  pub history_start : ℕ

-- The database, as its users take it.
pub record Stores (F D : Type 0) : Type 0 where
  pub of_chain : Reorg.Store F D
  pub of_mempool : Mempool.Store D

-- The mempool's handle to the database, after the node's database changed.
unfoldable pub share : {D : Type 0} → D → Mempool D → Mempool D
share db pool = record pool { db = elim pool.db [ none ↦ none | some old ↦ some db ] }

-- The node's database, after the mempool wrote to it.
unfoldable pub shared : {D : Type 0} → D → Mempool D → D
shared db pool = elim pool.db [ none ↦ db | some d ↦ d ]

module _ {F : Type 0} (core : Core F) where
  unfoldable pub is_valid_address : Bytes → Bool
  is_valid_address addr = is_some (core.decode_address addr)

  -- The checks of a coinbase and of the transactions behind it.
  unfoldable pub check_coinbase : Transaction → List Transaction → Option BlockError
  check_coinbase coinbase rest =
      if not (is_coinbase coinbase)
      then some first_not_coinbase
      else if ltb 1 coinbase.amount
      then some coinbase_amount_too_high
      else if not (coinbase.fee == 0)
      then some coinbase_fee_not_zero
      else if not (is_valid_address coinbase.receiver)
      then some coinbase_receiver_invalid
      else if any is_coinbase rest
      then some extra_coinbase
      else none

  unfoldable pub check_hash : Block → Option BlockError
  check_hash block = elim (core.calculate_hash block) [
    | none ↦ some hash_failed
    | some recomputed ↦ if bytes_beq recomputed block.hash then none else some invalid_block_hash
  ]

  -- The checks of `apply_incoming_block` before it takes the chain.
  unfoldable pub check_incoming : Block → Option BlockError
  check_incoming block = elim block.transactions [
    | [] ↦ some no_transactions
    | coinbase ∷ rest ↦
        if ltb (core.max_block_txs + 1) (length (coinbase ∷ rest))
        then some too_many_transactions
        else elim (check_coinbase coinbase rest) [ some e ↦ some e | none ↦ check_hash block ]
  ]

  module _ {D : Type 0} (stores : Stores F D) where
    unfoldable pub readd_all : Mempool D → List Block → (Bytes → ℕ) → ℕ → Mempool D
    readd_all pool [] balance_of height = pool
    readd_all pool (b ∷ bs) balance_of height =
        readd_all (readd_displaced stores.of_mempool pool b.transactions balance_of height) bs
          balance_of height

    unfoldable pub remove_all : Mempool D → List Block → Mempool D
    remove_all pool [] = pool
    remove_all pool (b ∷ bs) = remove_all (remove_included stores.of_mempool pool b.transactions) bs

    -- The mempool after a block, by the outcome, at the new state of the chain.
    unfoldable pub settle_pool : Blockchain F → Block → BlockOutcome → Mempool D → Mempool D
    settle_pool chain candidate applied pool =
        evict_expired stores.of_mempool
          (remove_included stores.of_mempool pool candidate.transactions) (get_height chain)
    settle_pool chain candidate (reorged old_blocks new_blocks) pool =
        evict_expired stores.of_mempool
          (remove_all (readd_all pool old_blocks (get_balance chain.books) (get_height chain))
            new_blocks)
          (get_height chain)
    settle_pool chain candidate orphaned pool = pool
    settle_pool chain candidate rejected pool = pool

    unfoldable pub verdict : BlockOutcome → Answer BlockError Bool
    verdict applied = ok true
    verdict (reorged old_blocks new_blocks) = ok true
    verdict orphaned = ok false
    verdict rejected = err block_rejected

    -- A block is published when the tip moved.
    unfoldable pub announce : Gossip → Block → BlockOutcome → Gossip
    announce gossip candidate applied = (publish_block gossip candidate).0
    announce gossip candidate (reorged old_blocks new_blocks) = (publish_block gossip candidate).0
    announce gossip candidate orphaned = gossip
    announce gossip candidate rejected = gossip

    -- The state after the chain has taken a block with an outcome.
    unfoldable pub settle : AppState F D → Block → BlockOutcome → D → Blockchain F → AppState F D
    settle state block outcome db chain =
        let pool = settle_pool chain block outcome (share db state.mempool) in
        record state {
          db = shared db pool;
          chain = chain;
          mempool = pool;
          gossip = announce state.gossip block outcome;
        }

    unfoldable pub apply_incoming_block :
        ℕ → AppState F D → Block → Option (Answer BlockError Bool × AppState F D)
    apply_incoming_block now_secs state block = elim (check_incoming block) [
      | some e ↦ some (err e, state)
      | none ↦ elim (Reorg.apply_block stores.of_chain core now_secs state.db state.chain block) [
        | none ↦ none
        | some (outcome, db, chain) ↦ some (verdict outcome, settle state block outcome db chain)
      ]
    ]

    -- The mempool insert and the publication of a transaction that passed the checks.
    unfoldable pub take_in : AppState F D → Transaction → AppState F D × Bool
    take_in state tx =
        let (pool, accepted) =
          add_transaction stores.of_mempool state.mempool tx (get_height state.chain) in
        if accepted
        then (
          record state {
            db = shared state.db pool;
            mempool = pool;
            gossip = (publish_transaction core.txid state.gossip tx).0;
          },
          true,
        )
        else (state, false)

    -- `confirmed_balance.saturating_sub(already_pending) < cost`
    unfoldable pub is_short : AppState F D → Transaction → Bool
    is_short state tx =
        ltb
          (get_balance state.chain.books tx.sender - pending_debit state.mempool.entries tx.sender)
          (cost tx)

    unfoldable pub relay_tx_inner : AppState F D → Transaction → AppState F D × Bool
    relay_tx_inner state tx =
        if bytes_beq tx.sender tx.receiver
        then (state, false)
        else if not (core.verify tx)
        then (state, false)
        else if not (is_valid_address tx.receiver)
        then (state, false)
        else if not (validate_transaction_state core state.chain.books tx)
        then (state, false)
        else if is_short state tx
        then (state, false)
        else take_in state tx
