-- ===== src/Chain/Update.antt =====
-- `update_state` in lootcoin-node/src/blockchain.rs: the checks, and then the block's effects in
-- the order of the code. The two runtime checks that abort the process are outcomes of their own.
pub mod Settled
pub mod Covers
pub mod Finish
pub mod Extends
pub mod Replay
pub mod Runs
pub mod Conserves
use lootcoin.Base.{
  ℕ, ◌+◌, ◌-◌, ◌/◌, ◌%◌, Bool, true, false, ◌&&◌, not, Bytes, bytes_eq, nat_eq, List, [], ◌∷◌, ◌++◌,
  Option, none, some, contains, insert, first, keep, any, is_empty, saturating_add64, u128_mod, ltb,
  ◌==◌, if◌then◌else◌,
}
use lootcoin.Core.{Transaction, Block, LootTicket, Core, is_coinbase, user_txs}
use lootcoin.Metrics.{Metrics, record_fees}
use lootcoin.Chain.State.{Books, Blockchain, Payout}
use lootcoin.Chain.Ledger.{credit, total_supply, apply_transaction}
use lootcoin.Chain.Lottery.{settle_tickets, matures}
use lootcoin.Chain.Difficulty.{adjust_difficulty, add_work}
use lootcoin.Chain.Validate.{is_valid}

-- `refused` is `false`, with the state unchanged; `updated` is `true`.
pub data Update (F : Type 0) : Type 0 where
  refused : Update F
  aborted : Update F
  updated : Blockchain F → Update F

unfoldable pub extract_miner_address : Block → Option Bytes
extract_miner_address block = elim (first block.transactions) [
  | none ↦ none
  | some tx ↦ if is_coinbase tx then some tx.receiver else none
]

-- The coinbase amount of the block.
unfoldable pub minted : Block → ℕ
minted block = elim (first block.transactions) [
  | none ↦ 0
  | some tx ↦ if is_coinbase tx then tx.amount else 0
]

-- The loop of step 2, on the books and the sum of the fees; `none` aborts.
unfoldable pub apply_all : Books → ℕ → List Transaction → Option (Books × ℕ)
apply_all b fees [] = some (b, fees)
apply_all b fees (tx ∷ txs) =
    let b' = apply_transaction b tx in
    let rest = apply_all b' (if is_coinbase tx then fees else saturating_add64 fees tx.fee) txs in
    if not (is_coinbase tx) && not (contains tx.signature b'.confirmed_signatures)
    then none
    else rest

-- The miner's half of the fees.
unfoldable pub pay_miner : Block → ℕ → Books → Books
pay_miner block share b =
    if ltb 0 share
    then elim (extract_miner_address block) [
      | none ↦ b
      | some miner ↦ record b { balances = credit miner share b.balances; pot = b.pot - share }
    ]
    else b

module _ {F : Type 0} where
  -- Step 1: the tickets that mature are taken out and settled.
  unfoldable pub settle_block : Core F → Blockchain F → Block → Blockchain F
  settle_block core chain block =
      let waiting = record chain {
        pending_tickets = keep (λ t. not (matures core block.index t)) chain.pending_tickets;
      } in
      let (settled, payouts) =
        settle_tickets core waiting (keep (matures core block.index) chain.pending_tickets) [] in
      if is_empty payouts then settled else record settled {
        settled_payouts_by_block = insert block.index payouts settled.settled_payouts_by_block;
      }

  -- Step 4: a ticket for the miner of a block with a transaction besides its coinbase.
  unfoldable pub issue_ticket : Blockchain F → Block → Blockchain F
  issue_ticket chain block =
      if any (λ tx. not (is_coinbase tx)) block.transactions
      then elim (extract_miner_address block) [
        | none ↦ chain
        | some miner ↦ record chain {
          pending_tickets =
              chain.pending_tickets ++ record { miner = miner; created_height = block.index } ∷ [];
        }
      ]
      else chain

  -- Step 3.
  unfoldable pub record_block : Blockchain F → Block → Blockchain F
  record_block chain block = record chain {
    block_hashes = insert block.hash block.index chain.block_hashes;
    blocks = chain.blocks ++ block ∷ [];
  }

  -- Step 2 after its loop, and the metrics.
  unfoldable pub split_fees : Blockchain F → Block → Books → ℕ → Blockchain F
  split_fees chain block b fees = record chain {
    books = pay_miner block (fees / 2) b;
    metrics = elim chain.metrics [ none ↦ none | some m ↦ some (record_fees m fees (fees / 2)) ];
  }

  -- Steps 3 to 6.
  unfoldable pub finish_block : Core F → Blockchain F → Block → Blockchain F
  finish_block core chain block =
      adjust_difficulty core.float
        (add_work core.float (issue_ticket (record_block chain block) block)) block

  -- Everything after the checks.
  unfoldable pub apply_valid : Core F → Blockchain F → Block → Update F
  apply_valid core chain block =
      let settled = settle_block core chain block in
      elim (apply_all settled.books 0 block.transactions) [
        | none ↦ aborted
        | some (b, fees) ↦
            let paid = split_fees settled block b fees in
            if total_supply paid.books == (total_supply chain.books + minted block) % u128_mod
            then updated (finish_block core paid block)
            else aborted
      ]

  unfoldable pub update_state : Core F → ℕ → Blockchain F → Block → Update F
  update_state core now_secs chain block =
      if is_valid core now_secs chain block then apply_valid core chain block else refused
