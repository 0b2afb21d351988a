-- ===== src/Api/Handlers.antt =====
-- lootcoin-node/src/api.rs: the handlers of posted transactions and blocks, of the events of peers and
-- of the event stream. A handler runs as one step: it holds the lock of what it changes.
use lootcoin.Base.{
  ℕ, Bool, true, false, not, Bytes, bytes_eq, bytes_beq, Option, none, some, length, add64, sub64,
  leb, ◌==◌, if◌then◌else◌,
}
use lootcoin.Core.{Transaction, Block, Core}
use lootcoin.Chain.Ledger.{validate_transaction_state}
use lootcoin.Gossip.{NodeEvent}
use lootcoin.Api.{
  AppState, Stores, Answer, ok, err, BlockError, max_sse_subscribers, is_valid_address, take_in,
  is_short, relay_tx_inner, apply_incoming_block,
}

-- The body of `POST /transactions`.
pub record SubmitTransactionRequest : Type 0 where
  pub sender : Bytes
  pub receiver : Bytes
  pub amount : ℕ
  pub fee : ℕ
  pub nonce : ℕ
  pub public_key_hex : Bytes
  pub signature_hex : Bytes

pub record SubmitTransactionResponse : Type 0 where
  pub txid_hex : Bytes
  pub sender : Bytes
  pub receiver : Bytes
  pub amount : ℕ
  pub fee : ℕ

-- The errors of `submit_transaction_handler`, by their messages.
pub data SubmitError : Type 0 where
  receiver_is_sender : SubmitError
  invalid_receiver : SubmitError
  invalid_public_key_hex : SubmitError
  public_key_length : SubmitError
  invalid_signature_hex : SubmitError
  signature_length : SubmitError
  invalid_signature : SubmitError
  not_valid : SubmitError
  mempool_full : SubmitError

-- `hex::encode` and `from_hex`, of the crate hex.
pub record Hex : Type 0 where
  pub encode : Bytes → Bytes
  pub from_hex : Bytes → Option Bytes

module _ {F : Type 0} (core : Core F) {D : Type 0} (stores : Stores F D) (hex : Hex) where
  -- The checks of the state and the insert, with the transaction built.
  unfoldable pub submit_tx :
      AppState F D → Transaction → Answer SubmitError SubmitTransactionResponse × AppState F D
  submit_tx state tx =
      let (after, accepted) = take_in core stores state tx in
      if not (core.verify tx)
      then (err invalid_signature, state)
      else if not (validate_transaction_state core state.chain.books tx)
      then (err not_valid, state)
      else if is_short core stores state tx
      then (err not_valid, state)
      else if accepted
      then (
        ok (record {
          txid_hex = hex.encode (core.txid tx);
          sender = tx.sender;
          receiver = tx.receiver;
          amount = tx.amount;
          fee = tx.fee;
        }),
        after,
      )
      else (err mempool_full, state)

  unfoldable pub request_tx : SubmitTransactionRequest → Bytes → Bytes → Transaction
  request_tx req pk_bytes sig_bytes = record {
    sender = req.sender;
    receiver = req.receiver;
    amount = req.amount;
    fee = req.fee;
    nonce = req.nonce;
    public_key = pk_bytes;
    signature = sig_bytes;
  }

  unfoldable pub submit_transaction_handler :
      AppState F D
      → SubmitTransactionRequest
      → Answer SubmitError SubmitTransactionResponse × AppState F D
  submit_transaction_handler state req =
      if bytes_beq req.sender req.receiver
      then (err receiver_is_sender, state)
      else if not (is_valid_address core req.receiver)
      then (err invalid_receiver, state)
      else elim (hex.from_hex req.public_key_hex) [
        | none ↦ (err invalid_public_key_hex, state)
        | some pk_bytes ↦
            if not (length pk_bytes == 32)
            then (err public_key_length, state)
            else elim (hex.from_hex req.signature_hex) [
              | none ↦ (err invalid_signature_hex, state)
              | some sig_bytes ↦
                  if not (length sig_bytes == 64)
                  then (err signature_length, state)
                  else submit_tx state (request_tx req pk_bytes sig_bytes)
            ]
      ]

  -- `submit_block_handler`: the block, or the status and the reason.
  unfoldable pub submit_block_handler :
      ℕ → AppState F D → Block → Option (Answer (ℕ × Option BlockError) Block × AppState F D)
  submit_block_handler now_secs state block =
      elim (apply_incoming_block core stores now_secs state block) [
        | none ↦ none
        | some (ok moved, state') ↦ some (if moved then ok block else err (409, none), state')
        | some (err e, state') ↦ some (err (400, some e), state')
      ]

  -- The status of `relay_transaction_handler`.
  unfoldable pub relay_transaction_handler : AppState F D → Transaction → AppState F D × ℕ
  relay_transaction_handler state tx =
      let (state', accepted) = relay_tx_inner core stores state tx in
      (state', if accepted then 200 else 400)

  unfoldable pub handle_peer_event : ℕ → AppState F D → NodeEvent → Option (AppState F D)
  handle_peer_event now_secs state (NodeEvent.block block) =
      elim (apply_incoming_block core stores now_secs state block) [
        | none ↦ none
        | some (answer, state') ↦ some state'
      ]
  handle_peer_event now_secs state (NodeEvent.transaction tx) =
      some (relay_tx_inner core stores state tx).0

module _ {F D : Type 0} where
  -- `events_handler`: the count with the new stream, or the refusal. The program adds and subtracts in
  -- two atomic operations without a lock; here they are one step.
  unfoldable pub events_handler : AppState F D → AppState F D × Bool
  events_handler state =
      let added = add64 state.sse_subscribers 1 in
      if leb max_sse_subscribers state.sse_subscribers
      then (record state { sse_subscribers = sub64 added 1 }, false)
      else (record state { sse_subscribers = added }, true)

  -- `SseGuard::drop`, when a stream ends.
  unfoldable pub drop_guard : AppState F D → AppState F D
  drop_guard state = record state { sse_subscribers = sub64 state.sse_subscribers 1 }
