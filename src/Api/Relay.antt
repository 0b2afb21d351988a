-- ===== src/Api/Relay.antt =====
-- Transactions that a node takes from clients and from peers (`relay_tx_inner` and
-- `submit_transaction_handler` of lootcoin-node/src/api.rs).
use lootcoin.Base.{
  ◌-◌, ◌≡◌, inl, inr, Bool, true, false, ◌&&◌, not, Bool-cases, Bytes, bytes_eq, bytes_beq, some,
  has_key, length, leb, ltb, if◌then◌else◌, arith,
}
use lootcoin.Core.{Transaction, Core, is_coinbase}
use lootcoin.Chain.Ledger.{get_balance, validate_transaction_state}
use lootcoin.Chain.Validate.{get_height}
use lootcoin.Mempool.{
  max_mempool_size, max_pending_per_sender, pending_count, pending_debit, cost, add_transaction,
  put,
}
use lootcoin.Mempool.Effects.{IsCovered, put-IsCovered, add_transaction_lem}
use lootcoin.Api.{
  AppState, Stores, Answer, ok, err, is_valid_address, take_in, is_short, relay_tx_inner,
}
use lootcoin.Api.Handlers.{
  Hex, SubmitTransactionRequest, submit_tx, request_tx, submit_transaction_handler,
}

abbrev pub is_ok : {E A : Type 0} → Answer E A → Bool
is_ok (ok a) = true
is_ok (err e) = false

module _ {F D : Type 0} (core : Core F) (stores : Stores F D) where
  -- The checks on a transaction alone and against the chain's state.
  abbrev pub admissible : AppState F D → Transaction → Bool
  admissible state tx =
      not (bytes_beq tx.sender tx.receiver)
      && core.verify tx
      && is_valid_address core tx.receiver
      && validate_transaction_state core state.chain.books tx
      && leb (cost tx)
          (get_balance state.chain.books tx.sender - pending_debit state.mempool.entries tx.sender)

  -- The room of the mempool for a transaction.
  abbrev pub has_room : AppState F D → Transaction → Bool
  has_room state tx =
      not (is_coinbase tx)
      && not (has_key tx.signature state.mempool.entries)
      && ltb (pending_count state.mempool.entries tx.sender) max_pending_per_sender
      && ltb (length state.mempool.entries) max_mempool_size

  take_in-accepts :
      (state : AppState F D) (tx : Transaction)
      → (take_in core stores state tx).1 ≡ has_room state tx
  unfolding take_in
  take_in-accepts state tx =
      let added =
        add_transaction_lem stores.of_mempool state.mempool tx (get_height state.chain)
          tx.signature in
      ground (arith, added.0)

  take_in-entries :
      (state : AppState F D) (tx : Transaction)
      → (take_in core stores state tx).0.mempool.entries ≡ (
          if has_room state tx
          then put state.mempool.entries tx (get_height state.chain)
          else state.mempool.entries)
  unfolding take_in add_transaction
  take_in-entries state tx = ground arith

  take_in-refuses :
      (state : AppState F D) (tx : Transaction)
      → has_room state tx ≡ false
      → (take_in core stores state tx).0 ≡ state
  unfolding take_in add_transaction
  take_in-refuses state tx full = ground arith

  pub take_in-refused :
      (state : AppState F D) (tx : Transaction)
      → (take_in core stores state tx).1 ≡ false
      → (take_in core stores state tx).0 ≡ state
  take_in-refused state tx refused =
      take_in-refuses state tx (ground (arith, take_in-accepts state tx))

  -- `relay_tx_inner` accepts a transaction exactly when it passes the checks on the transaction and
  -- on the chain's state, what its sender has beside its pending transactions covers its cost, and
  -- the mempool has room for it. Then it is put into the mempool at the chain's height; a refusal
  -- changes nothing.
  pub relay_tx_inner_lem :
      (state : AppState F D) (tx : Transaction)
      → let accepted = admissible state tx && has_room state tx in
        let r : AppState F D × Bool = relay_tx_inner core stores state tx in
        (r.1 ≡ accepted)
        × (r.0.mempool.entries ≡ (
            if accepted
            then put state.mempool.entries tx (get_height state.chain)
            else state.mempool.entries))
        × ((if accepted then state else r.0) ≡ state)
  unfolding relay_tx_inner is_short
  relay_tx_inner_lem state tx = elim (Bool-cases (admissible state tx)) [
    | inl fine ↦ elim (Bool-cases (has_room state tx)) [
      | inl room ↦ (
        ground (arith, take_in-accepts state tx),
        ground (arith, take_in-entries state tx),
        ground arith,
      )
      | inr full ↦ (
        ground (arith, take_in-accepts state tx),
        ground (arith, take_in-entries state tx),
        ground (arith, take_in-refuses state tx full),
      )
    ]
    | inr bad ↦ (ground arith, ground arith, ground arith)
  ]

  relay_tx_inner-chain :
      (state : AppState F D) (tx : Transaction)
      → (relay_tx_inner core stores state tx).0.chain ≡ state.chain
  unfolding relay_tx_inner take_in
  relay_tx_inner-chain state tx = ground arith

  -- When every sender's balance covers what is pending from it, it still does after
  -- `relay_tx_inner`.
  pub relay_tx_inner-IsCovered :
      (state : AppState F D) (tx : Transaction)
      → IsCovered (get_balance state.chain.books) state.mempool.entries
      → let after : AppState F D = (relay_tx_inner core stores state tx).0 in
        IsCovered (get_balance after.chain.books) after.mempool.entries
  relay_tx_inner-IsCovered state tx covered =
      let put_in = relay_tx_inner_lem state tx in
      rw (relay_tx_inner-chain state tx, put_in.1)
        (elim (Bool-cases (admissible state tx && has_room state tx)) [
          | inr refused ↦ rw refused covered
          | inl taken ↦ rw taken (
              put-IsCovered (get_balance state.chain.books) state.mempool.entries tx
                (get_height state.chain) covered (ground arith) (ground arith))
        ])

  module _ (hex : Hex) where
    -- A request whose key and signature decode to 32 and 64 bytes is treated as the relay of the
    -- transaction that it describes: the same state afterwards, and a success exactly when the
    -- relay accepts.
    pub submit_transaction_handler-relay_tx_inner :
        (state : AppState F D) (req : SubmitTransactionRequest) (pk_bytes sig_bytes : Bytes)
        → hex.from_hex req.public_key_hex ≡ some pk_bytes
        → hex.from_hex req.signature_hex ≡ some sig_bytes
        → length pk_bytes ≡ 32
        → length sig_bytes ≡ 64
        → let s = submit_transaction_handler core stores hex state req in
          let r =
            relay_tx_inner core stores state (request_tx core stores hex req pk_bytes sig_bytes) in
          (s.1 ≡ r.0) × (is_ok s.0 ≡ r.1)
    unfolding submit_transaction_handler relay_tx_inner submit_tx request_tx
    submit_transaction_handler-relay_tx_inner state req pk sig hpk hsig npk nsig =
        let tx = request_tx core stores hex req pk sig in
        rw (hpk, hsig, npk, nsig)
          (elim (Bool-cases (take_in core stores state tx).1) [
            | inl taken ↦ ground arith
            | inr refused ↦ ground (arith, take_in-refused state tx refused)
          ])

    -- A request that is refused changes nothing.
    pub submit_transaction_handler-refuses :
        (state : AppState F D) (req : SubmitTransactionRequest)
        → let s = submit_transaction_handler core stores hex state req in
          (if is_ok s.0 then state else s.1) ≡ state
    unfolding submit_transaction_handler submit_tx
    submit_transaction_handler-refuses state req = ground arith
