-- ===== src/Wallet/Submit.antt =====
-- From lootcoin-wallet/src/lib.rs to lootcoin-node/src/api.rs: a transaction that the wallet signs,
-- and what the node makes of the request.
use lootcoin.Base.{
  ℕ, ◌≡◌, inl, inr, Bytes, Option, none, some, length, if◌then◌else◌, arith, Bool-cases,
}
use lootcoin.Core.{Core}
use lootcoin.Api.{AppState, Stores, Answer, ok, err, relay_tx_inner, take_in}
use lootcoin.Api.Handlers.{
  Hex, SubmitTransactionRequest, SubmitTransactionResponse, SubmitError, submit_transaction_handler,
  submit_tx, request_tx,
}
use lootcoin.Api.Relay.{take_in-refused}
use lootcoin.Wallet.{WalletLib, Wallet, TxSubmission, sign_transaction}

-- The fields of a submission that the node reads.
abbrev pub as_request : TxSubmission → SubmitTransactionRequest
as_request s = record {
  sender = s.sender;
  receiver = s.receiver;
  amount = s.amount;
  fee = s.fee;
  nonce = s.nonce;
  public_key_hex = s.public_key_hex;
  signature_hex = s.signature_hex;
}

-- The id in an answer.
abbrev pub answered_txid : Answer SubmitError SubmitTransactionResponse → Option Bytes
answered_txid (ok response) = some response.txid_hex
answered_txid (err e) = none

module _ {F D : Type 0} (core : Core F) (stores : Stores F D) (lib : WalletLib) (hex : Hex) where
  -- What the wallet signs and submits, the node treats as the relay of the signed transaction: the
  -- same state afterwards, and a success exactly when the relay accepts, with the id that the
  -- wallet shows; when the node decodes what the wallet encodes, and the key and the signature have
  -- 32 and 64 bytes.
  pub sign_transaction-submitted :
      (state : AppState F D) (w : Wallet lib) (receiver : Bytes) (amount fee nonce : ℕ)
      → ((bytes : Bytes) → hex.from_hex (hex.encode bytes) ≡ some bytes)
      → let tx = lib.new_signed w.inner receiver amount fee nonce in
        length tx.public_key ≡ 32
        → let tx = lib.new_signed w.inner receiver amount fee nonce in
          length tx.signature ≡ 64
          → let tx = lib.new_signed w.inner receiver amount fee nonce in
            let submission = sign_transaction lib hex core w receiver amount fee nonce in
            let s = submit_transaction_handler core stores hex state (as_request submission) in
            let r = relay_tx_inner core stores state tx in
            (s.1 ≡ r.0) × (answered_txid s.0 ≡ (if r.1 then some submission.txid_hex else none))
  unfolding submit_transaction_handler relay_tx_inner submit_tx request_tx sign_transaction
  sign_transaction-submitted state w receiver amount fee nonce decodes npk nsig =
      let tx = lib.new_signed w.inner receiver amount fee nonce in
      rw (decodes tx.public_key, decodes tx.signature, npk, nsig)
        (elim (Bool-cases (take_in core stores state tx).1) [
          | inl taken ↦ ground arith
          | inr refused ↦ ground (arith, take_in-refused core stores state tx refused)
        ])
