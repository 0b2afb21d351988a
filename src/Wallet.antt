-- ===== src/Wallet.antt =====
-- lootcoin-wallet/src/lib.rs and derivation.rs: the wallet of the web page. The key pairs of
-- lootcoin-core, the phrases of bip39, HMAC-SHA512 and the encoding as hexadecimals are parameters.
pub mod Backup
pub mod Submit
mod Tests
use lootcoin.Base.{
  ℕ, Bytes, List, [], ◌∷◌, ◌++◌, Option, none, some, length, take, drop, ◌==◌, if◌then◌else◌,
}
use lootcoin.Core.{Transaction, Core}
use lootcoin.Db.{be_bytes}
use lootcoin.Api.Handlers.{Hex, SubmitTransactionRequest}

-- `Keys` is `LootcoinWallet`. The last argument of `new_signed` is the nonce that it draws.
pub record WalletLib : Type 1 where
  pub Keys : Type 0
  pub Mnemonic : Type 0
  pub from_secret_key_bytes : Bytes → Keys
  pub secret_key_bytes : Keys → Bytes
  pub new_signed : Keys → Bytes → ℕ → ℕ → ℕ → Transaction
  pub from_entropy : Bytes → Option Mnemonic
  pub parse : Bytes → Option Mnemonic
  pub to_string : Mnemonic → Bytes
  pub to_seed : Mnemonic → Bytes → Bytes
  pub trim : Bytes → Bytes
  pub hmac_sha512 : Bytes → Bytes → Bytes

-- The text `ed25519 seed`.
abbrev pub ed25519_seed : Bytes
ed25519_seed = 101 ∷ 100 ∷ 50 ∷ 53 ∷ 53 ∷ 49 ∷ 57 ∷ 32 ∷ 115 ∷ 101 ∷ 101 ∷ 100 ∷ []

-- `PATH`: m/44'/4103'/0'/0'/0'
abbrev pub path : List ℕ
path = 2147483692 ∷ 2147487751 ∷ 2147483648 ∷ 2147483648 ∷ 2147483648 ∷ []

-- The submission of a transaction, as it is written to JSON.
pub record TxSubmission : Type 0 where
  pub txid_hex : Bytes
  pub sender : Bytes
  pub receiver : Bytes
  pub amount : ℕ
  pub fee : ℕ
  pub nonce : ℕ
  pub public_key_hex : Bytes
  pub signature_hex : Bytes

-- The errors of the constructors, by their messages.
pub data WalletError : Type 0 where
  invalid_phrase : WalletError
  invalid_secret_hex : WalletError
  secret_length : WalletError

pub data Made (A : Type 0) : Type 0 where
  fails : WalletError → Made A
  made : A → Made A

module _ (lib : WalletLib) where
  pub record Wallet : Type 0 where
    pub inner : lib.Keys
    pub mnemonic : Option Bytes

  -- The loop over `PATH`.
  unfoldable pub derive : Bytes → Bytes → List ℕ → Bytes
  derive key chain_code [] = key
  derive key chain_code (index ∷ indices) =
      let result = lib.hmac_sha512 chain_code (0 ∷ key ++ be_bytes 4 index) in
      derive (take 32 result) (drop 32 result) indices

  unfoldable pub key_from_mnemonic : lib.Mnemonic → Bytes
  key_from_mnemonic m =
      let result = lib.hmac_sha512 ed25519_seed (lib.to_seed m []) in
      derive (take 32 result) (drop 32 result) path

  -- The wallet of a phrase.
  unfoldable pub of_mnemonic : lib.Mnemonic → Wallet
  of_mnemonic m = record {
    inner = lib.from_secret_key_bytes (key_from_mnemonic m);
    mnemonic = some (lib.to_string m);
  }

  -- `Wallet::new`, with the entropy that it draws; `none` is a panic.
  unfoldable pub new : Bytes → Option Wallet
  new entropy = elim (lib.from_entropy entropy) [ none ↦ none | some m ↦ some (of_mnemonic m) ]

  unfoldable pub from_mnemonic : Bytes → Made Wallet
  from_mnemonic phrase = elim (lib.parse (lib.trim phrase)) [
    | none ↦ fails invalid_phrase
    | some m ↦ made (of_mnemonic m)
  ]

  module _ (hex : Hex) where
    unfoldable pub from_secret_key_hex : Bytes → Made Wallet
    from_secret_key_hex secret_hex = elim (hex.from_hex secret_hex) [
      | none ↦ fails invalid_secret_hex
      | some bytes ↦
          if length bytes == 32
          then made (record { inner = lib.from_secret_key_bytes bytes; mnemonic = none })
          else fails secret_length
    ]

    unfoldable pub secret_key_hex : Wallet → Bytes
    secret_key_hex w = hex.encode (lib.secret_key_bytes w.inner)

    unfoldable pub sign_transaction :
        {F : Type 0} → Core F → Wallet → Bytes → ℕ → ℕ → ℕ → TxSubmission
    sign_transaction core w receiver amount fee nonce =
        let tx = lib.new_signed w.inner receiver amount fee nonce in
        record {
          txid_hex = hex.encode (core.txid tx);
          sender = tx.sender;
          receiver = tx.receiver;
          amount = tx.amount;
          fee = tx.fee;
          nonce = tx.nonce;
          public_key_hex = hex.encode tx.public_key;
          signature_hex = hex.encode tx.signature;
        }
