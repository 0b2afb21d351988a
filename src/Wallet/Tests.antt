-- ===== src/Wallet/Tests.antt =====
-- A small wallet, whose phrases are its keys, and the theorems on wallets applied to it.
use lootcoin.Base.{◌≡◌, refl, Bytes, [], ◌∷◌, none, some, if◌then◌else◌}
use lootcoin.Chain.Tests.{test_core}
use lootcoin.Api.{relay_tx_inner}
use lootcoin.Api.Handlers.{submit_transaction_handler}
use lootcoin.Api.Tests.{test_stores, node, bytes_32, bytes_64, hex}
use lootcoin.Wallet.{WalletLib, Wallet, of_mnemonic, new, sign_transaction}
use lootcoin.Wallet.Backup.{IsFaithful, generated, Restores, Created-Restores}
use lootcoin.Wallet.Submit.{as_request, answered_txid, sign_transaction-submitted}

abbrev test_lib : WalletLib
test_lib = record {
  Keys = Bytes;
  Mnemonic = Bytes;
  from_secret_key_bytes = λ key. key;
  secret_key_bytes = λ keys. keys;
  new_signed = λ keys receiver amount fee nonce. record {
    sender = 2 ∷ [];
    receiver = receiver;
    amount = amount;
    fee = fee;
    nonce = nonce;
    public_key = bytes_32;
    signature = bytes_64;
  };
  from_entropy = λ entropy. some entropy;
  parse = λ phrase. some phrase;
  to_string = λ m. m;
  to_seed = λ m passphrase. m;
  trim = λ phrase. phrase;
  hmac_sha512 = λ key message. bytes_64;
}

test_lib-IsFaithful : IsFaithful test_lib hex
test_lib-IsFaithful = record {
  keeps_secret = λ key fits. refl;
  parses = λ m. refl;
  decodes = λ bytes. refl;
  hmac_length = λ key message. refl;
}

abbrev wallet : Wallet test_lib
wallet = of_mnemonic test_lib (5 ∷ [])

drawn : new test_lib (5 ∷ []) ≡ some wallet
unfolding new
drawn = refl

Created-Restores_example : Restores hex wallet
Created-Restores_example = Created-Restores test_lib-IsFaithful wallet (generated (5 ∷ []) drawn)

sign_transaction-submitted_example :
    let tx = test_lib.new_signed wallet.inner (3 ∷ []) 10 4 7 in
    let submission = sign_transaction test_lib hex test_core wallet (3 ∷ []) 10 4 7 in
    let s = submit_transaction_handler test_core test_stores hex node (as_request submission) in
    let r = relay_tx_inner test_core test_stores node tx in
    (s.1 ≡ r.0) × (answered_txid s.0 ≡ (if r.1 then some submission.txid_hex else none))
sign_transaction-submitted_example =
    sign_transaction-submitted test_core test_stores test_lib hex node wallet (3 ∷ []) 10 4 7
      (λ bytes. refl) refl refl
