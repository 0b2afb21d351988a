-- ===== src/Wallet/Backup.antt =====
-- What the wallet of lootcoin-wallet/src/lib.rs shows for a backup, and what it restores from it.
use lootcoin.Base.{
  ℕ, ◌≡◌, refl, subst, inl, inr, Bytes, List, [], ◌∷◌, ◌++◌, Option, Bool-cases, Option-cases, none,
  some, length, length-take, take, drop, ◌==◌, arith,
}
use lootcoin.Api.Handlers.{Hex}
use lootcoin.Db.{be_bytes}
use lootcoin.Wallet.{
  ed25519_seed, path, WalletLib, Wallet, made, derive, key_from_mnemonic, of_mnemonic, new,
  from_mnemonic, from_secret_key_hex, secret_key_hex,
}

-- What the libraries document: a key pair keeps its secret of 32 bytes, a phrase is read as what it
-- was printed from, what is encoded decodes, and HMAC-SHA512 gives 64 bytes.
pub record IsFaithful (lib : WalletLib) (hex : Hex) : Type 0 where
  pub keeps_secret :
      (key : Bytes) → length key ≡ 32 → lib.secret_key_bytes (lib.from_secret_key_bytes key) ≡ key
  pub parses : (m : lib.Mnemonic) → lib.parse (lib.trim (lib.to_string m)) ≡ some m
  pub decodes : (bytes : Bytes) → hex.from_hex (hex.encode bytes) ≡ some bytes
  pub hmac_length : (key message : Bytes) → length (lib.hmac_sha512 key message) ≡ 64

-- The ways to a wallet.
pub data Created (lib : WalletLib) (hex : Hex) : Wallet lib → Type 0 where
  generated : (entropy : Bytes) {w : Wallet lib} → new lib entropy ≡ some w → Created lib hex w
  restored :
      (phrase : Bytes) {w : Wallet lib} → from_mnemonic lib phrase ≡ made w → Created lib hex w
  imported :
      (secret_hex : Bytes) {w : Wallet lib}
      → from_secret_key_hex lib hex secret_hex ≡ made w
      → Created lib hex w

module _ {lib : WalletLib} (hex : Hex) where
  -- What a wallet has to give back: its key pair, and its phrase if it has one.
  abbrev pub Restores : Wallet lib → Type 0
  Restores w =
      (from_secret_key_hex lib hex (secret_key_hex lib hex w)
        ≡ made (record { inner = w.inner; mnemonic = none }))
      × (elim w.mnemonic [ none ↦ made w | some phrase ↦ from_mnemonic lib phrase ] ≡ made w)

module _ {lib : WalletLib} {hex : Hex} (faithful : IsFaithful lib hex) where
  length-derive :
      (key chain_code : Bytes) (indices : List ℕ)
      → length key ≡ 32
      → length (derive lib key chain_code indices) ≡ 32
  unfolding derive
  length-derive key chain_code [] fits = fits
  length-derive key chain_code (index ∷ indices) fits =
      let result = lib.hmac_sha512 chain_code (0 ∷ key ++ be_bytes 4 index) in
      length-derive (take 32 result) (drop 32 result) indices (
        omega (
          arith,
          length-take 32 result,
          faithful.hmac_length chain_code (0 ∷ key ++ be_bytes 4 index),
        ))

  -- The key of a mnemonic has 32 bytes.
  length-key_from_mnemonic : (m : lib.Mnemonic) → length (key_from_mnemonic lib m) ≡ 32
  unfolding key_from_mnemonic
  length-key_from_mnemonic m =
      let result = lib.hmac_sha512 ed25519_seed (lib.to_seed m []) in
      length-derive (take 32 result) (drop 32 result) path
        (omega (arith, length-take 32 result, faithful.hmac_length ed25519_seed (lib.to_seed m [])))

  key-restored :
      (key : Bytes) (mnemonic : Option Bytes)
      → length key ≡ 32
      → let w : Wallet lib = record {
        inner = lib.from_secret_key_bytes key;
        mnemonic = mnemonic;
      } in
        from_secret_key_hex lib hex (secret_key_hex lib hex w)
        ≡ made (record { inner = w.inner; mnemonic = none })
  unfolding from_secret_key_hex secret_key_hex
  key-restored key mnemonic fits =
      rw
        (
          from_secret_key_hex,
          secret_key_hex,
          faithful.keeps_secret key fits,
          faithful.decodes key,
          fits,
        )
        refl

  of_mnemonic-Restores : (m : lib.Mnemonic) → Restores hex (of_mnemonic lib m)
  unfolding of_mnemonic from_mnemonic
  of_mnemonic-Restores m = (
    key-restored (key_from_mnemonic lib m) (some (lib.to_string m)) (length-key_from_mnemonic m),
    rw (from_mnemonic, faithful.parses m) refl,
  )

  restored-same :
      (phrase : Bytes) (w : Wallet lib) → from_mnemonic lib phrase ≡ made w → Restores hex w
  unfolding from_mnemonic
  restored-same phrase w e = elim (Option-cases (lib.parse (lib.trim phrase))) [
    | inl invalid ↦ absurd (ground arith)
    | inr (m, valid) ↦
        let same : of_mnemonic lib m ≡ w = ground arith in
        subst (Restores hex) same (of_mnemonic-Restores m)
  ]

  generated-same : (entropy : Bytes) (w : Wallet lib) → new lib entropy ≡ some w → Restores hex w
  unfolding new
  generated-same entropy w e = elim (Option-cases (lib.from_entropy entropy)) [
    | inl failed ↦ absurd (ground arith)
    | inr (m, valid) ↦
        let same : of_mnemonic lib m ≡ w = ground arith in
        subst (Restores hex) same (of_mnemonic-Restores m)
  ]

  imported-same :
      (secret_hex : Bytes) (w : Wallet lib)
      → from_secret_key_hex lib hex secret_hex ≡ made w
      → Restores hex w
  unfolding from_secret_key_hex
  imported-same secret_hex w e = elim (Option-cases (hex.from_hex secret_hex)) [
    | inl failed ↦ absurd (ground arith)
    | inr (bytes, valid) ↦ elim (Bool-cases (length bytes == 32)) [
      | inl fits ↦
          let of_bytes : Wallet lib = record {
            inner = lib.from_secret_key_bytes bytes;
            mnemonic = none;
          } in
          let same : of_bytes ≡ w = ground arith in
          subst (Restores hex) same (key-restored bytes none (ground arith), refl)
      | inr other ↦ absurd (ground arith)
    ]
  ]

  -- However a wallet was made, its secret key, as it is shown, restores its key pair, and its
  -- recovery phrase, if it has one, restores the whole wallet; on faithful libraries.
  pub Created-Restores : (w : Wallet lib) → Created lib hex w → Restores hex w
  Created-Restores w (generated entropy e) = generated-same entropy w e
  Created-Restores w (restored phrase e) = restored-same phrase w e
  Created-Restores w (imported secret_hex e) = imported-same secret_hex w e
