-- ===== src/Db/Keys.antt =====
-- What the keys of the transaction index say (`make_tx_key` and `get_transactions_for_address` of
-- lootcoin-node/src/db.rs).
use native.Mathlib.Nat.{pow-suc, suc-add}
use lootcoin.Base.{
  ℕ, zero, suc, ◌+◌, ◌*◌, ◌/◌, ◌%◌, ◌^◌, ◌<◌, ◌≡◌, ◌≢◌, refl, ◌∙◌, ap, sym, subst, Bytes, [], ◌∷◌,
  ◌++◌, take, drop, length, length-append, All, arith,
}
use lootcoin.Db.{be_bytes, from_be_bytes, make_tx_key, block_index_of}

length-be_bytes : (n x : ℕ) → length (be_bytes n x) ≡ n
unfolding be_bytes
length-be_bytes zero x = refl
length-be_bytes (suc n) x =
    omega (arith, length-append (be_bytes n (x / 256)) (x % 256 ∷ []), length-be_bytes n (x / 256))

from_be_bytes-append :
    (acc : ℕ) (s : Bytes) (b : ℕ) → from_be_bytes acc (s ++ b ∷ []) ≡ 256 * from_be_bytes acc s + b
unfolding from_be_bytes
from_be_bytes-append acc [] b = refl
from_be_bytes-append acc (x ∷ s) b = from_be_bytes-append (256 * acc + x) s b

quotient_fits : (x q : ℕ) → x < q * 256 → x / 256 < q
quotient_fits x q lt = omega arith

from_be_bytes-be_bytes : (n x : ℕ) → x < 256 ^ n → from_be_bytes 0 (be_bytes n x) ≡ x
unfolding be_bytes from_be_bytes
from_be_bytes-be_bytes zero x lt = omega arith
from_be_bytes-be_bytes (suc n) x lt = omega (
  arith,
  from_be_bytes-append 0 (be_bytes n (x / 256)) (x % 256),
  from_be_bytes-be_bytes n (x / 256)
      (quotient_fits x (256 ^ n) (subst (λ q. x < q) (pow-suc 256 n) lt)),
)

take-append_left : (s t : Bytes) → take (length s) (s ++ t) ≡ s
take-append_left [] t = refl
take-append_left (x ∷ s) t = ap (◌∷◌ x) (take-append_left s t)

drop-append_left : (s t : Bytes) → drop (length s) (s ++ t) ≡ t
drop-append_left [] t = refl
drop-append_left (x ∷ s) t = drop-append_left s t

-- A byte string without a zero byte, as an address in text is.
abbrev pub ZeroFree : Bytes → Type 0
ZeroFree = All (λ b. b ≢ 0)

split_at_zero :
    (a b s t : Bytes) → ZeroFree a → ZeroFree b → a ++ 0 ∷ s ≡ b ++ 0 ∷ t → (a ≡ b) × (s ≡ t)
split_at_zero [] [] s t ha hb e = (refl, cc)
split_at_zero [] (y ∷ b) s t ha hb e = absurd (hb.0 (cc))
split_at_zero (x ∷ a) [] s t ha hb e = absurd (ha.0 (cc))
split_at_zero (x ∷ a) (y ∷ b) s t ha hb e =
    let heads : x ≡ y = cc in
    let tails : a ++ 0 ∷ s ≡ b ++ 0 ∷ t = cc in
    let (same, rest) = split_at_zero a b s t ha.1 hb.1 tails in (cc, rest)

drop_past : (a : Bytes) (x : ℕ) (rest : Bytes) → drop (length a + 1) (a ++ x ∷ rest) ≡ rest
drop_past [] x rest = refl
drop_past (y ∷ a) x rest = rw suc-add (drop_past a x rest)

-- The eight bytes of a block index in front of anything.
index_bytes : (i : ℕ) (rest : Bytes) → take 8 (be_bytes 8 i ++ rest) ≡ be_bytes 8 i
index_bytes i rest =
    subst (λ n. take n (be_bytes 8 i ++ rest) ≡ be_bytes 8 i) (length-be_bytes 8 i)
      (take-append_left (be_bytes 8 i) rest)

position_bytes : (i : ℕ) (rest : Bytes) → drop 8 (be_bytes 8 i ++ rest) ≡ rest
position_bytes i rest =
    subst (λ n. drop n (be_bytes 8 i ++ rest) ≡ rest) (length-be_bytes 8 i)
      (drop-append_left (be_bytes 8 i) rest)

-- The block index that `get_transactions_for_address` reads from a key of an address is the one
-- that `make_tx_key` wrote into it, when it fits a `u64`.
pub block_index_of-make_tx_key :
    (address : Bytes) (block_index tx_pos : ℕ)
    → block_index < 2 ^ 64
    → block_index_of address (make_tx_key address block_index tx_pos) ≡ block_index
unfolding block_index_of make_tx_key
block_index_of-make_tx_key address block_index tx_pos fits =
    ap (λ key. from_be_bytes 0 (take 8 key))
      (drop_past address 0 (be_bytes 8 block_index ++ be_bytes 4 (tx_pos % 2 ^ 32)))
    ∙ ap (from_be_bytes 0) (index_bytes block_index (be_bytes 4 (tx_pos % 2 ^ 32)))
    ∙ from_be_bytes-be_bytes 8 block_index fits

-- Two keys of the transaction index are the same only for the same address, block index and
-- position, when the addresses hold no zero byte, the indices fit a `u64` and the positions a
-- `u32`.
pub make_tx_key-injective :
    (a b : Bytes) (i j p q : ℕ)
    → ZeroFree a
    → ZeroFree b
    → i < 2 ^ 64
    → j < 2 ^ 64
    → p < 2 ^ 32
    → q < 2 ^ 32
    → make_tx_key a i p ≡ make_tx_key b j q
    → (a ≡ b) × (i ≡ j) × (p ≡ q)
unfolding make_tx_key
make_tx_key-injective a b i j p q ha hb hi hj hp hq e =
    let (same, tails) =
      split_at_zero a b (be_bytes 8 i ++ be_bytes 4 (p % 2 ^ 32))
        (be_bytes 8 j ++ be_bytes 4 (q % 2 ^ 32)) ha hb e in
    let indices : be_bytes 8 i ≡ be_bytes 8 j =
      sym (index_bytes i (be_bytes 4 (p % 2 ^ 32)))
      ∙ ap (take 8) tails
      ∙ index_bytes j (be_bytes 4 (q % 2 ^ 32)) in
    let positions : be_bytes 4 (p % 2 ^ 32) ≡ be_bytes 4 (q % 2 ^ 32) =
      sym (position_bytes i (be_bytes 4 (p % 2 ^ 32)))
      ∙ ap (drop 8) tails
      ∙ position_bytes j (be_bytes 4 (q % 2 ^ 32)) in
    (
      same,
      sym (from_be_bytes-be_bytes 8 i hi)
          ∙ ap (from_be_bytes 0) indices
          ∙ from_be_bytes-be_bytes 8 j hj,
      omega (
        arith,
        from_be_bytes-be_bytes 4 (p % 2 ^ 32) (omega arith),
        from_be_bytes-be_bytes 4 (q % 2 ^ 32) (omega arith),
        ap (from_be_bytes 0) positions,
      ),
    )
