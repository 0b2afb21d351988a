-- ===== src/Db/Redb.antt =====
-- What lootcoin-node/src/db.rs uses of redb and bincode. A `Table K V` is a redb table with keys of
-- type `K` whose values are those of type `V` as bincode encodes them; an iterator over a range is
-- the part of `entries` within the range. Neither library is in the repository: the operations are
-- fields, and `IsLawful` says what their documentation promises.
pub mod Memory
use lootcoin.Chain.Fork.{bytes_ltb}
use lootcoin.Base.{
  ℕ, ◌<◌, ◌≡◌, Bool, false, true, ◌||◌, ◌&&◌, Bytes, List, [], ◌∷◌, Option, none, some, Map, Eq,
  nat_eq, get, ltb, ◌==◌, if◌then◌else◌,
}

-- The order of keys.
pub record Ord (K : Type 0) : Type 0 where
  pub less : K → K → Bool

instance abbrev pub nat_ord : Ord ℕ
nat_ord = record { less = ltb }

instance abbrev pub bytes_ord : Ord Bytes
bytes_ord = record { less = bytes_ltb }

pub record Redb : Type 1 where
  pub Table : Type 0 → Type 0 → Type 0
  pub empty : {K V : Type 0} → Table K V
  pub find : {K V : Type 0} ⦃e : Eq K⦄ ⦃o : Ord K⦄ → Table K V → K → Option V
  pub put : {K V : Type 0} ⦃e : Eq K⦄ ⦃o : Ord K⦄ → Table K V → K → V → Table K V
  pub delete : {K V : Type 0} ⦃e : Eq K⦄ ⦃o : Ord K⦄ → Table K V → K → Table K V
  pub entries : {K V : Type 0} ⦃e : Eq K⦄ ⦃o : Ord K⦄ → Table K V → List (K × V)

-- Every key is greater than `n`, and the keys grow.
abbrev pub Above : {V : Type 0} → ℕ → Map ℕ V → Type 0
Above n [] = Unit
Above n ((k, v) ∷ m) = (n < k) × Above k m

abbrev pub Ascending : {V : Type 0} → Map ℕ V → Type 0
Ascending [] = Unit
Ascending ((k, v) ∷ m) = Above k m

pub record IsLawful (R : Redb) : Type 1 where
  pub find-put :
      {K V : Type 0} ⦃e : Eq K⦄ ⦃o : Ord K⦄ (t : R.Table K V) (k j : K) (v : V)
      → R.find (R.put t k v) j ≡ (if e.beq j k then some v else R.find t j)
  pub find-delete :
      {K V : Type 0} ⦃e : Eq K⦄ ⦃o : Ord K⦄ (t : R.Table K V) (k j : K)
      → R.find (R.delete t k) j ≡ (if e.beq j k then none else R.find t j)
  pub get-entries :
      {K V : Type 0} ⦃e : Eq K⦄ ⦃o : Ord K⦄ (t : R.Table K V) (k : K)
      → get k (R.entries t) ≡ R.find t k
  pub entries-Ascending : {V : Type 0} (t : R.Table ℕ V) → Ascending (R.entries t)
