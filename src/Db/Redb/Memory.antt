-- ===== src/Db/Redb/Memory.antt =====
-- A table in memory: a list of entries, which is sorted when it is read.
use lootcoin.Base.{
  ℕ, ◌<◌, ◌≡◌, refl, Bool-cases, inl, inr, [], ◌∷◌, some, Map, Eq, nat_eq, get, insert, get-insert,
  remove, get-remove, ltb, ◌==◌, if◌then◌else◌, arith,
}
use lootcoin.Db.Redb.{Ord, nat_ord, Redb, Above, Ascending, IsLawful}

-- An entry is put before the first key that is greater.
unfoldable pub put_sorted : {K V : Type 0} ⦃e : Eq K⦄ ⦃o : Ord K⦄ → Map K V → K → V → Map K V
put_sorted [] k v = (k, v) ∷ []
put_sorted ⦃e⦄ ⦃o⦄ ((j, w) ∷ m) k v =
    let rest = put_sorted m k v in
    if e.beq k j then (j, v) ∷ m else if o.less k j then (k, v) ∷ (j, w) ∷ m else (j, w) ∷ rest

unfoldable pub sorted : {K V : Type 0} ⦃e : Eq K⦄ ⦃o : Ord K⦄ → Map K V → Map K V
sorted [] = []
sorted ((k, v) ∷ m) = put_sorted (sorted m) k v

abbrev pub memory : Redb
memory = record {
  Table = Map;
  empty = [];
  find = λ t k. get k t;
  put = λ t k v. insert k v t;
  delete = λ t k. remove k t;
  entries = sorted;
}

get-put_sorted :
    {K V : Type 0} ⦃e : Eq K⦄ ⦃o : Ord K⦄ (m : Map K V) (k j : K) (v : V)
    → get j (put_sorted m k v) ≡ (if e.beq j k then some v else get j m)
unfolding get put_sorted
get-put_sorted [] k j v = refl
get-put_sorted ⦃e⦄ ⦃o⦄ ((i, w) ∷ m) k j v =
    ground (arith, e.beq_iff k i, e.beq_iff j i, e.beq_iff j k, get-put_sorted m k j v)

Above-put_sorted :
    {V : Type 0} (n : ℕ) (m : Map ℕ V) (k : ℕ) (v : V)
    → n < k
    → Above n m
    → Above n (put_sorted m k v)
unfolding put_sorted
Above-put_sorted n [] k v lt h = (lt, tt)
Above-put_sorted n ((j, w) ∷ m) k v lt h = elim (Bool-cases (k == j)) [
  | inl same ↦ rw same (h.0, h.1)
  | inr other ↦ elim (Bool-cases (ltb k j)) [
    | inl below ↦ rw (other, below) (lt, (ground arith, h.1))
    | inr above ↦ rw (other, above) (h.0, Above-put_sorted j m k v (ground arith) h.1)
  ]
]

Ascending-put_sorted :
    {V : Type 0} (m : Map ℕ V) (k : ℕ) (v : V) → Ascending m → Ascending (put_sorted m k v)
unfolding put_sorted
Ascending-put_sorted [] k v h = tt
Ascending-put_sorted ((j, w) ∷ m) k v h = elim (Bool-cases (k == j)) [
  | inl same ↦ rw same h
  | inr other ↦ elim (Bool-cases (ltb k j)) [
    | inl below ↦ rw (other, below) (ground arith, h)
    | inr above ↦ rw (other, above) (Above-put_sorted j m k v (ground arith) h)
  ]
]

Ascending-sorted : {V : Type 0} (m : Map ℕ V) → Ascending (sorted m)
unfolding sorted
Ascending-sorted [] = tt
Ascending-sorted ((k, v) ∷ m) = Ascending-put_sorted (sorted m) k v (Ascending-sorted m)

get-sorted :
    {K V : Type 0} ⦃e : Eq K⦄ ⦃o : Ord K⦄ (m : Map K V) (k : K) → get k (sorted m) ≡ get k m
unfolding sorted get
get-sorted [] k = refl
get-sorted ⦃e⦄ ⦃o⦄ ((j, v) ∷ m) k = ground (arith, get-put_sorted (sorted m) j k v, get-sorted m k)

pub memory-IsLawful : IsLawful memory
memory-IsLawful = record {
  find-put = λ t k j v. get-insert k j v t;
  find-delete = λ t k j. get-remove k j t;
  get-entries = λ t k. get-sorted t k;
  entries-Ascending = λ t. Ascending-sorted t;
}
