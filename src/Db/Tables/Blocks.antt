-- ===== src/Db/Tables/Blocks.antt =====
-- Reading the BLOCKS table back (`load_canonical_chain`, `load_blocks_from`, `get_blocks_range` of
-- lootcoin-node/src/db.rs).
use lootcoin.Base.{
  ℕ, zero, suc, ◌+◌, ◌-◌, ◌≤◌, ◌<◌, ◌≡◌, refl, ◌∙◌, ap, sym, inl, inr, Bool, true, false, ◌&&◌,
  Bool-cases, nat_eq, List, [], ◌∷◌, none, Map, get, values, keep, get_elem?, take, drop,
  get_elem?-drop, saturating_add64_lem, u64_mod, leb, ltb, ◌==◌, if◌then◌else◌, arith,
}
use lootcoin.Core.{Block}
use lootcoin.Db.Redb.{Redb, IsLawful, Above, Ascending, nat_ord}
use lootcoin.Db.Tables.{
  Db, range, range_from, get_blocks_range, load_canonical_chain, load_blocks_from,
}

-- The keys from `n` on, in ascending order.
abbrev From : {V : Type 0} → ℕ → Map ℕ V → Type 0
From n [] = Unit
From n ((k, v) ∷ m) = (n ≤ k) × From (suc k) m

From-Above : {V : Type 0} (n : ℕ) (m : Map ℕ V) → Above n m → From (suc n) m
From-Above n [] h = tt
From-Above n ((k, v) ∷ m) h = (h.0, From-Above k m h.1)

From-Ascending : {V : Type 0} (m : Map ℕ V) → Ascending m → From 0 m
From-Ascending [] h = tt
From-Ascending ((k, v) ∷ m) h = (omega arith, From-Above k m h)

From-weaken : {V : Type 0} (n p : ℕ) (m : Map ℕ V) → p ≤ n → From n m → From p m
From-weaken n p [] le h = tt
From-weaken n p ((k, v) ∷ m) le h = (omega arith, h.1)

get-below : {V : Type 0} (n k : ℕ) (m : Map ℕ V) → From n m → k < n → get k m ≡ none
unfolding get
get-below n k [] h lt = refl
get-below n k ((j, v) ∷ m) h lt = ground (arith, get-below (suc j) k m)

get-other :
    {V : Type 0} (j k : ℕ) (v : V) (m : Map ℕ V) → (j == k) ≡ false → get j ((k, v) ∷ m) ≡ get j m
unfolding get
get-other j k v m h = ground arith

-- A map with the values of a list under consecutive keys, read in order, is the list.
values-consecutive :
    {V : Type 0} (n : ℕ) (m : Map ℕ V) (vs : List V)
    → From n m
    → ((i : ℕ) → get (n + i) m ≡ get_elem? vs i)
    → values m ≡ vs
unfolding get
values-consecutive n [] [] h e = refl
values-consecutive n [] (v ∷ vs) h e = let e0 = e 0 in absurd (ground arith)
values-consecutive n ((k, w) ∷ m) [] h e = let e0 = e (k - n) in absurd (ground arith)
values-consecutive n ((k, w) ∷ m) (v ∷ vs) h e = elim (Bool-cases (n == k)) [
  | inl same ↦
      let e0 = e 0 in
      let first : w ≡ v = ground arith in
      let next : From (suc n) m = From-weaken (suc k) (suc n) m (ground arith) h.1 in
      let rest : (i : ℕ) → get (suc n + i) m ≡ get_elem? vs i = λ i.
        let shift : suc n + i ≡ n + suc i = omega arith in
        let other : ((n + suc i) == k) ≡ false = ground arith in
        let ei : get (n + suc i) m ≡ get_elem? vs i =
          sym (get-other (n + suc i) k w m other) ∙ e (suc i) in
        rw shift ei in
      rw (first, values-consecutive (suc n) m vs next rest) refl
  | inr other ↦
      let e0 = e 0 in
      let none_below = get-below (suc k) (n + 0) m h.1 (ground arith) in absurd (ground arith)
]

-- The blocks table holds exactly these blocks, each under its position.
abbrev pub IsStored : {R : Redb} {F : Type 0} → Db R F → List Block → Type 0
IsStored {R} db bs = (i : ℕ) → R.find db.blocks i ≡ get_elem? bs i

get-keep :
    {V : Type 0} (p : ℕ → Bool) (m : Map ℕ V) (k : ℕ)
    → get k (keep (λ e. p e.0) m) ≡ (if p k then get k m else none)
unfolding get
get-keep p [] k = ground arith
get-keep p ((j, v) ∷ m) k = ground (arith, get-keep p m k)

From-keep :
    {V : Type 0} (p : ℕ → Bool) (n : ℕ) (m : Map ℕ V) → From n m → From n (keep (λ e. p e.0) m)
From-keep p n [] h = tt
From-keep p n ((j, v) ∷ m) h = elim (Bool-cases (p j)) [
  | inl y ↦ rw y (h.0, From-keep p (suc j) m h.1)
  | inr n' ↦ rw n' (From-weaken (suc j) n _ (omega arith) (From-keep p (suc j) m h.1))
]

-- What is kept starts where the test begins to hold.
From-keep-From :
    {V : Type 0} (p : ℕ → Bool) (from n : ℕ) (m : Map ℕ V)
    → ((k : ℕ) → p k ≡ true → from ≤ k)
    → From n m
    → From from (keep (λ e. p e.0) m)
From-keep-From p from n [] starts h = tt
From-keep-From p from n ((j, v) ∷ m) starts h = elim (Bool-cases (p j)) [
  | inl y ↦ rw y (starts j y, From-keep p (suc j) m h.1)
  | inr n' ↦ rw n' (From-keep-From p from (suc j) m starts h.1)
]

get_elem?-take :
    {A : Type 0} (n i : ℕ) (xs : List A)
    → get_elem? (take n xs) i ≡ (if ltb i n then get_elem? xs i else none)
get_elem?-take zero i xs = ground arith
get_elem?-take (suc n) i [] = ground arith
get_elem?-take (suc n) zero (x ∷ xs) = ground arith
get_elem?-take (suc n) (suc i) (x ∷ xs) = ground (arith, get_elem?-take n i xs)

module _ {R : Redb} {F : Type 0} (lawful : IsLawful R) (db : Db R F) (bs : List Block) where
  get-stored : IsStored db bs → (i : ℕ) → get i (R.entries db.blocks) ≡ get_elem? bs i
  get-stored stored i = lawful.get-entries db.blocks i ∙ stored i

  pub load_canonical_chain-IsStored : IsStored db bs → load_canonical_chain db ≡ bs
  unfolding load_canonical_chain
  load_canonical_chain-IsStored stored =
      values-consecutive 0 (R.entries db.blocks) bs
        (From-Ascending (R.entries db.blocks) (lawful.entries-Ascending db.blocks))
        (λ i. let zero_on : 0 + i ≡ i = omega arith in rw zero_on (get-stored stored i))

  pub get_blocks_range-IsStored :
      (from limit : ℕ)
      → IsStored db bs
      → from + limit < u64_mod
      → get_blocks_range db from limit ≡ take limit (drop from bs)
  unfolding get_blocks_range range
  get_blocks_range-IsStored from limit stored fits =
      let bound = saturating_add64_lem from limit fits in
      ap (λ end. values (range from end (R.entries db.blocks))) bound
      ∙ values-consecutive from (range from (from + limit) (R.entries db.blocks))
          (take limit (drop from bs))
          (From-keep-From (λ k. leb from k && ltb k (from + limit)) from 0 (R.entries db.blocks)
            (λ k e. ground arith)
            (From-Ascending (R.entries db.blocks) (lawful.entries-Ascending db.blocks)))
          (λ i.
            get-keep (λ k. leb from k && ltb k (from + limit)) (R.entries db.blocks) (from + i)
            ∙ ap (λ o. if leb from (from + i) && ltb (from + i) (from + limit) then o else none)
                (get-stored stored (from + i))
            ∙ ground (arith, get_elem?-take limit i (drop from bs), get_elem?-drop from i bs))

  pub load_blocks_from-IsStored :
      (from : ℕ) → IsStored db bs → load_blocks_from db from ≡ drop from bs
  unfolding load_blocks_from range_from
  load_blocks_from-IsStored from stored =
      values-consecutive from (range_from from (R.entries db.blocks)) (drop from bs)
        (From-keep-From (leb from) from 0 (R.entries db.blocks) (λ k e. ground arith)
          (From-Ascending (R.entries db.blocks) (lawful.entries-Ascending db.blocks)))
        (λ i.
          get-keep (leb from) (R.entries db.blocks) (from + i)
          ∙ ap (λ o. if leb from (from + i) then o else none) (get-stored stored (from + i))
          ∙ ground (arith, get_elem?-drop from i bs))
