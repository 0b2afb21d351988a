-- ===== src/Base/Maps.antt =====
-- `HashMap` and `BTreeMap` as association lists with at most the first entry of a key seen, and
-- `HashSet` as a list.
use Prim.Native.Nat.{ℕ, suc, ◌+◌, ◌≤◌}
use mathlib.Core.Path.{◌≡◌, refl}
use mathlib.Core.Bool.{Bool, false, ◌||◌}
use mathlib.Core.Option.{Option, none, some}
use mathlib.Core.List.{List, [], ◌∷◌, ◌++◌, map}
use native.Mathlib.Omega.{arith}
use lootcoin.Base.Tests.{Eq, if◌then◌else◌}
use lootcoin.Base.Lists.{length, sum_by}

abbrev pub Map : Type 0 → Type 0 → Type 0
Map K V = List (K × V)

module _ {K V : Type 0} where
  abbrev pub keys : Map K V → List K
  keys = map (λ e. e.0)

  abbrev pub values : Map K V → List V
  values = map (λ e. e.1)

module _ {K : Type 0} ⦃e : Eq K⦄ where
  -- `HashSet::contains`
  unfoldable pub contains : K → List K → Bool
  contains k [] = false
  contains k (j ∷ s) = e.beq k j || contains k s

  -- `HashSet::insert`, the set it leaves
  unfoldable pub add_to : K → List K → List K
  add_to k s = if contains k s then s else s ++ k ∷ []

  -- `HashSet::remove`
  unfoldable pub remove_from : K → List K → List K
  remove_from k [] = []
  remove_from k (j ∷ s) = if e.beq k j then remove_from k s else j ∷ remove_from k s

  pub contains-append :
      (k : K) (s t : List K) → contains k (s ++ t) ≡ (contains k s || contains k t)
  unfolding contains
  contains-append k [] t = refl
  contains-append k (j ∷ s) t = ground (arith, contains-append k s t)

  pub contains-add_to :
      (k j : K) (s : List K) → contains j (add_to k s) ≡ (e.beq j k || contains j s)
  unfolding add_to contains
  contains-add_to k j s = ground (arith, contains-append j s (k ∷ []), e.beq_iff j k)

module _ {K V : Type 0} ⦃e : Eq K⦄ where
  unfoldable pub get : K → Map K V → Option V
  get k [] = none
  get k ((j, v) ∷ m) = if e.beq k j then some v else get k m

  -- `get(k).copied().unwrap_or(d)`
  unfoldable pub get_or : K → V → Map K V → V
  get_or k d [] = d
  get_or k d ((j, v) ∷ m) = if e.beq k j then v else get_or k d m

  unfoldable pub has_key : K → Map K V → Bool
  has_key k [] = false
  has_key k ((j, v) ∷ m) = e.beq k j || has_key k m

  unfoldable pub insert : K → V → Map K V → Map K V
  insert k v [] = (k, v) ∷ []
  insert k v ((j, w) ∷ m) = if e.beq k j then (j, v) ∷ m else (j, w) ∷ insert k v m

  unfoldable pub remove : K → Map K V → Map K V
  remove k [] = []
  remove k ((j, w) ∷ m) = if e.beq k j then remove k m else (j, w) ∷ remove k m

  -- `let slot = entry(k).or_insert(d); *slot = f(*slot)`
  unfoldable pub upsert : K → V → (V → V) → Map K V → Map K V
  upsert k d f [] = (k, f d) ∷ []
  upsert k d f ((j, w) ∷ m) = if e.beq k j then (j, f w) ∷ m else (j, w) ∷ upsert k d f m

  pub get-insert :
      (k j : K) (v : V) (m : Map K V)
      → get j (insert k v m) ≡ (if e.beq j k then some v else get j m)
  unfolding get insert
  get-insert k j v [] = refl
  get-insert k j v ((i, w) ∷ m) =
      ground (arith, e.beq_iff k i, e.beq_iff j i, e.beq_iff j k, get-insert k j v m)

  pub get-remove :
      (k j : K) (m : Map K V) → get j (remove k m) ≡ (if e.beq j k then none else get j m)
  unfolding get remove
  get-remove k j [] = ground arith
  get-remove k j ((i, w) ∷ m) =
      ground (arith, e.beq_iff k i, e.beq_iff j i, e.beq_iff j k, get-remove k j m)

  pub get_or-upsert :
      (k j : K) (d : V) (f : V → V) (m : Map K V)
      → get_or j d (upsert k d f m) ≡ (if e.beq j k then f (get_or k d m) else get_or j d m)
  unfolding get_or upsert
  get_or-upsert k j d f [] = refl
  get_or-upsert k j d f ((i, w) ∷ m) =
      ground (arith, e.beq_iff k i, e.beq_iff j i, e.beq_iff j k, get_or-upsert k j d f m)

  pub has_key-get : (k : K) (m : Map K V) → has_key k m ≡ false → get k m ≡ none
  unfolding has_key get
  has_key-get k [] h = refl
  has_key-get k ((j, v) ∷ m) h = ground (arith, has_key-get k m)

  pub length-insert_new :
      (k : K) (v : V) (m : Map K V) → has_key k m ≡ false → insert k v m ≡ m ++ (k, v) ∷ []
  unfolding has_key insert
  length-insert_new k v [] h = refl
  length-insert_new k v ((j, w) ∷ m) h = ground (arith, length-insert_new k v m)

  pub length-insert-le : (k : K) (v : V) (m : Map K V) → length (insert k v m) ≤ suc (length m)
  unfolding insert
  length-insert-le k v [] = omega arith
  length-insert-le k v ((j, w) ∷ m) = ground (arith, length-insert-le k v m)

  pub length-remove-le : (k : K) (m : Map K V) → length (remove k m) ≤ length m
  unfolding remove
  length-remove-le k [] = omega arith
  length-remove-le k ((j, w) ∷ m) = ground (arith, length-remove-le k m)

module _ {K : Type 0} where
  abbrev pub total : Map K ℕ → ℕ
  total = sum_by (λ e. e.1)

module _ {K : Type 0} ⦃e : Eq K⦄ where
  pub get_or-le-total : (k : K) (m : Map K ℕ) → get_or k 0 m ≤ total m
  unfolding get_or
  get_or-le-total k [] = omega arith
  get_or-le-total k ((j, w) ∷ m) = ground (arith, get_or-le-total k m)

  pub total-upsert :
      (k : K) (f : ℕ → ℕ) (m : Map K ℕ)
      → total (upsert k 0 f m) + get_or k 0 m ≡ total m + f (get_or k 0 m)
  unfolding get_or upsert
  total-upsert k f [] = omega arith
  total-upsert k f ((j, w) ∷ m) = ground (arith, total-upsert k f m)
