-- ===== src/Db/Tables/Checkpoints.antt =====
-- The CHECKPOINTS table of lootcoin-node/src/db.rs: which checkpoint `load_latest_checkpoint` finds,
-- and which are left after `delete_checkpoints_from`.
use lootcoin.Base.{
  ℕ, ◌≤◌, ◌<◌, ◌≡◌, refl, ◌∙◌, sym, false, Bool-cases, inl, inr, nat_eq, List, [], ◌∷◌, none, some,
  Map, get, contains, last, keys, leb, if◌then◌else◌, arith,
}
use lootcoin.Chain.State.{CheckpointState}
use lootcoin.Db.Redb.{Redb, IsLawful, Above, Ascending, nat_ord}
use lootcoin.Db.Tables.{
  Db, range_from, delete_all, load_checkpoint, load_latest_checkpoint, delete_checkpoints_from,
}

contains-kept :
    {V : Type 0} (from k : ℕ) (m : Map ℕ V)
    → contains k (keys (range_from from m)) ≡ (if leb from k then contains k (keys m) else false)
unfolding contains range_from
contains-kept from k [] = ground arith
contains-kept from k ((j, v) ∷ m) = ground (arith, contains-kept from k m)

get-missing : {V : Type 0} (k : ℕ) (m : Map ℕ V) → contains k (keys m) ≡ false → get k m ≡ none
unfolding contains get
get-missing k [] h = refl
get-missing k ((j, v) ∷ m) h = ground (arith, get-missing k m)

get-Above : {V : Type 0} (n k : ℕ) (m : Map ℕ V) → Above n m → k ≤ n → get k m ≡ none
unfolding get
get-Above n k [] h le = refl
get-Above n k ((j, v) ∷ m) h le = ground (arith, get-Above j k m h.1 (omega arith))

get-after : {V : Type 0} (j k : ℕ) (w : V) (m : Map ℕ V) → j < k → get k ((j, w) ∷ m) ≡ get k m
unfolding get
get-after j k w m lt = ground arith

-- The last entry of an ascending map is found at its key, and no key is greater.
last-greatest :
    {V : Type 0} (m : Map ℕ V) (h : ℕ) (v : V)
    → Ascending m
    → last m ≡ some (h, v)
    → (get h m ≡ some v) × ((k : ℕ) → h < k → get k m ≡ none)
unfolding get
last-greatest [] h v up e = absurd (ground arith)
last-greatest ((j, w) ∷ []) h v up e = (ground arith, λ k above. ground arith)
last-greatest ((j, w) ∷ (i, u) ∷ m) h v up e =
    let rest = last-greatest ((i, u) ∷ m) h v up.1 e in
    let past : j < h = elim (Bool-cases (leb h j)) [
      | inr later ↦ ground arith
      | inl early ↦ absurd (ground (arith, get-Above j h ((i, u) ∷ m) up (ground arith), rest.0))
    ] in
    (
      get-after j h w ((i, u) ∷ m) past ∙ rest.0,
      λ k above. get-after j k w ((i, u) ∷ m) (omega arith) ∙ rest.1 k above,
    )

pub delete_all-find :
    {R : Redb} {V : Type 0}
    → IsLawful R
    → (t : R.Table ℕ V) (ks : List ℕ) (k : ℕ)
    → R.find (delete_all R t ks) k ≡ (if contains k ks then none else R.find t k)
unfolding delete_all contains
delete_all-find lawful t [] k = refl
delete_all-find {R} lawful t (j ∷ ks) k =
    delete_all-find lawful (R.delete t j) ks k ∙ ground (arith, lawful.find-delete t j k)

module _ {R : Redb} {F : Type 0} (lawful : IsLawful R) where
  -- After `delete_checkpoints_from` there is no checkpoint at the height or above, and every one below
  -- it is as before.
  pub delete_checkpoints_from-find :
      (db : Db R F) (from_height height : ℕ)
      → load_checkpoint (delete_checkpoints_from db from_height) height
        ≡ (if leb from_height height then none else load_checkpoint db height)
  unfolding load_checkpoint delete_checkpoints_from
  delete_checkpoints_from-find db from_height height =
      let all = R.entries db.checkpoints in
      delete_all-find lawful db.checkpoints (keys (range_from from_height all)) height
      ∙ elim (Bool-cases (contains height (keys all))) [
        | inl there ↦ ground (arith, contains-kept from_height height all)
        | inr missing ↦ ground (
          arith,
          contains-kept from_height height all,
          get-missing height all missing,
          lawful.get-entries db.checkpoints height,
        )
      ]

  -- The checkpoint that `load_latest_checkpoint` gives is stored at its height, and no checkpoint
  -- is stored at a greater one, on a lawful database.
  pub load_latest_checkpoint_lem :
      (db : Db R F) (height : ℕ) (state : CheckpointState F)
      → load_latest_checkpoint db ≡ some (height, state)
      → (load_checkpoint db height ≡ some state)
        × ((k : ℕ) → height < k → load_checkpoint db k ≡ none)
  unfolding load_checkpoint load_latest_checkpoint
  load_latest_checkpoint_lem db height state e =
      let all = R.entries db.checkpoints in
      let found = last-greatest all height state (lawful.entries-Ascending db.checkpoints) e in
      (
        sym (lawful.get-entries db.checkpoints height) ∙ found.0,
        λ k above. sym (lawful.get-entries db.checkpoints k) ∙ found.1 k above,
      )
