-- ===== src/Mempool/Bounds.antt =====
-- Well-formed pools of lootcoin-node/src/mempool.rs: the caps, one entry for a signature, and no
-- coinbase.
use lootcoin.Base.{
  ℕ, ◌+◌, ◌≤◌, ◌<◌, ◌≡◌, refl, inl, inr, Bool, false, Bool-cases, Bytes, bytes_eq, bytes_beq,
  bytes_beq_iff, List, [], ◌∷◌, ◌++◌, Map, has_key, remove, length, length-append,
  length-insert_new, length-remove-le, length-keep-le, keep, All, All-append, All-keep, leb,
  if◌then◌else◌, arith,
}
use lootcoin.Core.{Transaction, is_coinbase}
use lootcoin.Mempool.{
  max_mempool_size, max_pending_per_sender, MempoolEntry, Mempool, Store, is_from, is_fresh,
  pending_count, put, restore_entries, remove_each, restore, add_transaction, remove_included,
  evict_expired,
}

-- An entry stands under its signature, and is no coinbase.
abbrev pub IsEntry : Bytes × MempoolEntry → Type 0
IsEntry e = (e.0 ≡ e.1.tx.signature) × (is_coinbase e.1.tx ≡ false)

-- No key stands twice.
abbrev pub DistinctKeys : Map Bytes MempoolEntry → Type 0
DistinctKeys [] = Unit
DistinctKeys (e ∷ es) = (has_key e.0 es ≡ false) × DistinctKeys es

pub record IsPool (entries : Map Bytes MempoolEntry) : Type 0 where
  pub size : length entries ≤ max_mempool_size
  pub senders : (s : Bytes) → pending_count entries s ≤ max_pending_per_sender
  pub sound : All IsEntry entries
  pub distinct : DistinctKeys entries

pending_count-append :
    (entries : Map Bytes MempoolEntry) (e : Bytes × MempoolEntry) (s : Bytes)
    → pending_count (entries ++ e ∷ []) s ≡ pending_count entries s + (if is_from s e then 1 else 0)
unfolding pending_count
pending_count-append [] e s = ground arith
pending_count-append (x ∷ entries) e s = ground (arith, pending_count-append entries e s)

has_key-append :
    (k : Bytes) (entries : Map Bytes MempoolEntry) (e : Bytes × MempoolEntry)
    → has_key k entries ≡ false
    → bytes_beq k e.0 ≡ false
    → has_key k (entries ++ e ∷ []) ≡ false
unfolding has_key
has_key-append k [] e h ne = ground arith
has_key-append k (x ∷ entries) e h ne = ground (arith, has_key-append k entries e)

DistinctKeys-append :
    (entries : Map Bytes MempoolEntry) (e : Bytes × MempoolEntry)
    → DistinctKeys entries
    → has_key e.0 entries ≡ false
    → DistinctKeys (entries ++ e ∷ [])
unfolding has_key
DistinctKeys-append [] e d h = (refl, tt)
DistinctKeys-append (x ∷ entries) e d h = (
  has_key-append x.0 entries e d.0 (ground (arith, bytes_beq_iff x.0 e.0, bytes_beq_iff e.0 x.0)),
  DistinctKeys-append entries e d.1 (ground arith),
)

-- A new signature of a sender with room, in a pool with room.
pub put-IsPool :
    (entries : Map Bytes MempoolEntry) (tx : Transaction) (height : ℕ)
    → IsPool entries
    → is_coinbase tx ≡ false
    → has_key tx.signature entries ≡ false
    → pending_count entries tx.sender < max_pending_per_sender
    → length entries < max_mempool_size
    → IsPool (put entries tx height)
unfolding put
put-IsPool entries tx height p user new room space =
    let e : MempoolEntry = record { tx = tx; added_height = height } in
    rw (length-insert_new tx.signature e entries new) (record {
      size = omega (arith, length-append entries ((tx.signature, e) ∷ []));
      senders = λ s. ground (
        arith,
        pending_count-append entries (tx.signature, e) s,
        p.senders s,
        bytes_beq_iff tx.sender s,
      );
      sound = All-append IsEntry entries ((tx.signature, e) ∷ []) p.sound ((refl, user), tt);
      distinct = DistinctKeys-append entries (tx.signature, e) p.distinct new;
    })

module _ (k : Bytes) where
  pending_count-remove-le :
      (entries : Map Bytes MempoolEntry) (s : Bytes)
      → pending_count (remove k entries) s ≤ pending_count entries s
  unfolding pending_count remove
  pending_count-remove-le [] s = omega arith
  pending_count-remove-le (e ∷ entries) s = ground (arith, pending_count-remove-le entries s)

  All-remove :
      (entries : Map Bytes MempoolEntry) → All IsEntry entries → All IsEntry (remove k entries)
  unfolding remove
  All-remove [] h = tt
  All-remove (e ∷ entries) h = ground (arith, All-remove entries h.1)

  has_key-remove :
      (j : Bytes) (entries : Map Bytes MempoolEntry)
      → has_key j entries ≡ false
      → has_key j (remove k entries) ≡ false
  unfolding has_key remove
  has_key-remove j [] h = h
  has_key-remove j (e ∷ entries) h = ground (arith, has_key-remove j entries)

  DistinctKeys-remove :
      (entries : Map Bytes MempoolEntry) → DistinctKeys entries → DistinctKeys (remove k entries)
  unfolding remove
  DistinctKeys-remove [] d = tt
  DistinctKeys-remove (e ∷ entries) d =
      ground (arith, DistinctKeys-remove entries d.1, has_key-remove e.0 entries d.0)

  remove-IsPool : (entries : Map Bytes MempoolEntry) → IsPool entries → IsPool (remove k entries)
  remove-IsPool entries p = record {
    size = omega (arith, length-remove-le k entries, p.size);
    senders = λ s. omega (arith, pending_count-remove-le entries s, p.senders s);
    sound = All-remove entries p.sound;
    distinct = DistinctKeys-remove entries p.distinct;
  }

module _ (q : Bytes × MempoolEntry → Bool) where
  pending_count-keep-le :
      (entries : Map Bytes MempoolEntry) (s : Bytes)
      → pending_count (keep q entries) s ≤ pending_count entries s
  unfolding pending_count
  pending_count-keep-le [] s = omega arith
  pending_count-keep-le (e ∷ entries) s = ground (arith, pending_count-keep-le entries s)

  has_key-keep :
      (j : Bytes) (entries : Map Bytes MempoolEntry)
      → has_key j entries ≡ false
      → has_key j (keep q entries) ≡ false
  unfolding has_key
  has_key-keep j [] h = h
  has_key-keep j (e ∷ entries) h = ground (arith, has_key-keep j entries)

  DistinctKeys-keep :
      (entries : Map Bytes MempoolEntry) → DistinctKeys entries → DistinctKeys (keep q entries)
  DistinctKeys-keep [] d = tt
  DistinctKeys-keep (e ∷ entries) d =
      ground (arith, DistinctKeys-keep entries d.1, has_key-keep e.0 entries d.0)

  keep-IsPool : (entries : Map Bytes MempoolEntry) → IsPool entries → IsPool (keep q entries)
  keep-IsPool entries p = record {
    size = omega (arith, length-keep-le q entries, p.size);
    senders = λ s. omega (arith, pending_count-keep-le entries s, p.senders s);
    sound = All-keep IsEntry q entries p.sound;
    distinct = DistinctKeys-keep entries p.distinct;
  }

restore_entries-IsPool :
    (entries : Map Bytes MempoolEntry) (saved : List (Transaction × ℕ))
    → IsPool entries
    → IsPool (restore_entries entries saved)
unfolding restore_entries
restore_entries-IsPool entries [] p = p
restore_entries-IsPool entries ((tx, height) ∷ saved) p =
    let skipped = restore_entries-IsPool entries saved p in
    elim (Bool-cases (is_coinbase tx)) [
      | inl e ↦ rw e skipped
      | inr user ↦ elim (Bool-cases (leb max_mempool_size (length entries))) [
        | inl e ↦ rw (user, e) p
        | inr space ↦ elim (Bool-cases (has_key tx.signature entries)) [
          | inl e ↦ rw (user, space, e) skipped
          | inr new ↦
              elim (Bool-cases (leb max_pending_per_sender (pending_count entries tx.sender))) [
                | inl e ↦ rw (user, space, new, e) skipped
                | inr room ↦
                    rw (user, space, new, room)
                      (restore_entries-IsPool (put entries tx height) saved
                        (put-IsPool entries tx height p user new (ground arith) (ground arith)))
              ]
        ]
      ]
    ]

remove_each-IsPool :
    (txs : List Transaction) (entries : Map Bytes MempoolEntry)
    → IsPool entries
    → IsPool (remove_each entries txs).0
unfolding remove_each
remove_each-IsPool [] entries p = p
remove_each-IsPool (tx ∷ txs) entries p = ground (
  arith,
  remove_each-IsPool txs entries p,
  remove_each-IsPool txs (remove tx.signature entries) (remove-IsPool tx.signature entries p),
)

module _ {D : Type 0} where
  -- `restore` puts persisted transactions into a well-formed pool and leaves it well-formed,
  -- whatever has been persisted.
  pub restore-IsPool :
      (pool : Mempool D) (saved : List (Transaction × ℕ))
      → IsPool pool.entries
      → IsPool (restore pool saved).entries
  unfolding restore
  restore-IsPool pool saved p = restore_entries-IsPool pool.entries saved p

  module _ (store : Store D) where
    -- `add_transaction` keeps a well-formed pool well-formed, whether it accepts or refuses.
    pub add_transaction-IsPool :
        (pool : Mempool D) (tx : Transaction) (height : ℕ)
        → IsPool pool.entries
        → IsPool (add_transaction store pool tx height).0.entries
    unfolding add_transaction
    add_transaction-IsPool pool tx height p = ground (arith, p, put-IsPool pool.entries tx height p)

    -- `remove_included` keeps a well-formed pool well-formed.
    pub remove_included-IsPool :
        (pool : Mempool D) (included : List Transaction)
        → IsPool pool.entries
        → IsPool (remove_included store pool included).entries
    unfolding remove_included
    remove_included-IsPool pool included p = remove_each-IsPool included pool.entries p

    -- `evict_expired` keeps a well-formed pool well-formed.
    pub evict_expired-IsPool :
        (pool : Mempool D) (height : ℕ)
        → IsPool pool.entries
        → IsPool (evict_expired store pool height).entries
    unfolding evict_expired
    evict_expired-IsPool pool height p = keep-IsPool (is_fresh height) pool.entries p
