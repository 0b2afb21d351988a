-- ===== src/Gossip/Recent.antt =====
-- The deduplication cache against an ideal history (`SeenCache::insert` of
-- lootcoin-node/src/gossip.rs).
use lootcoin.Base.{
  ℕ, zero, suc, ◌-◌, ◌≤◌, ◌<◌, ◌≡◌, refl, ◌∙◌, ap, sym, inl, inr, Bool, true, false, not,
  Bool-cases, Bytes, bytes_eq, bytes_beq_iff, List, [], ◌∷◌, ◌++◌, contains, contains-append,
  add_to, remove_from, length, length-append, length-drop, drop, leb, if◌then◌else◌, arith, subst,
}
use lootcoin.Core.{Block}
use lootcoin.Gossip.{SeenCache, make_room, insert_seen, NodeEvent, Gossip, publish_block}
use lootcoin.Chain.Update.Replay.{Distinct}

-- The last `n` entries.
unfoldable pub recent : ℕ → List Bytes → List Bytes
recent n h = drop (length h - n) h

-- The cache holds the last keys of the history `h`, each once.
pub record Remembers (c : SeenCache) (h : List Bytes) : Type 0 where
  pub room : 0 < c.capacity
  pub same : c.set ≡ c.order
  pub distinct : Distinct c.order
  pub window : c.order ≡ recent c.capacity h

drop-append :
    (n : ℕ) (h : List Bytes) (k : Bytes) → n ≤ length h → drop n (h ++ k ∷ []) ≡ drop n h ++ k ∷ []
drop-append zero h k le = refl
drop-append (suc n) [] k le = absurd (omega arith)
drop-append (suc n) (x ∷ h) k le = drop-append n h k (omega arith)

drop-suc : (n : ℕ) (h rest : List Bytes) (x : Bytes) → drop n h ≡ x ∷ rest → drop (suc n) h ≡ rest
drop-suc zero [] rest x e = absurd (cc)
drop-suc zero (y ∷ h) rest x e = cc
drop-suc (suc n) [] rest x e = absurd (cc)
drop-suc (suc n) (y ∷ h) rest x e = drop-suc n h rest x e

remove_from-absent : (k : Bytes) (s : List Bytes) → contains k s ≡ false → remove_from k s ≡ s
unfolding contains remove_from
remove_from-absent k [] h = refl
remove_from-absent k (x ∷ s) h = ground (arith, remove_from-absent k s)

Distinct-append :
    (s : List Bytes) (k : Bytes) → Distinct s → contains k s ≡ false → Distinct (s ++ k ∷ [])
unfolding contains
Distinct-append [] k d h = (refl, tt)
Distinct-append (x ∷ s) k d h = (
  ground (arith, contains-append x s (k ∷ []), d.0, bytes_beq_iff x k, bytes_beq_iff k x),
  Distinct-append s k d.1 (ground arith),
)

recent-grow :
    (n : ℕ) (h : List Bytes) (k : Bytes)
    → length (recent n h) < n
    → recent n (h ++ k ∷ []) ≡ recent n h ++ k ∷ []
unfolding recent
recent-grow n h k le =
    let counted = length-drop (length h - n) h in
    let longer = length-append h (k ∷ []) in
    let none_dropped : length h - n ≡ 0 = omega arith in
    let none_dropped' : length (h ++ k ∷ []) - n ≡ 0 = omega arith in
    rw (none_dropped, none_dropped') refl

recent-slide :
    (n : ℕ) (h rest : List Bytes) (k oldest : Bytes)
    → 0 < n
    → n ≤ length (recent n h)
    → recent n h ≡ oldest ∷ rest
    → recent n (h ++ k ∷ []) ≡ rest ++ k ∷ []
unfolding recent
recent-slide n h rest k oldest pos le e =
    let counted = length-drop (length h - n) h in
    let longer = length-append h (k ∷ []) in
    let one_more : length (h ++ k ∷ []) - n ≡ suc (length h - n) = omega arith in
    rw one_more (
      drop-append (suc (length h - n)) h k (omega arith)
      ∙ ap (λ l. l ++ k ∷ []) (drop-suc (length h - n) h rest oldest e))

-- The history after a key arrives: a key that is still remembered does not come again.
unfoldable pub arrive : ℕ → List Bytes → Bytes → List Bytes
arrive n h k = if contains k (recent n h) then h else h ++ k ∷ []

remove_oldest : (x : Bytes) (s : List Bytes) → contains x s ≡ false → remove_from x (x ∷ s) ≡ s
unfolding remove_from
remove_oldest x s h = ground (arith, remove_from-absent x s h, bytes_beq_iff x x)

abbrev cache : ℕ → List Bytes → SeenCache
cache n s = record { set = s; order = s; capacity = n }

-- What `make_room` leaves for the key `k` that comes after the history `h`.
abbrev Roomy : ℕ → List Bytes → Bytes → SeenCache → List Bytes → Type 0
Roomy n h k c t =
    (c ≡ cache n t) × Distinct t × (contains k t ≡ false) × (recent n (h ++ k ∷ []) ≡ t ++ k ∷ [])

contains_tail : (k x : Bytes) (s : List Bytes) → contains k (x ∷ s) ≡ false → contains k s ≡ false
unfolding contains
contains_tail k x s h = ground arith

make_room-Roomy :
    (n : ℕ) (h s : List Bytes) (k : Bytes)
    → 0 < n
    → Distinct s
    → recent n h ≡ s
    → contains k s ≡ false
    → (t : List Bytes) × Roomy n h k (make_room (cache n s)) t
unfolding make_room
make_room-Roomy n h [] k pos d e absent =
    let few : length (recent n h) < n = rw e (omega arith) in
    let open_room : leb n 0 ≡ false = ground arith in
    ([], (rw open_room refl, d, absent, recent-grow n h k few ∙ ap (λ l. l ++ k ∷ []) e))
make_room-Roomy n h (x ∷ s) k pos d e absent = elim (Bool-cases (leb n (suc (length s)))) [
  | inl full ↦
      let le : n ≤ length (recent n h) = rw e (ground arith) in
      (
        s,
        (
          rw (full, remove_oldest x s d.0) refl,
          d.1,
          contains_tail k x s absent,
          recent-slide n h s k x pos le e,
        ),
      )
  | inr room ↦
      let few : length (recent n h) < n = rw e (ground arith) in
      (x ∷ s, (rw room refl, d, absent, recent-grow n h k few ∙ ap (λ l. l ++ k ∷ []) e))
]

insert_known :
    (n : ℕ) (s : List Bytes) (k : Bytes)
    → contains k s ≡ true
    → insert_seen (cache n s) k ≡ (cache n s, false)
unfolding insert_seen
insert_known n s k known = rw known refl

insert_fresh :
    (n : ℕ) (s t : List Bytes) (k : Bytes)
    → contains k s ≡ false
    → make_room (cache n s) ≡ cache n t
    → contains k t ≡ false
    → insert_seen (cache n s) k ≡ (cache n (t ++ k ∷ []), true)
unfolding insert_seen add_to
insert_fresh n s t k absent room absent' = rw (absent, room, absent') refl

Remembers-cache :
    (n : ℕ) (h s : List Bytes) → 0 < n → Distinct s → s ≡ recent n h → Remembers (cache n s) h
Remembers-cache n h s pos d e = record { room = pos; same = refl; distinct = d; window = e }

insert_cache :
    (n : ℕ) (h s : List Bytes) (k : Bytes)
    → 0 < n
    → Distinct s
    → recent n h ≡ s
    → Remembers (insert_seen (cache n s) k).0 (arrive n h k)
      × ((insert_seen (cache n s) k).1 ≡ not (contains k (recent n h)))
      × ((insert_seen (cache n s) k).0.capacity ≡ n)
unfolding arrive
insert_cache n h s k pos d e = elim (Bool-cases (contains k s)) [
  | inl known ↦
      rw (insert_known n s k known, e, known) (Remembers-cache n h s pos d (sym e), refl, refl)
  | inr absent ↦
      let (t, (room, dt, absent', grown)) = make_room-Roomy n h s k pos d e absent in
      rw (insert_fresh n s t k absent room absent', e, absent)
        (
          Remembers-cache n (h ++ k ∷ []) (t ++ k ∷ []) pos (Distinct-append t k dt absent')
              (sym grown),
          refl,
          refl,
        )
]

-- `insert_seen` refines an ideal history. When a cache of positive capacity holds exactly the last
-- keys of a history, as many as its capacity and each once, then inserting a key leaves a cache
-- that holds the last keys of the history that `arrive` gives: the key is put at the end when it is
-- not among the last keys, and the history is unchanged when it is. The answer is `true` exactly
-- when the key is not among the last keys, and the capacity stays.
pub insert_seen-Remembers :
    (c : SeenCache) (h : List Bytes) (k : Bytes)
    → Remembers c h
    → Remembers (insert_seen c k).0 (arrive c.capacity h k)
      × ((insert_seen c k).1 ≡ not (contains k (recent c.capacity h)))
      × ((insert_seen c k).0.capacity ≡ c.capacity)
insert_seen-Remembers c h k r =
    let whole : cache c.capacity c.order ≡ c =
      ap (λ s. record { set = s; order = c.order; capacity = c.capacity }) (sym r.same) in
    rw (sym whole) (insert_cache c.capacity h c.order k r.room r.distinct (sym r.window))

arrive_known :
    (n : ℕ) (h : List Bytes) (k : Bytes) → contains k (recent n h) ≡ true → arrive n h k ≡ h
unfolding arrive
arrive_known n h k e = rw e refl

arrive_fresh :
    (n : ℕ) (h : List Bytes) (k : Bytes)
    → contains k (recent n h) ≡ false
    → arrive n h k ≡ h ++ k ∷ []
unfolding arrive
arrive_fresh n h k e = rw e refl

-- The blocks that have been sent, by hash, oldest first.
abbrev pub block_hashes : List NodeEvent → List Bytes
block_hashes [] = []
block_hashes (NodeEvent.block b ∷ es) = b.hash ∷ block_hashes es
block_hashes (NodeEvent.transaction tx ∷ es) = block_hashes es

block_hashes-append :
    (es : List NodeEvent) (b : Block)
    → block_hashes (es ++ NodeEvent.block b ∷ []) ≡ block_hashes es ++ b.hash ∷ []
block_hashes-append [] b = refl
block_hashes-append (NodeEvent.block c ∷ es) b = ap (◌∷◌ c.hash) (block_hashes-append es b)
block_hashes-append (NodeEvent.transaction tx ∷ es) b = block_hashes-append es b

-- Publishing a block keeps the deduplication cache of blocks in step with the event stream: when
-- the cache holds the last hashes of the blocks sent so far, as many as its capacity, it does so
-- after `publish_block`, which answers `true` exactly when the block's hash is not among those last
-- hashes.
pub publish_block-Remembers :
    (g : Gossip) (b : Block)
    → Remembers g.seen_blocks (block_hashes g.sent)
    → let r : Gossip × Bool = publish_block g b in
      Remembers r.0.seen_blocks (block_hashes r.0.sent)
      × (r.1 ≡ not (contains b.hash (recent g.seen_blocks.capacity (block_hashes g.sent))))
unfolding publish_block
publish_block-Remembers g b r =
    let h = block_hashes g.sent in
    let n = g.seen_blocks.capacity in
    let (kept, answer, same) = insert_seen-Remembers g.seen_blocks h b.hash r in
    elim (Bool-cases (contains b.hash (recent n h))) [
      | inl known ↦
          let old : (insert_seen g.seen_blocks b.hash).1 ≡ false = rw (answer, known) refl in
          rw (old, known)
            (
              subst (Remembers (insert_seen g.seen_blocks b.hash).0) (arrive_known n h b.hash known)
                  kept,
              refl,
            )
      | inr absent ↦
          let fresh : (insert_seen g.seen_blocks b.hash).1 ≡ true = rw (answer, absent) refl in
          rw (fresh, absent, block_hashes-append g.sent b)
            (
              subst (Remembers (insert_seen g.seen_blocks b.hash).0)
                  (arrive_fresh n h b.hash absent) kept,
              refl,
            )
    ]
