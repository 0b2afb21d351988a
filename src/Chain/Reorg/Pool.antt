-- ===== src/Chain/Reorg/Pool.antt =====
-- The size of the orphan pool (`apply_in_memory` of lootcoin-node/src/blockchain.rs).
use lootcoin.Base.{
  ℕ, ◌+◌, ◌≤◌, ◌<◌, ◌≡◌, refl, inl, inr, Bool, true, Option-cases, Bytes, bytes_eq, bytes_beq_iff,
  [], ◌∷◌, none, some, Map, has_key, insert, remove, length, keep, length-insert-le,
  length-remove-le, ltb, ◌==◌, if◌then◌else◌, arith,
}
use lootcoin.Core.{Block}
use lootcoin.Chain.Fork.{max_orphans_per_height, max_orphan_pool_size, bytes_ltb, least_from, least}
use lootcoin.Chain.Reorg.{evict_lowest, evict_at, add_orphan}

-- The number of orphans at a height.
abbrev pub count_at : ℕ → Map Bytes Block → ℕ
count_at index pool = length (keep (λ e. e.1.index == index) pool)

least_from-has_key :
    (less : Block → Block → Bool) (best : Bytes × Block) (es : Map Bytes Block)
    → has_key (least_from less best es) (best ∷ es) ≡ true
unfolding least_from has_key
least_from-has_key less best [] = ground (arith, bytes_beq_iff best.0 best.0)
least_from-has_key less best (e ∷ es) =
    ground (arith, least_from-has_key less best es, least_from-has_key less e es)

least-has_key :
    (less : Block → Block → Bool) (pool : Map Bytes Block) (k : Bytes)
    → least less pool ≡ some k
    → has_key k pool ≡ true
unfolding least
least-has_key less [] k h = absurd (ground arith)
least-has_key less (e ∷ es) k h = ground (arith, least_from-has_key less e es)

least-some :
    (less : Block → Block → Bool) (pool : Map Bytes Block)
    → least less pool ≡ none
    → length pool ≡ 0
unfolding least
least-some less [] h = refl
least-some less (e ∷ es) h = absurd (ground arith)

length-remove-lt :
    (k : Bytes) (pool : Map Bytes Block)
    → has_key k pool ≡ true
    → length (remove k pool) < length pool
unfolding has_key remove
length-remove-lt k [] h = absurd (ground arith)
length-remove-lt k ((j, b) ∷ pool) h =
    ground (arith, length-remove-lt k pool, length-remove-le k pool)

count_at-remove-le :
    (i : ℕ) (k : Bytes) (pool : Map Bytes Block) → count_at i (remove k pool) ≤ count_at i pool
unfolding remove
count_at-remove-le i k [] = omega arith
count_at-remove-le i k ((j, b) ∷ pool) = ground (arith, count_at-remove-le i k pool)

count_at-remove-lt :
    (i : ℕ) (k : Bytes) (pool : Map Bytes Block)
    → has_key k (keep (λ e. e.1.index == i) pool) ≡ true
    → count_at i (remove k pool) < count_at i pool
unfolding has_key remove
count_at-remove-lt i k [] h = absurd (ground arith)
count_at-remove-lt i k ((j, b) ∷ pool) h =
    ground (arith, count_at-remove-lt i k pool, count_at-remove-le i k pool)

count_at-insert :
    (i : ℕ) (b : Block) (pool : Map Bytes Block)
    → count_at i (insert b.hash b pool) ≤ count_at i pool + (if b.index == i then 1 else 0)
unfolding insert
count_at-insert i b [] = ground arith
count_at-insert i b ((j, c) ∷ pool) = ground (arith, count_at-insert i b pool)

-- The caps.
pub record IsBounded (pool : Map Bytes Block) : Type 0 where
  pub size : length pool ≤ max_orphan_pool_size
  pub heights : (i : ℕ) → count_at i pool ≤ max_orphans_per_height

evict_lowest-length :
    (pool : Map Bytes Block)
    → length pool ≤ max_orphan_pool_size
    → length (evict_lowest pool) < max_orphan_pool_size
unfolding evict_lowest
evict_lowest-length pool h = elim (Option-cases (least (λ a b. ltb a.index b.index) pool)) [
  | inl e ↦ ground (arith, least-some (λ a b. ltb a.index b.index) pool e)
  | inr (k, e) ↦
      ground (arith, length-remove-lt k pool (least-has_key (λ a b. ltb a.index b.index) pool k e))
]

evict_lowest-count_at :
    (i : ℕ) (pool : Map Bytes Block) → count_at i (evict_lowest pool) ≤ count_at i pool
unfolding evict_lowest
evict_lowest-count_at i pool = elim (Option-cases (least (λ a b. ltb a.index b.index) pool)) [
  | inl e ↦ ground arith
  | inr (k, e) ↦ ground (arith, count_at-remove-le i k pool)
]

evict_at-length : (i : ℕ) (pool : Map Bytes Block) → length (evict_at i pool) ≤ length pool
unfolding evict_at
evict_at-length i pool =
    elim (Option-cases (least (λ a b. bytes_ltb a.hash b.hash) (keep (λ e. e.1.index == i) pool))) [
      | inl e ↦ ground arith
      | inr (k, e) ↦ ground (arith, length-remove-le k pool)
    ]

evict_at-count_at :
    (i j : ℕ) (pool : Map Bytes Block) → count_at j (evict_at i pool) ≤ count_at j pool
unfolding evict_at
evict_at-count_at i j pool =
    elim (Option-cases (least (λ a b. bytes_ltb a.hash b.hash) (keep (λ e. e.1.index == i) pool))) [
      | inl e ↦ ground arith
      | inr (k, e) ↦ ground (arith, count_at-remove-le j k pool)
    ]

evict_at-room :
    (i : ℕ) (pool : Map Bytes Block)
    → count_at i pool ≤ max_orphans_per_height
    → count_at i (evict_at i pool) < max_orphans_per_height
unfolding evict_at
evict_at-room i pool h =
    let at = keep (λ e. e.1.index == i) pool in
    elim (Option-cases (least (λ a b. bytes_ltb a.hash b.hash) at)) [
      | inl e ↦ ground (arith, least-some (λ a b. bytes_ltb a.hash b.hash) at e)
      | inr (k, e) ↦ ground (
        arith,
        count_at-remove-lt i k pool (least-has_key (λ a b. bytes_ltb a.hash b.hash) at k e),
      )
    ]

-- Adding a block to an orphan pool of at most `max_orphan_pool_size` blocks, with at most
-- `max_orphans_per_height` at each height, evicts enough to keep both bounds.
pub add_orphan-IsBounded :
    (pool : Map Bytes Block) (block : Block) → IsBounded pool → IsBounded (add_orphan pool block)
unfolding add_orphan
add_orphan-IsBounded pool block h = record {
  size = omega (
    arith,
    length-insert-le block.hash block (evict_at block.index (evict_lowest pool)),
    evict_at-length block.index (evict_lowest pool),
    evict_lowest-length pool h.size,
  );
  heights = λ i. heights i;
}
  where
    kept : Map Bytes Block
    kept = evict_at block.index (evict_lowest pool)

    heights :
        (i : ℕ)
        → count_at i (insert block.hash block (evict_at block.index (evict_lowest pool)))
          ≤ max_orphans_per_height
    heights i = ground (
      arith,
      count_at-insert i block (evict_at block.index (evict_lowest pool)),
      evict_at-count_at block.index i (evict_lowest pool),
      evict_lowest-count_at i pool,
      evict_lowest-count_at block.index pool,
      evict_at-room block.index (evict_lowest pool)
          (omega (arith, evict_lowest-count_at block.index pool, h.heights block.index)),
      h.heights i,
    )
