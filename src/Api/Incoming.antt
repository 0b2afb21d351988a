-- ===== src/Api/Incoming.antt =====
-- Blocks that a node takes from miners and from peers (`apply_incoming_block` of
-- lootcoin-node/src/api.rs).
use lootcoin.Base.{
  ℕ, ◌≡◌, ◌≢◌, refl, Bool, true, false, Bytes, bytes_eq, bytes_beq_iff, List, All, [], ◌∷◌, ◌++◌,
  none, some, get, contains, if◌then◌else◌, arith, ◌∙◌, ap,
}
use lootcoin.Core.{Block, Core}
use lootcoin.Chain.State.{Blockchain, BlockOutcome, applied, reorged, orphaned, rejected}
use lootcoin.Chain.Ledger.{get_balance}
use lootcoin.Chain.Validate.{get_height}
use lootcoin.Chain.Reorg
use lootcoin.Mempool.{Mempool, remove_included, evict_expired, readd_displaced}
use lootcoin.Mempool.Bounds.{IsPool, remove_included-IsPool, evict_expired-IsPool}
use lootcoin.Mempool.Readd.{readd_displaced-IsPool}
use lootcoin.Mempool.Effects.{included_signatures, remove_included-get, evict_expired-get}
use lootcoin.Api.{
  AppState, Stores, ok, check_incoming, readd_all, remove_all, settle_pool, verdict, share, settle,
  apply_incoming_block,
}

-- The signatures of the transactions with a sender, of several blocks.
abbrev pub confirmed_by : List Block → List Bytes
confirmed_by [] = []
confirmed_by (b ∷ bs) = included_signatures b.transactions ++ confirmed_by bs

-- The block is applied, or a reorganisation follows it.
abbrev pub joins : BlockOutcome → Bool
joins applied = true
joins (reorged old_blocks new_blocks) = true
joins orphaned = false
joins rejected = false

All-contains :
    (P : Bytes → Type 0) (ss : List Bytes) → ((s : Bytes) → contains s ss ≡ true → P s) → All P ss
unfolding contains
All-contains P [] h = tt
All-contains P (s ∷ ss) h =
    (h s (ground (arith, bytes_beq_iff s s)), All-contains P ss (λ t held. h t (ground arith)))

module _ {F D : Type 0} (core : Core F) (stores : Stores F D) where
  readd_all-IsPool :
      (bs : List Block) (pool : Mempool D) (balance_of : Bytes → ℕ) (height : ℕ)
      → IsPool pool.entries
      → IsPool (readd_all core stores pool bs balance_of height).entries
  unfolding readd_all
  readd_all-IsPool [] pool balance_of height p = p
  readd_all-IsPool (b ∷ bs) pool balance_of height p =
      readd_all-IsPool bs (readd_displaced stores.of_mempool pool b.transactions balance_of height)
        balance_of height
        (readd_displaced-IsPool stores.of_mempool b.transactions pool balance_of height p)

  remove_all-IsPool :
      (bs : List Block) (pool : Mempool D)
      → IsPool pool.entries
      → IsPool (remove_all core stores pool bs).entries
  unfolding remove_all
  remove_all-IsPool [] pool p = p
  remove_all-IsPool (b ∷ bs) pool p =
      remove_all-IsPool bs (remove_included stores.of_mempool pool b.transactions)
        (remove_included-IsPool stores.of_mempool pool b.transactions p)

  pub settle_pool-IsPool :
      (chain : Blockchain F) (candidate : Block) (outcome : BlockOutcome) (pool : Mempool D)
      → IsPool pool.entries
      → IsPool (settle_pool core stores chain candidate outcome pool).entries
  unfolding settle_pool
  settle_pool-IsPool chain candidate applied pool p =
      evict_expired-IsPool stores.of_mempool
        (remove_included stores.of_mempool pool candidate.transactions) (get_height chain)
        (remove_included-IsPool stores.of_mempool pool candidate.transactions p)
  settle_pool-IsPool chain candidate (reorged olds news) pool p =
      let back = readd_all core stores pool olds (get_balance chain.books) (get_height chain) in
      evict_expired-IsPool stores.of_mempool (remove_all core stores back news) (get_height chain) (
        remove_all-IsPool news back
          (readd_all-IsPool olds pool (get_balance chain.books) (get_height chain) p))
  settle_pool-IsPool chain candidate orphaned pool p = p
  settle_pool-IsPool chain candidate rejected pool p = p

  contains-append :
      (s : Bytes) (xs ys : List Bytes)
      → contains s (xs ++ ys) ≡ (if contains s xs then true else contains s ys)
  unfolding contains
  contains-append s [] ys = refl
  contains-append s (x ∷ xs) ys = ground (arith, contains-append s xs ys)

  remove_all-get :
      (bs : List Block) (pool : Mempool D) (s : Bytes)
      → get s (remove_all core stores pool bs).entries
        ≡ (if contains s (confirmed_by bs) then none else get s pool.entries)
  unfolding remove_all contains
  remove_all-get [] pool s = refl
  remove_all-get (b ∷ bs) pool s = ground (
    arith,
    remove_all-get bs (remove_included stores.of_mempool pool b.transactions) s,
    remove_included-get stores.of_mempool pool b.transactions s,
    contains-append s (included_signatures b.transactions) (confirmed_by bs),
  )

  -- The blocks that an outcome makes part of the chain.
  abbrev pub confirms : Block → BlockOutcome → List Block
  confirms candidate applied = candidate ∷ []
  confirms candidate (reorged olds news) = news
  confirms candidate orphaned = []
  confirms candidate rejected = []

  contains-append_nil :
      (s : Bytes) (xs : List Bytes) → contains s (xs ++ []) ≡ true → contains s xs ≡ true
  unfolding contains
  contains-append_nil s [] h = h
  contains-append_nil s (x ∷ xs) h = ground (arith, contains-append_nil s xs)

  evicted_stays_out :
      (pool : Mempool D) (height : ℕ) (s : Bytes)
      → IsPool pool.entries
      → get s pool.entries ≡ none
      → get s (evict_expired stores.of_mempool pool height).entries ≡ none
  evicted_stays_out pool height s p gone =
      evict_expired-get stores.of_mempool pool height s p ∙ ground arith

  nothing_confirmed : (s : Bytes) → contains s [] ≢ true
  unfolding contains
  nothing_confirmed s c = ground arith

  pub settle_pool-get :
      (chain : Blockchain F) (candidate : Block) (outcome : BlockOutcome) (pool : Mempool D)
      (s : Bytes)
      → IsPool pool.entries
      → contains s (confirmed_by (confirms candidate outcome)) ≡ true
      → get s (settle_pool core stores chain candidate outcome pool).entries ≡ none
  unfolding settle_pool
  settle_pool-get chain candidate applied pool s p c =
      let left = remove_included stores.of_mempool pool candidate.transactions in
      evicted_stays_out left (get_height chain) s
        (remove_included-IsPool stores.of_mempool pool candidate.transactions p)
        (remove_included-get stores.of_mempool pool candidate.transactions s
          ∙ rw (contains-append_nil s (included_signatures candidate.transactions) c) refl)
  settle_pool-get chain candidate (reorged olds news) pool s p c =
      let back = readd_all core stores pool olds (get_balance chain.books) (get_height chain) in
      evicted_stays_out (remove_all core stores back news) (get_height chain) s
        (remove_all-IsPool news back
          (readd_all-IsPool olds pool (get_balance chain.books) (get_height chain) p))
        (remove_all-get news back s ∙ ground arith)
  settle_pool-get chain candidate orphaned pool s p c = absurd (nothing_confirmed s c)
  settle_pool-get chain candidate rejected pool s p c = absurd (nothing_confirmed s c)

  share-IsPool : (db : D) (pool : Mempool D) → IsPool pool.entries → IsPool (share db pool).entries
  unfolding share
  share-IsPool db pool p = p

  joining_verdict : (o : BlockOutcome) → joins o ≡ true → verdict core stores o ≡ ok true
  unfolding verdict
  joining_verdict applied j = refl
  joining_verdict (reorged olds news) j = refl
  joining_verdict orphaned j = absurd (ground arith)
  joining_verdict rejected j = absurd (ground arith)

  incoming_result :
      (now_secs : ℕ) (state : AppState F D) (block : Block) (o : BlockOutcome) (db : D)
      (chain : Blockchain F)
      → check_incoming core block ≡ none
      → Reorg.apply_block stores.of_chain core now_secs state.db state.chain block
        ≡ some (o, db, chain)
      → apply_incoming_block core stores now_secs state block
        ≡ some (verdict core stores o, settle core stores state block o db chain)
  unfolding apply_incoming_block
  incoming_result now_secs state block o db chain fine e = ground arith

  -- When a block that passes the checks is applied, or a reorganisation follows it,
  -- `apply_incoming_block` answers `true` and keeps that chain, and afterwards no transaction of
  -- the block, or of the fork that replaces blocks, is pending under its signature, coinbases
  -- apart; from a well-formed mempool.
  pub apply_incoming_block-confirmed :
      (now_secs : ℕ) (state : AppState F D) (block : Block) (o : BlockOutcome) (db : D)
      (chain : Blockchain F)
      → IsPool state.mempool.entries
      → check_incoming core block ≡ none
      → Reorg.apply_block stores.of_chain core now_secs state.db state.chain block
        ≡ some (o, db, chain)
      → joins o ≡ true
      → (state' : AppState F D) × (apply_incoming_block core stores now_secs state block
          ≡ some (ok true, state'))
        × All (λ s. get s state'.mempool.entries ≡ none) (confirmed_by (confirms block o))
        × (state'.chain ≡ chain)
  unfolding settle
  apply_incoming_block-confirmed now_secs state block o db chain p fine e j =
      let after : AppState F D = settle core stores state block o db chain in
      let answers : apply_incoming_block core stores now_secs state block ≡ some (ok true, after) =
        incoming_result now_secs state block o db chain fine e
        ∙ ap (λ v. some (v, after)) (joining_verdict o j) in
      let gone =
        All-contains (λ s. get s after.mempool.entries ≡ none) (confirmed_by (confirms block o))
          (λ s held.
            settle_pool-get chain block o (share db state.mempool) s
              (share-IsPool db state.mempool p) held) in
      (after, answers, gone, refl)
