-- ===== src/Chain/Fork/Heaviest.antt =====
-- The work of the fork that `find_longest_fork` of lootcoin-node/src/blockchain.rs chooses.
use lootcoin.Base.{
  ℕ, ◌≤◌, ◌<◌, ◌≡◌, refl, inl, inr, true, Bool-cases, Option-cases, Bytes, bytes_eq, List, [], ◌∷◌,
  Option, none, some, Map, map, values, contains, first, keep, All, ltb, subst, arith,
}
use lootcoin.Core.{Block}
use lootcoin.Chain.State.{Blockchain}
use lootcoin.Chain.Fork.{
  ReadBlocks, Candidate, heavier, chain_work_of, trace_fork_chain, ancestor_of, beats_main, better,
  consider, consider_all, find_longest_fork,
}

abbrev pub work_of : Option Candidate → ℕ
work_of none = 0
work_of (some c) = c.2

abbrev pub referenced_by : {F : Type 0} → Blockchain F → List Bytes
referenced_by chain = map (λ b. b.previous_hash) (values chain.orphan_pool)

module _ {F : Type 0} (chain : Blockchain F) (db : Option ReadBlocks) where
  -- The fork that the pool's entry offers: `none` if it is no tip, has no ancestor, or does not beat
  -- the main chain.
  abbrev pub offer : Bytes × Block → Option Candidate
  offer e = consider chain db (referenced_by chain) none e

  -- The candidate's work is that of its blocks, and beats the main chain from its ancestor.
  abbrev pub Wins : Option Candidate → Type 0
  Wins none = Unit
  Wins (some c) = (beats_main chain db c.1 c.2 ≡ true) × (c.2 ≡ chain_work_of 0 c.0)

  better-work :
      (best : Option Candidate) (fork_chain : List Block) (ancestor_index : ℕ)
      → (work_of best ≤ work_of (better chain db best fork_chain ancestor_index))
        × (work_of (better chain db none fork_chain ancestor_index)
            ≤ work_of (better chain db best fork_chain ancestor_index))
        × (Wins best → Wins (better chain db best fork_chain ancestor_index))
  unfolding better heavier
  better-work none fork_chain ancestor_index = (ground arith, ground arith, λ w. ground arith)
  better-work (some best) fork_chain ancestor_index =
      (ground arith, ground arith, λ w. ground arith)

  consider-work :
      (best : Option Candidate) (e : Bytes × Block)
      → (work_of best ≤ work_of (consider chain db (referenced_by chain) best e))
        × (work_of (offer e) ≤ work_of (consider chain db (referenced_by chain) best e))
        × (Wins best → Wins (consider chain db (referenced_by chain) best e))
  unfolding consider
  consider-work best (hash, tip) = elim (Bool-cases (contains hash (referenced_by chain))) [
    | inl inner ↦ rw (inner, consider) (omega arith, omega arith, λ w. w)
    | inr tipped ↦ elim (Option-cases (first (trace_fork_chain chain tip))) [
      | inl e ↦ rw (tipped, e, consider) (omega arith, omega arith, λ w. w)
      | inr (oldest, e) ↦ elim (Option-cases (ancestor_of chain db oldest)) [
        | inl e' ↦ rw (tipped, e, consider) (rw (e', consider) (omega arith, omega arith, λ w. w))
        | inr (ancestor_index, e') ↦
            rw (tipped, e, consider)
              (rw (e', consider) (better-work best (trace_fork_chain chain tip) ancestor_index))
      ]
    ]
  ]

  consider_all-work :
      (es : Map Bytes Block) (best : Option Candidate)
      → (work_of best ≤ work_of (consider_all chain db (referenced_by chain) best es))
        × All
            (λ e. work_of (offer e) ≤ work_of (consider_all chain db (referenced_by chain) best es))
            es
        × (Wins best → Wins (consider_all chain db (referenced_by chain) best es))
  unfolding consider_all
  consider_all-work [] best = (omega arith, tt, λ w. w)
  consider_all-work (e ∷ es) best =
      let one = consider-work best e in
      let rest = consider_all-work es (consider chain db (referenced_by chain) best e) in
      (omega (arith, one.0, rest.0), (omega (arith, one.1, rest.0), rest.1), λ w. rest.2 (one.2 w))

  heaviest :
      (r : Option Candidate) (fork : List Block) (ancestor : ℕ)
      → consider_all chain db (referenced_by chain) none chain.orphan_pool ≡ r
      → find_longest_fork chain db ≡ some (fork, ancestor)
      → Wins r
      → All (λ e. work_of (offer e) ≤ work_of r) chain.orphan_pool
      → (beats_main chain db ancestor (chain_work_of 0 fork) ≡ true)
        × All (λ e. work_of (offer e) ≤ chain_work_of 0 fork) chain.orphan_pool
  unfolding find_longest_fork
  heaviest none fork ancestor e h w all = absurd (ground arith)
  heaviest (some c) fork ancestor e h w all =
      let same : work_of (some c) ≡ chain_work_of 0 fork = ground arith in
      (ground arith, subst (λ n. All (λ x. work_of (offer x) ≤ n) chain.orphan_pool) same all)

  -- When `find_longest_fork` answers with a fork and an ancestor, the fork beats the main chain
  -- from that ancestor, and no block of the orphan pool offers a fork of more work.
  pub find_longest_fork-heaviest :
      (fork : List Block) (ancestor : ℕ)
      → find_longest_fork chain db ≡ some (fork, ancestor)
      → (beats_main chain db ancestor (chain_work_of 0 fork) ≡ true)
        × All (λ e. work_of (offer e) ≤ chain_work_of 0 fork) chain.orphan_pool
  find_longest_fork-heaviest fork ancestor h =
      let walk = consider_all-work chain.orphan_pool none in
      heaviest (consider_all chain db (referenced_by chain) none chain.orphan_pool) fork ancestor
        refl h (walk.2 tt) walk.1

  -- When the ancestor of the chosen fork lies in the window, the fork has strictly more work than
  -- the blocks in memory after the ancestor, which it displaces.
  pub find_longest_fork-outweighs :
      (fork : List Block) (ancestor : ℕ)
      → find_longest_fork chain db ≡ some (fork, ancestor)
      → chain.blocks_offset ≤ ancestor
      → chain_work_of 0 (keep (λ b. ltb ancestor b.index) chain.blocks) < chain_work_of 0 fork
  find_longest_fork-outweighs fork ancestor h inside =
      let beats = (find_longest_fork-heaviest fork ancestor h).0 in
      unfold beats_main in ground (arith, beats)
