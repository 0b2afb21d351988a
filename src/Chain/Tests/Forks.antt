-- ===== src/Chain/Tests/Forks.antt =====
-- Orphans and reorganisations on concrete chains, and the theorems on fork choice applied to them.
use lootcoin.Base.{
  ℕ, ◌≤◌, ◌<◌, ◌≡◌, refl, true, bytes_eq, nat_eq, [], ◌∷◌, Option, none, some, All, u64_mod, arith,
}
use lootcoin.Chain.State.{Blockchain, BlockOutcome, reorged, rejected}
use lootcoin.Chain.Fork.{find_longest_fork, chain_work_of, beats_main}
use lootcoin.Chain.Reorg.{add_orphan, apply_in_memory}
use lootcoin.Chain.Fork.Heaviest.{find_longest_fork-heaviest, work_of, offer}
use lootcoin.Chain.Reorg.Pool.{IsBounded}
use lootcoin.Chain.Reorg.Outcomes.{apply_in_memory-IsBounded}
use lootcoin.Chain.Reorg.Rebuilt.{Reorganised, apply_in_memory-Reorganised}
use lootcoin.Chain.Tests.{test_core, first_block, rival, start, second, with_orphan, program}

finds_rival : find_longest_fork (with_orphan rival) none ≡ some (rival ∷ [], 0)
unfolding program
finds_rival = refl

find_longest_fork-heaviest_example :
    (beats_main (with_orphan rival) none 0 (chain_work_of 0 (rival ∷ [])) ≡ true)
    × All
        (λ e. work_of (offer (with_orphan rival) none e) ≤ chain_work_of 0 (rival ∷ []))
        (with_orphan rival).orphan_pool
find_longest_fork-heaviest_example =
    find_longest_fork-heaviest (with_orphan rival) none (rival ∷ []) 0 finds_rival

no_orphans : IsBounded second.orphan_pool
unfolding program
no_orphans = record { size = omega arith; heights = λ i. omega arith }

abbrev outcome : Option (BlockOutcome × Blockchain ℕ) → BlockOutcome × Blockchain ℕ
outcome none = (rejected, start)
outcome (some r) = r

reorgs_to_rival :
    apply_in_memory test_core 1000 second rival none
    ≡ some (
      reorged (first_block ∷ []) (rival ∷ []),
      (outcome (apply_in_memory test_core 1000 second rival none)).1,
    )
unfolding program
reorgs_to_rival = refl

apply_in_memory-IsBounded_example :
    IsBounded (outcome (apply_in_memory test_core 1000 second rival none)).1.orphan_pool
apply_in_memory-IsBounded_example =
    apply_in_memory-IsBounded test_core 1000 second rival none
      (reorged (first_block ∷ []) (rival ∷ []))
      (outcome (apply_in_memory test_core 1000 second rival none)).1 no_orphans reorgs_to_rival

pot_fits : second.genesis_pot < u64_mod
unfolding program
pot_fits = omega arith

apply_in_memory-Reorganised_example :
    Reorganised test_core 1000
      (record second { orphan_pool = add_orphan second.orphan_pool rival })
      none
      (first_block ∷ [])
      (rival ∷ [])
      (outcome (apply_in_memory test_core 1000 second rival none)).1
apply_in_memory-Reorganised_example =
    apply_in_memory-Reorganised test_core 1000 second rival none (first_block ∷ []) (rival ∷ [])
      (outcome (apply_in_memory test_core 1000 second rival none)).1 pot_fits reorgs_to_rival
