-- ===== src/Miner/Outcome.antt =====
-- The outcome of a submission to several nodes (`merge_outcome`, `submit_block`).
use lootcoin.Base.{ℕ, ◌≡◌, refl, List, [], ◌∷◌, max, arith}
use lootcoin.Miner.{
  SubmitOutcome, accepted, orphaned, rejected, unreachable, merge_outcome, best_outcome,
}

-- How good an outcome is.
abbrev pub rank : SubmitOutcome → ℕ
rank accepted = 3
rank orphaned = 2
rank rejected = 1
rank unreachable = 0

-- The rank of the best of some outcomes.
abbrev pub best_rank : List SubmitOutcome → ℕ
best_rank [] = 0
best_rank (o ∷ os) = max (rank o) (best_rank os)

rank-merge_outcome : (a b : SubmitOutcome) → rank (merge_outcome a b) ≡ max (rank a) (rank b)
unfolding merge_outcome
rank-merge_outcome accepted accepted = refl
rank-merge_outcome accepted orphaned = refl
rank-merge_outcome accepted rejected = refl
rank-merge_outcome accepted unreachable = refl
rank-merge_outcome orphaned accepted = refl
rank-merge_outcome orphaned orphaned = refl
rank-merge_outcome orphaned rejected = refl
rank-merge_outcome orphaned unreachable = refl
rank-merge_outcome rejected accepted = refl
rank-merge_outcome rejected orphaned = refl
rank-merge_outcome rejected rejected = refl
rank-merge_outcome rejected unreachable = refl
rank-merge_outcome unreachable b = omega arith

-- The outcome of a submission to several nodes is the best of their outcomes, in the order
-- accepted, orphaned, rejected, unreachable.
pub rank-best_outcome :
    (best : SubmitOutcome) (outcomes : List SubmitOutcome)
    → rank (best_outcome best outcomes) ≡ max (rank best) (best_rank outcomes)
unfolding best_outcome
rank-best_outcome best [] = omega arith
rank-best_outcome best (o ∷ os) =
    omega (arith, rank-best_outcome (merge_outcome best o) os, rank-merge_outcome best o)
