-- ===== src/Metrics/Seeding.antt =====
-- The fee counters across a restart: what `update_state` records for each block, and what start-up
-- seeds from the stored blocks (`record_fees`, `seed_fees` of lootcoin-node/src/metrics.rs).
use lootcoin.Base.{
  ℕ, ◌+◌, ◌-◌, ◌/◌, ◌%◌, ◌≤◌, ◌<◌, ◌≡◌, refl, ◌∙◌, List, [], ◌∷◌, length, sum_by, add64, u64_mod,
  arith,
}
use lootcoin.Metrics.{Metrics, record_fees, seed_fees}

-- The fees of one block after another, of which the miner's share is half.
unfoldable pub record_each : Metrics → List ℕ → Metrics
record_each m [] = m
record_each m (f ∷ fs) = record_each (record_fees m f (f / 2)) fs

-- The counters leave room for the fees of some blocks.
abbrev pub HasRoom : Metrics → List ℕ → Type 0
HasRoom m fs =
    (m.fees_collected_total + sum_by (λ f. f) fs < u64_mod)
    × (m.fees_to_miners_total + sum_by (λ f. f / 2) fs < u64_mod)
    × (m.fees_to_pot_total + sum_by (λ f. f) fs < u64_mod)
    × (m.blocks_total + length fs < u64_mod)

halves-le : (fs : List ℕ) → sum_by (λ f. f / 2) fs ≤ sum_by (λ f. f) fs
halves-le [] = omega arith
halves-le (f ∷ fs) = omega (arith, halves-le fs)

abbrev counters : Metrics → ℕ → ℕ → ℕ → ℕ → Metrics
counters m a b c d = record m {
  fees_collected_total = a;
  fees_to_miners_total = b;
  fees_to_pot_total = c;
  blocks_total = d;
}

same_counters :
    (m : Metrics) (a b c d a' b' c' d' : ℕ)
    → a ≡ a'
    → b ≡ b'
    → c ≡ c'
    → d ≡ d'
    → counters m a b c d ≡ counters m a' b' c' d'
same_counters m a b c d a' b' c' d' ha hb hc hd = rw (ha, hb, hc, hd) refl

-- Seeding the fee counters with the sums of the fees and of their halves over some blocks, and with
-- the number of the blocks, gives the same counters as recording the fees of one block after
-- another, when no counter leaves the range of a `u64`.
pub record_each-seed_fees :
    (m : Metrics) (fs : List ℕ)
    → HasRoom m fs
    → record_each m fs ≡ seed_fees m (sum_by (λ f. f) fs) (sum_by (λ f. f / 2) fs) (length fs)
unfolding record_each seed_fees record_fees add64
record_each-seed_fees m [] h =
    same_counters m m.fees_collected_total m.fees_to_miners_total m.fees_to_pot_total m.blocks_total
      ((m.fees_collected_total + 0) % u64_mod) ((m.fees_to_miners_total + 0) % u64_mod)
      ((m.fees_to_pot_total + (0 - 0)) % u64_mod) ((m.blocks_total + 0) % u64_mod) (omega arith)
      (omega arith) (omega arith) (omega arith)
record_each-seed_fees m (f ∷ fs) h =
    let less = halves-le fs in
    record_each-seed_fees (record_fees m f (f / 2)) fs
      (omega arith, omega arith, omega arith, omega arith)
    ∙ same_counters m _ _ _ _ _ _ _ _ (omega arith) (omega arith) (omega arith) (omega arith)
