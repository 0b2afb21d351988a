-- ===== src/Metrics.antt =====
-- lootcoin-node/src/metrics.rs: the Prometheus counters (the gauges are set from the state when
-- `GET /metrics` is served, and hold nothing of their own). `inc_by` is an atomic, wrapping add.
pub mod Seeding
use lootcoin.Base.{
  ℕ, ◌-◌, ◌≡◌, ◌↔◌, Bool, true, false, [], Map, upsert, add64, Eq, ltb, if◌then◌else◌, arith,
}

-- The tiers of `compute_ticket_reward`; the program holds their names as strings.
pub data Tier : Type 0 where
  no_win small medium large jackpot : Tier

abbrev pub tier_beq : Tier → Tier → Bool
tier_beq Tier.no_win Tier.no_win = true
tier_beq Tier.small Tier.small = true
tier_beq Tier.medium Tier.medium = true
tier_beq Tier.large Tier.large = true
tier_beq Tier.jackpot Tier.jackpot = true
tier_beq _ _ = false

pub tier_beq_iff : (a b : Tier) → (tier_beq a b ≡ true) ↔ (a ≡ b)
tier_beq_iff a b = ground arith

instance abbrev pub tier_eq : Eq Tier
tier_eq = record { beq = tier_beq; beq_iff = tier_beq_iff }

pub record Metrics : Type 0 where
  pub lottery_wins_total : Map Tier ℕ
  pub lottery_payouts_coins_total : Map Tier ℕ
  pub fees_collected_total : ℕ
  pub fees_to_miners_total : ℕ
  pub fees_to_pot_total : ℕ
  pub blocks_total : ℕ

-- `Family::get_or_create(label).inc_by(n)`
unfoldable pub inc_by : Tier → ℕ → Map Tier ℕ → Map Tier ℕ
inc_by tier n = upsert tier 0 (λ c. add64 c n)

unfoldable pub new : Metrics
new = record {
  lottery_wins_total = [];
  lottery_payouts_coins_total = [];
  fees_collected_total = 0;
  fees_to_miners_total = 0;
  fees_to_pot_total = 0;
  blocks_total = 0;
}

unfoldable pub seed_fees : Metrics → ℕ → ℕ → ℕ → Metrics
seed_fees m total_fees miner_share blocks = record m {
  fees_collected_total = add64 m.fees_collected_total total_fees;
  fees_to_miners_total = add64 m.fees_to_miners_total miner_share;
  fees_to_pot_total = add64 m.fees_to_pot_total (total_fees - miner_share);
  blocks_total = add64 m.blocks_total blocks;
}

unfoldable pub seed_lottery : Metrics → Tier → ℕ → ℕ → Metrics
seed_lottery m tier wins coins = record m {
  lottery_wins_total = inc_by tier wins m.lottery_wins_total;
  lottery_payouts_coins_total =
      if ltb 0 coins
      then inc_by tier coins m.lottery_payouts_coins_total
      else m.lottery_payouts_coins_total;
}

unfoldable pub record_lottery_win : Metrics → Tier → ℕ → Metrics
record_lottery_win m tier amount = record m {
  lottery_wins_total = inc_by tier 1 m.lottery_wins_total;
  lottery_payouts_coins_total =
      if ltb 0 amount
      then inc_by tier amount m.lottery_payouts_coins_total
      else m.lottery_payouts_coins_total;
}

unfoldable pub record_fees : Metrics → ℕ → ℕ → Metrics
record_fees m total_fees miner_share = record m {
  fees_collected_total = add64 m.fees_collected_total total_fees;
  fees_to_miners_total = add64 m.fees_to_miners_total miner_share;
  fees_to_pot_total = add64 m.fees_to_pot_total (total_fees - miner_share);
  blocks_total = add64 m.blocks_total 1;
}
