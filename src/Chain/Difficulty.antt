-- ===== src/Chain/Difficulty.antt =====
-- Difficulty and work in lootcoin-node/src/blockchain.rs: the ASERT rule, and the work that a
-- block's hash stands for.
use lootcoin.Base.{
  ℕ, ◌+◌, ◌-◌, ◌^◌, Bytes, [], ◌∷◌, none, some, sub64, mul64, saturating_add128, u128_mod, ltb,
  ◌==◌, if◌then◌else◌,
}
use lootcoin.Core.{Block, Float}
use lootcoin.Chain.State.{Blockchain}

-- `TARGET_BLOCK_TIME_SECS`
abbrev pub target_block_time_secs : ℕ
target_block_time_secs = 60

-- `1u128.checked_shl(n).unwrap_or(u128::MAX)`
unfoldable pub shifted_work : ℕ → ℕ
shifted_work n = if ltb n 128 then 2 ^ n else u128_mod - 1

-- `u8::leading_zeros` of a byte that is not zero
unfoldable pub leading_zeros : ℕ → ℕ
leading_zeros b =
    if ltb 127 b
    then 0
    else if ltb 63 b
    then 1
    else if ltb 31 b
    then 2
    else if ltb 15 b
    then 3
    else if ltb 7 b
    then 4
    else if ltb 3 b
    then 5
    else if ltb 1 b
    then 6
    else 7

-- The loop of `block_work`: the leading zero bits of a hash.
unfoldable pub leading_bits : Bytes → ℕ → ℕ
leading_bits [] bits = bits
leading_bits (b ∷ bs) bits =
    let rest = leading_bits bs (bits + 8) in if b == 0 then rest else bits + leading_zeros b

unfoldable pub block_work : Bytes → ℕ
block_work hash = shifted_work (leading_bits hash 0)

module _ {F : Type 0} (float : Float F) where
  -- `(anchor_diff + (ideal - actual) / ASERT_HALFLIFE_SECS).clamp(MIN, MAX)`
  unfoldable pub asert : F → ℕ → ℕ → F
  asert anchor_diff ideal actual =
      float.clamp
        (float.add anchor_diff
          (float.div (float.sub (float.of_ℕ ideal) (float.of_ℕ actual)) float.halflife))
        float.min_difficulty float.max_difficulty

  -- Step 6 of `update_state`.
  unfoldable pub adjust_difficulty : Blockchain F → Block → Blockchain F
  adjust_difficulty chain block =
      if block.index == 1
      then record chain { asert_anchor = some (1, block.timestamp, chain.current_difficulty) }
      else elim chain.asert_anchor [
        | none ↦ chain
        | some (anchor_height, anchor_ts, anchor_diff) ↦
            if float.lt anchor_diff float.min_difficulty
            then chain
            else let new_difficulty =
                asert anchor_diff (mul64 (sub64 block.index anchor_height) target_block_time_secs)
                  (block.timestamp - anchor_ts) in
              if float.differs new_difficulty chain.current_difficulty
              then record chain { current_difficulty = new_difficulty }
              else chain
      ]

  -- Step 5 of `update_state`.
  unfoldable pub add_work : Blockchain F → Blockchain F
  add_work chain = record chain {
    chain_work =
        saturating_add128 chain.chain_work (shifted_work (float.to_u32 chain.current_difficulty));
  }
