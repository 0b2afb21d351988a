-- ===== src/Miner/Nonce.antt =====
-- The search for a nonce (`mine`): what it finds, and how many rounds are enough.
use lootcoin.Base.{
  ℕ, zero, suc, ◌%◌, ◌<◌, ◌≡◌, ◌≢◌, refl, subst, inl, inr, Bool, true, ◌&&◌, Bool-cases,
  Option-cases, Bytes, some, add64, ◌==◌, arith,
}
use lootcoin.Core.{Block, Core}
use lootcoin.Miner.{found, exhausted, mine_from, mine}

module _ {F : Type 0} (core : Core F) (stop : ℕ → Bool) (difficulty : F) where
  -- A mined block: its hash is that of the candidate with some nonce, and meets the difficulty.
  pub record IsMined (block mined : Block) : Type 0 where
    pub meets : core.meets_difficulty mined.hash difficulty ≡ true
    pub hashed : core.calculate_hash (record block { nonce = mined.nonce }) ≡ some mined.hash
    pub same : mined ≡ record block { nonce = mined.nonce; hash = mined.hash }

  mine_from-IsMined :
      (rounds : ℕ) (block : Block) (hash : Bytes) (tries : ℕ) (mined : Block) (n : ℕ)
      → core.calculate_hash block ≡ some hash
      → mine_from core stop difficulty rounds block hash tries ≡ found mined n
      → IsMined block mined
  unfolding mine_from
  mine_from-IsMined zero block hash tries mined n h e = absurd (ground arith)
  mine_from-IsMined (suc rounds) block hash tries mined n h e =
      elim (Bool-cases (core.meets_difficulty hash difficulty)) [
        | inl m ↦
            let stopped : record block { hash = hash } ≡ mined = ground arith in
            subst (IsMined block) stopped (record { meets = m; hashed = h; same = refl })
        | inr m ↦ elim (Bool-cases ((tries % 10000 == 0) && stop tries)) [
          | inl c ↦ absurd (ground arith)
          | inr c ↦
              elim (Option-cases
                (core.calculate_hash (record block { nonce = add64 block.nonce 1 }))) [
                  | inl none_left ↦ absurd (ground arith)
                  | inr (hash', next) ↦ further (
                      mine_from-IsMined rounds (record block { nonce = add64 block.nonce 1 }) hash'
                        (add64 tries 1) mined n next (ground arith))
                ]
        ]
      ]
    where
      further : IsMined (record block { nonce = add64 block.nonce 1 }) mined → IsMined block mined
      further w = record { meets = w.meets; hashed = w.hashed; same = w.same }

  -- When `mine` finds a block, the block is the candidate but for its nonce and its hash, its hash
  -- is that of the candidate with its nonce, and the hash meets the difficulty.
  pub mine-IsMined :
      (rounds : ℕ) (block mined : Block) (n : ℕ)
      → mine core stop difficulty rounds block ≡ found mined n
      → IsMined block mined
  unfolding mine
  mine-IsMined rounds block mined n e = elim (Option-cases (core.calculate_hash block)) [
    | inl none_left ↦ absurd (ground arith)
    | inr (hash, h) ↦ mine_from-IsMined rounds block hash 0 mined n h (ground arith)
  ]

  -- The candidate after `k` steps of its nonce.
  unfoldable pub advance : ℕ → Block → Block
  advance zero block = block
  advance (suc k) block = advance k (record block { nonce = add64 block.nonce 1 })

  mine_from-ends :
      (rounds k : ℕ) (block : Block) (hash : Bytes) (tries : ℕ) (good : Bytes)
      → core.calculate_hash block ≡ some hash
      → k < rounds
      → core.calculate_hash (advance k block) ≡ some good
      → core.meets_difficulty good difficulty ≡ true
      → mine_from core stop difficulty rounds block hash tries ≢ exhausted
  unfolding mine_from advance
  mine_from-ends zero k block hash tries good h lt hit meets e = absurd (omega arith)
  mine_from-ends (suc rounds) zero block hash tries good h lt hit meets e =
      let same : hash ≡ good = ground arith in
      let now : core.meets_difficulty hash difficulty ≡ true = rw same meets in
      absurd (ground arith)
  mine_from-ends (suc rounds) (suc k) block hash tries good h lt hit meets e =
      elim (Bool-cases (core.meets_difficulty hash difficulty)) [
        | inl m ↦ absurd (ground arith)
        | inr m ↦ elim (Bool-cases ((tries % 10000 == 0) && stop tries)) [
          | inl c ↦ absurd (ground arith)
          | inr c ↦
              elim (Option-cases
                (core.calculate_hash (record block { nonce = add64 block.nonce 1 }))) [
                  | inl none_left ↦ absurd (ground arith)
                  | inr (hash', next) ↦
                      mine_from-ends rounds k (record block { nonce = add64 block.nonce 1 }) hash'
                        (add64 tries 1) good next (omega arith) hit meets (ground arith)
                ]
        ]
      ]

  -- When one of the nonces that `mine` comes to within its rounds gives a hash that meets the
  -- difficulty, `mine` does not run out of rounds.
  pub mine-ends :
      (rounds k : ℕ) (block : Block) (good : Bytes)
      → k < rounds
      → core.calculate_hash (advance k block) ≡ some good
      → core.meets_difficulty good difficulty ≡ true
      → mine core stop difficulty rounds block ≢ exhausted
  unfolding mine
  mine-ends rounds k block good lt hit meets e = elim (Option-cases (core.calculate_hash block)) [
    | inl none_left ↦ absurd (ground arith)
    | inr (hash, h) ↦ mine_from-ends rounds k block hash 0 good h lt hit meets (ground arith)
  ]
