-- ===== src/Miner/Tests.antt =====
-- Concrete candidates and searches, and the theorems on the miner applied to them.
use lootcoin.Base.{
  ℕ, ◌+◌, ◌≡◌, ◌≢◌, refl, Bool, true, false, Bytes, [], ◌∷◌, some, add64, leb, ltb, length, arith,
}
use lootcoin.Core.{Block, Float, Constants, Core}
use lootcoin.Miner.{
  HeadResp, MempoolEntry, is_eligible, sort_fee_into, sort_by_fee, select_txs, reward, candidate,
  found, exhausted, mine_from, mine,
}
use lootcoin.Miner.Candidate.{candidate-Passable, Passable, is_eligible-in_time}
use lootcoin.Miner.Nonce.{IsMined, mine-IsMined, advance, mine-ends}

abbrev test_constants : Constants
test_constants = record {
  max_block_txs = 1;
  min_tx_fee = 1;
  reveal_blocks = 10;
  ppm = 1000000;
  small_bucket_start = 0;
  medium_bucket_start = 100;
  large_bucket_start = 200;
  jackpot_bucket_start = 300;
  small_divisor = 1000;
  medium_divisor = 100;
  large_divisor = 10;
  jackpot_divisor = 2;
}

abbrev test_float : Float ℕ
test_float = record {
  of_ℕ = λ n. n;
  add = λ a b. a + b;
  sub = λ a b. 0;
  div = λ a b. 0;
  clamp = λ a low high. a;
  lt = ltb;
  differs = λ a b. false;
  to_u32 = λ a. 3;
  halflife = 3600;
  min_difficulty = 8;
  max_difficulty = 127;
  initial_difficulty = 25;
}

-- A hash is the nonce alone, and meets the difficulty when its byte is at least as large.
abbrev large_enough : Bytes → ℕ → Bool
large_enough [] difficulty = false
large_enough (b ∷ bs) difficulty = leb difficulty b

abbrev test_core : Core ℕ
test_core = record {
  constants = test_constants;
  float = test_float;
  calculate_hash = λ b. some (b.nonce ∷ []);
  compute_tx_root = λ txs. some (length txs ∷ []);
  meets_difficulty = large_enough;
  verify = λ tx. true;
  txid = λ tx. tx.signature;
  decode_address = λ address. some address;
  digest = λ bytes. bytes;
  serialize_draw = λ entropy height miner. entropy;
}

abbrev payment : ℕ → MempoolEntry
payment fee = record {
  transaction = record {
    sender = 2 ∷ [];
    receiver = 3 ∷ [];
    amount = 10;
    fee = fee;
    nonce = 0;
    public_key = 5 ∷ [];
    signature = fee ∷ [];
  };
  added_height = 5;
}

abbrev head : HeadResp ℕ
head = record { height = 20; latest_hash = 1 ∷ []; difficulty = 3 }

abbrev work : Block
work = record {
  index = 20;
  previous_hash = 1 ∷ [];
  timestamp = 1000;
  nonce = 0;
  tx_root = 2 ∷ [];
  transactions = reward (9 ∷ []) ∷ (payment 60).transaction ∷ [];
  hash = [];
}

chooses_highest :
    candidate test_core head
      (9 ∷ [])
      (select_txs 1 120 20 (payment 12 ∷ payment 60 ∷ payment 1 ∷ []))
      1000
      0
    ≡ some work
unfolding candidate select_txs sort_by_fee sort_fee_into is_eligible reward
chooses_highest = refl

candidate-Passable_example : Passable test_core work
candidate-Passable_example =
    candidate-Passable test_core head (9 ∷ []) 120 1000 0 (payment 12 ∷ payment 60 ∷ payment 1 ∷ [])
      work (refl, (refl, (refl, tt))) refl chooses_highest

is_eligible-in_time_example : is_eligible 120 130 (payment 1) ≡ true
is_eligible-in_time_example = is_eligible-in_time 120 130 (payment 1) (omega arith) (omega arith)

abbrev done : Block
done = record work { nonce = 3; hash = 3 ∷ [] }

finds_third : mine test_core (λ n. false) 3 10 work ≡ found done 3
unfolding mine mine_from add64
finds_third = refl

mine-IsMined_example : IsMined test_core (λ n. false) 3 work done
mine-IsMined_example = mine-IsMined test_core (λ n. false) 3 10 work done 3 finds_third

third_is_good : test_core.calculate_hash (advance test_core (λ n. false) 3 3 work) ≡ some (3 ∷ [])
unfolding advance add64
third_is_good = refl

mine-ends_example : mine test_core (λ n. false) 3 4 work ≢ exhausted
mine-ends_example =
    mine-ends test_core (λ n. false) 3 4 3 work (3 ∷ []) (omega arith) third_is_good refl
