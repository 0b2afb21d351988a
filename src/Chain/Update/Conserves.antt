-- ===== src/Chain/Update/Conserves.antt =====
-- The coins in existence across `update_state` (lootcoin-node/src/blockchain.rs), and its two checks
-- that abort the process.
use native.Mathlib.Nat.{zero-add}
use lootcoin.Base.{
  ℕ, ◌+◌, ◌/◌, ◌≤◌, ◌<◌, ◌≡◌, refl, true, false, inl, inr, Option-cases, get_or, bytes_eq, List, [],
  ◌∷◌, some, any, drop, u64_mod, u128_mod, ◌%◌, ◌==◌, arith,
}
use lootcoin.Core.{Transaction, Block, Core, is_coinbase}
use lootcoin.Chain.State.{Books, Blockchain}
use lootcoin.Chain.Ledger.{coins, total_supply}
use lootcoin.Chain.Ledger.Supply.{total-credit}
use lootcoin.Chain.Update.Settled.{settle_block-Settles}
use lootcoin.Chain.Validate.{nothing_seen, coinbase_ok, prevalidate, is_valid}
use lootcoin.Chain.Update.{
  updated, extract_miner_address, minted, apply_all, pay_miner, settle_block, split_fees,
  finish_block, apply_valid, update_state,
}
use lootcoin.Chain.Update.Finish.{finish_block-Finishes}
use lootcoin.Chain.Update.Covers.{mints_of, fees_of, Covers, Ran, apply_all-Ran}

-- The miner's share moves from the pot to the miner.
pay_miner-coins :
    (block : Block) (share : ℕ) (b : Books)
    → share ≤ b.pot
    → coins b < u64_mod
    → coins (pay_miner block share b) ≡ coins b
unfolding pay_miner
pay_miner-coins block share b covered bound = elim (Option-cases (extract_miner_address block)) [
  | inl e ↦ ground arith
  | inr (miner, e) ↦ ground (arith, total-credit miner share b.balances (omega arith))
]

total_supply_lem : (b : Books) → coins b < u64_mod → total_supply b ≡ coins b
unfolding total_supply
total_supply_lem b h = omega arith

mints_of-none : (txs : List Transaction) → any is_coinbase txs ≡ false → mints_of txs ≡ 0
mints_of-none [] h = refl
mints_of-none (tx ∷ txs) h = ground (arith, mints_of-none txs)

-- Of a checked block only the first transaction mints.
minted-mints_of :
    {F : Type 0} (core : Core F) (block : Block)
    → coinbase_ok core block ≡ true
    → mints_of block.transactions ≡ minted block
unfolding coinbase_ok minted
minted-mints_of core block h = go block.transactions (ground arith)
  where
    go :
        (txs : List Transaction)
        → any is_coinbase (drop 1 txs) ≡ false
        → mints_of txs ≡ minted (record block { transactions = txs })
    go [] h = refl
    go (tx ∷ txs) h = ground (arith, mints_of-none txs h)

module _ {F : Type 0} (core : Core F) (chain : Blockchain F) (block : Block) where
  pub settle_block-Covers :
      coins chain.books < u64_mod
      → Covers chain.books nothing_seen (settle_block core chain block).books
  settle_block-Covers bound = record {
    reserved = λ a. unfold get_or in omega arith;
    left = λ a. omega (arith, (settle_block-Settles core chain block bound).balances a);
  }

  -- The books after the fees are split.
  abbrev pub paid : Books → Blockchain F
  paid b = split_fees (settle_block core chain block) block b (fees_of block.transactions)

  apply_valid-run :
      (b : Books)
      → apply_all (settle_block core chain block).books 0 block.transactions
        ≡ some (b, fees_of block.transactions)
      → (total_supply (paid b).books == (total_supply chain.books + minted block) % u128_mod) ≡ true
      → apply_valid core chain block ≡ updated (finish_block core (paid b) block)
  unfolding apply_valid
  apply_valid-run b runs check = rw (runs, apply_valid) (rw check)

  pub apply_valid-updated :
      coinbase_ok core block ≡ true
      → prevalidate core chain.books nothing_seen block.transactions ≡ true
      → coins chain.books + minted block < u64_mod
      → (b : Books) × Ran (settle_block core chain block).books block.transactions b
        × (coins (paid b).books ≡ coins chain.books + minted block)
        × (apply_valid core chain block ≡ updated (finish_block core (paid b) block))
  apply_valid-updated alone checked bound =
      let settles = settle_block-Settles core chain block (omega arith) in
      let only_minted = minted-mints_of core block alone in
      let (b, runs, ran) =
        apply_all-Ran core chain.books (omega arith) block.transactions nothing_seen
          (settle_block core chain block).books 0 (settle_block-Covers (omega arith)) checked
          (omega (arith, settles.coins_kept, only_minted)) (omega arith) in
      let balanced : coins (paid b).books ≡ coins chain.books + minted block =
        unfold split_fees in
        omega (
          arith,
          ran.coins_minted,
          ran.fees_in_pot,
          settles.coins_kept,
          only_minted,
          pay_miner-coins block (fees_of block.transactions / 2) b (omega (arith, ran.fees_in_pot))
              (omega (arith, ran.coins_minted, settles.coins_kept, only_minted)),
        ) in
      let runs' : apply_all (settle_block core chain block).books 0 block.transactions
          ≡ some (b, fees_of block.transactions) =
        rw zero-add at runs in
      let check : (total_supply (paid b).books
            == (total_supply chain.books + minted block) % u128_mod)
          ≡ true =
        ground (
          arith,
          balanced,
          total_supply_lem (paid b).books (omega (arith, balanced)),
          total_supply_lem chain.books (omega arith),
        ) in
      (b, ran, balanced, apply_valid-run b runs' check)

  pub is_valid-coinbase_ok :
      (now_secs : ℕ) → is_valid core now_secs chain block ≡ true → coinbase_ok core block ≡ true
  unfolding is_valid
  is_valid-coinbase_ok now_secs h = ground arith

  pub is_valid-prevalidate :
      (now_secs : ℕ)
      → is_valid core now_secs chain block ≡ true
      → prevalidate core chain.books nothing_seen block.transactions ≡ true
  unfolding is_valid
  is_valid-prevalidate now_secs h = ground arith

  -- A block that passes every check of `update_state` is applied, and neither of the two checks
  -- that abort the process fails, when the coins in existence and the block's coinbase together fit
  -- a `u64`: the balances and the pot then hold exactly the coinbase's amount more than before, and
  -- so does `total_supply`.
  pub update_state-conserves :
      (now_secs : ℕ)
      → is_valid core now_secs chain block ≡ true
      → coins chain.books + minted block < u64_mod
      → (chain' : Blockchain F) × (update_state core now_secs chain block ≡ updated chain')
        × (coins chain'.books ≡ coins chain.books + minted block)
        × (total_supply chain'.books ≡ total_supply chain.books + minted block)
  update_state-conserves now_secs valid bound =
      let (b, _, balanced, done) =
        apply_valid-updated (is_valid-coinbase_ok now_secs valid)
          (is_valid-prevalidate now_secs valid) bound in
      let chain' = finish_block core (paid b) block in
      let same = (finish_block-Finishes core (paid b) block).books in
      let grown : coins chain'.books ≡ coins chain.books + minted block = rw same balanced in
      (
        chain',
        unfold update_state in rw valid done,
        grown,
        omega (
          arith,
          grown,
          total_supply_lem chain'.books (omega (arith, grown)),
          total_supply_lem chain.books (omega arith),
        ),
      )
