-- ===== src/Chain/Tests/Updates.antt =====
-- Blocks applied to concrete chains, and the theorems on `update_state`, the window and the
-- reachable states applied to them.
use lootcoin.Base.{
  ℕ, suc, ◌+◌, ◌≤◌, ◌<◌, ◌≡◌, refl, ◌≢◌, inl, true, Bytes, bytes_eq, nat_eq, [], ◌∷◌, some, All,
  contains, ◌||◌, u64_mod, arith,
}
use lootcoin.Core.{Block, LootTicket}
use lootcoin.Chain.State.{Blockchain, CheckpointState}
use lootcoin.Chain.Ledger.{coins, total_supply}
use lootcoin.Chain.Lottery.{matures, block_hash_at, entropy_from}
use lootcoin.Chain.Validate.{is_valid, get_height, get_latest_hash}
use lootcoin.Chain.Update.{refused, aborted, updated, minted, update_state}
use lootcoin.Chain.Window.{restore_from_checkpoint}
use lootcoin.Chain.Update.Conserves.{update_state-conserves}
use lootcoin.Chain.Update.Extends.{update_state-extends}
use lootcoin.Chain.Update.Replay.{replayed_refused, update_state-signatures, Distinct, NoneIn}
use lootcoin.Chain.Update.Covers.{signatures_of}
use lootcoin.Chain.Window.Invariant.{IsWindow, update_state-IsWindow}
use lootcoin.Chain.Window.Entropy.{entropy_complete, restored_draw_differs}
use lootcoin.Chain.Reachable.{
  applies, Reachable, starts, moves, issued_at_start, Reachable-coins_le, Reachable-never_aborts,
}
use lootcoin.Chain.Tests.{test_core, genesis, first_block, repeating, start, second, program}

valid_first : is_valid test_core 1000 start first_block ≡ true
unfolding program
valid_first = refl

applies_first : update_state test_core 1000 start first_block ≡ updated second
unfolding program
applies_first = refl

second_balances : second.balances ≡ (2 ∷ [], 36) ∷ (1 ∷ [], 3) ∷ (3 ∷ [], 10) ∷ []
unfolding program
second_balances = refl

second_pot : second.pot ≡ 1002
unfolding program
second_pot = refl

fits_first : coins start.books + minted first_block < u64_mod
unfolding program
fits_first = omega arith

update_state-conserves_example :
    (chain' : Blockchain ℕ) × (update_state test_core 1000 start first_block ≡ updated chain')
    × (coins chain'.books ≡ coins start.books + minted first_block)
    × (total_supply chain'.books ≡ total_supply start.books + minted first_block)
update_state-conserves_example =
    update_state-conserves test_core start first_block 1000 valid_first fits_first

update_state-extends_example :
    (first_block.index ≡ get_height start)
    × (get_latest_hash start ≡ some first_block.previous_hash)
    × (get_height second ≡ suc (get_height start))
    × (get_latest_hash second ≡ some first_block.hash)
update_state-extends_example =
    update_state-extends test_core 1000 start first_block second applies_first

confirmed_payment : contains (7 ∷ []) second.confirmed_signatures ≡ true
unfolding program
confirmed_payment = refl

repeats_payment : contains (7 ∷ []) (signatures_of repeating.transactions) ≡ true
unfolding program
repeats_payment = refl

replayed_refused_example : update_state test_core 1000 second repeating ≡ refused
replayed_refused_example =
    replayed_refused test_core 1000 second repeating (7 ∷ []) confirmed_payment repeats_payment

update_state-signatures_example :
    NoneIn start.confirmed_signatures (signatures_of first_block.transactions)
    × Distinct (signatures_of first_block.transactions)
    × (chain' : Blockchain ℕ) × (update_state test_core 1000 start first_block ≡ updated chain')
    × ((s : Bytes)
        → contains s chain'.confirmed_signatures ≡ (
            contains s (signatures_of first_block.transactions)
            || contains s start.confirmed_signatures))
update_state-signatures_example =
    update_state-signatures test_core 1000 start first_block valid_first fits_first

start_in_order : IsWindow test_core start
unfolding program
start_in_order = record { aligned = (refl, tt); deep = inl refl; tickets = tt }

short_start : get_height start + 2 < u64_mod
unfolding program
short_start = omega arith

update_state-IsWindow_example : IsWindow test_core second
update_state-IsWindow_example =
    update_state-IsWindow test_core 1000 start first_block second applies_first (omega arith)
      short_start start_in_order

second_in_order : IsWindow test_core second
second_in_order =
    update_state-IsWindow test_core 1000 start first_block second applies_first (omega arith)
      short_start start_in_order

-- A ticket of the genesis block, which matures at height 2.
abbrev ticket : LootTicket
ticket = record { miner = 1 ∷ []; created_height = 0 }

due_then : matures test_core (get_height second) ticket ≡ true
unfolding program
due_then = refl

entropy_complete_example :
    (b : Block) × (block_hash_at second (ticket.created_height + 1) ≡ some b.hash)
    × (b.index ≡ ticket.created_height + 1)
entropy_complete_example =
    entropy_complete test_core second ticket 1 second_in_order (omega arith) (omega arith) due_then
      (omega arith)

abbrev checkpoint : CheckpointState ℕ
checkpoint = record {
  books = second.books;
  chain_work = second.chain_work;
  block_hash = first_block.hash;
  current_difficulty = second.current_difficulty;
  asert_anchor = second.asert_anchor;
  tickets = ticket ∷ [];
}

hashed_second : All (λ b. b.hash ≢ []) second.blocks
unfolding program
hashed_second = (λ e. absurd (cc), (λ e. absurd (cc), tt))

early_ticket : second.blocks_offset ≤ ticket.created_height
unfolding program
early_ticket = omega arith

beyond_checkpoint : first_block.index < get_height second
unfolding program
beyond_checkpoint = omega arith

restored_draw_differs_example :
    entropy_from (restore_from_checkpoint start first_block.index checkpoint first_block) 0 1
    ≢ entropy_from second 0 1
restored_draw_differs_example =
    restored_draw_differs test_core second start checkpoint first_block ticket 0 second_in_order
      hashed_second early_ticket (omega arith) beyond_checkpoint

-- The chain with the first block is reached from genesis.
reached : Reachable test_core genesis 1000 second
reached = moves (starts 25) (applies 1000 first_block applies_first)

in_range : issued_at_start test_core genesis 1000 + suc (get_height second) < u64_mod
unfolding program
in_range = omega arith

Reachable-coins_le_example :
    coins second.books ≤ issued_at_start test_core genesis 1000 + get_height second
Reachable-coins_le_example =
    Reachable-coins_le test_core genesis 1000 second (omega arith) reached (omega (arith, in_range))

Reachable-never_aborts_example : update_state test_core 1000 second repeating ≢ aborted
Reachable-never_aborts_example =
    Reachable-never_aborts test_core genesis 1000 second 1000 repeating (omega arith) reached
      in_range
