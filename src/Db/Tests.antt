-- ===== src/Db/Tests.antt =====
-- Concrete keys, and the theorems on the transaction index applied to them.
use lootcoin.Base.{
  ℕ, zero, suc, ◌≡◌, refl, inr, false, Bytes, nat_eq, bytes_eq, [], ◌∷◌, Option, none, some, All,
  get, arith,
}
use lootcoin.Core.{Block}
use lootcoin.Chain.State.{Blockchain, BlockOutcome, reorged, rejected}
use lootcoin.Chain.Window.{new, seed_pot}
use lootcoin.Chain.Reorg.{apply_block, persist, persist_applied, persist_reorged}
use lootcoin.Chain.Tests.{
  test_core, genesis, first_block, rival, payment, start, program, step, second_block, restored,
}
use lootcoin.Db.{make_tx_key}
use lootcoin.Db.Keys.{ZeroFree}
use lootcoin.Db.Redb.{nat_ord, bytes_ord}
use lootcoin.Db.Redb.Memory.{memory, memory-IsLawful, sorted, put_sorted}
use lootcoin.Db.Tables.{Db, get_blocks_range, range}
use lootcoin.Db.Tables.Blocks.{IsStored}
use lootcoin.Db.Index.{Codec, make_tx_value, save_applied_block, apply_reorg_incremental}
use lootcoin.Db.Index.Blocks.{apply_reorg_incremental-IsStored}
use lootcoin.Db.Index.Entries.{HasAddresses, save_applied_block-indexed}
use lootcoin.Db.Stores.{chain_store}
use lootcoin.Db.Stores.Mirror.{Mirrors, is_reorged, apply_block-Mirrors}
use lootcoin.Db.Stores.Deep.{apply_block-deep}

abbrev address : Bytes
address = 108 ∷ 111 ∷ []

address_in_text : ZeroFree address
address_in_text = (λ e. absurd (omega arith), (λ e. absurd (omega arith), tt))

abbrev codec : Codec
codec = record {
  hex = λ bytes. bytes;
  txid = λ tx. tx.signature;
  mark_digest = λ mark index position. mark;
}

abbrev nothing : Db memory ℕ
nothing = record {
  tx_index = [];
  peers = [];
  tickets = [];
  blocks = [];
  lottery_payouts = [];
  mempool = [];
  checkpoints = [];
}

abbrev with_genesis : Db memory ℕ
with_genesis = record nothing { blocks = (0, genesis) ∷ [] }

with_genesis-IsStored : IsStored with_genesis (genesis ∷ [])
unfolding get
with_genesis-IsStored zero = refl
with_genesis-IsStored (suc i) = ground arith

start-Mirrors : Mirrors with_genesis start
unfolding seed_pot new
start-Mirrors = record { history = []; stored = with_genesis-IsStored; offset = refl }

abbrev answer :
    Option (BlockOutcome × Db memory ℕ × Blockchain ℕ) → BlockOutcome × Db memory ℕ × Blockchain ℕ
answer none = (rejected, nothing, start)
answer (some r) = r

abbrev ran : Option (BlockOutcome × Db memory ℕ × Blockchain ℕ)
ran = apply_block (chain_store codec) test_core 1000 with_genesis start first_block

applies_first : ran ≡ some ((answer ran).0, (answer ran).1, (answer ran).2)
unfolding program apply_block persist persist_applied
applies_first = refl

applied_kind : is_reorged (answer ran).0 ≡ false
unfolding program apply_block persist persist_applied
applied_kind = refl

apply_block-Mirrors_example : Mirrors (answer ran).1 (answer ran).2
apply_block-Mirrors_example =
    apply_block-Mirrors memory-IsLawful codec test_core 1000 with_genesis start first_block
      (answer ran).0 (answer ran).1 (answer ran).2 start-Mirrors applies_first applied_kind

abbrev with_first : Db memory ℕ
with_first = record nothing { blocks = (0, genesis) ∷ (1, first_block) ∷ [] }

with_first-IsStored : IsStored with_first (genesis ∷ first_block ∷ [])
unfolding get
with_first-IsStored zero = refl
with_first-IsStored (suc zero) = refl
with_first-IsStored (suc (suc i)) = ground arith

apply_reorg_incremental-IsStored_example :
    IsStored
      (apply_reorg_incremental codec with_first (first_block ∷ []) (rival ∷ []) [] [])
      (genesis ∷ rival ∷ [])
apply_reorg_incremental-IsStored_example =
    apply_reorg_incremental-IsStored memory-IsLawful codec with_first (genesis ∷ [])
      (first_block ∷ []) (rival ∷ []) [] [] with_first-IsStored (refl, tt) (refl, tt)

-- A chain that has started from the checkpoint at the first block, so that genesis is not in memory.
abbrev windowed : Blockchain ℕ
windowed = step restored second_block

abbrev with_second : Db memory ℕ
with_second = record nothing { blocks = (0, genesis) ∷ (1, first_block) ∷ (2, second_block) ∷ [] }

with_second-IsStored : IsStored with_second (genesis ∷ first_block ∷ second_block ∷ [])
unfolding get
with_second-IsStored zero = refl
with_second-IsStored (suc zero) = refl
with_second-IsStored (suc (suc zero)) = refl
with_second-IsStored (suc (suc (suc i))) = ground arith

abbrev deep : Option (BlockOutcome × Db memory ℕ × Blockchain ℕ)
deep = apply_block (chain_store codec) test_core 1000 with_second windowed rival

reorganises_deep : deep ≡ some (reorged [] (rival ∷ []), (answer deep).1, (answer deep).2)
unfolding program apply_block persist persist_reorged get_blocks_range sorted put_sorted range
reorganises_deep = refl

-- The rival ends before the displaced chain: the second block stays.
apply_block-deep_example : IsStored (answer deep).1 (genesis ∷ rival ∷ second_block ∷ [])
apply_block-deep_example =
    apply_block-deep memory-IsLawful codec test_core 1000 with_second (answer deep).1 windowed
      (answer deep).2 rival (genesis ∷ []) (first_block ∷ second_block ∷ []) (rival ∷ [])
      with_second-IsStored (refl, tt) reorganises_deep

one_text : ZeroFree (1 ∷ [])
one_text = (λ e. absurd (omega arith), tt)

abbrev paid_block : Block
paid_block = first_block

first_texts : All HasAddresses paid_block.transactions
first_texts =
    ((tt, one_text), (((λ e. absurd (omega arith), tt), (λ e. absurd (omega arith), tt)), tt))

save_applied_block-indexed_example :
    memory.find
      (save_applied_block codec with_genesis paid_block [] []).tx_index
      (make_tx_key payment.sender paid_block.index 1)
    ≡ some (make_tx_value codec payment paid_block.index 1)
save_applied_block-indexed_example =
    save_applied_block-indexed memory-IsLawful codec with_genesis paid_block [] [] payment.sender 1
      payment (omega arith) first_texts tt (omega arith) (omega arith)
      (λ e. absurd (omega arith), tt) refl (inr (refl, refl))
