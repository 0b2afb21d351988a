-- ===== src/Node/Tests.antt =====
-- Concrete peers and stored chains, and the theorems on the start of a node applied to them.
use lootcoin.Base.{
  ℕ, zero, suc, ◌-◌, ◌<◌, ◌≡◌, refl, Bytes, nat_eq, bytes_eq, [], ◌∷◌, none, some, Map, get, ◌==◌,
  if◌then◌else◌, arith,
}
use lootcoin.Chain.State.{Blockchain, CheckpointState}
use lootcoin.Chain.Validate.{get_height}
use lootcoin.Chain.Update.{updated, update_state}
use lootcoin.Chain.Update.Runs.{Runs}
use lootcoin.Chain.Window.{new, seed_pot, restore_from_checkpoint}
use lootcoin.Chain.Tests.{test_core, genesis, first_block, second_block, step, program}
use lootcoin.Db.Redb.Memory.{memory, memory-IsLawful, sorted, put_sorted}
use lootcoin.Db.Tables.{Db, load_latest_checkpoint}
use lootcoin.Db.Tables.Blocks.{IsStored}
use lootcoin.Db.Index.{Codec}
use lootcoin.Db.Stores.{chain_store}
use lootcoin.Db.Stores.Mirror.{Mirrors}
use lootcoin.Node.{Network}
use lootcoin.Node.Sync.{sync_peer}
use lootcoin.Node.Sync.Terminates.{Ends, sync_peer-Ends}
use lootcoin.Node.Snapshot.{fetch_peer_snapshot}
use lootcoin.Node.Snapshot.Trust.{Vouched, fetch_peer_snapshot-Vouched}
use lootcoin.Node.Startup.{Boot, genesis_pot_amount, start}
use lootcoin.Node.Startup.Replay.{start-replays, start-resumes}

-- A peer with the chain of two blocks.
abbrev network : Network ℕ
network = record {
  head = λ url. some (record { height = 2; chain_work_hex = [] });
  blocks = λ url from limit. if from == 1 then some (first_block ∷ []) else some [];
  peers = λ url. none;
  snapshots = λ url. none;
  snapshot = λ url height. none;
  parse_hex = λ text. some 1;
}

abbrev codec : Codec
codec = record {
  hex = λ bytes. bytes;
  txid = λ tx. tx.signature;
  mark_digest = λ mark index position. mark;
}

abbrev nothing : Db memory ℕ
nothing = record {
  tx_index = [];
  peers = [];
  tickets = [];
  blocks = [];
  lottery_payouts = [];
  mempool = [];
  checkpoints = [];
}

abbrev with_first : Db memory ℕ
with_first = record nothing { blocks = (0, genesis) ∷ (1, first_block) ∷ [] }

abbrev fresh : Blockchain ℕ
fresh = seed_pot (new 25 genesis) genesis_pot_amount

behind : 2 - get_height fresh < 2
unfolding program
behind = omega arith

sync_peer-Ends_example :
    Ends network test_core
      (chain_store codec)
      1000
      []
      2
      (sync_peer network test_core (chain_store codec) 1000 2 [] 2 with_first fresh)
sync_peer-Ends_example =
    sync_peer-Ends network test_core (chain_store codec) 1000 2 [] 2 with_first fresh behind

with_first-IsStored : IsStored with_first (genesis ∷ first_block ∷ [])
unfolding get
with_first-IsStored zero = refl
with_first-IsStored (suc zero) = refl
with_first-IsStored (suc (suc i)) = ground arith

no_checkpoint : load_latest_checkpoint with_first ≡ none
unfolding load_latest_checkpoint sorted
no_checkpoint = refl

applies_first : update_state test_core 1000 fresh first_block ≡ updated (step fresh first_block)
unfolding program
applies_first = refl

runs_first : Runs test_core 1000 fresh (first_block ∷ []) (step fresh first_block)
runs_first =
    Runs.applies fresh (step fresh first_block) (step fresh first_block) first_block []
      applies_first (Runs.done (step fresh first_block))

start-replays_example :
    (boot : Boot memory ℕ) × (start test_core 1000 codec 25 with_first none genesis ≡ some boot)
    × (boot.chain.books ≡ (step fresh first_block).books)
    × Mirrors boot.db boot.chain
start-replays_example =
    start-replays test_core 1000 memory-IsLawful codec 25 with_first none genesis genesis
      (first_block ∷ []) (step fresh first_block) with_first-IsStored no_checkpoint runs_first

-- The checkpoint that the node takes at the first block.
abbrev checkpoint : CheckpointState ℕ
checkpoint = record {
  books = (step fresh first_block).books;
  chain_work = (step fresh first_block).chain_work;
  block_hash = first_block.hash;
  current_difficulty = (step fresh first_block).current_difficulty;
  asert_anchor = (step fresh first_block).asert_anchor;
  tickets = (step fresh first_block).pending_tickets;
}

abbrev with_checkpoint : Db memory ℕ
with_checkpoint = record nothing {
  blocks = (0, genesis) ∷ (1, first_block) ∷ (2, second_block) ∷ [];
  checkpoints = (1, checkpoint) ∷ [];
}

with_checkpoint-IsStored : IsStored with_checkpoint (genesis ∷ first_block ∷ second_block ∷ [])
unfolding get
with_checkpoint-IsStored zero = refl
with_checkpoint-IsStored (suc zero) = refl
with_checkpoint-IsStored (suc (suc zero)) = refl
with_checkpoint-IsStored (suc (suc (suc i))) = ground arith

finds_checkpoint : load_latest_checkpoint with_checkpoint ≡ some (1, checkpoint)
unfolding load_latest_checkpoint sorted put_sorted
finds_checkpoint = refl

abbrev resumed : Blockchain ℕ
resumed = restore_from_checkpoint fresh 1 checkpoint first_block

applies_second :
    update_state test_core 1000 resumed second_block ≡ updated (step resumed second_block)
unfolding program
applies_second = refl

runs_second : Runs test_core 1000 resumed (second_block ∷ []) (step resumed second_block)
runs_second =
    Runs.applies resumed (step resumed second_block) (step resumed second_block) second_block []
      applies_second (Runs.done (step resumed second_block))

start-resumes_example :
    (boot : Boot memory ℕ) × (start test_core 1000 codec 25 with_checkpoint none genesis
      ≡ some boot)
    × (boot.chain.books ≡ (step resumed second_block).books)
    × Mirrors boot.db boot.chain
start-resumes_example =
    start-resumes test_core 1000 memory-IsLawful codec 25 with_checkpoint none genesis genesis
      first_block (first_block ∷ second_block ∷ []) (genesis ∷ []) (second_block ∷ []) checkpoint
      (step resumed second_block) with_checkpoint-IsStored refl (omega arith) finds_checkpoint refl
      runs_second

abbrev no_prefix : Bytes → Bytes
no_prefix text = text

abbrev trusted : Map ℕ Bytes
trusted = (1, first_block.hash) ∷ []

-- A peer that offers the checkpoint of the second block.
abbrev offering : Network ℕ
offering = record {
  head = λ url. none;
  blocks = λ url from limit. some (first_block ∷ []);
  peers = λ url. none;
  snapshots = λ url. some (record { height = 1; block_hash_hex = first_block.hash } ∷ []);
  snapshot = λ url height. some (record {
    block_hash_hex = first_block.hash;
    balances = [];
    confirmed_signatures = [];
    pot = 7;
    chain_work_hex = [];
    current_difficulty = 25;
    asert_anchor = none;
    tickets = [];
  });
  parse_hex = λ text. none;
}

fetch_peer_snapshot-Vouched_example :
    Vouched offering no_prefix no_prefix trusted
      (fetch_peer_snapshot offering no_prefix no_prefix trusted
        (chain_store codec)
        ((1 ∷ []) ∷ [])
        nothing).0
fetch_peer_snapshot-Vouched_example =
    fetch_peer_snapshot-Vouched offering no_prefix no_prefix trusted (chain_store codec)
      ((1 ∷ []) ∷ []) nothing
