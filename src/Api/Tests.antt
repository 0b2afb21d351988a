-- ===== src/Api/Tests.antt =====
-- A small node, and the theorems on the handlers applied to it.
use lootcoin.Base.{
  All, ℕ, zero, suc, ◌≡◌, refl, true, false, ◌&&◌, not, Bool, Bytes, nat_eq, bytes_eq, [], ◌∷◌,
  Option, none, some, get, map, take, drop, if◌then◌else◌, is_some, arith,
}
use lootcoin.Chain.State.{Blockchain, BlockOutcome, applied, rejected}
use lootcoin.Chain.Ledger.{get_balance}
use lootcoin.Chain.Validate.{get_height, count_ok, coinbase_ok}
use lootcoin.Chain.Reorg.{apply_block, persist, persist_applied}
use lootcoin.Chain.Tests.{test_core, genesis, first_block, payment, start, program}
use lootcoin.Mempool.{put, debit_from, pending_count, pending_debit}
use lootcoin.Mempool.Bounds.{IsPool}
use lootcoin.Mempool.Effects.{IsCovered}
use lootcoin.Gossip
use lootcoin.Chain.Window.{new, seed_pot}
use lootcoin.Chain.Reorg.Pool.{IsBounded}
use lootcoin.Gossip.{Gossip}
use lootcoin.Gossip.Peers.{IsRoomy}
use lootcoin.Db.Redb.Memory.{memory, memory-IsLawful}
use lootcoin.Db.Tables.{Db}
use lootcoin.Db.Tables.Blocks.{IsStored}
use lootcoin.Api.{
  AppState, Stores, ok, check_coinbase, check_hash, check_incoming, is_valid_address,
  apply_incoming_block, relay_tx_inner,
}
use lootcoin.Api.Handlers.{
  Hex, SubmitTransactionRequest, request_tx, submit_transaction_handler, events_handler,
}
use lootcoin.Api.Relay.{
  is_ok, admissible, has_room, relay_tx_inner_lem, relay_tx_inner-IsCovered,
  submit_transaction_handler-relay_tx_inner,
}
use lootcoin.Api.Incoming.{confirmed_by, confirms, apply_incoming_block-confirmed}
use lootcoin.Api.Checks.{starts_with_coinbase, hash_matches, check_incoming_lem}
use lootcoin.Api.Reachable.{Step, Reachable, IsServing, Reachable-IsServing}
use lootcoin.Api.Urls.{domain, UrlLib, http}
use lootcoin.Api.Peers.{Answers, add_peer_handler, add_peer_handler_lem}
use lootcoin.Api.Views.{page_limit, get_blocks_handler, get_blocks_handler-IsStored}

-- A database that counts its writes.
abbrev pub test_stores : Stores ℕ ℕ
test_stores = record {
  of_chain = record {
    get_blocks_range = λ db from limit. none;
    save_block_indexed = λ db block. suc db;
    save_applied_block = λ db block tickets payouts. suc db;
    save_checkpoint = λ db height state. suc db;
    delete_checkpoints_from = λ db height. suc db;
    apply_reorg_incremental = λ db olds news tickets payouts. suc db;
    rebuild_indices_with_tickets = λ db tickets payouts. suc db;
  };
  of_mempool = record {
    save_mempool_tx = λ db tx height. suc db;
    remove_mempool_txs = λ db txids. suc db;
    txid = λ tx. tx.signature;
  };
}

abbrev quiet : Gossip
quiet = record {
  peers = [];
  seen_blocks = Gossip.new_cache 10;
  seen_txs = Gossip.new_cache 10;
  sent = [];
  active_subscriptions = [];
}

abbrev pub node : AppState ℕ ℕ
node = record {
  db = 0;
  chain = start;
  mempool = record { entries = []; db = some 0 };
  gossip = quiet;
  sse_subscribers = 0;
  history_start = 0;
}

relay_tx_inner_lem_example :
    let accepted =
      admissible test_core test_stores node payment
      && has_room test_core test_stores node payment in
    let r : AppState ℕ ℕ × Bool = relay_tx_inner test_core test_stores node payment in
    (r.1 ≡ accepted)
    × (r.0.mempool.entries ≡ (
        if accepted
        then put node.mempool.entries payment (get_height node.chain)
        else node.mempool.entries))
    × ((if accepted then node else r.0) ≡ node)
relay_tx_inner_lem_example = relay_tx_inner_lem test_core test_stores node payment

nothing_pending : IsCovered (get_balance node.chain.books) node.mempool.entries
unfolding pending_debit debit_from
nothing_pending s = omega arith

relay_tx_inner-IsCovered_example :
    let after : AppState ℕ ℕ = (relay_tx_inner test_core test_stores node payment).0 in
    IsCovered (get_balance after.chain.books) after.mempool.entries
relay_tx_inner-IsCovered_example =
    relay_tx_inner-IsCovered test_core test_stores node payment nothing_pending

abbrev pub bytes_32 : Bytes
bytes_32 =
    1 ∷ 1 ∷ 1 ∷ 1 ∷ 1 ∷ 1 ∷ 1 ∷ 1 ∷ 1 ∷ 1 ∷ 1 ∷ 1 ∷ 1 ∷ 1 ∷ 1 ∷ 1 ∷ 1 ∷ 1 ∷ 1 ∷ 1 ∷ 1 ∷ 1 ∷ 1 ∷ 1
    ∷ 1 ∷ 1 ∷ 1 ∷ 1 ∷ 1 ∷ 1 ∷ 1 ∷ 1 ∷ []

abbrev pub bytes_64 : Bytes
bytes_64 =
    1 ∷ 1 ∷ 1 ∷ 1 ∷ 1 ∷ 1 ∷ 1 ∷ 1 ∷ 1 ∷ 1 ∷ 1 ∷ 1 ∷ 1 ∷ 1 ∷ 1 ∷ 1 ∷ 1 ∷ 1 ∷ 1 ∷ 1 ∷ 1 ∷ 1 ∷ 1 ∷ 1
    ∷ 1 ∷ 1 ∷ 1 ∷ 1 ∷ 1 ∷ 1 ∷ 1 ∷ 1 ∷ bytes_32

abbrev pub hex : Hex
hex = record { encode = λ bytes. bytes; from_hex = λ text. some text }

abbrev request : SubmitTransactionRequest
request = record {
  sender = 2 ∷ [];
  receiver = 3 ∷ [];
  amount = 10;
  fee = 4;
  nonce = 0;
  public_key_hex = bytes_32;
  signature_hex = bytes_64;
}

submit_transaction_handler-relay_tx_inner_example :
    let s = submit_transaction_handler test_core test_stores hex node request in
    let r =
      relay_tx_inner test_core test_stores node
        (request_tx test_core test_stores hex request bytes_32 bytes_64) in
    (s.1 ≡ r.0) × (is_ok s.0 ≡ r.1)
submit_transaction_handler-relay_tx_inner_example =
    submit_transaction_handler-relay_tx_inner test_core test_stores hex node request bytes_32
      bytes_64 refl refl refl refl

no_entries : IsPool node.mempool.entries
unfolding pending_count
no_entries = record { size = omega arith; senders = λ s. omega arith; sound = tt; distinct = tt }

fine_block : check_incoming test_core first_block ≡ none
unfolding check_incoming check_coinbase check_hash is_valid_address
fine_block = refl

abbrev answer : Option (BlockOutcome × ℕ × Blockchain ℕ) → BlockOutcome × ℕ × Blockchain ℕ
answer none = (rejected, 0, start)
answer (some r) = r

abbrev ran : Option (BlockOutcome × ℕ × Blockchain ℕ)
ran = apply_block test_stores.of_chain test_core 1000 node.db node.chain first_block

applies_first : ran ≡ some (applied, (answer ran).1, (answer ran).2)
unfolding program apply_block persist persist_applied
applies_first = refl

apply_incoming_block-confirmed_example :
    (state' : AppState ℕ ℕ) × (apply_incoming_block test_core test_stores 1000 node first_block
      ≡ some (ok true, state'))
    × All
        (λ s. get s state'.mempool.entries ≡ none)
        (confirmed_by (confirms test_core test_stores first_block applied))
    × (state'.chain ≡ (answer ran).2)
apply_incoming_block-confirmed_example =
    apply_incoming_block-confirmed test_core test_stores 1000 node first_block applied
      (answer ran).1 (answer ran).2 no_entries fine_block applies_first refl

check_incoming_lem_example : not (is_some (check_incoming test_core first_block)) ≡ (
    starts_with_coinbase first_block.transactions
    && count_ok test_core first_block
    && coinbase_ok test_core first_block
    && hash_matches test_core first_block)
check_incoming_lem_example = check_incoming_lem test_core first_block

abbrev listening : AppState ℕ ℕ
listening = (events_handler node).0

opens_stream : (events_handler node).1 ≡ true
unfolding events_handler
opens_stream = refl

few_peers : IsRoomy node.gossip
unfolding IsRoomy
few_peers = omega arith

no_orphans : IsBounded node.chain.orphan_pool
unfolding seed_pot new
no_orphans = record { size = omega arith; heights = λ i. omega arith }

node-IsServing : IsServing test_core test_stores 0 node
node-IsServing = record {
  pool = no_entries;
  counted = refl;
  capped = omega arith;
  roomy = few_peers;
  orphans = no_orphans;
}

Reachable-IsServing_example : IsServing test_core test_stores 1 listening
Reachable-IsServing_example =
    Reachable-IsServing test_core test_stores node 1 listening node-IsServing
      (Reachable.moves 0 1 node listening Reachable.starts (Step.opens 0 node opens_stream))

-- Every text is the URL of a node named "a".
abbrev lib : UrlLib
lib = record {
  parse = λ text. some (record {
    scheme = http;
    host = some (domain (97 ∷ []));
    host_str = some (97 ∷ []);
    port = some 80;
  });
  to_lowercase = λ name. name;
  ends_with_localhost = λ name. false;
  print_port = λ p. p ∷ [];
}

abbrev save_peer : ℕ → Bytes → ℕ
save_peer db url = suc db

add_peer_handler_lem_example :
    let r : AppState ℕ ℕ × ℕ × Option Bytes = add_peer_handler lib save_peer none 5 node [] in
    IsRoomy r.0.gossip × Answers lib save_peer none node [] r.0 r.2
add_peer_handler_lem_example = add_peer_handler_lem lib save_peer none 5 node [] few_peers

abbrev with_genesis : Db memory ℕ
with_genesis = record {
  tx_index = [];
  peers = [];
  tickets = [];
  blocks = (0, genesis) ∷ [];
  lottery_payouts = [];
  mempool = [];
  checkpoints = [];
}

with_genesis-IsStored : IsStored with_genesis (genesis ∷ [])
unfolding get
with_genesis-IsStored zero = refl
with_genesis-IsStored (suc i) = ground arith

abbrev stored_node : AppState ℕ (Db memory ℕ)
stored_node = record {
  db = with_genesis;
  chain = start;
  mempool = record { entries = []; db = some with_genesis };
  gossip = quiet;
  sse_subscribers = 0;
  history_start = 0;
}

get_blocks_handler-IsStored_example :
    map (λ v. v.block) (get_blocks_handler stored_node 0 (some 3))
    ≡ take (page_limit (some 3) 500 500) (drop 0 (genesis ∷ []))
get_blocks_handler-IsStored_example =
    get_blocks_handler-IsStored memory-IsLawful stored_node (genesis ∷ []) 0 (some 3)
      with_genesis-IsStored (omega arith)
