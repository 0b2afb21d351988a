-- ===== src/Node/Startup.antt =====
-- The start of a node in `main` of lootcoin-node/src/main.rs: the chain from the database, the peers
-- and the mempool. A checkpoint that does not parse and a failed read are not modelled.
pub mod Replay
use lootcoin.Base.{
  ℕ, suc, ◌+◌, ◌-◌, Bool, true, false, ◌&&◌, not, Bytes, bytes_eq, bytes_beq, List, [], ◌∷◌, ◌++◌,
  Option, none, some, Map, contains, first, keep, is_empty, leb, ltb, if◌then◌else◌,
}
use lootcoin.Core.{Transaction, Block, Core}
use lootcoin.Metrics.{Metrics, Tier}
use lootcoin.Chain.State.{Blockchain, CheckpointState, Payout}
use lootcoin.Chain.Window.{
  new, seed_pot, restore_from_checkpoint, restore_tickets, take_all_settled_payouts,
  prune_to_window,
}
use lootcoin.Chain.Validate.{get_height}
use lootcoin.Chain.Reorg.{apply_in_memory}
use lootcoin.Mempool
use lootcoin.Mempool.{Mempool, tx_expiry_blocks, restore}
use lootcoin.Db.Redb.{Redb}
use lootcoin.Db.Tables.{
  Db, save_block_indexed, get_blocks_range, load_canonical_chain, load_blocks_from, load_tickets,
  load_peers, save_peer, load_mempool, load_latest_checkpoint, delete_checkpoints_from,
}
use lootcoin.Db.Index.{Codec, rebuild_tx_index}
use lootcoin.Api.Urls.{UrlLib, canonicalize_peer_url, canonicalize_peer_url_trusted}
use lootcoin.Api.Peers.{is_own}

-- GENESIS_WALLET_AMOUNT, GENESIS_POT_AMOUNT, GENESIS_TIMESTAMP
abbrev pub genesis_wallet_amount : ℕ
genesis_wallet_amount = 1000000

abbrev pub genesis_pot_amount : ℕ
genesis_pot_amount = 99000000

abbrev pub genesis_timestamp : ℕ
genesis_timestamp = 1748000000

-- `vec![0u8; 32]` and `[0u8; 32]`
abbrev pub zeros : Bytes
zeros =
    0 ∷ 0 ∷ 0 ∷ 0 ∷ 0 ∷ 0 ∷ 0 ∷ 0 ∷ 0 ∷ 0 ∷ 0 ∷ 0 ∷ 0 ∷ 0 ∷ 0 ∷ 0 ∷ 0 ∷ 0 ∷ 0 ∷ 0 ∷ 0 ∷ 0 ∷ 0 ∷ 0
    ∷ 0 ∷ 0 ∷ 0 ∷ 0 ∷ 0 ∷ 0 ∷ 0 ∷ 0 ∷ []

-- The chain, the database, whether a checkpoint was used, and the start of the history.
pub record Boot (R : Redb) (F : Type 0) : Type 0 where
  pub chain : Blockchain F
  pub db : Db R F
  pub used_checkpoint : Bool
  pub history_start : ℕ

-- The transaction of the genesis block, to GENESIS_ADDRESS.
unfoldable pub genesis_tx : Bytes → Transaction
genesis_tx genesis_address = record {
  sender = [];
  receiver = genesis_address;
  amount = genesis_wallet_amount;
  fee = 0;
  nonce = 0;
  public_key = zeros;
  signature = [];
}

-- The genesis block, with its `tx_root`; and the block that stands in for it below a snapshot.
unfoldable pub genesis_block : Bytes → Bytes → Block
genesis_block genesis_address tx_root = record {
  index = 0;
  previous_hash = zeros;
  timestamp = genesis_timestamp;
  nonce = 0;
  tx_root = tx_root;
  transactions = genesis_tx genesis_address ∷ [];
  hash = [];
}

unfoldable pub dummy_genesis : Block
dummy_genesis = record {
  index = 0;
  previous_hash = zeros;
  timestamp = genesis_timestamp;
  nonce = 0;
  tx_root = [];
  transactions = [];
  hash = [];
}

module _ {F : Type 0} (core : Core F) (now_secs : ℕ) where
  -- `apply_in_memory(block, None)` for each stored block; its outcome is not looked at.
  unfoldable pub replay_stored : Blockchain F → List Block → Option (Blockchain F)
  replay_stored chain [] = some chain
  replay_stored chain (b ∷ bs) = elim (apply_in_memory core now_secs chain b none) [
    | none ↦ none
    | some (outcome, chain') ↦ replay_stored chain' bs
  ]

  module _ {R : Redb} (codec : Codec) (difficulty : F) where
    -- No block is stored: a peer's snapshot, or genesis.
    unfoldable pub boot_fresh : Db R F → Option (ℕ × CheckpointState F × Block) → Block → Boot R F
    boot_fresh db none genesis = record {
      chain = seed_pot (new difficulty genesis) genesis_pot_amount;
      db = save_block_indexed db genesis;
      used_checkpoint = false;
      history_start = 0;
    }
    boot_fresh db (some (snap_height, snap_state, cp_block)) genesis = record {
      chain =
          restore_from_checkpoint (seed_pot (new difficulty dummy_genesis) genesis_pot_amount)
            snap_height snap_state cp_block;
      db = db;
      used_checkpoint = true;
      history_start = snap_height;
    }

    unfoldable pub boot_replay : Db R F → Block → List Block → Option (Boot R F)
    boot_replay db genesis blocks =
        elim (replay_stored (seed_pot (new difficulty genesis) genesis_pot_amount) blocks) [
          | none ↦ none
          | some chain ↦
              some (record { chain = chain; db = db; used_checkpoint = false; history_start = 0 })
        ]

    -- From a checkpoint: the state, if its hash is that of the stored block, and the blocks behind it.
    unfoldable pub boot_checkpoint :
        Db R F → Block → List Block → ℕ → CheckpointState F → Option (Boot R F)
    boot_checkpoint db genesis blocks cp_height state =
        elim (first (get_blocks_range db cp_height 1)) [
          | none ↦ none
          | some cp_block ↦
              if bytes_beq state.block_hash cp_block.hash
              then elim (replay_stored
                  (restore_from_checkpoint (seed_pot (new difficulty genesis) genesis_pot_amount)
                    cp_height state cp_block)
                  (load_blocks_from db (cp_height + 1))) [
                    | none ↦ none
                    | some chain ↦ some (record {
                      chain = chain;
                      db = db;
                      used_checkpoint = true;
                      history_start = 0;
                    })
                  ]
              else boot_replay (delete_checkpoints_from db 0) genesis blocks
        ]

    unfoldable pub load_chain :
        Db R F → Option (ℕ × CheckpointState F × Block) → Block → Option (Boot R F)
    load_chain db snapshot genesis = elim (load_canonical_chain db) [
      | [] ↦ some (boot_fresh db snapshot genesis)
      | stored_genesis ∷ blocks ↦ elim (load_latest_checkpoint db) [
        | none ↦ boot_replay db stored_genesis blocks
        | some (cp_height, state) ↦ boot_checkpoint db stored_genesis blocks cp_height state
      ]
    ]

    -- Steps 3 to 5: the index, the pruning, the tickets.
    unfoldable pub settle_boot : Boot R F → Boot R F
    settle_boot boot =
        let (all_payouts, taken) = take_all_settled_payouts boot.chain in
        let indexed : Db R F =
          if boot.used_checkpoint
          then boot.db
          else rebuild_tx_index codec boot.db taken.blocks all_payouts in
        record boot {
          db = indexed;
          chain = restore_tickets (prune_to_window taken) (load_tickets indexed);
        }

    unfoldable pub start :
        Db R F → Option (ℕ × CheckpointState F × Block) → Block → Option (Boot R F)
    start db snapshot genesis = elim (load_chain db snapshot genesis) [
      | none ↦ none
      | some boot ↦ some (settle_boot boot)
    ]

-- The peers of the environment that canonicalize.
unfoldable pub env_peers : UrlLib → List Bytes → List Bytes
env_peers lib [] = []
env_peers lib (s ∷ ss) = elim (canonicalize_peer_url_trusted lib s) [
  | none ↦ env_peers lib ss
  | some c ↦ c ∷ env_peers lib ss
]

-- The loop over the stored peers.
unfoldable pub add_stored : UrlLib → Option Bytes → List Bytes → List Bytes → List Bytes
add_stored lib node_url peers [] = peers
add_stored lib node_url peers (p ∷ ps) =
    let skipped = add_stored lib node_url peers ps in
    elim (canonicalize_peer_url lib p) [
      | none ↦ skipped
      | some canonical ↦
          let added = add_stored lib node_url (peers ++ canonical ∷ []) ps in
          if is_own node_url canonical
          then skipped
          else if contains canonical peers
          then skipped
          else added
    ]

-- Step 9a: what is restored is not confirmed and not expired.
unfoldable pub is_pending : {F : Type 0} → Blockchain F → Transaction × ℕ → Bool
is_pending chain e =
    not (contains e.0.signature chain.books.confirmed_signatures)
    && not (ltb tx_expiry_blocks (get_height chain - e.1))

module _ {R : Redb} {F : Type 0} where
  unfoldable pub save_peers : Db R F → List Bytes → Db R F
  save_peers db [] = db
  save_peers db (p ∷ ps) = save_peers (save_peer db p) ps

  -- Step 6: the peers, and the database that holds them.
  unfoldable pub peer_list : UrlLib → Option Bytes → List Bytes → Db R F → List Bytes × Db R F
  peer_list lib node_url configured db =
      let peers = add_stored lib node_url (env_peers lib configured) (load_peers db) in
      (peers, save_peers db peers)

  unfoldable pub load_pool : Db R F → Blockchain F → Mempool (Db R F)
  load_pool db chain = restore (Mempool.new (some db)) (keep (is_pending chain) (load_mempool db))
