-- ===== src/Node/Snapshot.antt =====
-- `fetch_peer_snapshot` of lootcoin-node/src/main.rs. `trusted` is `TRUSTED_CHECKPOINTS` of
-- lootcoin-node/src/checkpoints.rs, `encode` is `hex::encode` and `bare` takes the prefix `0x` off. A
-- failed write of the database is not modelled.
pub mod Trust
use lootcoin.Base.{
  ℕ, zero, suc, ◌+◌, ◌≤◌, ◌<◌, ◌≡◌, refl, ◌∙◌, ap, sym, Bool, true, false, Bool-cases, Option-cases,
  inl, inr, Bytes, bytes_eq, bytes_beq, bytes_beq_iff, nat_eq, List, [], ◌∷◌, ◌++◌, Option, none,
  some, Map, get, first, is_empty, leb, ◌||◌, if◌then◌else◌, All, arith,
}
use lootcoin.Core.{Block}
use lootcoin.Chain.State.{CheckpointState}
use lootcoin.Chain.Reorg.{Store}
use lootcoin.Node.{SnapshotInfo, SnapshotPayload, Network}

-- A peer that offers a trusted checkpoint: its URL, the height and the hash as the peer writes it.
pub record Candidate : Type 0 where
  pub peer : Bytes
  pub height : ℕ
  pub expected_hash : Bytes

-- `sort_by_key(|(_, h, _)| Reverse(*h))`, a stable sort.
unfoldable pub place : Candidate → List Candidate → List Candidate
place c [] = c ∷ []
place c (d ∷ ds) = if leb d.height c.height then c ∷ d ∷ ds else d ∷ place c ds

unfoldable pub highest_first : List Candidate → List Candidate
highest_first [] = []
highest_first (c ∷ cs) = place c (highest_first cs)

module _ {F : Type 0} (network : Network F) (encode bare : Bytes → Bytes)
    (trusted : Map ℕ Bytes) where
  -- The offers of one peer that match a trusted checkpoint.
  unfoldable pub matching : Bytes → List SnapshotInfo → List Candidate
  matching peer [] = []
  matching peer (s ∷ list) =
      let rest = matching peer list in
      elim (get s.height trusted) [
        | none ↦ rest
        | some trusted_hash ↦
            if bytes_beq (bare s.block_hash_hex) (bare trusted_hash)
            then record { peer = peer; height = s.height; expected_hash = s.block_hash_hex } ∷ rest
            else rest
      ]

  unfoldable pub gather : List Bytes → List Candidate
  gather [] = []
  gather (peer ∷ peers) = elim (network.snapshots peer) [
    | none ↦ gather peers
    | some list ↦ matching peer list ++ gather peers
  ]

  -- The state that a payload describes, with the hash of the checkpoint block.
  unfoldable pub state_of : SnapshotPayload F → Block → CheckpointState F
  state_of payload cp_block = record {
    books = record {
      balances = payload.balances;
      confirmed_signatures = payload.confirmed_signatures;
      pot = payload.pot;
    };
    chain_work = elim (network.parse_hex payload.chain_work_hex) [ none ↦ 0 | some w ↦ w ];
    block_hash = cp_block.hash;
    current_difficulty = payload.current_difficulty;
    asert_anchor = payload.asert_anchor;
    tickets = payload.tickets;
  }

  -- What one candidate gives: the state and the checkpoint block, when both hashes are right.
  unfoldable pub download : Candidate → Option (CheckpointState F × Block)
  download c = elim (network.snapshot c.peer c.height) [
    | none ↦ none
    | some payload ↦
        if bytes_beq (bare payload.block_hash_hex) (bare c.expected_hash)
        then elim (network.blocks c.peer c.height 1) [
          | none ↦ none
          | some cp_blocks ↦ elim (first cp_blocks) [
            | none ↦ none
            | some cp_block ↦
                if bytes_beq (encode cp_block.hash) (bare c.expected_hash)
                then some (state_of payload cp_block, cp_block)
                else none
          ]
        ]
        else none
  ]

  module _ {D : Type 0} (store : Store F D) where
    -- The loop over the candidates.
    unfoldable pub adopt : D → List Candidate → Option (ℕ × CheckpointState F × Block) × D
    adopt db [] = (none, db)
    adopt db (c ∷ cs) = elim (download c) [
      | none ↦ adopt db cs
      | some (state, cp_block) ↦ (
        some (c.height, state, cp_block),
        store.save_checkpoint (store.save_block_indexed db cp_block) c.height state,
      )
    ]

    unfoldable pub fetch_peer_snapshot : List Bytes → D → Option (ℕ × CheckpointState F × Block) × D
    fetch_peer_snapshot peers db =
        if is_empty trusted || is_empty peers
        then (none, db)
        else adopt db (highest_first (gather peers))
