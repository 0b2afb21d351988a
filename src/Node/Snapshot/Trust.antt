-- ===== src/Node/Snapshot/Trust.antt =====
-- What `fetch_peer_snapshot` of lootcoin-node/src/main.rs has checked of a snapshot.
use lootcoin.Base.{
  ℕ, ◌≡◌, ◌∙◌, Bool-cases, Option-cases, inl, inr, Bytes, bytes_eq, bytes_beq, bytes_beq_iff,
  nat_eq, List, [], ◌∷◌, Option, none, some, Map, get, is_empty, leb, ◌||◌, All, All-append, arith,
}
use lootcoin.Core.{Block}
use lootcoin.Chain.State.{CheckpointState}
use lootcoin.Chain.Reorg.{Store}
use lootcoin.Node.{SnapshotInfo, Network}
use lootcoin.Node.Snapshot.{
  Candidate, place, highest_first, matching, gather, state_of, download, adopt, fetch_peer_snapshot,
}

module _ {F : Type 0} (network : Network F) (encode bare : Bytes → Bytes)
    (trusted : Map ℕ Bytes) where
  -- A candidate is of a trusted height, with the trusted hash.
  abbrev pub IsTrusted : Candidate → Type 0
  IsTrusted c =
      (hash : Bytes) × (get c.height trusted ≡ some hash) × (bare c.expected_hash ≡ bare hash)

  place-IsTrusted :
      (c : Candidate) (cs : List Candidate)
      → IsTrusted c
      → All IsTrusted cs
      → All IsTrusted (place c cs)
  unfolding place
  place-IsTrusted c [] t ts = (t, tt)
  place-IsTrusted c (d ∷ ds) t ts = elim (Bool-cases (leb d.height c.height)) [
    | inl e ↦ rw e (t, ts)
    | inr e ↦ rw e (ts.0, place-IsTrusted c ds t ts.1)
  ]

  highest_first-IsTrusted :
      (cs : List Candidate) → All IsTrusted cs → All IsTrusted (highest_first cs)
  unfolding highest_first
  highest_first-IsTrusted [] ts = tt
  highest_first-IsTrusted (c ∷ cs) ts =
      place-IsTrusted c (highest_first cs) ts.0 (highest_first-IsTrusted cs ts.1)

  matching-IsTrusted :
      (peer : Bytes) (list : List SnapshotInfo)
      → All IsTrusted (matching network encode bare trusted peer list)
  unfolding matching
  matching-IsTrusted peer [] = tt
  matching-IsTrusted peer (s ∷ list) = elim (Option-cases (get s.height trusted)) [
    | inl e ↦ rw (e, matching) (matching-IsTrusted peer list)
    | inr (hash, e) ↦ elim (Bool-cases (bytes_beq (bare s.block_hash_hex) (bare hash))) [
      | inl same ↦
          rw (e, matching, same)
            (
              (hash, e, (bytes_beq_iff (bare s.block_hash_hex) (bare hash)).0 same),
              matching-IsTrusted peer list,
            )
      | inr other ↦ rw (e, matching, other) (matching-IsTrusted peer list)
    ]
  ]

  gather-IsTrusted : (peers : List Bytes) → All IsTrusted (gather network encode bare trusted peers)
  unfolding gather
  gather-IsTrusted [] = tt
  gather-IsTrusted (peer ∷ peers) = elim (Option-cases (network.snapshots peer)) [
    | inl e ↦ rw (e, gather) (gather-IsTrusted peers)
    | inr (list, e) ↦
        rw (e, gather)
          (All-append IsTrusted (matching network encode bare trusted peer list)
            (gather network encode bare trusted peers) (matching-IsTrusted peer list)
            (gather-IsTrusted peers))
  ]

  -- A snapshot and its block, of a trusted height and the hash that is trusted for it.
  abbrev pub Vouched : Option (ℕ × CheckpointState F × Block) → Type 0
  Vouched none = Unit
  Vouched (some (height, state, cp_block)) =
      (hash : Bytes) × (get height trusted ≡ some hash)
      × (encode cp_block.hash ≡ bare hash)
      × (state.block_hash ≡ cp_block.hash)

  download-hash :
      (c : Candidate) (state : CheckpointState F) (cp_block : Block)
      → download network encode bare trusted c ≡ some (state, cp_block)
      → (encode cp_block.hash ≡ bare c.expected_hash) × (state.block_hash ≡ cp_block.hash)
  unfolding download state_of
  download-hash c state cp_block h =
      (ground (arith, bytes_beq_iff (encode cp_block.hash) (bare c.expected_hash)), ground arith)

  adopt-Vouched :
      {D : Type 0} (store : Store F D) (db : D) (cs : List Candidate)
      → All IsTrusted cs
      → Vouched (adopt network encode bare trusted store db cs).0
  unfolding adopt
  adopt-Vouched store db [] ts = tt
  adopt-Vouched store db (c ∷ cs) ts =
      elim (Option-cases (download network encode bare trusted c)) [
        | inl e ↦ rw (e, adopt) (adopt-Vouched store db cs ts.1)
        | inr ((state, cp_block), e) ↦
            let right = download-hash c state cp_block e in
            let (hash, listed, written) = ts.0 in
            rw (e, adopt) (hash, listed, right.0 ∙ written, right.1)
      ]

  -- A snapshot that `fetch_peer_snapshot` gives is for a height of the trusted list, and the hash
  -- of its checkpoint block, encoded, is the one that the list has for this height; the state
  -- carries the same hash.
  pub fetch_peer_snapshot-Vouched :
      {D : Type 0} (store : Store F D) (peers : List Bytes) (db : D)
      → Vouched (fetch_peer_snapshot network encode bare trusted store peers db).0
  unfolding fetch_peer_snapshot
  fetch_peer_snapshot-Vouched store peers db =
      elim (Bool-cases (is_empty trusted || is_empty peers)) [
        | inl nothing ↦ rw nothing tt
        | inr go ↦ rw go (
            adopt-Vouched store db (highest_first (gather network encode bare trusted peers)) (
              highest_first-IsTrusted (gather network encode bare trusted peers)
                (gather-IsTrusted peers)))
      ]
