-- ===== src/Node/Sync.antt =====
-- `sync_from_peers` of lootcoin-node/src/main.rs. Each request of a round asks for a higher position
-- than the one before, so that a peer's answers are a function of the position.
pub mod Terminates
use lootcoin.Base.{
  ℕ, zero, suc, ◌+◌, ◌-◌, ◌≤◌, ◌<◌, ◌≡◌, refl, Bool, true, false, Bytes, bytes_eq, bytes_beq, List,
  [], ◌∷◌, ◌++◌, Option, none, some, contains, first, length, leb, ltb, if◌then◌else◌,
}
use lootcoin.Core.{Block, Core}
use lootcoin.Chain.State.{Blockchain}
use lootcoin.Chain.Validate.{get_height}
use lootcoin.Chain.Reorg.{Store, apply_block}
use lootcoin.Gossip.{max_peers}
use lootcoin.Api.Urls.{UrlLib, canonicalize_peer_url_trusted}
use lootcoin.Api.Peers.{is_own}
use lootcoin.Node.{Network}

-- `BATCH`
abbrev pub batch : ℕ
batch = 100

pub record Candidate : Type 0 where
  pub url : Bytes
  pub height : ℕ
  pub chain_work : ℕ

-- How the loop over one peer ends.
pub data PeerSync (F D : Type 0) : Type 0 where
  finished : D → Blockchain F → PeerSync F D
  next_peer : D → Blockchain F → PeerSync F D
  panicked : PeerSync F D
  out_of_fuel : PeerSync F D

module _ {F : Type 0} (network : Network F) where
  -- The peers that claim more chain work than `our_work`.
  unfoldable pub candidates : ℕ → List Bytes → List Candidate
  candidates our_work [] = []
  candidates our_work (peer ∷ peers) =
      let rest = candidates our_work peers in
      elim (network.head peer) [
        | none ↦ rest
        | some head ↦
            let work : ℕ = elim (network.parse_hex head.chain_work_hex) [ none ↦ 0 | some w ↦ w ] in
            if ltb our_work work
            then record { url = peer; height = head.height; chain_work = work } ∷ rest
            else rest
      ]

  -- `sort_by(|a, b| b.2.cmp(&a.2))`, a stable sort.
  unfoldable pub place : Candidate → List Candidate → List Candidate
  place c [] = c ∷ []
  place c (d ∷ ds) = if leb d.chain_work c.chain_work then c ∷ d ∷ ds else d ∷ place c ds

  unfoldable pub most_work_first : List Candidate → List Candidate
  most_work_first [] = []
  most_work_first (c ∷ cs) = place c (most_work_first cs)

  module _ {D : Type 0} (core : Core F) (store : Store F D) (now_secs : ℕ) where
    -- The blocks of one answer, up to the first that does not raise the height: whether all did.
    unfoldable pub take_blocks : D → Blockchain F → List Block → Option (Bool × D × Blockchain F)
    take_blocks db chain [] = some (true, db, chain)
    take_blocks db chain (b ∷ bs) = elim (apply_block store core now_secs db chain b) [
      | none ↦ none
      | some (outcome, db', chain') ↦
          let rest = take_blocks db' chain' bs in
          if ltb (get_height chain) (get_height chain') then rest else some (false, db', chain')
    ]

    -- The loop over one peer.
    unfoldable pub sync_peer : ℕ → Bytes → ℕ → D → Blockchain F → PeerSync F D
    sync_peer zero url peer_height db chain = out_of_fuel
    sync_peer (suc fuel) url peer_height db chain =
        if leb peer_height (get_height chain)
        then finished db chain
        else elim (network.blocks url (get_height chain) batch) [
          | none ↦ next_peer db chain
          | some [] ↦ finished db chain
          | some (b ∷ bs) ↦ elim (take_blocks db chain (b ∷ bs)) [
            | none ↦ panicked
            | some (true, db', chain') ↦ sync_peer fuel url peer_height db' chain'
            | some (false, db', chain') ↦ next_peer db' chain'
          ]
        ]

    -- The loop over the candidates: the peer that was synced from, if any.
    unfoldable pub sync_candidates :
        D → Blockchain F → List Candidate → Option (Option Bytes × D × Blockchain F)
    sync_candidates db chain [] = some (none, db, chain)
    sync_candidates db chain (c ∷ cs) =
        elim (sync_peer (suc (c.height - get_height chain)) c.url c.height db chain) [
          | finished db' chain' ↦ some (some c.url, db', chain')
          | next_peer db' chain' ↦ sync_candidates db' chain' cs
          | panicked ↦ none
          | out_of_fuel ↦ none
        ]

  module _ {D : Type 0} (lib : UrlLib) (save_peer : D → Bytes → D) (node_url : Option Bytes) where
    -- The loop over the peers that a peer knows.
    unfoldable pub discover : D → List Bytes → List Bytes → D × List Bytes
    discover db known_peers [] = (db, known_peers)
    discover db known_peers (p ∷ ps) =
        let skipped = discover db known_peers ps in
        if leb max_peers (length known_peers)
        then (db, known_peers)
        else elim (canonicalize_peer_url_trusted lib p) [
          | none ↦ skipped
          | some canonical ↦
              let added = discover (save_peer db canonical) (known_peers ++ canonical ∷ []) ps in
              if is_own node_url canonical
              then skipped
              else if contains canonical known_peers
              then skipped
              else added
        ]

    unfoldable pub discover_from : Bytes → D → List Bytes → D × List Bytes
    discover_from peer_url db known_peers = elim (network.peers peer_url) [
      | none ↦ (db, known_peers)
      | some peers ↦ discover db known_peers peers
    ]

    unfoldable pub sync_from_peers :
        Core F
        → Store F D
        → ℕ
        → D
        → Blockchain F
        → List Bytes
        → Option (D × Blockchain F × List Bytes)
    sync_from_peers core store now_secs db chain known_peers =
        elim (most_work_first (candidates chain.chain_work known_peers)) [
          | [] ↦ some (db, chain, known_peers)
          | best ∷ others ↦ elim (sync_candidates core store now_secs db chain (best ∷ others)) [
            | none ↦ none
            | some (synced_from, db', chain') ↦
                let discovery_url : Bytes = elim synced_from [ none ↦ best.url | some url ↦ url ] in
                let (db'', peers) = discover_from discovery_url db' known_peers in
                some (db'', chain', peers)
          ]
        ]
