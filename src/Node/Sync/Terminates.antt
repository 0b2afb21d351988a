-- ===== src/Node/Sync/Terminates.antt =====
-- The loops of `sync_from_peers` (lootcoin-node/src/main.rs).
use lootcoin.Base.{
  ℕ, zero, suc, ◌+◌, ◌-◌, ◌≤◌, ◌<◌, ◌≡◌, ◌⊎◌, ap, inl, inr, true, false, Bool-cases, Option-cases,
  Bytes, bytes_eq, List, [], ◌∷◌, ◌++◌, Option, some, length, length-append, leb, ltb, arith,
}
use lootcoin.Core.{Block, Core}
use lootcoin.Chain.State.{Blockchain}
use lootcoin.Chain.Validate.{get_height}
use lootcoin.Chain.Reorg.{Store, apply_block}
use lootcoin.Gossip.{max_peers}
use lootcoin.Api.Urls.{UrlLib, canonicalize_peer_url_trusted}
use lootcoin.Node.{Network}
use lootcoin.Node.Sync.{
  PeerSync, finished, next_peer, panicked, out_of_fuel, batch, take_blocks, sync_peer, discover,
}

module _ {F : Type 0} (network : Network F) where
  module _ {D : Type 0} (core : Core F) (store : Store F D) (now_secs : ℕ) where
    -- Blocks that were all taken raised the height, each by one at least.
    take_blocks-height :
        (bs : List Block) (db db' : D) (chain chain' : Blockchain F)
        → take_blocks network core store now_secs db chain bs ≡ some (true, db', chain')
        → get_height chain + length bs ≤ get_height chain'
    unfolding take_blocks
    take_blocks-height [] db db' chain chain' h =
        let same : chain ≡ chain' = ground arith in omega (arith, ap get_height same)
    take_blocks-height (b ∷ bs) db db' chain chain' h =
        elim (Option-cases (apply_block store core now_secs db chain b)) [
          | inl panic ↦ absurd (ground arith)
          | inr ((o, d, c), e) ↦ elim (Bool-cases (ltb (get_height chain) (get_height c))) [
            | inr same ↦ absurd (ground arith)
            | inl higher ↦
                let rest = take_blocks-height bs d db' c chain' (ground arith) in ground arith
          ]
        ]

    -- How a loop over one peer may end: it did not run out of fuel, and it is finished only at the
    -- height that the peer claims or where the peer has no more blocks.
    abbrev pub Ends : Bytes → ℕ → PeerSync F D → Type 0
    Ends url peer_height (finished db chain) =
        (peer_height ≤ get_height chain) ⊎ (network.blocks url (get_height chain) batch ≡ some [])
    Ends url peer_height (next_peer db chain) = Unit
    Ends url peer_height panicked = Unit
    Ends url peer_height out_of_fuel = ⊥

    -- The loop over one peer does not run out of rounds when it may run more of them than the peer
    -- is ahead of the node, and it counts as a complete synchronisation only when the node is at
    -- the height that the peer claimed, or the peer has no block for the next position.
    pub sync_peer-Ends :
        (fuel : ℕ) (url : Bytes) (peer_height : ℕ) (db : D) (chain : Blockchain F)
        → peer_height - get_height chain < fuel
        → Ends url peer_height (sync_peer network core store now_secs fuel url peer_height db chain)
    unfolding sync_peer
    sync_peer-Ends zero url peer_height db chain lt = absurd (omega arith)
    sync_peer-Ends (suc fuel) url peer_height db chain lt =
        elim (Bool-cases (leb peer_height (get_height chain))) [
          | inl reached ↦ rw (reached, sync_peer) (inl (ground arith))
          | inr behind ↦ elim (Option-cases (network.blocks url (get_height chain) batch)) [
            | inl failed ↦ rw (behind, sync_peer, failed) tt
            | inr ([], got) ↦ rw (behind, sync_peer, got) (inr got)
            | inr (b ∷ bs, got) ↦
                elim (Option-cases (take_blocks network core store now_secs db chain (b ∷ bs))) [
                  | inl panic ↦ rw (behind, sync_peer, got, panic) tt
                  | inr ((false, d, c), took) ↦ rw (behind, sync_peer, got, took) tt
                  | inr ((true, d, c), took) ↦
                      let risen = take_blocks-height (b ∷ bs) db d chain c took in
                      rw (behind, sync_peer, got, took)
                        (sync_peer-Ends fuel url peer_height d c (ground (arith, risen)))
                ]
          ]
        ]

  module _ {D : Type 0} (lib : UrlLib) (save_peer : D → Bytes → D) (node_url : Option Bytes) where
    -- The peers that a node learns from a peer keep their number within `max_peers`.
    pub discover-length :
        (ps known : List Bytes) (db : D)
        → length known ≤ max_peers
        → length (discover network lib save_peer node_url db known ps).1 ≤ max_peers
    unfolding discover
    discover-length [] known db h = h
    discover-length (p ∷ ps) known db h = elim (Bool-cases (leb max_peers (length known))) [
      | inl full ↦ ground arith
      | inr room ↦ elim (Option-cases (canonicalize_peer_url_trusted lib p)) [
        | inl unsafe ↦ ground (arith, discover-length ps known db h)
        | inr (canonical, e) ↦
            let longer = length-append known (canonical ∷ []) in
            ground (
              arith,
              discover-length ps known db h,
              discover-length ps (known ++ canonical ∷ []) (save_peer db canonical) (ground arith),
            )
      ]
    ]
