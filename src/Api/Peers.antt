-- ===== src/Api/Peers.antt =====
-- The peer handlers of lootcoin-node/src/api.rs. `node_url` is the environment variable NODE_URL and
-- `now` the clock.
use lootcoin.Base.{
  ℕ, ◌≡◌, ◌≢◌, refl, Bool, true, false, not, Bytes, bytes_eq, bytes_beq, bytes_beq_iff, List,
  Option, none, some, inl, inr, Bool-cases, Option-cases, has_key, if◌then◌else◌, arith,
}
use lootcoin.Gossip.{Gossip, add_peer, peer_urls, try_start_subscription}
use lootcoin.Gossip.Peers.{IsRoomy, add_peer-IsRoomy}
use lootcoin.Api.{AppState}
use lootcoin.Api.Urls.{UrlLib, canonicalize_peer_url}

unfoldable pub is_own : Option Bytes → Bytes → Bool
is_own none canonical = false
is_own (some node_url) canonical = bytes_beq node_url canonical

is_own-other :
    (node_url : Option Bytes) (canonical : Bytes)
    → is_own node_url canonical ≡ false
    → node_url ≢ some canonical
unfolding is_own
is_own-other none canonical h e = absurd (ground arith)
is_own-other (some own) canonical h e = absurd (ground (arith, bytes_beq_iff own canonical))

add_peer-full :
    (g : Gossip) (url : Bytes) (now : ℕ)
    → (add_peer g url now).1 ≡ false
    → (add_peer g url now).0.peers ≡ g.peers
unfolding add_peer
add_peer-full g url now h = ground arith

module _ {F D : Type 0} where
  unfoldable pub get_peers_handler : AppState F D → List Bytes
  get_peers_handler state = peer_urls state.gossip

  -- The first action of the task that `spawn_peer_subscription` spawns: whether it goes on.
  unfoldable pub spawn_peer_subscription : AppState F D → Bytes → AppState F D × Bool
  spawn_peer_subscription state peer_url =
      let (gossip, started) = try_start_subscription state.gossip peer_url in
      (record state { gossip = gossip }, started)

  -- The state, the status, and the peer that a subscription is spawned for.
  unfoldable pub add_peer_handler :
      UrlLib
      → (D → Bytes → D)
      → Option Bytes
      → ℕ
      → AppState F D
      → Bytes
      → AppState F D × ℕ × Option Bytes
  add_peer_handler lib save_peer node_url now state url = elim (canonicalize_peer_url lib url) [
    | none ↦ (state, 400, none)
    | some canonical ↦
        let (gossip, added) = add_peer state.gossip canonical now in
        if is_own node_url canonical
        then (state, 400, none)
        else if not added
        then (record state { gossip = gossip }, 429, none)
        else (
          record state { gossip = gossip; db = save_peer state.db canonical },
          200,
          some canonical,
        )
  ]

  -- What the handler has done, by the peer that it subscribes to.
  abbrev pub Answers :
      UrlLib
      → (D → Bytes → D)
      → Option Bytes
      → AppState F D
      → Bytes
      → AppState F D
      → Option Bytes
      → Type 0
  Answers lib save_peer node_url state url after none =
      (after.db ≡ state.db) × (after.gossip.peers ≡ state.gossip.peers)
  Answers lib save_peer node_url state url after (some canonical) =
      (canonicalize_peer_url lib url ≡ some canonical)
      × (node_url ≢ some canonical)
      × (has_key canonical after.gossip.peers ≡ true)
      × (after.db ≡ save_peer state.db canonical)

  -- From at most `max_peers` peers, `add_peer_handler` leaves at most `max_peers`. When it
  -- subscribes to a peer, that is the canonical form that the strict variant gives of the URL, it
  -- is among the peers, it is saved, and it is not the node's own; otherwise the peers and the
  -- database are as before.
  pub add_peer_handler_lem :
      (lib : UrlLib) (save_peer : D → Bytes → D) (node_url : Option Bytes) (now : ℕ)
      (state : AppState F D) (url : Bytes)
      → IsRoomy state.gossip
      → let r : AppState F D × ℕ × Option Bytes =
          add_peer_handler lib save_peer node_url now state url in
        IsRoomy r.0.gossip × Answers lib save_peer node_url state url r.0 r.2
  unfolding add_peer_handler
  add_peer_handler_lem lib save_peer node_url now state url roomy =
      elim (Option-cases (canonicalize_peer_url lib url)) [
        | inl bad ↦ rw (bad, add_peer_handler) (roomy, (refl, refl))
        | inr (canonical, e) ↦
            let kept = add_peer-IsRoomy state.gossip canonical now roomy in
            elim (Bool-cases (is_own node_url canonical)) [
              | inl own ↦ rw (e, add_peer_handler, own) (roomy, (refl, refl))
              | inr other ↦ elim (Bool-cases (add_peer state.gossip canonical now).1) [
                | inr full ↦
                    rw (e, add_peer_handler, other, full)
                      (kept.0, (refl, add_peer-full state.gossip canonical now full))
                | inl added ↦
                    rw (e, add_peer_handler, other, added)
                      (
                        kept.0,
                        (e, is_own-other node_url canonical other, ground (arith, kept.1), refl),
                      )
              ]
            ]
      ]
