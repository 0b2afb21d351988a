-- ===== src/Gossip/Peers.antt =====
-- The peers of a node: how many there may be, and which of them an eviction takes out
-- (`Gossip::add_peer`, `ping_peers`, `evict_stale`).
use lootcoin.Base.{
  ℕ, ◌+◌, ◌-◌, ◌≤◌, ◌≡◌, refl, Bool, true, not, inl, inr, Bool-cases, Bytes, bytes_eq, List, [],
  ◌∷◌, Map, has_key, insert, keys, keep, length, length-keep-le, ◌∙◌, ◌&&◌, All, length-insert_new,
  length-append, leb, arith,
}
use lootcoin.Gossip.{
  Gossip, max_peers, add_peer, refresh, ping_peers, peer_urls, evict_stale, is_stale,
}

-- No more peers than `MAX_PEERS`.
unfoldable pub IsRoomy : Gossip → Type 0
IsRoomy g = length g.peers ≤ max_peers

length-insert_known :
    (k : Bytes) (now : ℕ) (m : Map Bytes ℕ)
    → has_key k m ≡ true
    → length (insert k now m) ≡ length m
unfolding has_key insert
length-insert_known k now [] h = absurd (cc)
length-insert_known k now ((j, t) ∷ m) h = ground (arith, length-insert_known k now m)

has_key-insert : (k : Bytes) (now : ℕ) (m : Map Bytes ℕ) → has_key k (insert k now m) ≡ true
unfolding has_key insert
has_key-insert k now [] = ground (arith, bytes_eq.beq_iff k k)
has_key-insert k now ((j, t) ∷ m) =
    ground (arith, bytes_eq.beq_iff k k, bytes_eq.beq_iff k j, has_key-insert k now m)

-- Adding a peer to at most `max_peers` peers leaves at most `max_peers`, and the answer is `true`
-- exactly when the peer is among them afterwards.
pub add_peer-IsRoomy :
    (g : Gossip) (url : Bytes) (now : ℕ)
    → IsRoomy g
    → let r : Gossip × Bool = add_peer g url now in IsRoomy r.0 × (r.1 ≡ has_key url r.0.peers)
unfolding IsRoomy add_peer
add_peer-IsRoomy g url now h = elim (Bool-cases (has_key url g.peers)) [
  | inl known ↦ (ground arith, ground arith)
  | inr new ↦ elim (Bool-cases (leb max_peers (length g.peers))) [
    | inl full ↦ (ground arith, ground arith)
    | inr room ↦ (
      ground
          (arith, length-insert_new url now g.peers new, length-append g.peers ((url, now) ∷ [])),
      ground (arith, has_key-insert url now g.peers),
    )
  ]
]

length-keep_split :
    (p : Bytes × ℕ → Bool) (m : Map Bytes ℕ)
    → length (keep (λ e. not (p e)) m) + length (keys (keep p m)) ≡ length m
length-keep_split p [] = refl
length-keep_split p (e ∷ m) = ground (arith, length-keep_split p m)

-- `evict_stale` reports as many peers as it takes out, every peer that stays was heard from within
-- `max_age`, and a second eviction at the same time reports none.
pub evict_stale_lem :
    (g : Gossip) (now max_age : ℕ)
    → let r : Gossip × List Bytes = evict_stale g now max_age in
      (length r.0.peers + length r.1 ≡ length g.peers)
      × All (λ e. now - e.1 ≤ max_age) r.0.peers
      × ((evict_stale r.0 now max_age).1 ≡ [])
unfolding evict_stale
evict_stale_lem g now max_age =
    (length-keep_split (is_stale now max_age) g.peers, young g.peers, nothing_left g.peers)
  where
    young :
        (m : Map Bytes ℕ)
        → All (λ e. now - e.1 ≤ max_age) (keep (λ e. not (is_stale now max_age e)) m)
    young [] = tt
    young (e ∷ m) = ground (arith, young m)

    nothing_left :
        (m : Map Bytes ℕ)
        → keys (keep (is_stale now max_age) (keep (λ e. not (is_stale now max_age e)) m)) ≡ []
    nothing_left [] = refl
    nothing_left (e ∷ m) = ground (arith, nothing_left m)

refresh-length :
    (responds : Bytes → Bool) (now : ℕ) (urls : List Bytes) (m : Map Bytes ℕ)
    → length (refresh responds now urls m) ≡ length m
unfolding refresh
refresh-length responds now [] m = refl
refresh-length responds now (u ∷ urls) m = elim (Bool-cases (responds u && has_key u m)) [
  | inl known ↦
      rw (known, refresh)
        (refresh-length responds now urls (insert u now m)
          ∙ length-insert_known u now m (ground arith))
  | inr other ↦ rw (other, refresh) (refresh-length responds now urls m)
]

pub ping_peers-IsRoomy :
    (g : Gossip) (responds : Bytes → Bool) (now : ℕ)
    → IsRoomy g
    → IsRoomy (ping_peers g responds now)
unfolding IsRoomy ping_peers
ping_peers-IsRoomy g responds now h =
    omega (arith, h, refresh-length responds now (peer_urls g) g.peers)

pub evict_stale-IsRoomy :
    (g : Gossip) (now max_age : ℕ) → IsRoomy g → IsRoomy (evict_stale g now max_age).0
unfolding IsRoomy evict_stale
evict_stale-IsRoomy g now max_age h =
    omega (arith, h, length-keep-le (λ e. not (is_stale now max_age e)) g.peers)
