-- ===== src/Gossip.antt =====
-- lootcoin-node/src/gossip.rs: the deduplication cache, the peers, the subscriptions, and what is
-- sent to the event stream. The clock and the answers of peers are arguments; the locks are taken
-- for one operation at a time, so operations run one after another.
pub mod Recent
pub mod Peers
mod Tests
use lootcoin.Base.{
  ℕ, ◌-◌, Bool, true, false, ◌&&◌, not, Bytes, bytes_eq, List, [], ◌∷◌, ◌++◌, map, Option, none,
  some, Map, contains, add_to, remove_from, has_key, insert, keys, length, keep, leb, ltb,
  if◌then◌else◌,
}
use lootcoin.Core.{Transaction, Block}

abbrev pub max_seen : ℕ
max_seen = 10000

abbrev pub max_peers : ℕ
max_peers = 50

pub record SeenCache : Type 0 where
  pub set : List Bytes
  pub order : List Bytes
  pub capacity : ℕ

unfoldable pub new_cache : ℕ → SeenCache
new_cache capacity = record { set = []; order = []; capacity = capacity }

-- The eviction of the oldest key of a full cache.
unfoldable pub make_room : SeenCache → SeenCache
make_room c =
    if leb c.capacity (length c.set)
    then elim c.order [
      | [] ↦ c
      | oldest ∷ order ↦ record {
        set = remove_from oldest c.set;
        order = order;
        capacity = c.capacity;
      }
    ]
    else c

-- `SeenCache::insert`: the cache, and whether the key was new.
unfoldable pub insert_seen : SeenCache → Bytes → SeenCache × Bool
insert_seen c key =
    if contains key c.set
    then (c, false)
    else (let room = make_room c in
        (
          record {
            set = add_to key room.set;
            order = room.order ++ key ∷ [];
            capacity = room.capacity;
          },
          true,
        ))

pub data NodeEvent : Type 0 where
  block : Block → NodeEvent
  transaction : Transaction → NodeEvent

-- `sent` is what has been given to the broadcast channel, oldest first.
pub record Gossip : Type 0 where
  pub peers : Map Bytes ℕ
  pub seen_blocks : SeenCache
  pub seen_txs : SeenCache
  pub sent : List NodeEvent
  pub active_subscriptions : List Bytes

-- The peers given at the start, each heard from `now`.
unfoldable pub add_all : ℕ → List Bytes → Map Bytes ℕ → Map Bytes ℕ
add_all now [] m = m
add_all now (p ∷ ps) m = add_all now ps (insert p now m)

unfoldable pub new : List Bytes → ℕ → Gossip
new initial_peers now = record {
  peers = add_all now initial_peers [];
  seen_blocks = new_cache max_seen;
  seen_txs = new_cache max_seen;
  sent = [];
  active_subscriptions = [];
}

unfoldable pub add_peer : Gossip → Bytes → ℕ → Gossip × Bool
add_peer g url now =
    if leb max_peers (length g.peers) && not (has_key url g.peers) then (g, false) else (
      record g { peers = if has_key url g.peers then g.peers else insert url now g.peers },
      true,
    )

unfoldable pub try_start_subscription : Gossip → Bytes → Gossip × Bool
try_start_subscription g url = (
  record g { active_subscriptions = add_to url g.active_subscriptions },
  not (contains url g.active_subscriptions),
)

unfoldable pub end_subscription : Gossip → Bytes → Gossip
end_subscription g url = record g { active_subscriptions = remove_from url g.active_subscriptions }

unfoldable pub peer_urls : Gossip → List Bytes
peer_urls g = keys g.peers

-- The loop of `ping_peers`; `responds` is whether a peer answers with success, `now` the time of the
-- answers.
unfoldable pub refresh : (Bytes → Bool) → ℕ → List Bytes → Map Bytes ℕ → Map Bytes ℕ
refresh responds now [] peers = peers
refresh responds now (url ∷ urls) peers =
    refresh responds now urls
      (if responds url && has_key url peers then insert url now peers else peers)

unfoldable pub ping_peers : Gossip → (Bytes → Bool) → ℕ → Gossip
ping_peers g responds now = record g { peers = refresh responds now (peer_urls g) g.peers }

-- `last_seen.elapsed() > max_age`
abbrev pub is_stale : ℕ → ℕ → Bytes × ℕ → Bool
is_stale now max_age e = ltb max_age (now - e.1)

unfoldable pub evict_stale : Gossip → ℕ → ℕ → Gossip × List Bytes
evict_stale g now max_age = (
  record g { peers = keep (λ e. not (is_stale now max_age e)) g.peers },
  keys (keep (is_stale now max_age) g.peers),
)

unfoldable pub publish_block : Gossip → Block → Gossip × Bool
publish_block g b =
    let (seen, fresh) = insert_seen g.seen_blocks b.hash in
    if fresh
    then (record g { seen_blocks = seen; sent = g.sent ++ NodeEvent.block b ∷ [] }, true)
    else (record g { seen_blocks = seen }, false)

unfoldable pub publish_transaction : (Transaction → Bytes) → Gossip → Transaction → Gossip × Bool
publish_transaction txid g tx =
    let (seen, fresh) = insert_seen g.seen_txs (txid tx) in
    if fresh
    then (record g { seen_txs = seen; sent = g.sent ++ NodeEvent.transaction tx ∷ [] }, true)
    else (record g { seen_txs = seen }, false)
