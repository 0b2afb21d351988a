-- ===== src/Gossip/Tests.antt =====
-- Concrete peers and caches, and the theorems on gossip applied to them.
use lootcoin.Base.{
  ◌≡◌, refl, not, Bytes, bytes_eq, List, [], ◌∷◌, contains, remove_from, add_to, insert, arith,
}
use lootcoin.Core.{Block}
use lootcoin.Gossip.{SeenCache, Gossip, new_cache, make_room, insert_seen, new, add_all}
use lootcoin.Gossip.Recent.{Remembers, recent, arrive, insert_seen-Remembers, block_hashes}
use lootcoin.Gossip.Peers.{IsRoomy}

-- A full cache of two keys.
abbrev full : SeenCache
full = record { set = (1 ∷ []) ∷ (2 ∷ []) ∷ []; order = (1 ∷ []) ∷ (2 ∷ []) ∷ []; capacity = 2 }

abbrev arrivals : List Bytes
arrivals = (0 ∷ []) ∷ (1 ∷ []) ∷ (2 ∷ []) ∷ []

full_history : Remembers full arrivals
unfolding recent contains
full_history = record {
  room = omega arith;
  same = refl;
  distinct = (refl, (refl, tt));
  window = refl;
}

insert_seen-Remembers_example :
    Remembers (insert_seen full (3 ∷ [])).0 (arrive 2 arrivals (3 ∷ []))
    × ((insert_seen full (3 ∷ [])).1 ≡ not (contains (3 ∷ []) (recent 2 arrivals)))
    × ((insert_seen full (3 ∷ [])).0.capacity ≡ 2)
insert_seen-Remembers_example = insert_seen-Remembers full arrivals (3 ∷ []) full_history

evicts_oldest : (insert_seen full (3 ∷ [])).0.order ≡ (2 ∷ []) ∷ (3 ∷ []) ∷ []
unfolding insert_seen make_room contains remove_from add_to
evicts_oldest = refl

abbrev block : Block
block = record {
  index = 1;
  previous_hash = [];
  timestamp = 5;
  nonce = 0;
  tx_root = [];
  transactions = [];
  hash = 9 ∷ [];
}

abbrev node : Gossip
node = new ((1 ∷ []) ∷ []) 10

empty_history : Remembers node.seen_blocks (block_hashes node.sent)
unfolding new new_cache recent
empty_history = record { room = omega arith; same = refl; distinct = tt; window = refl }

room_for_peers : IsRoomy node
unfolding IsRoomy new add_all insert
room_for_peers = omega arith
