-- ===== src/Api/Reachable.antt =====
-- The states that a running node goes through, by the handlers of lootcoin-node/src/api.rs and the
-- hourly task of lootcoin-node/src/main.rs. The index of a state is the number of event streams that
-- are open.
use lootcoin.Base.{
  ℕ, suc, ◌≤◌, ◌≡◌, refl, ◌∙◌, ap, sym, subst, ◌⊎◌, inl, inr, Bool, true, false, Bool-cases,
  Option-cases, Bytes, bytes_eq, bytes_beq, Option, some, length, add64, sub64, leb, if◌then◌else◌,
  not, arith,
}
use lootcoin.Core.{Transaction, Block, Core}
use lootcoin.Chain.State.{Blockchain, BlockOutcome, applied, reorged, orphaned, rejected}
use lootcoin.Chain.Ledger.{validate_transaction_state}
use lootcoin.Chain.Validate.{get_height}
use lootcoin.Chain.Reorg
use lootcoin.Chain.Reorg.Persist.{apply_block-IsBounded}
use lootcoin.Chain.Reorg.Pool.{IsBounded}
use lootcoin.Mempool.{Mempool, add_transaction}
use lootcoin.Mempool.Bounds.{IsPool, add_transaction-IsPool}
use lootcoin.Gossip.{Gossip, publish_block, publish_transaction, ping_peers, evict_stale}
use lootcoin.Gossip.Peers.{IsRoomy, ping_peers-IsRoomy, evict_stale-IsRoomy}
use lootcoin.Api.{
  AppState, Stores, Answer, BlockError, check_incoming, take_in, is_short, relay_tx_inner, settle,
  announce, is_valid_address, apply_incoming_block, share, max_sse_subscribers,
}
use lootcoin.Api.Handlers.{events_handler, drop_guard}
use lootcoin.Api.Urls.{UrlLib}
use lootcoin.Api.Peers.{add_peer_handler, add_peer_handler_lem}
use lootcoin.Api.Incoming.{settle_pool-IsPool}

-- What both branches have, the test has.
if-keeps : {A : Type 0} (P : A → Type 0) (b : Bool) (x y : A) → P x → P y → P (if b then x else y)
if-keeps P true x y px py = px
if-keeps P false x y px py = py

module _ {F D : Type 0} (core : Core F) (stores : Stores F D) where
  pub data Step : ℕ → AppState F D → ℕ → AppState F D → Type 0 where
    takes_block :
        (now_secs streams : ℕ) (block : Block) (answer : Answer BlockError Bool)
        (s s' : AppState F D)
        → apply_incoming_block core stores now_secs s block ≡ some (answer, s')
        → Step streams s streams s'
    takes_tx :
        (streams : ℕ) (tx : Transaction) (s : AppState F D)
        → Step streams s streams (relay_tx_inner core stores s tx).0
    opens :
        (streams : ℕ) (s : AppState F D)
        → (events_handler s).1 ≡ true
        → Step streams s (suc streams) (events_handler s).0
    turns_away :
        (streams : ℕ) (s : AppState F D)
        → (events_handler s).1 ≡ false
        → Step streams s streams (events_handler s).0
    takes_peer :
        (lib : UrlLib) (save_peer : D → Bytes → D) (node_url : Option Bytes) (now streams : ℕ)
        (url : Bytes) (s : AppState F D)
        → Step streams s streams (add_peer_handler lib save_peer node_url now s url).0
    pings :
        (responds : Bytes → Bool) (now streams : ℕ) (s : AppState F D)
        → Step streams s streams (record s { gossip = ping_peers s.gossip responds now })
    evicts :
        (now max_age streams : ℕ) (db : D) (s : AppState F D)
        → Step streams s streams
            (record s { gossip = (evict_stale s.gossip now max_age).0; db = db })
    closes : (streams : ℕ) (s : AppState F D) → Step (suc streams) s streams (drop_guard s)

  pub data Reachable (start : AppState F D) : ℕ → AppState F D → Type 0 where
    starts : Reachable start 0 start
    moves :
        (n n' : ℕ) (s s' : AppState F D)
        → Reachable start n s
        → Step n s n' s'
        → Reachable start n' s'

  -- The mempool is well-formed, the counter is the number of open streams, within its cap, and the
  -- peers and the orphan pool are within theirs.
  pub record IsServing (streams : ℕ) (s : AppState F D) : Type 0 where
    pub pool : IsPool s.mempool.entries
    pub counted : s.sse_subscribers ≡ streams
    pub capped : streams ≤ max_sse_subscribers
    pub roomy : IsRoomy s.gossip
    pub orphans : IsBounded s.chain.orphan_pool

  incoming-cases :
      (now_secs : ℕ) (s : AppState F D) (block : Block) (answer : Answer BlockError Bool)
      (s' : AppState F D)
      → apply_incoming_block core stores now_secs s block ≡ some (answer, s')
      → (s' ≡ s)
        ⊎ ((o : BlockOutcome) × (db : D) × (chain : Blockchain F) × (Reorg.apply_block
                stores.of_chain core now_secs s.db s.chain block
              ≡ some (o, db, chain))
            × (s' ≡ settle core stores s block o db chain))
  unfolding apply_incoming_block
  incoming-cases now_secs s block answer s' h = elim (Option-cases (check_incoming core block)) [
    | inr (e, bad) ↦ inl (ground arith)
    | inl fine ↦
        elim (Option-cases (Reorg.apply_block stores.of_chain core now_secs s.db s.chain block)) [
          | inl panic ↦ absurd (ground arith)
          | inr ((o, db, chain), e) ↦ inr (o, db, chain, e, ground arith)
        ]
  ]

  same_peers : (g g' : Gossip) → g'.peers ≡ g.peers → IsRoomy g → IsRoomy g'
  unfolding IsRoomy
  same_peers g g' same h = omega (arith, h, ap length same)

  publish_block-peers : (g : Gossip) (b : Block) → (publish_block g b).0.peers ≡ g.peers
  unfolding publish_block
  publish_block-peers g b = ground arith

  publish_transaction-peers :
      (g : Gossip) (tx : Transaction) → (publish_transaction core.txid g tx).0.peers ≡ g.peers
  unfolding publish_transaction
  publish_transaction-peers g tx = ground arith

  announce-IsRoomy :
      (g : Gossip) (b : Block) (o : BlockOutcome) → IsRoomy g → IsRoomy (announce core stores g b o)
  unfolding announce
  announce-IsRoomy g b applied h = same_peers g _ (publish_block-peers g b) h
  announce-IsRoomy g b (reorged olds news) h = same_peers g _ (publish_block-peers g b) h
  announce-IsRoomy g b orphaned h = h
  announce-IsRoomy g b rejected h = h

  settle-IsServing :
      (streams : ℕ) (s : AppState F D) (block : Block) (o : BlockOutcome) (db : D)
      (chain : Blockchain F)
      → IsServing streams s
      → IsBounded chain.orphan_pool
      → IsServing streams (settle core stores s block o db chain)
  unfolding settle share
  settle-IsServing streams s block o db chain w bounded = record {
    roomy = announce-IsRoomy s.gossip block o w.roomy;
    orphans = bounded;
    pool = settle_pool-IsPool core stores chain block o (share db s.mempool) w.pool;
    counted = w.counted;
    capped = w.capped;
  }

  take_in-IsServing :
      (streams : ℕ) (s : AppState F D) (tx : Transaction)
      → IsServing streams s
      → IsServing streams (take_in core stores s tx).0
  unfolding take_in
  take_in-IsServing streams s tx w =
      let added = add_transaction stores.of_mempool s.mempool tx (get_height s.chain) in
      if-keeps (λ (r : AppState F D × Bool). IsServing streams r.0) added.1 _ _
        (record {
          pool = add_transaction-IsPool stores.of_mempool s.mempool tx (get_height s.chain) w.pool;
          counted = w.counted;
          capped = w.capped;
          roomy = same_peers s.gossip _ (publish_transaction-peers s.gossip tx) w.roomy;
          orphans = w.orphans;
        })
        w

  relayed-IsServing :
      (streams : ℕ) (s : AppState F D) (tx : Transaction)
      → IsServing streams s
      → IsServing streams (relay_tx_inner core stores s tx).0
  unfolding relay_tx_inner
  relayed-IsServing streams s tx w =
      let P : (AppState F D × Bool) → Type 0 = λ r. IsServing streams r.0 in
      if-keeps P (bytes_beq tx.sender tx.receiver) _ _ w (
        if-keeps P (not (core.verify tx)) _ _ w (
          if-keeps P (not (is_valid_address core tx.receiver)) _ _ w (
            if-keeps P (not (validate_transaction_state core s.chain.books tx)) _ _ w
              (if-keeps P (is_short core stores s tx) _ _ w (take_in-IsServing streams s tx w)))))

  recounted-IsServing :
      (n n' c : ℕ) (s : AppState F D)
      → IsServing n s
      → c ≡ n'
      → n' ≤ max_sse_subscribers
      → IsServing n' (record s { sse_subscribers = c })
  recounted-IsServing n n' c s w e le = record {
    pool = w.pool;
    counted = e;
    capped = le;
    roomy = w.roomy;
    orphans = w.orphans;
  }

  events_handler-record :
      (s : AppState F D)
      → (events_handler s).0 ≡ record s { sse_subscribers = (events_handler s).0.sse_subscribers }
  unfolding events_handler
  events_handler-record s = elim (Bool-cases (leb max_sse_subscribers s.sse_subscribers)) [
    | inl full ↦ rw full refl
    | inr room ↦ rw room refl
  ]

  add_peer_handler-rest :
      (lib : UrlLib) (save_peer : D → Bytes → D) (node_url : Option Bytes) (now : ℕ) (url : Bytes)
      (s : AppState F D)
      → let after : AppState F D = (add_peer_handler lib save_peer node_url now s url).0 in
        (after.mempool ≡ s.mempool)
        × (after.chain ≡ s.chain)
        × (after.sse_subscribers ≡ s.sse_subscribers)
  unfolding add_peer_handler
  add_peer_handler-rest lib save_peer node_url now url s =
      (ground arith, ground arith, ground arith)

  Step-IsServing :
      (n n' : ℕ) (s s' : AppState F D) → Step n s n' s' → IsServing n s → IsServing n' s'
  unfolding events_handler drop_guard add64 sub64
  Step-IsServing n n' s s' (takes_block now_secs streams block answer a b e) w =
      elim (incoming-cases now_secs a block answer b e) [
        | inl same ↦ subst (IsServing n) (sym same) w
        | inr (o, db, chain, took, settled) ↦ subst (IsServing n) (sym settled) (
            settle-IsServing n a block o db chain w (
              apply_block-IsBounded stores.of_chain core now_secs a.db a.chain block o db chain
                w.orphans took))
      ]
  Step-IsServing n n' s s' (takes_tx streams tx a) w = relayed-IsServing n a tx w
  Step-IsServing n n' s s' (opens streams a e) w =
      subst (IsServing n') (sym (events_handler-record a)) (
        recounted-IsServing n n' (events_handler a).0.sse_subscribers a w
          (ground (arith, w.counted, w.capped)) (ground (arith, w.counted, w.capped)))
  Step-IsServing n n' s s' (turns_away streams a e) w =
      subst (IsServing n) (sym (events_handler-record a)) (
        recounted-IsServing n n (events_handler a).0.sse_subscribers a w
          (ground (arith, w.counted, w.capped)) w.capped)
  Step-IsServing n n' s s' (closes streams a) w =
      recounted-IsServing n n' (sub64 a.sse_subscribers 1) a w (ground (arith, w.counted, w.capped))
        (omega (arith, w.capped))
  Step-IsServing n n' s s' (takes_peer lib save_peer node_url now streams url a) w =
      let (pool_same, chain_same, count_same) =
        add_peer_handler-rest lib save_peer node_url now url a in
      record {
        pool = subst (λ (m : Mempool D). IsPool m.entries) (sym pool_same) w.pool;
        counted = count_same ∙ w.counted;
        capped = w.capped;
        roomy = (add_peer_handler_lem lib save_peer node_url now a url w.roomy).0;
        orphans = subst (λ (c : Blockchain F). IsBounded c.orphan_pool) (sym chain_same) w.orphans;
      }
  Step-IsServing n n' s s' (pings responds now streams a) w = record {
    pool = w.pool;
    counted = w.counted;
    capped = w.capped;
    roomy = ping_peers-IsRoomy a.gossip responds now w.roomy;
    orphans = w.orphans;
  }
  Step-IsServing n n' s s' (evicts now max_age streams db a) w = record {
    pool = w.pool;
    counted = w.counted;
    capped = w.capped;
    roomy = evict_stale-IsRoomy a.gossip now max_age w.roomy;
    orphans = w.orphans;
  }

  -- From a state with no event stream that meets it, a node reaches only states that meet the
  -- invariant: the mempool is well-formed, the subscriber counter is the number of open streams and
  -- at most `max_sse_subscribers`, and the peers and the orphan pool are within their caps; by
  -- taking blocks, transactions and peers, by opening, turning away and closing streams, and by
  -- pinging peers and evicting those that are silent.
  pub Reachable-IsServing :
      (start : AppState F D) (streams : ℕ) (s : AppState F D)
      → IsServing 0 start
      → Reachable start streams s
      → IsServing streams s
  Reachable-IsServing start streams s w starts = w
  Reachable-IsServing start streams s w (moves n n' a s' r step) =
      Step-IsServing n streams a s step (Reachable-IsServing start n a w r)
