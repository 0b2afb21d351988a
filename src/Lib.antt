-- ===== src/Lib.antt =====
-- lootcoin: a proof-of-work chain whose blocks carry transfers, whose fees feed a pot, and whose
-- miners draw prizes from that pot. This library models the node (lootcoin-node), which is the chain
-- and its ledger, the lottery, fork choice and reorganisation, the mempool, gossip, the database, the
-- HTTP handlers and the start of a node, the core of the miner (lootcoin-miner), the faucet
-- (lootcoin-faucet) and the wallet of the web page (lootcoin-wallet).
--
-- How the parts interact. A block comes in from a peer, a miner or the database. The chain applies it
-- (`apply_block`): it checks it against the tip, settles the tickets that mature, applies the
-- transactions, splits the fees, and issues a ticket; or it keeps it in the orphan pool and replays
-- the heaviest fork from genesis. The mempool then drops what the block included, and takes back what
-- a reorganisation displaced. Gossip passes blocks and transactions on once each. The miner takes the
-- pending transactions of a node, builds a candidate on the node's tip, and submits what it mines.
--
-- Which file models which part:
--   Base           numbers, machine words, lists and maps; no file of the program.
--   Core           the structs of lootcoin-core, and its functions as the fields of a record `Core`;
--                  `LootTicket` of lootcoin-node/src/loot_ticket.rs.
--   Metrics        lootcoin-node/src/metrics.rs: the counters. Gauges and the text format are not.
--   Chain.State    `Blockchain`, `CheckpointState`, `BlockOutcome` of lootcoin-node/src/blockchain.rs,
--                  and from that file, too:
--   Chain.Ledger      `get_balance`, `total_supply`, `validate_transaction_state`, `apply_transaction`.
--   Chain.Lottery     `compute_ticket_reward`, `block_hash_at`, the settlement in `update_state`.
--   Chain.Difficulty  `block_work`, steps 5 and 6 of `update_state`.
--   Chain.Validate    the checks of `update_state`.
--   Chain.Update      `update_state` after its checks, step by step.
--   Chain.Window      `new`, checkpoints, `prune_to_window`, the payouts that wait to be stored.
--   Chain.Fork        `find_longest_fork` and what it calls.
--   Chain.Reorg       `reorg_to`, `apply_in_memory`, `apply_block`.
--   Chain.Reachable   the states that a node's chain goes through, as a step relation.
--   Mempool        lootcoin-node/src/mempool.rs.
--   Gossip         lootcoin-node/src/gossip.rs: the deduplication cache, the peers, the subscriptions.
--   Miner          lootcoin-miner/src/main.rs: the choice of transactions, the candidate, the nonce.
--   Db             lootcoin-node/src/db.rs: the keys of the transaction index, and from that file, too:
--   Db.Redb           the operations of redb that the file uses, as a record with laws.
--   Db.Tables         the tables, and the operations on one of them.
--   Db.Index          the transaction index, and the operations on several tables.
--   Db.Stores         the database as the chain and the mempool use it.
--   Api            lootcoin-node/src/api.rs: `AppState`, `apply_incoming_block`, `relay_tx_inner`, and
--                  from that file, too:
--   Api.Handlers      the handlers of posted transactions and blocks and of event streams.
--   Api.Urls          `canonicalize_peer_url` and its kin.
--   Api.Peers         the handlers of peers.
--   Api.Views         the handlers that only read.
--   Api.Reachable     the states that a running node goes through, as a step relation.
--   Faucet         lootcoin-faucet/src/main.rs: `handle_dispense`, the cooldowns, the state that
--                  `main` builds.
--   Wallet         lootcoin-wallet/src/lib.rs and derivation.rs: the wallet of the web page.
--   Node.Sync      lootcoin-node/src/main.rs: `sync_from_peers`.
--   Node.Snapshot     `fetch_peer_snapshot`.
--   Node.Startup      the chain, the peers and the mempool that `main` builds.
-- The modules below these hold the proofs, and modules named Tests concrete runs. The names of the
-- program are kept: `Blockchain::update_state` is `Chain.Update.update_state`, which takes the state
-- and gives the new one; `&mut self` is an argument and a part of the result.
--
-- Numbers. A `u64` or `u128` is a natural number; additions that wrap, saturate or check are written
-- so (Base.Words), as a release build computes them. Heights and positions are numbers without a
-- bound: a chain of 2^64 blocks is out of reach, and where a theorem adds to a height in `u64` it has
-- the bound as a hypothesis. A balance is credited with wrap-around. `f64` is an abstract type, of
-- whose operations nothing is assumed.
--
-- Loops are recursion on lists. The walk of `trace_fork_chain` through the orphan pool is given as
-- many rounds as the pool has blocks, which is enough unless the links of the pool run in a circle of
-- hashes, where the program itself would not return. `mine` is given a number of rounds, and answers
-- `exhausted` when they are over: one round for each nonce that is tried is enough. `sync_peer` is
-- given one round more than the peer is ahead, and each round but the last raises the height.
--
-- Failure. `update_state` answers `refused`, `updated`, or `aborted` where the process aborts; the
-- functions around it answer `none` where the program panics or aborts. The errors of database
-- operations are only logged by the program, so what an operation leaves is all that counts.
--
-- Parameters. The functions of lootcoin-core, of the hash and of the serializer are fields of `Core`.
-- The clock is an argument, read once for a call. The chain and the mempool see the database as an
-- interface: `ReadBlocks`, and the records `Store` of Chain.Reorg and of Mempool; Db.Stores fills it.
-- redb and the encoding of values are the record `Redb`, of which `IsLawful` says what the library
-- documents; Db.Redb.Memory is an instance. The answers of peers are the record `Network`, and the
-- parser of URLs is `UrlLib`. The key pairs, the phrases and the hash that a wallet uses are
-- `WalletLib`, of which `IsFaithful` says what they document. A handler of Api runs as one step, as the locks that it holds make it;
-- the mempool's handle to the database is the node's, which `share` and `shared` write out.
-- The maps of the program are association lists, which fixes an order where `HashMap` iterates in any;
-- a theorem holds for every such list, so for every order.
--
-- Not modelled: the opening of the database and errors of redb; the router, the rate limiter and the
-- event streams as they are read and written (api.rs); the announcement to peers, the hourly task,
-- signals and configuration (main.rs); the text format of the metrics, logging, the requests and
-- threads of the miner, the status page and the configuration of the faucet, the command line of
-- the wallet, and the web pages.
pub mod Base
pub mod Core
pub mod Metrics
pub mod Chain
pub mod Mempool
pub mod Gossip
pub mod Miner
pub mod Faucet
pub mod Wallet
pub mod Db
pub mod Api
pub mod Node
