-- ===== src/Chain.antt =====
-- lootcoin-node/src/blockchain.rs, by its parts: the state, the ledger, the lottery, block
-- validation, block application, the sliding window, and fork choice.
pub mod State
pub mod Ledger
pub mod Lottery
pub mod Difficulty
pub mod Validate
pub mod Update
pub mod Window
pub mod Fork
pub mod Reorg
pub mod Reachable
pub mod Tests
