-- ===== src/Db.antt =====
-- lootcoin-node/src/db.rs: the keys of the transaction index. The modules below have the tables and
-- their operations.
pub mod Keys
pub mod Redb
pub mod Tables
pub mod Index
pub mod Stores
mod Tests
use lootcoin.Base.{ℕ, zero, suc, ◌+◌, ◌*◌, ◌/◌, ◌%◌, ◌^◌, Bytes, [], ◌∷◌, ◌++◌, take, drop, length}

-- `to_be_bytes` of a number of `n` bytes
unfoldable pub be_bytes : ℕ → ℕ → Bytes
be_bytes zero x = []
be_bytes (suc n) x = be_bytes n (x / 256) ++ x % 256 ∷ []

-- `from_be_bytes`, at the number that the bytes before give
unfoldable pub from_be_bytes : ℕ → Bytes → ℕ
from_be_bytes acc [] = acc
from_be_bytes acc (b ∷ bs) = from_be_bytes (256 * acc + b) bs

-- `tx_pos as u32`
unfoldable pub make_tx_key : Bytes → ℕ → ℕ → Bytes
make_tx_key address block_index tx_pos =
    address ++ 0 ∷ (be_bytes 8 block_index ++ be_bytes 4 (tx_pos % 2 ^ 32))

-- The block index that `get_transactions_for_address` reads from a key of the address.
unfoldable pub block_index_of : Bytes → Bytes → ℕ
block_index_of address key = from_be_bytes 0 (take 8 (drop (length address + 1) key))
