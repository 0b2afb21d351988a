-- ===== src/Miner/Candidate.antt =====
-- What the miner puts into a block, and what the node asks of it (`count_ok`, `coinbase_ok`,
-- `tx_root_ok` of lootcoin-node/src/blockchain.rs).
use native.Mathlib.Nat.{div-le_self}
use lootcoin.Base.{
  ℕ, zero, suc, ◌+◌, ◌≤◌, ◌<◌, ◌≡◌, refl, ap, subst, inl, inr, Bool, true, false, not, Bool-cases,
  Option-cases, Bytes, bytes_beq_iff, List, [], ◌∷◌, map, some, is_some, length, take, keep, any,
  All, leb, length-keep-le, length-take, arith,
}
use lootcoin.Core.{Transaction, Block, Core, is_coinbase}
use lootcoin.Chain.Validate.{count_ok, coinbase_ok, tx_root_ok}
use lootcoin.Miner.{
  HeadResp, MempoolEntry, is_eligible, sort_fee_into, sort_by_fee, select_txs, reward, candidate,
}

-- Every transaction has a sender.
abbrev pub FromUsers : List Transaction → Type 0
FromUsers = All (λ tx. is_coinbase tx ≡ false)

abbrev pub Pending : List MempoolEntry → Type 0
Pending = All (λ e. is_coinbase e.transaction ≡ false)

length-sort_fee_into :
    (tx : Transaction) (txs : List Transaction) → length (sort_fee_into tx txs) ≡ suc (length txs)
unfolding sort_fee_into
length-sort_fee_into tx [] = refl
length-sort_fee_into tx (u ∷ us) = ground (arith, length-sort_fee_into tx us)

length-sort_by_fee : (txs : List Transaction) → length (sort_by_fee txs) ≡ length txs
unfolding sort_by_fee
length-sort_by_fee [] = refl
length-sort_by_fee (tx ∷ txs) =
    omega (arith, length-sort_fee_into tx (sort_by_fee txs), length-sort_by_fee txs)

FromUsers-sort_fee_into :
    (tx : Transaction) (txs : List Transaction)
    → is_coinbase tx ≡ false
    → FromUsers txs
    → FromUsers (sort_fee_into tx txs)
unfolding sort_fee_into
FromUsers-sort_fee_into tx [] h hs = (h, tt)
FromUsers-sort_fee_into tx (u ∷ us) h hs = elim (Bool-cases (leb u.fee tx.fee)) [
  | inl e ↦ rw e (h, hs)
  | inr e ↦ rw e (hs.0, FromUsers-sort_fee_into tx us h hs.1)
]

FromUsers-sort_by_fee : (txs : List Transaction) → FromUsers txs → FromUsers (sort_by_fee txs)
unfolding sort_by_fee
FromUsers-sort_by_fee [] h = tt
FromUsers-sort_by_fee (tx ∷ txs) h =
    FromUsers-sort_fee_into tx (sort_by_fee txs) h.0 (FromUsers-sort_by_fee txs h.1)

FromUsers-map :
    (entries : List MempoolEntry) → Pending entries → FromUsers (map (λ e. e.transaction) entries)
FromUsers-map [] h = tt
FromUsers-map (e ∷ es) h = (h.0, FromUsers-map es h.1)

Pending-keep :
    (p : MempoolEntry → Bool) (entries : List MempoolEntry)
    → Pending entries
    → Pending (keep p entries)
Pending-keep p [] h = tt
Pending-keep p (e ∷ es) h = elim (Bool-cases (p e)) [
  | inl y ↦ rw y (h.0, Pending-keep p es h.1)
  | inr n ↦ rw n (Pending-keep p es h.1)
]

FromUsers-take : (n : ℕ) (txs : List Transaction) → FromUsers txs → FromUsers (take n txs)
FromUsers-take zero txs h = tt
FromUsers-take (suc n) [] h = tt
FromUsers-take (suc n) (tx ∷ txs) h = (h.0, FromUsers-take n txs h.1)

length-map :
    (entries : List MempoolEntry) → length (map (λ e. e.transaction) entries) ≡ length entries
length-map [] = refl
length-map (e ∷ es) = ap suc (length-map es)

no_coinbase : (txs : List Transaction) → FromUsers txs → any is_coinbase txs ≡ false
no_coinbase [] h = refl
no_coinbase (tx ∷ txs) h = rw (h.0, no_coinbase txs h.1) refl

length-select_txs-le :
    (max_block_txs guarantee_after height : ℕ) (entries : List MempoolEntry)
    → length (select_txs max_block_txs guarantee_after height entries) ≤ max_block_txs
unfolding select_txs
length-select_txs-le max_block_txs guarantee_after height entries = ground (
  arith,
  length-sort_by_fee (map (λ e. e.transaction) entries),
  length-map entries,
  length-take max_block_txs
      (sort_by_fee (map (λ e. e.transaction) (keep (is_eligible guarantee_after height) entries))),
)

FromUsers-select_txs :
    (max_block_txs guarantee_after height : ℕ) (entries : List MempoolEntry)
    → Pending entries
    → FromUsers (select_txs max_block_txs guarantee_after height entries)
unfolding select_txs
FromUsers-select_txs max_block_txs guarantee_after height entries h =
    elim (Bool-cases (leb (length entries) max_block_txs)) [
      | inl e ↦
          rw e (FromUsers-sort_by_fee (map (λ e. e.transaction) entries) (FromUsers-map entries h))
      | inr e ↦ rw e (
          FromUsers-take max_block_txs
            (sort_by_fee
              (map (λ e. e.transaction) (keep (is_eligible guarantee_after height) entries)))
            (FromUsers-sort_by_fee
              (map (λ e. e.transaction) (keep (is_eligible guarantee_after height) entries))
              (FromUsers-map (keep (is_eligible guarantee_after height) entries)
                (Pending-keep (is_eligible guarantee_after height) entries h))))
    ]

module _ {F : Type 0} (core : Core F) where
  -- The checks of a block's transactions that do not depend on the chain's state.
  abbrev pub Passable : Block → Type 0
  Passable block =
      (count_ok core block ≡ true)
      × (coinbase_ok core block ≡ true)
      × (tx_root_ok core block ≡ true)

  abbrev built : HeadResp F → Bytes → List Transaction → ℕ → ℕ → Bytes → Block
  built head miner_address txs now_ts nonce tx_root = record {
    index = head.height;
    previous_hash = head.latest_hash;
    timestamp = now_ts;
    nonce = nonce;
    tx_root = tx_root;
    transactions = reward miner_address ∷ txs;
    hash = [];
  }

  Passable-built :
      (head : HeadResp F) (miner_address : Bytes) (txs : List Transaction) (now_ts nonce : ℕ)
      (tx_root : Bytes)
      → FromUsers txs
      → length txs ≤ core.max_block_txs
      → is_some (core.decode_address miner_address) ≡ true
      → core.compute_tx_root (reward miner_address ∷ txs) ≡ some tx_root
      → Passable (built head miner_address txs now_ts nonce tx_root)
  unfolding count_ok coinbase_ok tx_root_ok reward
  Passable-built head miner_address txs now_ts nonce tx_root users fits decodes root = (
    ground (arith, length-keep-le (λ tx. not (is_coinbase tx)) txs),
    rw (no_coinbase txs users, decodes) refl,
    rw (tx_root_ok, root) ((bytes_beq_iff tx_root tx_root).1 refl),
  )

  -- A candidate block that the miner builds from pending transactions with a sender, for an address
  -- that decodes, passes the node's checks of the number of transactions, of the coinbase, and of
  -- the transaction root.
  pub candidate-Passable :
      (head : HeadResp F) (miner_address : Bytes) (guarantee_after now_ts nonce : ℕ)
      (entries : List MempoolEntry) (block : Block)
      → Pending entries
      → is_some (core.decode_address miner_address) ≡ true
      → candidate core head miner_address
          (select_txs core.max_block_txs guarantee_after head.height entries)
          now_ts
          nonce
        ≡ some block
      → Passable block
  unfolding candidate
  candidate-Passable head miner_address guarantee_after now_ts nonce entries block pending decodes
        e =
      let txs = select_txs core.max_block_txs guarantee_after head.height entries in
      elim (Option-cases (core.compute_tx_root (reward miner_address ∷ txs))) [
        | inl none_left ↦ absurd (ground arith)
        | inr (root, h) ↦
            let same : built head miner_address txs now_ts nonce root ≡ block = ground arith in
            subst Passable same (
              Passable-built head miner_address txs now_ts nonce root
                (FromUsers-select_txs core.max_block_txs guarantee_after head.height entries
                  pending)
                (length-select_txs-le core.max_block_txs guarantee_after head.height entries)
                decodes h)
      ]

-- A pending transaction that pays a fee is eligible from the height on that is `guarantee_after`
-- less one above the height at which it was added.
pub is_eligible-in_time :
    (guarantee_after height : ℕ) (entry : MempoolEntry)
    → 0 < entry.transaction.fee
    → entry.added_height + guarantee_after ≤ suc height
    → is_eligible guarantee_after height entry ≡ true
unfolding is_eligible
is_eligible-in_time guarantee_after height entry pays old =
    ground (arith, div-le_self guarantee_after entry.transaction.fee)
