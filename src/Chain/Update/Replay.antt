-- ===== src/Chain/Update/Replay.antt =====
-- Replay protection: the signatures of accepted blocks (`update_state` and its pre-validation).
use lootcoin.Base.{
  ℕ, ◌+◌, ◌<◌, ◌≡◌, refl, ◌∙◌, ap, true, false, ◌||◌, inl, inr, Bool-cases, Option-cases, Bytes,
  bytes_eq, bytes_beq, bytes_beq_iff, List, [], ◌∷◌, contains, contains-add_to, All, u64_mod, arith,
}
use lootcoin.Core.{Transaction, Block, Core, is_coinbase}
use lootcoin.Chain.State.{Books, Blockchain}
use lootcoin.Chain.Ledger.{coins}
use lootcoin.Chain.Validate.{Seen, nothing_seen, prevalidate_tx, prevalidate, is_valid}
use lootcoin.Chain.Update.{
  refused, updated, minted, settle_block, pay_miner, split_fees, finish_block, update_state,
}
use lootcoin.Chain.Update.Finish.{finish_block-Finishes}
use lootcoin.Chain.Update.Settled.{settle_block-Keeps}
use lootcoin.Chain.Update.Conserves.{
  paid, apply_valid-updated, is_valid-coinbase_ok, is_valid-prevalidate,
}
use lootcoin.Chain.Update.Covers.{
  signatures_of, Ran, Passes, prevalidate_tx-Passes, prevalidate_tx-coinbase, prevalidate-rest,
  prevalidate-first,
}

-- No signature stands twice.
abbrev pub Distinct : List Bytes → Type 0
Distinct [] = Unit
Distinct (s ∷ ss) = (contains s ss ≡ false) × Distinct ss

-- None of the signatures is in the set.
abbrev pub NoneIn : List Bytes → List Bytes → Type 0
NoneIn set = All (λ s. contains s set ≡ false)

NoneIn-add_to :
    (x : Bytes) (set set' ss : List Bytes)
    → ((s : Bytes) → contains s set' ≡ (bytes_beq s x || contains s set))
    → NoneIn set' ss
    → NoneIn set ss × (contains x ss ≡ false)
unfolding contains
NoneIn-add_to x set set' [] e h = (tt, refl)
NoneIn-add_to x set set' (s ∷ ss) e h =
    let rest = NoneIn-add_to x set set' ss e h.1 in
    (
      (ground (arith, e s, h.0), rest.0),
      ground (arith, e s, h.0, rest.1, bytes_beq_iff s x, bytes_beq_iff x s),
    )

pub NoneIn-contains :
    (set ss : List Bytes) (s : Bytes)
    → NoneIn set ss
    → contains s ss ≡ true
    → contains s set ≡ false
unfolding contains
NoneIn-contains set [] s h m = absurd (ground arith)
NoneIn-contains set (x ∷ ss) s h m =
    ground (arith, bytes_beq_iff s x, NoneIn-contains set ss s h.1, h.0)

-- What a passed list of transactions says of its signatures.
abbrev Fresh : Books → Seen → List Bytes → Type 0
Fresh b seen ss = NoneIn b.confirmed_signatures ss × NoneIn seen.block_sigs ss × Distinct ss

module _ {F : Type 0} (core : Core F) (b : Books) where
  Fresh-user :
      (seen seen' : Seen) (tx : Transaction) (ss : List Bytes)
      → Passes core b seen tx seen'
      → Fresh b seen' ss
      → Fresh b seen (tx.signature ∷ ss)
  Fresh-user seen seen' tx ss p (unconfirmed, unseen, distinct) =
      let earlier =
        NoneIn-add_to tx.signature seen.block_sigs seen'.block_sigs ss
          (λ s. ap (contains s) p.sigs ∙ contains-add_to tx.signature s seen.block_sigs) unseen in
      ((p.unconfirmed, unconfirmed), (p.unseen, earlier.0), (earlier.1, distinct))

  prevalidate-Fresh :
      (txs : List Transaction) (seen : Seen)
      → prevalidate core b seen txs ≡ true
      → Fresh b seen (signatures_of txs)
  prevalidate-Fresh [] seen checked = (tt, tt, tt)
  prevalidate-Fresh (tx ∷ txs) seen checked = elim (Option-cases (prevalidate_tx core b seen tx)) [
    | inl none_left ↦ absurd (prevalidate-first core b tx txs seen checked none_left)
    | inr (seen', e) ↦
        let rest =
          prevalidate-Fresh txs seen' (prevalidate-rest core b tx txs seen seen' e checked) in
        elim (Bool-cases (is_coinbase tx)) [
          | inl coinbase ↦
              let same = prevalidate_tx-coinbase core b seen tx seen' coinbase e in
              rw coinbase (rw same at rest)
          | inr user ↦ rw user (
              Fresh-user seen seen' tx (signatures_of txs)
                (prevalidate_tx-Passes core b seen tx seen' user e) rest)
        ]
  ]

module _ {F : Type 0} (core : Core F) (now_secs : ℕ) (chain : Blockchain F) (block : Block) where
  is_valid-Fresh :
      is_valid core now_secs chain block ≡ true
      → Fresh chain.books nothing_seen (signatures_of block.transactions)
  unfolding is_valid
  is_valid-Fresh h =
      prevalidate-Fresh core chain.books block.transactions nothing_seen (ground arith)

  -- A block that holds a transaction with a sender whose signature is already confirmed is refused.
  pub replayed_refused :
      (s : Bytes)
      → contains s chain.confirmed_signatures ≡ true
      → contains s (signatures_of block.transactions) ≡ true
      → update_state core now_secs chain block ≡ refused
  unfolding update_state
  replayed_refused s confirmed held = elim (Bool-cases (is_valid core now_secs chain block)) [
    | inl valid ↦ absurd (
        ground (
          arith,
          NoneIn-contains chain.confirmed_signatures (signatures_of block.transactions) s
              (is_valid-Fresh valid).0 held,
        ))
    | inr invalid ↦ rw invalid
  ]

  signatures-paid :
      (b : Books) → (paid core chain block b).confirmed_signatures ≡ b.confirmed_signatures
  unfolding split_fees pay_miner
  signatures-paid b = ground arith

  signatures-finished :
      (b : Books)
      → Ran (settle_block core chain block).books block.transactions b
      → (s : Bytes)
      → contains s (finish_block core (paid core chain block b) block).confirmed_signatures
        ≡ (contains s (signatures_of block.transactions) || contains s chain.confirmed_signatures)
  signatures-finished b ran s =
      ap (λ books. contains s books.confirmed_signatures)
        (finish_block-Finishes core (paid core chain block b) block).books
      ∙ ap (contains s) (signatures-paid b)
      ∙ ran.signatures s
      ∙ ap (λ old. contains s (signatures_of block.transactions) || contains s old)
          (settle_block-Keeps core chain block).signatures

  -- A block that passes every check holds no transaction with a sender whose signature is already
  -- confirmed, and no two transactions with a sender and the same signature; and, when the coins in
  -- existence and its coinbase together fit a `u64`, applying it confirms exactly the signatures of
  -- its transactions with a sender in addition to the ones before.
  pub update_state-signatures :
      is_valid core now_secs chain block ≡ true
      → coins chain.books + minted block < u64_mod
      → NoneIn chain.confirmed_signatures (signatures_of block.transactions)
        × Distinct (signatures_of block.transactions)
        × (chain' : Blockchain F) × (update_state core now_secs chain block ≡ updated chain')
        × ((s : Bytes)
            → contains s chain'.confirmed_signatures ≡ (
                contains s (signatures_of block.transactions)
                || contains s chain.confirmed_signatures))
  update_state-signatures valid bound =
      let (b, ran, _, done) =
        apply_valid-updated core chain block (is_valid-coinbase_ok core chain block now_secs valid)
          (is_valid-prevalidate core chain block now_secs valid) bound in
      (
        (is_valid-Fresh valid).0,
        (is_valid-Fresh valid).2,
        finish_block core (paid core chain block b) block,
        unfold update_state in rw valid done,
        λ s. signatures-finished b ran s,
      )
