-- ===== src/Chain/Reachable.antt =====
-- The states that a node's chain goes through (lootcoin-node/src/blockchain.rs), as a step relation:
-- it starts from genesis with a seeded pot, and moves by blocks that are applied, by replays from
-- genesis (`reorg_to`, when its canonical chain starts with genesis), by pruning, by payouts that
-- are taken out to be stored, and by blocks that the orphan pool takes; and a node that starts again
-- restores the checkpoint of a state that was reached before.
use lootcoin.Base.{
  ℕ, suc, ◌+◌, ◌≤◌, ◌<◌, ◌≡◌, ◌≢◌, refl, ◌∙◌, ap, sym, subst, inl, inr, true, false, Bool-cases,
  Option-cases, first, some, List, [], ◌∷◌, total, u64_mod, saturating_add64-le, arith,
}
use lootcoin.Core.{Block, Core, is_coinbase}
use lootcoin.Chain.State.{Blockchain, CheckpointState}
use lootcoin.Chain.Ledger.{coins}
use lootcoin.Chain.Validate.{get_height, coinbase_ok, is_valid, get_latest_hash}
use lootcoin.Chain.Update.{Update, refused, aborted, updated, update_state, minted}
use lootcoin.Chain.Update.Extends.{update_state-Accepts, update_state-extends, Accepts-Grows}
use lootcoin.Chain.Update.Conserves.{update_state-conserves, is_valid-coinbase_ok}
use lootcoin.Chain.Window.{
  new, seed_pot, credit_all, snapshot, restore_from_checkpoint, prune_to_window,
  drain_payouts_for_block, take_all_settled_payouts,
}
use lootcoin.Chain.Window.Invariant.{prune_to_window-height}
use lootcoin.Chain.Reorg.{add_orphan, replay, reset_to}
use lootcoin.Chain.Reorg.Outcomes.{Update-cases}

module _ {F : Type 0} (core : Core F) (genesis : Block) (amount : ℕ) where
  pub data Step (chain chain' : Blockchain F) : Type 0 where
    applies :
        (now_secs : ℕ) (block : Block)
        → update_state core now_secs chain block ≡ updated chain'
        → Step chain chain'
    rebuilds :
        (now_secs : ℕ) (blocks : List Block)
        → replay core now_secs (reset_to chain genesis) blocks ≡ some chain'
        → Step chain chain'
    prunes : chain' ≡ prune_to_window chain → Step chain chain'
    drains : (index : ℕ) → chain' ≡ (drain_payouts_for_block chain index).1 → Step chain chain'
    drains_all : chain' ≡ (take_all_settled_payouts chain).1 → Step chain chain'
    pools :
        (block : Block)
        → chain' ≡ record chain { orphan_pool = add_orphan chain.orphan_pool block }
        → Step chain chain'

  pub data Reachable : Blockchain F → Type 0 where
    starts : (difficulty : F) → Reachable (seed_pot (new difficulty genesis) amount)
    moves : {chain chain' : Blockchain F} → Reachable chain → Step chain chain' → Reachable chain'
    restores :
        (before fresh : Blockchain F) (state : CheckpointState F) (height : ℕ) (block : Block)
        → Reachable before
        → Reachable fresh
        → snapshot before ≡ some state
        → get_height before ≡ suc height
        → Reachable (restore_from_checkpoint fresh height state block)

  -- The coins that genesis and the seeded pot bring into existence.
  abbrev pub issued_at_start : ℕ
  issued_at_start = total (credit_all genesis.transactions []) + amount

  -- No more coins than genesis and one for each block since.
  record Funded (chain : Blockchain F) : Type 0 where
    seeded : chain.genesis_pot ≡ amount
    coins_le :
        issued_at_start + get_height chain < u64_mod
        → coins chain.books ≤ issued_at_start + get_height chain

  minted-le : (block : Block) → coinbase_ok core block ≡ true → minted block ≤ 1
  unfolding coinbase_ok minted
  minted-le block h = elim (Option-cases (first block.transactions)) [
    | inl e ↦ rw (e, minted) (omega arith)
    | inr (tx, e) ↦ elim (Bool-cases (is_coinbase tx)) [
      | inl c ↦ rw (e, minted, c) (ground arith)
      | inr c ↦ rw (e, minted, c) (omega arith)
    ]
  ]

  same_update : {chain chain' : Blockchain F} → updated chain ≡ updated chain' → chain ≡ chain'
  same_update {chain} e =
      ap (λ (u : Update F). elim u [ refused ↦ chain | aborted ↦ chain | updated c ↦ c ]) e

  applied-Funded :
      (now_secs : ℕ) (chain : Blockchain F) (block : Block) (chain' : Blockchain F)
      → update_state core now_secs chain block ≡ updated chain'
      → Funded chain
      → Funded chain'
  applied-Funded now_secs chain block chain' e funded =
      let accepted = update_state-Accepts core now_secs chain block chain' e in
      let (_, _, height, _) = update_state-extends core now_secs chain block chain' e in
      record {
        seeded =
            (Accepts-Grows core now_secs chain block chain' accepted).genesis_pot ∙ funded.seeded;
        coins_le = λ bound.
            let before = funded.coins_le (omega arith) in
            let one =
              minted-le block (is_valid-coinbase_ok core chain block now_secs accepted.valid) in
            let (c, e', grown, _) =
              update_state-conserves core chain block now_secs accepted.valid (omega arith) in
            let same : c ≡ chain' = same_update (sym e' ∙ e) in
            let kept : coins chain'.books ≡ coins c.books =
              ap (λ (c : Blockchain F). coins c.books) (sym same) in
            omega arith;
      }

  start-Funded :
      (difficulty : F) → amount < u64_mod → Funded (seed_pot (new difficulty genesis) amount)
  unfolding seed_pot new get_height
  start-Funded difficulty fits = record {
    seeded = refl;
    coins_le = λ bound. omega (arith, saturating_add64-le 0 amount);
  }

  reset-Funded : (chain : Blockchain F) → Funded chain → Funded (reset_to chain genesis)
  unfolding reset_to get_height
  reset-Funded chain funded = record {
    seeded = funded.seeded;
    coins_le = λ bound. omega (arith, funded.seeded);
  }

  replay-Funded :
      (now_secs : ℕ) (blocks : List Block) (chain chain' : Blockchain F)
      → replay core now_secs chain blocks ≡ some chain'
      → Funded chain
      → Funded chain'
  unfolding replay
  replay-Funded now_secs [] chain chain' h funded =
      let same : chain ≡ chain' = ground arith in subst Funded same funded
  replay-Funded now_secs (b ∷ blocks) chain chain' h funded =
      elim (Update-cases (update_state core now_secs chain b)) [
        | inl e ↦ (let same : chain ≡ chain' = ground arith in subst Funded same funded)
        | inr (inl e) ↦ absurd (ground arith)
        | inr (inr (c, e)) ↦
            replay-Funded now_secs blocks c chain' (rw (e, replay) at h)
              (applied-Funded now_secs chain b c e funded)
      ]

  same-Funded :
      (chain chain' : Blockchain F)
      → chain'.genesis_pot ≡ chain.genesis_pot
      → chain'.books ≡ chain.books
      → get_height chain' ≡ get_height chain
      → Funded chain
      → Funded chain'
  same-Funded chain chain' seeded books height funded = record {
    seeded = seeded ∙ funded.seeded;
    coins_le = λ bound.
        let before = funded.coins_le (omega arith) in
        let kept : coins chain'.books ≡ coins chain.books = ap coins books in omega arith;
  }

  pruned-Funded : (chain : Blockchain F) → Funded chain → Funded (prune_to_window chain)
  unfolding prune_to_window
  pruned-Funded chain =
      same-Funded chain (prune_to_window chain) (ground arith) (ground arith)
        (prune_to_window-height core chain)

  drained-Funded :
      (chain : Blockchain F) (index : ℕ)
      → Funded chain
      → Funded (drain_payouts_for_block chain index).1
  unfolding drain_payouts_for_block get_height
  drained-Funded chain index =
      same-Funded chain (drain_payouts_for_block chain index).1 refl refl refl

  drained_all-Funded :
      (chain : Blockchain F) → Funded chain → Funded (take_all_settled_payouts chain).1
  unfolding take_all_settled_payouts get_height
  drained_all-Funded chain = same-Funded chain (take_all_settled_payouts chain).1 refl refl refl

  pooled-Funded :
      (chain : Blockchain F) (block : Block)
      → Funded chain
      → Funded (record chain { orphan_pool = add_orphan chain.orphan_pool block })
  unfolding get_height
  pooled-Funded chain block =
      same-Funded chain (record chain { orphan_pool = add_orphan chain.orphan_pool block }) refl
        refl refl

  snapshot-books :
      (chain : Blockchain F) (state : CheckpointState F)
      → snapshot chain ≡ some state
      → state.books ≡ chain.books
  unfolding snapshot
  snapshot-books chain state e = elim (Option-cases (get_latest_hash chain)) [
    | inl none_left ↦ absurd (ground arith)
    | inr (hash, found) ↦ ground arith
  ]

  restored-Funded :
      (before fresh : Blockchain F) (state : CheckpointState F) (height : ℕ) (block : Block)
      → Funded before
      → Funded fresh
      → snapshot before ≡ some state
      → get_height before ≡ suc height
      → Funded (restore_from_checkpoint fresh height state block)
  unfolding restore_from_checkpoint get_height
  restored-Funded before fresh state height block old new saved at = record {
    seeded = new.seeded;
    coins_le = λ bound.
        let then_le = old.coins_le (omega arith) in
        let kept : coins state.books ≡ coins before.books =
          ap coins (snapshot-books before state saved) in
        omega arith;
  }

  Step-Funded : (chain chain' : Blockchain F) → Step chain chain' → Funded chain → Funded chain'
  Step-Funded chain chain' (applies now_secs block e) funded =
      applied-Funded now_secs chain block chain' e funded
  Step-Funded chain chain' (rebuilds now_secs blocks e) funded =
      replay-Funded now_secs blocks (reset_to chain genesis) chain' e (reset-Funded chain funded)
  Step-Funded chain chain' (prunes e) funded = subst Funded (sym e) (pruned-Funded chain funded)
  Step-Funded chain chain' (drains index e) funded =
      subst Funded (sym e) (drained-Funded chain index funded)
  Step-Funded chain chain' (drains_all e) funded =
      subst Funded (sym e) (drained_all-Funded chain funded)
  Step-Funded chain chain' (pools block e) funded =
      subst Funded (sym e) (pooled-Funded chain block funded)

  Reachable-Funded : {chain : Blockchain F} → amount < u64_mod → Reachable chain → Funded chain
  Reachable-Funded fits (starts difficulty) = start-Funded difficulty fits
  Reachable-Funded fits (moves {chain} {chain'} r s) =
      Step-Funded chain chain' s (Reachable-Funded fits r)
  Reachable-Funded fits (restores before fresh state height block r f saved at) =
      restored-Funded before fresh state height block (Reachable-Funded fits r)
        (Reachable-Funded fits f) saved at

  -- In every state that a node reaches from genesis, by applied blocks, replays from genesis,
  -- pruning, drained payouts, pooled orphans and restored checkpoints, the balances and the pot
  -- hold no more than genesis and the seeded pot brought into existence and one coin for each block
  -- of the chain, while that bound fits a `u64`.
  pub Reachable-coins_le :
      (chain : Blockchain F)
      → amount < u64_mod
      → Reachable chain
      → issued_at_start + get_height chain < u64_mod
      → coins chain.books ≤ issued_at_start + get_height chain
  Reachable-coins_le chain fits r bound =
      let funded = Reachable-Funded fits r in funded.coins_le bound

  refuses_invalid :
      (chain : Blockchain F) (now_secs : ℕ) (block : Block)
      → is_valid core now_secs chain block ≡ false
      → update_state core now_secs chain block ≡ refused
  unfolding update_state
  refuses_invalid chain now_secs block invalid = rw invalid refl

  -- No state that a node reaches from genesis, by applied blocks, replays from genesis, pruning,
  -- drained payouts, pooled orphans and restored checkpoints, makes `update_state` abort the
  -- process, whatever the block, while the coins of genesis and the seeded pot and one more for
  -- each block up to the next fit a `u64`.
  pub Reachable-never_aborts :
      (chain : Blockchain F) (now_secs : ℕ) (block : Block)
      → amount < u64_mod
      → Reachable chain
      → issued_at_start + suc (get_height chain) < u64_mod
      → update_state core now_secs chain block ≢ aborted
  Reachable-never_aborts chain now_secs block fits r bound e =
      elim (Bool-cases (is_valid core now_secs chain block)) [
        | inl valid ↦
            let coins_le = Reachable-coins_le chain fits r (omega arith) in
            let one = minted-le block (is_valid-coinbase_ok core chain block now_secs valid) in
            let (c, e', _, _) =
              update_state-conserves core chain block now_secs valid (omega arith) in
            absurd (ground arith)
        | inr invalid ↦
            let refusal = refuses_invalid chain now_secs block invalid in absurd (ground arith)
      ]
