-- ===== src/Node/Startup/Replay.antt =====
-- What a start from a stored chain gives (`main` of lootcoin-node/src/main.rs).
use native.Mathlib.Nat.{suc-add}
use lootcoin.Base.{
  ℕ, ◌+◌, ◌<◌, ◌≡◌, refl, ◌∙◌, ap, sym, subst, true, false, Bool-cases, inl, inr, bytes_eq,
  bytes_beq, bytes_beq_iff, nat_eq, List, [], ◌∷◌, ◌++◌, length, take, drop, Option, none, some,
  Map, u64_mod, arith,
}
use lootcoin.Core.{Block, Core}
use lootcoin.Chain.State.{Blockchain, CheckpointState, Payout, applied}
use lootcoin.Chain.Update.{updated, update_state}
use lootcoin.Chain.Update.Runs.{Runs, done, applies, Runs-blocks}
use lootcoin.Chain.Window.{
  new, seed_pot, restore_from_checkpoint, restore_tickets, take_all_settled_payouts,
  prune_to_window,
}
use lootcoin.Chain.Reorg.{apply_in_memory}
use lootcoin.Db.Redb.{Redb, IsLawful, nat_ord}
use lootcoin.Db.Tables.{Db, get_blocks_range, load_blocks_from, load_latest_checkpoint}
use lootcoin.Db.Tables.Blocks.{
  IsStored, load_canonical_chain-IsStored, get_blocks_range-IsStored, load_blocks_from-IsStored,
}
use lootcoin.Db.Index.{Codec, rebuild_tx_index, clear_index}
use lootcoin.Db.Stores.Mirror.{Mirrors, prune_to_window-Mirrors}
use lootcoin.Db.Stores.Deep.{index_blocks-blocks}
use lootcoin.Node.Startup.{
  Boot, genesis_pot_amount, replay_stored, boot_replay, boot_checkpoint, load_chain, settle_boot,
  start,
}

drop-length : (xs ys : List Block) → drop (length xs) (xs ++ ys) ≡ ys
drop-length [] ys = refl
drop-length (x ∷ xs) ys = drop-length xs ys

drop-length_one :
    (xs : List Block) (y : Block) (ys : List Block) → drop (length xs + 1) (xs ++ y ∷ ys) ≡ ys
drop-length_one [] y ys = refl
drop-length_one (x ∷ xs) y ys = rw suc-add (drop-length_one xs y ys)

module _ {F : Type 0} (core : Core F) (now_secs : ℕ) where
  apply_in_memory-updated :
      (chain chain1 : Blockchain F) (b : Block)
      → update_state core now_secs chain b ≡ updated chain1
      → apply_in_memory core now_secs chain b none ≡ some (applied, chain1)
  unfolding apply_in_memory
  apply_in_memory-updated chain chain1 b e = rw (e, apply_in_memory) refl

  replay_stored-Runs :
      (chain chain' : Blockchain F) (bs : List Block)
      → Runs core now_secs chain bs chain'
      → replay_stored core now_secs chain bs ≡ some chain'
  unfolding replay_stored
  replay_stored-Runs chain chain' bs (done c) = refl
  replay_stored-Runs chain chain' bs (applies c c1 c' b rest e r) =
      rw (apply_in_memory-updated c c1 b e, replay_stored) (replay_stored-Runs c1 c' rest r)

  module _ {R : Redb} (lawful : IsLawful R) (codec : Codec) (difficulty : F) where
    rebuild_tx_index-blocks :
        (db : Db R F) (bs : List Block) (m : Map ℕ (List Payout))
        → (rebuild_tx_index codec db bs m).blocks ≡ db.blocks
    unfolding rebuild_tx_index clear_index
    rebuild_tx_index-blocks db bs m = index_blocks-blocks lawful codec m bs _

    prune_to_window-books : (chain : Blockchain F) → (prune_to_window chain).books ≡ chain.books
    unfolding prune_to_window
    prune_to_window-books chain = ground arith

    settle_boot-Mirrors :
        (boot : Boot R F)
        → Mirrors boot.db boot.chain
        → let after : Boot R F = settle_boot core now_secs codec difficulty boot in
          Mirrors after.db after.chain × (after.chain.books ≡ boot.chain.books)
    unfolding settle_boot take_all_settled_payouts restore_tickets
    settle_boot-Mirrors boot m =
        let taken : Blockchain F = (take_all_settled_payouts boot.chain).1 in
        let held : Mirrors boot.db taken = record {
          history = m.history;
          stored = m.stored;
          offset = m.offset;
        } in
        let pruned = prune_to_window-Mirrors boot.db taken held in
        let after : Boot R F = settle_boot core now_secs codec difficulty boot in
        let same : after.db.blocks ≡ boot.db.blocks = elim (Bool-cases boot.used_checkpoint) [
          | inl used ↦ rw used refl
          | inr replayed ↦ rw replayed (
              rebuild_tx_index-blocks boot.db boot.chain.blocks boot.chain.settled_payouts_by_block)
        ] in
        (
          record {
            history = pruned.history;
            stored = λ i. ap (λ t. R.find t i) same ∙ pruned.stored i;
            offset = pruned.offset;
          },
          prune_to_window-books taken,
        )

    -- A node that starts from a stored chain without a checkpoint replays it: when each stored
    -- block behind the first is accepted at the tip, the start succeeds with the books that they
    -- lead to, and the blocks table holds the chain, on a lawful database.
    pub start-replays :
        (db : Db R F) (snapshot : Option (ℕ × CheckpointState F × Block)) (genesis g : Block)
        (bs : List Block) (c : Blockchain F)
        → IsStored db (g ∷ bs)
        → load_latest_checkpoint db ≡ none
        → Runs core now_secs (seed_pot (new difficulty g) genesis_pot_amount) bs c
        → (boot : Boot R F) × (start core now_secs codec difficulty db snapshot genesis ≡ some boot)
          × (boot.chain.books ≡ c.books)
          × Mirrors boot.db boot.chain
    unfolding start load_chain boot_replay seed_pot new
    start-replays db snapshot genesis g bs c stored fresh run =
        let boot : Boot R F = record {
          chain = c;
          db = db;
          used_checkpoint = false;
          history_start = 0;
        } in
        let loaded = load_canonical_chain-IsStored lawful db (g ∷ bs) stored in
        let fresh_chain = seed_pot (new difficulty g) genesis_pot_amount in
        let ran = replay_stored-Runs fresh_chain c bs run in
        let grown = Runs-blocks core now_secs fresh_chain c bs run in
        let held : Mirrors db c = record {
          history = [];
          stored = subst (IsStored db) (sym grown.0) stored;
          offset = sym grown.1;
        } in
        let settled = settle_boot-Mirrors boot held in
        (
          settle_boot core now_secs codec difficulty boot,
          rw (loaded, start, load_chain, fresh, boot_replay, ran) refl,
          settled.1,
          settled.0,
        )

    -- A node that starts from a stored chain with a checkpoint replays what follows it: when the
    -- latest checkpoint is of a stored block, with its hash, at a position that fits a `u64`, and
    -- each block behind it is accepted at the tip from the checkpoint's state, the start succeeds
    -- with the books that they lead to, and the blocks table holds the chain, on a lawful database.
    pub start-resumes :
        (db : Db R F) (snapshot : Option (ℕ × CheckpointState F × Block))
        (genesis g cp_block : Block) (bs history tail : List Block) (state : CheckpointState F)
        (c : Blockchain F)
        → IsStored db (g ∷ bs)
        → g ∷ bs ≡ history ++ cp_block ∷ tail
        → length history + 1 < u64_mod
        → load_latest_checkpoint db ≡ some (length history, state)
        → state.block_hash ≡ cp_block.hash
        → Runs core now_secs
            (restore_from_checkpoint
              (seed_pot (new difficulty g) genesis_pot_amount)
              (length history)
              state
              cp_block)
            tail
            c
        → (boot : Boot R F) × (start core now_secs codec difficulty db snapshot genesis ≡ some boot)
          × (boot.chain.books ≡ c.books)
          × Mirrors boot.db boot.chain
    unfolding start load_chain boot_checkpoint restore_from_checkpoint
    start-resumes db snapshot genesis g cp_block bs history tail state c stored shape fits found
          same run =
        let boot : Boot R F = record {
          chain = c;
          db = db;
          used_checkpoint = true;
          history_start = 0;
        } in
        let loaded = load_canonical_chain-IsStored lawful db (g ∷ bs) stored in
        let whole : IsStored db (history ++ cp_block ∷ tail) = subst (IsStored db) shape stored in
        let at_height : get_blocks_range db (length history) 1 ≡ cp_block ∷ [] =
          get_blocks_range-IsStored lawful db (history ++ cp_block ∷ tail) (length history) 1 whole
            fits
          ∙ ap (take 1) (drop-length history (cp_block ∷ tail)) in
        let behind : load_blocks_from db (length history + 1) ≡ tail =
          load_blocks_from-IsStored lawful db (history ++ cp_block ∷ tail) (length history + 1)
            whole
          ∙ drop-length_one history cp_block tail in
        let resumed =
          restore_from_checkpoint (seed_pot (new difficulty g) genesis_pot_amount) (length history)
            state cp_block in
        let ran = replay_stored-Runs resumed c tail run in
        let grown = Runs-blocks core now_secs resumed c tail run in
        let held : Mirrors db c = record {
          history = history;
          stored = subst (λ l. IsStored db (history ++ l)) (sym grown.0) whole;
          offset = sym grown.1;
        } in
        let settled = settle_boot-Mirrors boot held in
        let hash_same : bytes_beq state.block_hash cp_block.hash ≡ true =
          (bytes_beq_iff state.block_hash cp_block.hash).1 same in
        (
          settle_boot core now_secs codec difficulty boot,
          rw (loaded, start, load_chain, found, boot_checkpoint, at_height, hash_same, behind, ran)
              refl,
          settled.1,
          settled.0,
        )
