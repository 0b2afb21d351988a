-- ===== src/Chain/Lottery/Payouts.antt =====
-- What settlement does to the pot and to the balances (`compute_ticket_reward` and the settlement
-- loop of `update_state` in lootcoin-node/src/blockchain.rs).
use lootcoin.Base.{
  ℕ, ◌+◌, ◌-◌, ◌≤◌, ◌<◌, ◌≡◌, refl, ◌∙◌, Bytes, List, [], ◌∷◌, total, u64_mod, min, ltb, arith, inl,
  inr, Bool-cases,
}
use lootcoin.Core.{LootTicket, Core}
use lootcoin.Metrics.{Tier}
use lootcoin.Chain.State.{Blockchain, Payout}
use lootcoin.Chain.Ledger.{credit, get_balance, coins}
use lootcoin.Chain.Ledger.Supply.{total-credit, credit-grows}
use lootcoin.Chain.Lottery.{compute_ticket_reward, pay_draw, settle_tickets}

-- What settlement may change: coins move from the pot to balances, and each balance grows.
pub record Settles {F : Type 0} (chain chain' : Blockchain F) : Type 0 where
  pub coins_kept : coins chain'.books ≡ coins chain.books
  pub pot_falls : chain'.pot ≤ chain.pot
  pub balances : (a : Bytes) → get_balance chain.books a ≤ get_balance chain'.books a

pub Settles-refl : {F : Type 0} (chain : Blockchain F) → Settles chain chain
Settles-refl chain = record {
  coins_kept = refl;
  pot_falls = omega arith;
  balances = λ a. omega arith;
}

pub Settles-trans : {F : Type 0} {a b c : Blockchain F} → Settles a b → Settles b c → Settles a c
Settles-trans h k = record {
  coins_kept = omega arith;
  pot_falls = omega arith;
  balances = λ a. omega (arith, h.balances a, k.balances a);
}

-- What settlement leaves alone.
pub record Keeps {F : Type 0} (chain chain' : Blockchain F) : Type 0 where
  pub signatures : chain'.confirmed_signatures ≡ chain.confirmed_signatures
  pub blocks : chain'.blocks ≡ chain.blocks
  pub blocks_offset : chain'.blocks_offset ≡ chain.blocks_offset
  pub orphan_pool : chain'.orphan_pool ≡ chain.orphan_pool
  pub pending_tickets : chain'.pending_tickets ≡ chain.pending_tickets
  pub genesis_pot : chain'.genesis_pot ≡ chain.genesis_pot

pub Keeps-refl : {F : Type 0} (chain : Blockchain F) → Keeps chain chain
Keeps-refl chain = record {
  signatures = refl;
  blocks = refl;
  blocks_offset = refl;
  orphan_pool = refl;
  pending_tickets = refl;
  genesis_pot = refl;
}

pub Keeps-trans : {F : Type 0} {a b c : Blockchain F} → Keeps a b → Keeps b c → Keeps a c
Keeps-trans h k = record {
  signatures = k.signatures ∙ h.signatures;
  blocks = k.blocks ∙ h.blocks;
  blocks_offset = k.blocks_offset ∙ h.blocks_offset;
  orphan_pool = k.orphan_pool ∙ h.orphan_pool;
  pending_tickets = k.pending_tickets ∙ h.pending_tickets;
  genesis_pot = k.genesis_pot ∙ h.genesis_pot;
}

module _ {F : Type 0} where
  pay_draw-Keeps :
      (chain : Blockchain F) (t : LootTicket) (won : ℕ × Tier) (payouts : List Payout)
      → Keeps chain (pay_draw chain t won payouts).0
  unfolding pay_draw
  pay_draw-Keeps chain t (amount, tier) payouts = record {
    signatures = ground arith;
    blocks = ground arith;
    blocks_offset = ground arith;
    orphan_pool = ground arith;
    pending_tickets = ground arith;
    genesis_pot = ground arith;
  }

  pub settle_tickets-Keeps :
      (core : Core F) (chain : Blockchain F) (ts : List LootTicket) (payouts : List Payout)
      → Keeps chain (settle_tickets core chain ts payouts).0
  unfolding settle_tickets
  settle_tickets-Keeps core chain [] payouts = Keeps-refl chain
  settle_tickets-Keeps core chain (t ∷ ts) payouts =
      let won : ℕ × Tier = compute_ticket_reward core chain t.created_height t in
      Keeps-trans (pay_draw-Keeps chain t won payouts) (
        settle_tickets-Keeps core (pay_draw chain t won payouts).0 ts
          (pay_draw chain t won payouts).1)

  -- A draw pays its amount or the whole pot, whichever is less.
  pub pay_draw-Settles :
      (chain : Blockchain F) (t : LootTicket) (won : ℕ × Tier) (payouts : List Payout)
      → coins chain.books < u64_mod
      → Settles chain (pay_draw chain t won payouts).0
  unfolding pay_draw
  pay_draw-Settles chain t (amount, tier) payouts bound =
      elim (Bool-cases (ltb 0 (min amount chain.pot))) [
        | inr e ↦ rw (e, pay_draw) (Settles-refl chain)
        | inl e ↦
            rw (e, pay_draw)
              (record {
                coins_kept = omega (arith, total-credit t.miner payout chain.balances fits);
                pot_falls = omega arith;
                balances = λ a. grown a;
              })
      ]
    where
      payout : ℕ
      payout = min amount chain.pot

      fits : total chain.balances + min amount chain.pot < u64_mod
      fits = omega arith

      grown :
          (a : Bytes)
          → get_balance chain.books a
            ≤ get_balance
                (record (chain.books) {
                  balances = credit t.miner (min amount chain.pot) chain.balances;
                  pot = chain.pot - min amount chain.pot;
                })
                a
      grown a =
          unfold get_balance in credit-grows t.miner a (min amount chain.pot) chain.balances fits

  pub settle_tickets-Settles :
      (core : Core F) (chain : Blockchain F) (ts : List LootTicket) (payouts : List Payout)
      → coins chain.books < u64_mod
      → Settles chain (settle_tickets core chain ts payouts).0
  unfolding settle_tickets
  settle_tickets-Settles core chain [] payouts bound = Settles-refl chain
  settle_tickets-Settles core chain (t ∷ ts) payouts bound =
      let won : ℕ × Tier = compute_ticket_reward core chain t.created_height t in
      let first = pay_draw-Settles chain t won payouts bound in
      Settles-trans first (
        settle_tickets-Settles core (pay_draw chain t won payouts).0 ts
          (pay_draw chain t won payouts).1 (omega arith))
