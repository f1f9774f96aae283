-- ===== src/Processor/Close.antt =====
-- Closing a withdrawal on a network without a client, and its books from the submission on.
use text.Mathlib.TextPositions.{eq_refl}
use zabypay_core.Prelude.{
  pos, suc, String, true, false, some, ◌+◌, ◌≡◌, refl, sym, ◌∙◌, ap, ap₂, arith, ◌-ℤ◌, Bool, str_eq,
  eq_iff,
}
use zabypay_core.Prelude.Table.{
  find_first, modify_where, find_first-modify_where, find_first_holds, find_first-some,
}
use zabypay_core.Entities.{Withdrawal, Wallet, Balance, total_of}
use zabypay_core.Store.{
  Env, World, ok, advance, world_of, by_id, by_wallet, by_balance_id, call, find_withdrawal,
  find_balance, update_balance, update_withdrawal,
}
use zabypay_core.Store.Laws.{IsQuiet, set_withdrawals, set_balances}
use zabypay_core.BalanceSync.{sync_wallet_balances_from_payments_for_environment}
use zabypay_core.BalanceSync.Mild.{Mild}
use zabypay_core.BalanceSync.Locks.{sync-Mild}
use zabypay_core.Processor.Settle.{
  settled_row, assumed_row, settle_balance, sync_balances, finalize_wallet_balance,
  fallback_time_based_confirmation,
}
use zabypay_core.Processor.Watch.{monitor_blockchain_confirmation}
use zabypay_core.Processor.Submit.{process_withdrawal}
use zabypay_core.Processor.Books.{IsReady, is_simulated, process_submits}

module _ (env : Env) (quiet : IsQuiet env) where
  abbrev after_settle : Withdrawal → Balance → World → World
  after_settle r c s =
      set_balances
        (modify_where (by_balance_id c.id) (settled_row (total_of r) c (env.now (suc s.tick))))
        (advance (advance s))

  abbrev after_finalize : Withdrawal → Balance → World → World
  after_finalize r c s = world_of (
      sync_wallet_balances_from_payments_for_environment env r.merchant_id r.environment
        (after_settle r c s))

  settle_lem :
      (r : Withdrawal) (c : Balance) (s : World)
      → find_first (by_wallet r.wallet_id) s.db.balances ≡ some c
      → settle_balance env r s ≡ ok tt (after_settle r c s)
  unfolding settle_balance find_balance update_balance call
  settle_lem r c s funded =
      let there =
        find_first-some (by_wallet r.wallet_id) (by_balance_id c.id) s.db.balances c funded
          (eq_refl c.id) in
      ground (arith, there, quiet s.tick, quiet (suc s.tick))

  finalize_lem :
      (r : Withdrawal) (c : Balance) (s : World)
      → find_first (by_wallet r.wallet_id) s.db.balances ≡ some c
      → finalize_wallet_balance env r s ≡ ok tt (after_finalize r c s)
  unfolding finalize_wallet_balance sync_balances
  finalize_lem r c s funded = rw (settle_lem r c s funded) refl

  -- The balance of the wallet after the settlement.
  settled_found :
      (r : Withdrawal) (c : Balance) (s : World)
      → find_first (by_wallet r.wallet_id) s.db.balances ≡ some c
      → find_first (by_wallet r.wallet_id) (after_settle r c s).db.balances
        ≡ some (settled_row (total_of r) c (env.now (suc s.tick)) c)
  settled_found r c s funded =
      find_first-modify_where (by_wallet r.wallet_id) (by_balance_id c.id)
        (settled_row (total_of r) c (env.now (suc s.tick))) (λ x. refl) s.db.balances c funded
        (eq_refl c.id)

-- A confirmation of `r`, paid from the balance `c`, succeeds after half a minute: the row is
-- confirmed with six confirmations, with its funds state as before, and so is the locked balance
-- of the wallet.
abbrev pub ClosesWithdrawal : Env → String → Withdrawal → Balance → World → Type 0
ClosesWithdrawal env id r c s =
    (t : World) × (monitor_blockchain_confirmation env id s ≡ ok tt t)
    × (t.slept ≡ s.slept + 30)
    × (t.db.transactions ≡ s.db.transactions)
    × ((q : Withdrawal) × (find_first (by_id id) t.db.withdrawals ≡ some q)
        × (q.status ≡ "confirmed")
        × (q.blockchain_confirmations ≡ some (pos 6))
        × (q.withdrawal_funds_state ≡ r.withdrawal_funds_state)
        × (q.tx_hash ≡ r.tx_hash))
    × ((d : Balance) × (find_first (by_wallet r.wallet_id) t.db.balances ≡ some d)
        × (d.locked_balance ≡ c.locked_balance))

-- The world in which the settlement begins, 30 seconds after the confirmation was asked for.
abbrev pub waited : World → World
waited s = record s { tick = suc (suc s.tick); slept = s.slept + 30 }

module _ (env : Env) (quiet : IsQuiet env) (id : String) (r : Withdrawal) (c : Balance)
    (hash : String) (s : World) (listed : find_first (by_id id) s.db.withdrawals ≡ some r)
    (funded : find_first (by_wallet r.wallet_id) s.db.balances ≡ some c) where
  abbrev assumed : Withdrawal → Withdrawal
  assumed = assumed_row (env.now (waited s).tick)

  abbrev synced : World
  synced = after_finalize env quiet r c (waited s)

  abbrev closed : World
  closed = set_withdrawals (modify_where (by_id r.id) assumed) (advance synced)

  synced-Mild : Mild (after_settle env quiet r c (waited s)) synced
  synced-Mild = sync-Mild env r.merchant_id r.environment (after_settle env quiet r c (waited s))

  listed_self : find_first (by_id r.id) synced.db.withdrawals ≡ some r
  listed_self =
      let same : r.id ≡ id =
        (eq_iff r.id id).0 (find_first_holds (by_id id) s.db.withdrawals r listed) in
      let kept : synced.db.withdrawals ≡ s.db.withdrawals = synced-Mild.withdrawals in
      ap₂ (λ i rows. find_first (by_id i) rows) same kept ∙ listed

  closing_run :
      r.tx_hash ≡ some hash
      → str_eq r.network "sol" ≡ false
      → monitor_blockchain_confirmation env id s ≡ ok tt closed
  unfolding monitor_blockchain_confirmation fallback_time_based_confirmation find_withdrawal
      update_withdrawal call
  closing_run sent network = ground (
    arith,
    quiet s.tick,
    quiet (suc s.tick),
    quiet synced.tick,
    listed,
    listed_self,
    finalize_lem env quiet r c (waited s) funded,
  )

  -- When the database answers: the confirmation of a withdrawal that has a transaction hash, is on
  -- another network than "sol" and whose wallet has a balance succeeds after 30 seconds without
  -- asking any node, whatever the balance sync does on the way; the row is confirmed with six
  -- confirmations, with its hash and its funds state as they were, and what was locked for it
  -- stays locked.
  pub confirmation_closes :
      r.tx_hash ≡ some hash → str_eq r.network "sol" ≡ false → ClosesWithdrawal env id r c s
  confirmation_closes sent network =
      let mild = synced-Mild in
      let settled = settled_row (total_of r) c (env.now (suc (waited s).tick)) c in
      let (d, found, lock) =
        mild.locks r.wallet_id settled (settled_found env quiet r c (waited s) funded) in
      (
        closed,
        closing_run sent network,
        mild.slept,
        mild.transactions,
        (
          assumed r,
          find_first-modify_where (by_id id) (by_id r.id) assumed (λ x. refl) synced.db.withdrawals
              r (ap (find_first (by_id id)) mild.withdrawals ∙ listed) (eq_refl r.id),
          refl,
          refl,
          refl,
          refl,
        ),
        (d, found, lock),
      )

pub simulated_network :
    (network : String) → is_simulated network ≡ true → str_eq network "sol" ≡ false
simulated_network network simulated = go (str_eq network "sol") refl
  where
    go : (v : Bool) → str_eq network "sol" ≡ v → v ≡ false
    go false e = refl
    go true e =
        let clash : true ≡ false = sym simulated ∙ ap is_simulated ((eq_iff network "sol").0 e) in
        absurd (cc)

-- A run for `w` succeeds, and so does the settlement that the confirmation begins with; and of the
-- balance `b` the sum of `w` was taken twice from the pending part, once from the total, and the
-- locked and available parts are as before.
abbrev pub ChargesTwice : Env → String → Withdrawal → Balance → World → Type 0
ChargesTwice env id w b s =
    (hash : String) × (q : Withdrawal) × (t u : World) × (process_withdrawal env id s ≡ ok hash t)
    × (find_first (by_id id) t.db.withdrawals ≡ some q)
    × (settle_balance env q (waited t) ≡ ok tt u)
    × ((d : Balance) × (find_first (by_wallet w.wallet_id) u.db.balances ≡ some d)
        × (d.pending_balance ≡ b.pending_balance -ℤ total_of w -ℤ total_of w)
        × (d.available_balance ≡ b.available_balance)
        × (d.locked_balance ≡ b.locked_balance)
        × (d.total_balance ≡ b.total_balance -ℤ total_of w))

-- When the database answers: after a withdrawal on a simulated network was processed, the
-- settlement that its confirmation runs, 30 seconds later, takes the amount and fee from the
-- wallet's pending balance a second time, and once from the total; what was locked for the
-- withdrawal is as before.
pub process_then_settle-ChargesTwice :
    (env : Env) (quiet : IsQuiet env) (id : String) (w : Withdrawal) (wallet : Wallet) (b : Balance)
    (s : World)
    → IsReady id w wallet b s
    → is_simulated w.network ≡ true
    → ChargesTwice env id w b s
process_then_settle-ChargesTwice env quiet id w wallet b s ready simulated =
    let (
      hash,
      t,
      run,
      spawned,
      (r, listed, st, sent, total, owner, network, state),
      (c, funded, cp, ca, cl, ct),
    ) =
      process_submits env quiet id w wallet b s ready simulated in
    let paid : find_first (by_wallet r.wallet_id) t.db.balances ≡ some c =
      ap (λ x. find_first (by_wallet x) t.db.balances) owner ∙ funded in
    let u = after_settle env quiet r c (waited t) in
    (
      hash,
      r,
      t,
      u,
      run,
      listed,
      settle_lem env quiet r c (waited t) paid,
      (
        settled_row (total_of r) c (env.now (suc (waited t).tick)) c,
        ap (λ x. find_first (by_wallet x) u.db.balances) (sym owner)
            ∙ settled_found env quiet r c (waited t) paid,
        cc,
        ca,
        cl,
        cc,
      ),
    )
