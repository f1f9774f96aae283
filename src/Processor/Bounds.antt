-- ===== src/Processor/Bounds.antt =====
-- How long the processor follows a transaction.
use zabypay_core.Prelude.{
  ℕ, zero, suc, String, false, some, ◌+◌, ◌-◌, ◌≤◌, ◌≡◌, refl, ◌∙◌, arith, eq_iff, ap, Option-cases,
  inl, inr,
}
use zabypay_core.Prelude.Table.{find_first, modify_where, find_first-modify_where, find_first_holds}
use zabypay_core.Store.Laws.{IsQuiet, set_withdrawals}
use text.Mathlib.TextPositions.{eq_refl}
use zabypay_core.Errors.{AppError}
use zabypay_core.Entities.{Withdrawal}
use zabypay_core.Store.{
  unreachable, advance, Outcome, continue, Env, World, ok, err, world_of, by_id, call,
  find_withdrawal, find_balance, update_withdrawal, update_balance,
}
use zabypay_core.BalanceSync.Locks.{sync-Mild}
use zabypay_core.Processor.Settle.{settle_balance, sync_balances, finalize_wallet_balance}
use zabypay_core.Processor.Watch.{
  timeout_row, monitoring_timeout, max_attempts, next_delay, take_status, attempt, give_up, watch,
  monitor_solana_confirmation,
}

-- The sleeps of `left` more rounds, the next of them for `delay` seconds.
abbrev waits : ℕ → ℕ → ℕ
waits zero delay = 0
waits (suc left) delay = delay + waits left (next_delay delay)

module _ (env : Env) where
  settle_sleeps : (w : Withdrawal) (s : World) → (world_of (settle_balance env w s)).slept ≡ s.slept
  unfolding settle_balance find_balance update_balance call
  settle_sleeps w s = ground arith

  finalize_sleeps :
      (w : Withdrawal) (s : World) → (world_of (finalize_wallet_balance env w s)).slept ≡ s.slept
  unfolding finalize_wallet_balance sync_balances
  finalize_sleeps w s = continue_sleeps (settle_balance env w s) (settle_sleeps w s)
    where
      continue_sleeps :
          (o : Outcome (Unit {0}))
          → (world_of o).slept ≡ s.slept
          → (world_of (continue o (λ _. sync_balances env w))).slept ≡ s.slept
      continue_sleeps (ok a t) e = (sync-Mild env w.merchant_id w.environment t).slept ∙ e
      continue_sleeps (err x t) e = e

  attempt_sleeps : (id : String) (s : World) → (world_of (attempt env id s)).slept ≡ s.slept
  unfolding attempt take_status find_withdrawal update_withdrawal call
  attempt_sleeps id s = elim (Option-cases (find_first (by_id id) s.db.withdrawals)) [
    | inl missing ↦ ground (arith, missing)
    | inr (w, listed) ↦
        ground (arith, listed, finalize_sleeps w (record s { tick = suc (suc s.tick) }))
  ]

  give_up_sleeps : (id : String) (s : World) → (world_of (give_up env id s)).slept ≡ s.slept
  unfolding give_up find_withdrawal update_withdrawal call
  give_up_sleeps id s = ground arith

  watch_sleeps :
      (left delay : ℕ) (id : String) (s : World)
      → (world_of (watch env left delay id s)).slept ≤ s.slept + waits left delay
  unfolding watch
  watch_sleeps zero delay id s =
      ground (arith, attempt_sleeps id s, give_up_sleeps id (world_of (attempt env id s)))
  watch_sleeps (suc left) delay id s =
      let t : World = world_of (attempt env id s) in
      ground (
        arith,
        attempt_sleeps id s,
        watch_sleeps left (next_delay delay) id (record t { slept = t.slept + delay }),
      )

  -- Whatever the node, the database and the balance sync answer, following a Solana transaction
  -- ends after sleeping for at most 1680 seconds.
  pub solana_confirmation_sleeps :
      (id : String) (s : World)
      → (world_of (monitor_solana_confirmation env id s)).slept ≤ s.slept + 1680
  unfolding monitor_solana_confirmation call
  solana_confirmation_sleeps id s =
      ground (arith, watch_sleeps (max_attempts - 1) 2 id (record s { tick = suc s.tick }))

-- Following a transaction from `s` gives up, after exactly 1680 seconds; the row of `w` is marked
-- for it, and the balances and transaction records are as before.
abbrev pub GivesUp : Env → String → Withdrawal → World → Type 0
GivesUp env id w s =
    (t : World) × (monitor_solana_confirmation env id s ≡ err monitoring_timeout t)
    × (t.slept ≡ s.slept + 1680)
    × (t.db.balances ≡ s.db.balances)
    × (t.db.transactions ≡ s.db.transactions)
    × ((r : Withdrawal) × (find_first (by_id id) t.db.withdrawals ≡ some r)
        × (r.status ≡ "timeout")
        × (r.tx_hash ≡ w.tx_hash))

-- The node never answers about a transaction.
abbrev pub IsSilent : Env → Type 0
IsSilent env = (n : ℕ) → (e : AppError) × (env.tx_status n ≡ unreachable e)

module _ (env : Env) (quiet : IsQuiet env) (silent : IsSilent env) (id : String)
    (w : Withdrawal) where
  silent_attempt : (s : World) → attempt env id s ≡ ok false (advance s)
  unfolding attempt
  silent_attempt s = ground (arith, (silent s.tick).1)

  -- The world after the row was marked.
  abbrev marked : World → World
  marked s =
      set_withdrawals (modify_where (by_id w.id) (timeout_row (env.now (suc s.tick))))
        (advance (advance s))

  -- The world after the rounds.
  abbrev exhausted : ℕ → ℕ → World → World
  exhausted zero delay s = advance s
  exhausted (suc left) delay s =
      exhausted left (next_delay delay) (record (advance s) { slept = s.slept + delay })

  exhausted_db : (left delay : ℕ) (s : World) → (exhausted left delay s).db ≡ s.db
  exhausted_db zero delay s = refl
  exhausted_db (suc left) delay s =
      exhausted_db left (next_delay delay) (record (advance s) { slept = s.slept + delay })

  exhausted_slept :
      (left delay : ℕ) (s : World) → (exhausted left delay s).slept ≡ s.slept + waits left delay
  exhausted_slept zero delay s = omega arith
  exhausted_slept (suc left) delay s = ground (
    arith,
    exhausted_slept left (next_delay delay) (record (advance s) { slept = s.slept + delay }),
  )

  silent_watch :
      (left delay : ℕ) (s : World)
      → watch env left delay id s ≡ give_up env id (exhausted left delay s)
  unfolding watch
  silent_watch zero delay s = ground (arith, silent_attempt s)
  silent_watch (suc left) delay s = ground (
    arith,
    silent_attempt s,
    silent_watch left (next_delay delay) (record (advance s) { slept = s.slept + delay }),
  )

  gives_up :
      (s : World)
      → find_first (by_id id) s.db.withdrawals ≡ some w
      → give_up env id s ≡ err monitoring_timeout (marked s)
  unfolding give_up find_withdrawal update_withdrawal call
  gives_up s listed =
      let same : w.id ≡ id =
        (eq_iff w.id id).0 (find_first_holds (by_id id) s.db.withdrawals w listed) in
      let self : find_first (by_id w.id) s.db.withdrawals ≡ some w = ground (arith, same, listed) in
      ground (arith, quiet s.tick, quiet (suc s.tick), self)

  -- When the database answers and the node never does: following the transaction of a withdrawal
  -- that exists ends with the timeout error after exactly 1680 seconds of sleep, the withdrawal is
  -- marked "timeout" with its hash kept, and no balance and no transaction record changed.
  pub silent_node-GivesUp :
      (s : World) → find_first (by_id id) s.db.withdrawals ≡ some w → GivesUp env id w s
  unfolding monitor_solana_confirmation call
  silent_node-GivesUp s listed =
      let p : World = advance s in
      let u : World = exhausted 59 2 p in
      let same : u.db ≡ s.db = exhausted_db 59 2 p in
      let there : find_first (by_id id) u.db.withdrawals ≡ some w =
        ap (λ d. find_first (by_id id) d.withdrawals) same ∙ listed in
      let row = timeout_row (env.now (suc u.tick)) in
      (
        marked u,
        ground (arith, quiet s.tick, silent_watch 59 2 p, gives_up u there),
        exhausted_slept 59 2 p,
        ap (λ d. d.balances) same,
        ap (λ d. d.transactions) same,
        (
          row w,
          find_first-modify_where (by_id id) (by_id w.id) row (λ x. refl) u.db.withdrawals w there
              (eq_refl w.id),
          refl,
          refl,
        ),
      )
