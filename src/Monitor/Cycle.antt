-- ===== src/Monitor/Cycle.antt =====
-- One cycle of the monitor, over every row that it selects.
use zabypay_core.Prelude.{
  ℕ, String, List, [], ◌∷◌, none, some, true, false, Bool, ◌≡◌, refl, arith, str_eq, inl, inr, ◌≤◌,
  ◌+◌, eq_iff, Option-cases, ℤ, length,
}
use zabypay_core.Prelude.Table.{
  find_first, modify_where, filter_rows, find_first-modify_where_other, find_first_holds,
}
use zabypay_core.Entities.{Withdrawal}
use zabypay_core.Store.{
  Env, World, Outcome, ok, err, by_id, advance, world_of, call, update_withdrawal, find_balance,
  update_balance, insert_transaction,
}
use zabypay_core.Monitor.{
  count_done, process_withdrawal_confirmation, settle_confirmation, finalize_withdrawal_deduction,
  needs_monitoring, monitor_each, monitor_pending_withdrawals, confirm_row, progress_row,
}
use zabypay_core.Monitor.Confirm.{process_of_counts}
use zabypay_core.Monitor.Chain.{get_chain_config, check_blockchain_confirmations}

-- No row of the list has this primary key.
abbrev pub IsAbsent : String → List Withdrawal → Type 0
IsAbsent id [] = Unit {0}
IsAbsent id (w ∷ rest) = (str_eq w.id id ≡ false) × IsAbsent id rest

module _ (env : Env) (id : String) (r : Withdrawal) where
  settle_confirmation_other :
      (w : Withdrawal) (c f : ℤ) (s : World)
      → str_eq w.id id ≡ false
      → find_first (by_id id) s.db.withdrawals ≡ some r
      → find_first (by_id id) (world_of (settle_confirmation env w c f s)).db.withdrawals ≡ some r
  unfolding settle_confirmation finalize_withdrawal_deduction update_withdrawal find_balance
      update_balance insert_transaction call
  settle_confirmation_other w c f s other listed = ground (
    arith,
    other_row (confirm_row c (env.now s.tick)) (λ x. refl),
    other_row (progress_row c (env.now s.tick)) (λ x. refl),
  )
    where
      apart : str_eq r.id w.id ≡ false
      apart = ground (
        arith,
        find_first_holds (by_id id) s.db.withdrawals r listed,
        eq_iff r.id id,
        eq_iff r.id w.id,
        eq_iff w.id id,
      )

      other_row :
          (patch : Withdrawal → Withdrawal)
          → ((x : Withdrawal) → str_eq (patch x).id id ≡ str_eq x.id id)
          → find_first (by_id id) (modify_where (by_id w.id) patch s.db.withdrawals) ≡ some r
      other_row patch keep =
          find_first-modify_where_other (by_id id) (by_id w.id) patch keep s.db.withdrawals r listed
            apart

  process_other :
      (w : Withdrawal) (s : World)
      → str_eq w.id id ≡ false
      → find_first (by_id id) s.db.withdrawals ≡ some r
      → find_first (by_id id) (world_of (process_withdrawal_confirmation env w s)).db.withdrawals
        ≡ some r
  unfolding process_withdrawal_confirmation
  process_other w s other listed = elim (Option-cases w.tx_hash) [
    | inl e ↦ ground arith
    | inr (hash, hashed) ↦ elim (Option-cases (check_blockchain_confirmations hash w.network)) [
      | inl e ↦ ground arith
      | inr (c, counted) ↦ rw (process_of_counts env w s hash c hashed counted) (
          settle_confirmation_other w c
            (get_chain_config w.network w.environment).finality_confirmations s other listed)
    ]
  ]

  monitor_each-other :
      (pending : List Withdrawal) (n : ℕ) (s : World)
      → IsAbsent id pending
      → find_first (by_id id) s.db.withdrawals ≡ some r
      → find_first (by_id id) (world_of (monitor_each env n pending s)).db.withdrawals ≡ some r
  unfolding monitor_each
  monitor_each-other [] n s absent listed = listed
  monitor_each-other (w ∷ rest) n s (other, absent) listed =
      monitor_each-other rest _ _ absent (process_other w s other listed)

  -- Whatever the database does in a cycle, a withdrawal that the cycle's filters do not select
  -- keeps its row.
  pub cycle_keeps_others :
      (s : World)
      → IsAbsent id (filter_rows needs_monitoring s.db.withdrawals)
      → find_first (by_id id) s.db.withdrawals ≡ some r
      → find_first (by_id id) (world_of (monitor_pending_withdrawals env s)).db.withdrawals ≡ some r
  unfolding monitor_pending_withdrawals call
  cycle_keeps_others s absent listed = ground (
    arith,
    monitor_each-other (filter_rows needs_monitoring s.db.withdrawals) 0 (advance s) absent listed,
  )

count_done-le : (o : Outcome Bool) (n : ℕ) → count_done o n ≤ n + 1
count_done-le (ok true w) n = omega arith
count_done-le (ok false w) n = omega arith
count_done-le (err e w) n = omega arith

monitor_each_total :
    (env : Env) (pending : List Withdrawal) (n : ℕ) (s : World)
    → (m : ℕ) × (monitor_each env n pending s ≡ ok m (world_of (monitor_each env n pending s)))
      × (m ≤ n + length pending)
unfolding monitor_each
monitor_each_total env [] n s = (n, refl, omega arith)
monitor_each_total env (w ∷ rest) n s =
    let r : Outcome Bool = process_withdrawal_confirmation env w s in
    let (m, result, bound) = monitor_each_total env rest (count_done r n) (world_of r) in
    (m, result, omega (arith, bound, count_done-le r n))

-- Only the first query of a cycle can make it fail: once that is answered the cycle ends with a
-- count, of at most the withdrawals that it selected.
cycle_completes :
    (env : Env) (s : World)
    → env.fault s.tick ≡ none
    → (m : ℕ) × (monitor_pending_withdrawals env s
        ≡ ok m (world_of (monitor_pending_withdrawals env s)))
      × (m ≤ length (filter_rows needs_monitoring s.db.withdrawals))
unfolding monitor_pending_withdrawals call
cycle_completes env s works =
    let all =
      monitor_each_total env (filter_rows needs_monitoring s.db.withdrawals) 0 (advance s) in
    (all.0, ground (arith, all.1), omega (arith, all.2))
