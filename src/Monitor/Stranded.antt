-- ===== src/Monitor/Stranded.antt =====
-- What an error of `process_withdrawal_confirmation` leaves behind.
use text.Mathlib.TextPositions.{eq_refl}
use zabypay_core.Prelude.{
  ℕ, ℤ, suc, String, none, some, true, false, ◌≡◌, refl, sym, ◌∙◌, arith, ◌⊎◌, inl, inr,
  Option-cases,
}
use zabypay_core.Prelude.Table.{find_first, modify_where, find_first-modify_where}
use zabypay_core.States.{funds_text}
use zabypay_core.Entities.{Withdrawal}
use zabypay_core.Store.{
  Env, World, err, advance, by_id, update_withdrawal, find_balance, update_balance,
  insert_transaction, call,
}
use zabypay_core.Errors.{AppError}
use zabypay_core.Store.Laws.{set_withdrawals}
use zabypay_core.Monitor.{
  confirm_row, settle_confirmation, process_withdrawal_confirmation, finalize_withdrawal_deduction,
  needs_monitoring, fetch_balance_error,
}
use zabypay_core.Monitor.Chain.{get_chain_config, check_blockchain_confirmations}
use zabypay_core.Monitor.Confirm.{
  IsConfirmed, confirm_row-IsConfirmed, known_counts, process_of_counts, is_settled,
}

module _ (env : Env) (w : Withdrawal) (s : World) where
  settle_confirmation_error :
      (confirmations finality : ℤ) (e : AppError) (t : World)
      → settle_confirmation env w confirmations finality s ≡ err e t
      → (t.db.transactions ≡ s.db.transactions)
        × ((t.db ≡ s.db)
            ⊎ (t.db.withdrawals
                ≡ modify_where
                    (by_id w.id)
                    (confirm_row confirmations (env.now s.tick))
                    s.db.withdrawals))
  unfolding settle_confirmation finalize_withdrawal_deduction update_withdrawal find_balance
      update_balance insert_transaction call
  settle_confirmation_error confirmations finality e t h = ground arith

-- From `s` to `t` no transaction was recorded, and at most the row of `w` was confirmed before
-- anything else changed.
abbrev pub LeavesMarked : Env → Withdrawal → World → World → Type 0
LeavesMarked env w s t =
    (t.db.transactions ≡ s.db.transactions)
    × ((t.db ≡ s.db)
        ⊎ ((confirmations : ℤ) × (t.db.withdrawals
              ≡ modify_where (by_id w.id) (confirm_row confirmations (env.now s.tick))
                  s.db.withdrawals)))

-- Whatever the database does, a monitoring step that reports an error has recorded no transaction,
-- and has either changed no row at all or already marked the withdrawal's row as confirmed.
pub confirmation_error :
    (env : Env) (w : Withdrawal) (s : World) (e : AppError) (t : World)
    → process_withdrawal_confirmation env w s ≡ err e t
    → LeavesMarked env w s t
unfolding process_withdrawal_confirmation
confirmation_error env w s e t h = elim (Option-cases w.tx_hash) [
  | inl none_hash ↦ absurd (ground arith)
  | inr (hash, hashed) ↦ elim (Option-cases (check_blockchain_confirmations hash w.network)) [
    | inl none_count ↦ absurd (ground arith)
    | inr (c, counted) ↦
        let (recorded, changed) =
          settle_confirmation_error env w s c
            (get_chain_config w.network w.environment).finality_confirmations e t
            (sym (process_of_counts env w s hash c hashed counted) ∙ h) in
        (recorded, elim changed [ inl a ↦ inl a | inr b ↦ inr (c, b) ])
  ]
]

-- A confirmed row is not monitored again.
pub needs_monitoring-confirm_row :
    (confirmations : ℤ) (now : ℕ) (w : Withdrawal)
    → needs_monitoring (confirm_row confirmations now w) ≡ false
unfolding needs_monitoring funds_text
needs_monitoring-confirm_row confirmations now w = refl

-- A monitoring step fails, with the row confirmed and every balance as it was.
abbrev pub IsStranded : Env → Withdrawal → World → String → Type 0
IsStranded env w s why =
    (t : World) × (process_withdrawal_confirmation env w s ≡ err (fetch_balance_error why) t)
    × (t.db.balances ≡ s.db.balances)
    × ((r : Withdrawal) × (find_first (by_id w.id) t.db.withdrawals ≡ some r)
        × IsConfirmed r
        × (needs_monitoring r ≡ false))

-- Where the update of the withdrawal goes through and the read of the balance after it fails, the
-- step reports the error with every balance as it was, while the withdrawal's row is confirmed and
-- no later cycle selects it: its funds stay locked.
pub confirmation-IsStranded :
    (env : Env) (w : Withdrawal) (s : World) (hash why : String)
    → find_first (by_id w.id) s.db.withdrawals ≡ some w
    → w.tx_hash ≡ some hash
    → is_settled w.network w.environment ≡ true
    → env.fault s.tick ≡ none
    → env.fault (suc s.tick) ≡ some why
    → IsStranded env w s why
unfolding settle_confirmation finalize_withdrawal_deduction update_withdrawal find_balance call
confirmation-IsStranded env w s hash why listed hashed settled works fails =
    let counts = known_counts hash w.network w.environment settled in
    let c : ℤ = counts.0 in
    let t : World =
      set_withdrawals (modify_where (by_id w.id) (confirm_row c (env.now s.tick)))
        (advance (advance s)) in
    (
      t,
      process_of_counts env w s hash c hashed counts.1 ∙ ground (arith, counts.2),
      refl,
      (
        confirm_row c (env.now s.tick) w,
        find_first-modify_where (by_id w.id) (by_id w.id) (confirm_row c (env.now s.tick))
            (λ x. refl) s.db.withdrawals w listed (eq_refl w.id),
        confirm_row-IsConfirmed c (env.now s.tick) w,
        needs_monitoring-confirm_row c (env.now s.tick) w,
      ),
    )
