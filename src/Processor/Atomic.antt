-- ===== src/Processor/Atomic.antt =====
-- What a failed run of the processor leaves behind, whatever failed.
use zabypay_core.Prelude.{
  Option-cases, ℕ, suc, String, true, none, some, ◌≡◌, ◌⊎◌, inl, inr, refl, arith, eq_iff,
}
use text.Mathlib.TextPositions.{eq_refl}
use zabypay_core.Prelude.Table.{find_first, modify_where, find_first-modify_where, find_first_holds}
use zabypay_core.Errors.{AppError, database_error, display}
use zabypay_core.Entities.{Withdrawal}
use zabypay_core.Store.{
  Env, World, Outcome, ok, err, advance, world_of, by_id, call, find_withdrawal, update_withdrawal,
  transaction,
}
use zabypay_core.Store.Laws.{
  IsQuiet, set_withdrawals, find_withdrawal-quiet, update_withdrawal-quiet, call-quiet,
}
use zabypay_core.Processor.Submit.{
  failed_row, is_processed, already_processed, mark_withdrawal_failed, submit,
  process_withdrawal_internal, process_withdrawal, or_mark_failed,
}

-- From `a` to `b` no balance, no wallet and no transaction record changed.
abbrev pub KeepsFunds : World → World → Type 0
KeepsFunds a b =
    (b.db.balances ≡ a.db.balances)
    × (b.db.wallets ≡ a.db.wallets)
    × (b.db.transactions ≡ a.db.transactions)

-- The withdrawals of `b` are those of `a`, but that the row with this key may be marked as failed.
abbrev pub MarksAtMost : String → String → World → World → Type 0
MarksAtMost id reason a b =
    (b.db.withdrawals ≡ a.db.withdrawals)
    ⊎ ((now : ℕ) × (b.db.withdrawals
          ≡ modify_where (by_id id) (failed_row reason now) a.db.withdrawals))

module _ (env : Env) (id : String) where
  -- An error of the internal function undoes the tables.
  internal_error :
      (s : World) (e : AppError) (t : World)
      → process_withdrawal_internal env id s ≡ err e t
      → t.db ≡ s.db
  unfolding process_withdrawal_internal transaction
  internal_error s e t h = ground arith

  mark-KeepsFunds :
      (reason : String) (s : World)
      → KeepsFunds s (world_of (mark_withdrawal_failed env id reason s))
  unfolding mark_withdrawal_failed find_withdrawal update_withdrawal call
  mark-KeepsFunds reason s = ground arith

  -- The row with this key is marked, where the two calls are answered.
  mark_found :
      (reason : String) (s : World) (w : Withdrawal)
      → env.fault s.tick ≡ none
      → find_first (by_id id) s.db.withdrawals ≡ some w
      → MarksAtMost id reason s (world_of (mark_withdrawal_failed env id reason s))
  unfolding mark_withdrawal_failed find_withdrawal update_withdrawal call
  mark_found reason s w quiet listed =
      let same : w.id ≡ id =
        (eq_iff w.id id).0 (find_first_holds (by_id id) s.db.withdrawals w listed) in
      elim (Option-cases (env.fault (suc s.tick))) [
        | inl e ↦ inr (env.now (suc s.tick), ground (arith, same))
        | inr (why, e) ↦ inl (ground arith)
      ]

  mark_at_most :
      (reason : String) (s : World)
      → MarksAtMost id reason s (world_of (mark_withdrawal_failed env id reason s))
  unfolding mark_withdrawal_failed find_withdrawal call
  mark_at_most reason s = elim (Option-cases (env.fault s.tick)) [
    | inr (why, e) ↦ inl (ground arith)
    | inl quiet ↦ elim (Option-cases (find_first (by_id id) s.db.withdrawals)) [
      | inl e ↦ inl (ground arith)
      | inr (w, listed) ↦ mark_found reason s w quiet listed
    ]
  ]

  -- Whatever failed, at whichever call: a run of the processor that reports an error has changed no
  -- balance, no wallet and no transaction record, and no withdrawal but that the one processed may
  -- be marked as failed, with the error's text as the reason.
  pub process_error_atomic :
      (s : World) (e : AppError) (t : World)
      → process_withdrawal env id s ≡ err e t
      → KeepsFunds s t × MarksAtMost id (display e) s t
  unfolding process_withdrawal or_mark_failed
  process_error_atomic s e t h = go (process_withdrawal_internal env id s) refl h
    where
      go :
          (o : Outcome String)
          → process_withdrawal_internal env id s ≡ o
          → or_mark_failed env id o ≡ err e t
          → KeepsFunds s t × MarksAtMost id (display e) s t
      go (ok hash u) same h = absurd (cc)
      go (err e' u) same h =
          let undone = internal_error s e' u same in
          ground (arith, undone, mark-KeepsFunds (display e') u, mark_at_most (display e') u)

-- A run for `w` on `s` is refused, and the row of `w` is failed after it.
abbrev pub FailsProcessed : Env → String → Withdrawal → World → Type 0
FailsProcessed env id w s =
    (t : World) × (process_withdrawal env id s ≡ err (already_processed w) t)
    × ((r : Withdrawal) × (find_first (by_id id) t.db.withdrawals ≡ some r)
        × (r.status ≡ "failed")
        × (r.tx_hash ≡ w.tx_hash))

module _ (env : Env) (quiet : IsQuiet env) (id : String) (w : Withdrawal) (s : World)
    (listed : find_first (by_id id) s.db.withdrawals ≡ some w) where
  same_id : w.id ≡ id
  same_id = (eq_iff w.id id).0 (find_first_holds (by_id id) s.db.withdrawals w listed)

  listed_self : find_first (by_id w.id) s.db.withdrawals ≡ some w
  listed_self = ground (arith, same_id, listed)

  refused_world : World
  refused_world = record s { tick = suc (suc s.tick) }

  internal_refuses :
      is_processed w ≡ true
      → process_withdrawal_internal env id s ≡ err (already_processed w) refused_world
  unfolding process_withdrawal_internal transaction submit refused_world
  internal_refuses processed = ground (
    arith,
    call-quiet env quiet database_error s,
    find_withdrawal-quiet env quiet database_error (advance s) id,
  )

  -- When the database answers: a run for a withdrawal whose status is neither "pending" nor
  -- "processing", a confirmed one for example, is refused, and it marks that withdrawal as failed,
  -- with its transaction hash kept.
  pub process_again-FailsProcessed : is_processed w ≡ true → FailsProcessed env id w s
  unfolding process_withdrawal or_mark_failed mark_withdrawal_failed refused_world
  process_again-FailsProcessed processed =
      let reason : String = display (already_processed w) in
      let u : World = refused_world in
      let row = failed_row reason (env.now (suc u.tick)) in
      (
        set_withdrawals (modify_where (by_id w.id) row) (advance (advance u)),
        ground (
          arith,
          internal_refuses processed,
          find_withdrawal-quiet env quiet database_error u id,
          update_withdrawal-quiet env quiet database_error (advance u) w.id row w listed_self,
        ),
        (
          row w,
          find_first-modify_where (by_id id) (by_id w.id) row (λ x. refl) s.db.withdrawals w listed
              (eq_refl w.id),
          refl,
          refl,
        ),
      )
