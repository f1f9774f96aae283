-- ===== src/Payments/Handlers.antt =====
-- Each handler of the monitor touches its own payment only.
use zabypay_core.Prelude.{
  ℕ, zero, suc, String, Option, none, some, refl, inl, inr, ◌<>◌, ◌||◌, if◌then◌else◌, Bool-cases,
  leb, str_eq,
}
use zabypay_core.Errors.{database_error, not_found}
use zabypay_core.Entities.{Payment}
use zabypay_core.Store.{
  Env, World, Outcome, ok, err, M, pure, ◌>>=◌, clock, ok_or, advance, world_of, rolled_back, call,
  find_payment, update_payment,
}
use zabypay_core.Payments.Moves.{
  Handles, IsHandling, same_tables, Handles-refl, Handles-trans, bind-IsHandling, ok_or-IsHandling,
  rolled_back-IsHandling, call-IsHandling, find_payment-IsHandling,
}
use zabypay_core.Payments.{
  Chain, Metadata, TransactionStatus, DetectedTransaction, required_confirmations,
  is_balance_detected, noted_confirmations, paid_row, detected_row, notify, verify, mark_paid,
  confirm_payment, settle_followed, follow, process_payment_transaction, note_detection,
  process_detected_native_payment, check_address_for_payment, check_open,
}
use zabypay_core.Payments.Writes.{
  paid-Handled, detected-Handled, notify-IsHandling, update_then, fail-IsHandling,
}

module _ (env : Env) (chain : Chain) (json : Metadata) (p : Payment) where
  verify-IsHandling : (left : ℕ) (id : String) → IsHandling p.id (verify env chain json left id)
  unfolding verify
  verify-IsHandling zero id s = Handles-refl p.id s
  verify-IsHandling (suc left) id s =
      after (λ t. verify-IsHandling left id t) (find_payment env database_error id s)
        (find_payment-IsHandling p.id env database_error id s)
    where
      seen :
          (again : IsHandling p.id (verify env chain json left id)) (t : World)
          (found : Option Payment)
          → Handles p.id s t
          → Handles p.id s (
              world_of (elim found [
                | none ↦ verify env chain json left id t
                | some q ↦
                    if str_eq q.status "paid" then ok tt t else verify env chain json left id t
              ]))
      seen again t none h = Handles-trans p.id s t _ h (again t)
      seen again t (some q) h = elim (Bool-cases (str_eq q.status "paid")) [
        | inl e ↦ rw e h
        | inr e ↦ rw e (Handles-trans p.id s t _ h (again t))
      ]

      after :
          (again : IsHandling p.id (verify env chain json left id)) (o : Outcome (Option Payment))
          → Handles p.id s (world_of o)
          → Handles p.id s (
              world_of (elim o [
                | err e t ↦ verify env chain json left id t
                | ok found t ↦ elim found [
                  | none ↦ verify env chain json left id t
                  | some q ↦
                      if str_eq q.status "paid" then ok tt t else verify env chain json left id t
                ]
              ]))
      after again (err e t) h = Handles-trans p.id s t _ h (again t)
      after again (ok found t) h = seen again t found h

  -- A read in its own, followed by the rest.
  mark-IsHandling : (hash : String) → IsHandling p.id (mark_paid env chain json p hash)
  unfolding mark_paid
  mark-IsHandling hash =
      let begun = call env (λ e. database_error ("Failed to start transaction: " <> e)) in
      let found = find_payment env database_error p.id in
      let missing = not_found "Payment not found during confirmation" in
      let done = call env (λ e. database_error ("Transaction commit failed: " <> e)) in
      let row : ℕ → Payment → Payment =
        λ now. paid_row (json.with_confirmation p.metadata hash now) now in
      let written =
        clock env >>= λ now. update_payment env database_error p.id (row now) >>= λ _. done in
      bind-IsHandling p.id begun (λ _. found >>= λ x. ok_or missing x >>= λ _. written)
        (call-IsHandling p.id env _)
        (λ _.
          bind-IsHandling p.id found (λ x. ok_or missing x >>= λ _. written)
            (find_payment-IsHandling p.id env database_error p.id)
            (λ x.
              bind-IsHandling p.id (ok_or missing x) (λ _. written)
                (ok_or-IsHandling p.id missing x)
                (λ _.
                  update_then env chain json p row (λ now x. refl)
                    (λ now x. paid-Handled (json.with_confirmation p.metadata hash now) now x) done
                    (call-IsHandling p.id env _))))

  pub confirm-IsHandling : (hash : String) → IsHandling p.id (confirm_payment env chain json p hash)
  unfolding confirm_payment
  confirm-IsHandling hash =
      let marked : M (Unit {0}) = λ s. rolled_back s.db (mark_paid env chain json p hash s) in
      let told = notify p.id "payment.confirmed" in
      bind-IsHandling p.id marked (λ _. verify env chain json 3 p.id >>= λ _. told)
        (rolled_back-IsHandling p.id (mark_paid env chain json p hash) (mark-IsHandling hash))
        (λ _.
          bind-IsHandling p.id (verify env chain json 3 p.id) (λ _. told) (verify-IsHandling 3 p.id)
            (λ _. notify-IsHandling p.id p.id "payment.confirmed"))

  settle-IsHandling :
      (hash : String) (x : Option TransactionStatus)
      → IsHandling p.id (settle_followed env chain json p hash x)
  unfolding settle_followed
  settle-IsHandling hash none s = Handles-refl p.id s
  settle-IsHandling hash (some TransactionStatus.confirmed) s = confirm-IsHandling hash s
  settle-IsHandling hash (some TransactionStatus.pending) s = Handles-refl p.id s
  settle-IsHandling hash (some TransactionStatus.failed) s = fail-IsHandling env chain json p hash s
  settle-IsHandling hash (some TransactionStatus.dropped) s =
      fail-IsHandling env chain json p hash s

  process-IsHandling :
      (hash : String) → IsHandling p.id (process_payment_transaction env chain json p hash)
  unfolding process_payment_transaction follow
  process-IsHandling hash s =
      let enough =
        is_balance_detected hash
        || leb (required_confirmations p) (noted_confirmations env chain json p.metadata) in
      elim (Bool-cases enough) [
        | inl e ↦ rw e (confirm-IsHandling hash s)
        | inr e ↦ rw e (
            Handles-trans p.id s (advance (advance s)) _
              (same_tables p.id s (advance (advance s)) refl)
              (settle-IsHandling hash (chain.transaction_status (suc s.tick))
                (advance (advance s))))
      ]

  note-IsHandling :
      (tx : DetectedTransaction) → IsHandling p.id (note_detection env chain json p tx)
  unfolding note_detection
  note-IsHandling tx =
      let begun = call env (λ e. database_error ("Failed to start payment transaction: " <> e)) in
      let done = call env (λ e. database_error ("Metadata commit failed: " <> e)) in
      let text : ℕ → String =
        λ now. json.with_detection p.metadata tx (required_confirmations p) now in
      let row : ℕ → Payment → Payment = λ now. detected_row (text now) now in
      bind-IsHandling p.id begun
        (λ _. clock env >>= λ now. update_payment env database_error p.id (row now) >>= λ _. done)
        (call-IsHandling p.id env _)
        (λ _.
          update_then env chain json p row (λ now x. refl)
            (λ now x. detected-Handled (text now) now x) done (call-IsHandling p.id env _))

  detected-IsHandling :
      (tx : DetectedTransaction)
      → IsHandling p.id (process_detected_native_payment env chain json p tx)
  unfolding process_detected_native_payment
  detected-IsHandling tx =
      let noted : M (Unit {0}) = λ s. rolled_back s.db (note_detection env chain json p tx s) in
      let enough = is_balance_detected tx.hash || leb (required_confirmations p) tx.confirmations in
      bind-IsHandling p.id noted
        (λ _. if enough then confirm_payment env chain json p tx.hash else pure tt)
        (rolled_back-IsHandling p.id (note_detection env chain json p tx) (note-IsHandling tx))
        (λ _. elim (Bool-cases enough) [
          | inl e ↦ rw e (λ s. confirm-IsHandling tx.hash s)
          | inr e ↦ rw e (λ s. Handles-refl p.id s)
        ])

  address_lem :
      (s : World) (x : Option DetectedTransaction)
      → Handles p.id s (
          world_of (elim x [
            | none ↦ ok tt (advance s)
            | some tx ↦ process_detected_native_payment env chain json p tx (advance s)
          ]))
  address_lem s none = same_tables p.id s (advance s) refl
  address_lem s (some tx) =
      Handles-trans p.id s (advance s) _ (same_tables p.id s (advance s) refl)
        (detected-IsHandling tx (advance s))

  pub open-IsHandling : (x : Option String) → IsHandling p.id (check_open env chain json p x)
  unfolding check_open check_address_for_payment
  open-IsHandling none s = address_lem s (chain.payment_received s.tick)
  open-IsHandling (some hash) s = process-IsHandling hash s
