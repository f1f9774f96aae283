-- ===== src/MultiWallet/Process.antt =====
-- A run of the processor spares the available, the locked and the total balances.
use zabypay_core.Prelude.{String, refl, inl, inr, Bool-cases, if◌then◌else◌}
use zabypay_core.Errors.{database_error, not_found, display}
use zabypay_core.Entities.{Withdrawal, Balance, Wallet, total_of}
use zabypay_core.Store.{
  Env, World, Outcome, ok, err, M, pure, throw, ◌>>=◌, ok_or, clock, world_of, rolled_back, call,
  find_withdrawal, find_balance, find_wallet, update_withdrawal, update_balance, insert_transaction,
  transaction,
}
use zabypay_core.Processor.Submit.{
  pending_row, processing_row, request_row, is_processed, already_processed, mark_withdrawal_failed,
  send_on_network, record_withdrawal, submit, spawn, process_withdrawal_internal, or_mark_failed,
  process_withdrawal,
}
use zabypay_core.MultiWallet.Spares.{
  Spares, IsSparing, same-Spares, refl-Spares, trans-Spares, bind-IsSparing, ok_or-IsSparing,
  rolled_back_lem, call-IsSparing, find_withdrawal-IsSparing, find_wallet-IsSparing,
  find_balance-IsSparing, update_withdrawal-IsSparing, insert_transaction-IsSparing, send-IsSparing,
  mark-IsSparing, update_pending-IsSparing,
}

module _ (env : Env) where
  record-IsSparing :
      (w : Withdrawal) (wallet : Wallet) (hash : String)
      → IsSparing (record_withdrawal env w wallet hash)
  unfolding record_withdrawal
  record-IsSparing w wallet hash =
      let found = find_balance env database_error wallet.id in
      let missing = not_found "Wallet balance not found" in
      let noted : Balance → M (Unit {0}) = λ read s.
        insert_transaction env database_error
          (request_row (env.uuid s.tick) (env.now s.tick) w wallet read hash) s in
      let rest : Balance → M (Unit {0}) = λ read. clock env >>= λ now.
      update_balance env database_error read.id (pending_row (total_of w) read now) >>= λ _.
      noted read in
      bind-IsSparing found (λ x. ok_or missing x >>= rest)
        (find_balance-IsSparing env database_error wallet.id)
        (λ x. bind-IsSparing (ok_or missing x) rest (ok_or-IsSparing missing x) (λ read s.
          bind-IsSparing
            (update_balance env database_error read.id
              (pending_row (total_of w) read (env.now s.tick)))
            (λ _. noted read)
            (update_pending-IsSparing env read.id (total_of w) read (env.now s.tick))
            (λ _ t.
              insert_transaction-IsSparing env database_error
                (request_row (env.uuid t.tick) (env.now t.tick) w wallet read hash) t)
            s))

  submit-IsSparing : (id : String) → IsSparing (submit env id)
  unfolding submit
  submit-IsSparing id =
      let found = find_withdrawal env database_error id in
      let no_row = not_found "Withdrawal not found" in
      let no_wallet = not_found "Wallet not found" in
      let last : Withdrawal → Wallet → String → M String =
        λ w wallet hash. record_withdrawal env w wallet hash >>= λ _. pure hash in
      let sending : Withdrawal → Wallet → M String = λ w wallet. clock env >>= λ now.
      update_withdrawal env database_error w.id (processing_row now) >>= λ _.
      send_on_network env w wallet >>= last w wallet in
      let owning : Withdrawal → M String =
        λ w. find_wallet env database_error w.wallet_id >>= λ x. ok_or no_wallet x >>= sending w in
      let checked : Withdrawal → M String =
        λ w. (if is_processed w then throw (already_processed w) else pure tt) >>= λ _. owning w in
      bind-IsSparing found (λ x. ok_or no_row x >>= checked)
        (find_withdrawal-IsSparing env database_error id)
        (λ x. bind-IsSparing (ok_or no_row x) checked (ok_or-IsSparing no_row x) (λ w.
          bind-IsSparing (if is_processed w then throw (already_processed w) else pure tt)
            (λ _. owning w)
            (elim (Bool-cases (is_processed w)) [
              | inl e ↦ rw e (λ s. refl-Spares s)
              | inr e ↦ rw e (λ s. refl-Spares s)
            ])
            (λ _.
              bind-IsSparing (find_wallet env database_error w.wallet_id)
                (λ y. ok_or no_wallet y >>= sending w)
                (find_wallet-IsSparing env database_error w.wallet_id)
                (λ y.
                  bind-IsSparing (ok_or no_wallet y) (sending w) (ok_or-IsSparing no_wallet y)
                    (λ wallet s.
                      bind-IsSparing
                        (update_withdrawal env database_error w.id
                          (processing_row (env.now s.tick)))
                        (λ _. send_on_network env w wallet >>= last w wallet)
                        (update_withdrawal-IsSparing env database_error w.id
                          (processing_row (env.now s.tick)))
                        (λ _.
                          bind-IsSparing (send_on_network env w wallet) (last w wallet)
                            (send-IsSparing env w wallet)
                            (λ hash.
                              bind-IsSparing (record_withdrawal env w wallet hash) (λ _. pure hash)
                                (record-IsSparing w wallet hash) (λ _ t. refl-Spares t)))
                        s)))))

  internal-IsSparing : (id : String) → IsSparing (process_withdrawal_internal env id)
  unfolding process_withdrawal_internal transaction
  internal-IsSparing id =
      let body : M String = λ s. rolled_back s.db (
        (call env database_error >>= λ _.
        submit env id >>= λ a. call env database_error >>= λ _. pure a)
          s) in
      let last : String → M String = λ hash. spawn env id >>= λ _. pure hash in
      bind-IsSparing body last
        (λ s.
          rolled_back_lem s
            ((call env database_error >>= λ _.
                submit env id >>= λ a. call env database_error >>= λ _. pure a)
              s)
            (bind-IsSparing (call env database_error)
              (λ _. submit env id >>= λ a. call env database_error >>= λ _. pure a)
              (call-IsSparing env database_error)
              (λ _.
                bind-IsSparing (submit env id) (λ a. call env database_error >>= λ _. pure a)
                  (submit-IsSparing id)
                  (λ a.
                    bind-IsSparing (call env database_error) (λ _. pure a)
                      (call-IsSparing env database_error) (λ _ t. refl-Spares t)))
              s))
        (λ hash t. same-Spares t (world_of (last hash t)) refl)

  marked_lem :
      (id : String) (s : World) (o : Outcome String)
      → Spares s (world_of o)
      → Spares s (world_of (or_mark_failed env id o))
  unfolding or_mark_failed
  marked_lem id s (ok hash t) h = h
  marked_lem id s (err e t) h =
      trans-Spares s t (world_of (mark_withdrawal_failed env id (display e) t)) h
        (mark-IsSparing env id (display e) t)

  -- Whatever fails, a run of the processor spares the available, locked and total balances.
  pub process-IsSparing : (id : String) → IsSparing (process_withdrawal env id)
  unfolding process_withdrawal
  process-IsSparing id s =
      marked_lem id s (process_withdrawal_internal env id s) (internal-IsSparing id s)
