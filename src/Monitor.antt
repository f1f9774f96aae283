-- ===== src/Monitor.antt =====
-- The confirmation monitor of withdrawals: src/shared/service/withdrawal_monitor.rs.
-- `start_monitoring` runs `monitor_pending_withdrawals` for ever, every 30 seconds.
pub mod Chain
pub mod Funds
mod Tests
pub mod Cycle
pub mod Confirm
pub mod Stranded
pub mod Failure
use zabypay_core.Prelude.{
  ℕ, ℤ, pos, String, Bool, true, false, Option, none, some, List, [], ◌∷◌, ◌+ℤ◌, ◌-ℤ◌, neg,
  max_zero, leb_ℤ, ◌<>◌, ◌&&◌, ◌||◌, str_eq, suc, if◌then◌else◌,
}
use zabypay_core.Prelude.Table.{filter_rows}
use zabypay_core.Errors.{AppError, database_error, not_found}
use zabypay_core.States.{FundsState, LifecycleState, funds_text, lifecycle_text}
use zabypay_core.Entities.{Withdrawal, Balance, WalletTransaction, fee_or_zero, total_of}
use zabypay_core.Store.{
  Env, World, Outcome, ok, err, M, pure, throw, ◌>>=◌, ◌>>◌, ok_or, call, clock, fresh_id, world_of,
  find_withdrawal, find_balance, update_withdrawal, update_balance, insert_transaction,
}
use zabypay_core.Monitor.Chain.{get_chain_config, check_blockchain_confirmations}

abbrev pub fetch_withdrawal_error : String → AppError
fetch_withdrawal_error e = database_error ("Failed to fetch withdrawal: " <> e)

abbrev pub update_withdrawal_error : String → AppError
update_withdrawal_error e = database_error ("Failed to update withdrawal: " <> e)

abbrev pub update_failed_error : String → AppError
update_failed_error e = database_error ("Failed to update failed withdrawal: " <> e)

abbrev pub fetch_balance_error : String → AppError
fetch_balance_error e = database_error ("Failed to fetch wallet balance: " <> e)

abbrev pub update_balance_error : String → AppError
update_balance_error e = database_error ("Failed to update balance: " <> e)

abbrev pub final_transaction_error : String → AppError
final_transaction_error e = database_error ("Failed to create final transaction: " <> e)

abbrev pub release_transaction_error : String → AppError
release_transaction_error e = database_error ("Failed to create release transaction: " <> e)

abbrev pub balance_missing : AppError
balance_missing = not_found "Wallet balance not found"

-- The columns that a deduction sets, from the balance that was read.
abbrev pub deduct : ℤ → Balance → ℕ → Balance → Balance
deduct total read now row = record row {
  total_balance = max_zero (read.total_balance -ℤ total);
  locked_balance = max_zero (read.locked_balance -ℤ total);
  last_updated = now;
}

-- The columns that a release sets, from the balance that was read.
abbrev pub release : ℤ → Balance → ℕ → Balance → Balance
release total read now row = record row {
  available_balance = read.available_balance +ℤ total;
  locked_balance = max_zero (read.locked_balance -ℤ total);
  last_updated = now;
}

abbrev pub final_row : String → ℕ → Withdrawal → Balance → WalletTransaction
final_row id now w read = record {
  id = id;
  wallet_id = w.wallet_id;
  transaction_type = "withdrawal_confirmed";
  currency = w.currency;
  amount = w.amount;
  fee = w.fee;
  net_amount = neg w.net_amount;
  balance_before = read.total_balance;
  balance_after = read.total_balance -ℤ total_of w;
  tx_hash = w.tx_hash;
  from_address = none;
  to_address = some w.to_address;
  status = "confirmed";
  description = some "Withdrawal confirmed and deducted";
  related_entity_type = some "withdrawal_request";
  related_entity_id = some w.id;
  created_at = now;
  processed_at = some now;
}

abbrev pub release_row : String → ℕ → Withdrawal → Balance → WalletTransaction
release_row id now w read = record {
  id = id;
  wallet_id = w.wallet_id;
  transaction_type = "withdrawal_refund";
  currency = w.currency;
  amount = w.amount;
  fee = w.fee;
  net_amount = total_of w;
  balance_before = read.available_balance;
  balance_after = read.available_balance +ℤ total_of w;
  tx_hash = none;
  from_address = none;
  to_address = none;
  status = "completed";
  description = some "Withdrawal failed - funds released back to available balance";
  related_entity_type = some "withdrawal_request";
  related_entity_id = some w.id;
  created_at = now;
  processed_at = some now;
}

-- What `process_withdrawal_confirmation` sets on the row when finality is reached.
abbrev pub confirm_row : ℤ → ℕ → Withdrawal → Withdrawal
confirm_row confirmations now row = record row {
  status = "confirmed";
  blockchain_confirmations = some confirmations;
  updated_at = now;
  finality_reached_at = some now;
  lifecycle_state = lifecycle_text LifecycleState.confirmed;
  withdrawal_funds_state = funds_text FundsState.confirmed;
}

-- What it sets while it still waits for finality.
abbrev pub progress_row : ℤ → ℕ → Withdrawal → Withdrawal
progress_row confirmations now row = record row {
  blockchain_confirmations = some confirmations;
  updated_at = now;
  lifecycle_state = lifecycle_text LifecycleState.processing;
}

abbrev pub fail_row : String → ℕ → Withdrawal → Withdrawal
fail_row reason now row = record row {
  status = "failed";
  updated_at = now;
  failed_at = some now;
  failure_reason = some reason;
  lifecycle_state = lifecycle_text LifecycleState.failed;
  withdrawal_funds_state = funds_text FundsState.released;
}

-- The filters of `monitor_pending_withdrawals`.
unfoldable pub needs_monitoring : Withdrawal → Bool
needs_monitoring w =
    (str_eq w.status "broadcasted" || str_eq w.status "pending" || str_eq w.status "processing")
    && str_eq w.withdrawal_funds_state (funds_text FundsState.locked)
    && elim w.tx_hash [ none ↦ false | some _ ↦ true ]

abbrev pub count_done : Outcome Bool → ℕ → ℕ
count_done (ok true w) n = suc n
count_done (ok false w) n = n
count_done (err e w) n = n

module _ (env : Env) where
  unfoldable pub finalize_withdrawal_deduction : Withdrawal → M (Unit {0})
  finalize_withdrawal_deduction w = do
    found ← find_balance env fetch_balance_error w.wallet_id
    read ← ok_or balance_missing found
    now ← clock env
    update_balance env update_balance_error read.id (deduct (total_of w) read now)
    id ← fresh_id env
    created ← clock env
    insert_transaction env final_transaction_error (final_row id created w read)

  unfoldable pub release_locked_funds : Withdrawal → M (Unit {0})
  release_locked_funds w = do
    found ← find_balance env fetch_balance_error w.wallet_id
    read ← ok_or balance_missing found
    now ← clock env
    update_balance env update_balance_error read.id (release (total_of w) read now)
    id ← fresh_id env
    created ← clock env
    insert_transaction env release_transaction_error (release_row id created w read)

  -- The two ends of `process_withdrawal_confirmation`, once the confirmations are known.
  unfoldable pub settle_confirmation : Withdrawal → ℤ → ℤ → M Bool
  settle_confirmation w confirmations finality =
      if leb_ℤ finality confirmations
      then (do
        now ← clock env
        _ ← update_withdrawal env update_withdrawal_error w.id (confirm_row confirmations now)
        finalize_withdrawal_deduction w
        pure true)
      else (do
        now ← clock env
        _ ← update_withdrawal env update_withdrawal_error w.id (progress_row confirmations now)
        pure false)

  unfoldable pub process_withdrawal_confirmation : Withdrawal → M Bool
  process_withdrawal_confirmation w = elim w.tx_hash [
    | none ↦ pure false
    | some tx_hash ↦ elim (check_blockchain_confirmations tx_hash w.network) [
      | none ↦ pure false
      | some confirmations ↦
          settle_confirmation w confirmations
            (get_chain_config w.network w.environment).finality_confirmations
    ]
  ]

  unfoldable pub handle_withdrawal_failure : String → String → M (Unit {0})
  handle_withdrawal_failure withdrawal_id reason = do
    found ← find_withdrawal env fetch_withdrawal_error withdrawal_id
    w ← ok_or (not_found "Withdrawal not found") found
    now ← clock env
    _ ← update_withdrawal env update_failed_error w.id (fail_row reason now)
    release_locked_funds w

  -- The loop over the rows that were read; an error of one withdrawal is logged and passed over.
  unfoldable pub monitor_each : ℕ → List Withdrawal → M ℕ
  monitor_each completed [] s = ok completed s
  monitor_each completed (w ∷ rest) s =
      let r = process_withdrawal_confirmation w s in
      monitor_each (count_done r completed) rest (world_of r)

  -- One cycle, with the count that the source logs as its result.
  unfoldable pub monitor_pending_withdrawals : M ℕ
  monitor_pending_withdrawals = do
    call env (λ e. database_error ("Failed to fetch pending withdrawals: " <> e))
    pending ← (λ s. ok (filter_rows needs_monitoring s.db.withdrawals) s)
    monitor_each 0 pending
