-- ===== src/Processor/Settle.antt =====
-- Closing a withdrawal: `finalize_wallet_balance` and `fallback_time_based_confirmation`.
use zabypay_core.Prelude.{ℕ, ℤ, pos, String, some, ◌-ℤ◌}
use zabypay_core.Errors.{database_error, not_found}
use zabypay_core.Entities.{Withdrawal, Balance, total_of}
use zabypay_core.Store.{
  Env, M, pure, ◌>>=◌, ◌>>◌, ok_or, clock, sleep, ignoring, find_withdrawal, find_balance,
  update_withdrawal, update_balance,
}
use zabypay_core.BalanceSync.{sync_wallet_balances_from_payments_for_environment}

abbrev pub settled_row : ℤ → Balance → ℕ → Balance → Balance
settled_row total read now row = record row {
  pending_balance = read.pending_balance -ℤ total;
  total_balance = read.total_balance -ℤ total;
  last_updated = now;
}

-- `fallback_time_based_confirmation` assumes six confirmations.
abbrev pub assumed_row : ℕ → Withdrawal → Withdrawal
assumed_row now row = record row {
  status = "confirmed";
  blockchain_confirmations = some (pos 6);
  confirmed_at = some now;
  updated_at = now;
}

module _ (env : Env) where
  -- The call of the balance sync, whose failure is logged and passed over.
  unfoldable pub sync_balances : Withdrawal → M (Unit {0})
  sync_balances w =
      ignoring (sync_wallet_balances_from_payments_for_environment env w.merchant_id w.environment)

  -- `finalize_wallet_balance` up to the balance sync.
  unfoldable pub settle_balance : Withdrawal → M (Unit {0})
  settle_balance w = do
    found ← find_balance env database_error w.wallet_id
    read ← ok_or (not_found "Wallet balance not found") found
    now ← clock env
    update_balance env database_error read.id (settled_row (total_of w) read now)

  unfoldable pub finalize_wallet_balance : Withdrawal → M (Unit {0})
  finalize_wallet_balance w = do settle_balance w; sync_balances w

  unfoldable pub fallback_time_based_confirmation : String → M (Unit {0})
  fallback_time_based_confirmation id = do
    sleep 30
    found ← find_withdrawal env database_error id
    w ← ok_or (not_found "Withdrawal not found") found
    now ← clock env
    finalize_wallet_balance w
    _ ← update_withdrawal env database_error w.id (assumed_row now)
    pure tt
