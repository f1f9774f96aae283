-- ===== src/Payments/Jobs.antt =====
-- The other writers of a payment's status: `update_payment_status` and `mark_expired_payments` of
-- src/merchant/services/payment_service.rs.
use zabypay_core.Prelude.{ℕ, suc, String, Bool, some, List, [], ◌∷◌, str_eq, ltb, ◌&&◌}
use zabypay_core.Errors.{database_error, not_found}
use zabypay_core.Entities.{Payment}
use zabypay_core.Store.{
  Env, M, pure, ◌>>=◌, ok_or, clock, find_payment, list_payments, update_payment,
}

pub data PaymentStatus : Type 0 where
  pending paid expired failed : PaymentStatus

unfoldable pub as_str : PaymentStatus → String
as_str PaymentStatus.pending = "pending"
as_str PaymentStatus.paid = "paid"
as_str PaymentStatus.expired = "expired"
as_str PaymentStatus.failed = "failed"

unfoldable pub status_row : PaymentStatus → ℕ → Payment → Payment
status_row PaymentStatus.paid now row = record row {
  status = "paid";
  paid_at = some now;
  updated_at = some now;
}
status_row new_status now row = record row { status = as_str new_status; updated_at = some now }

-- A payment that waits, and whose time was over before now.
abbrev pub is_overdue : ℕ → Payment → Bool
is_overdue now p = str_eq p.status "pending" && ltb p.expires_at now

abbrev pub overdue_row : ℕ → Payment → Payment
overdue_row now row = record row { status = "expired"; updated_at = some now }

module _ (env : Env) where
  -- The row that is written; the response is made from it.
  unfoldable pub update_payment_status : String → PaymentStatus → M Payment
  update_payment_status id new_status = do
    found ← find_payment env database_error id
    p ← ok_or (not_found "Payment request not found") found
    now ← clock env
    update_payment env database_error p.id (status_row new_status now)

  unfoldable pub expire_each : ℕ → ℕ → List Payment → M ℕ
  expire_each now count [] = pure count
  expire_each now count (p ∷ rest) = do
    _ ← update_payment env database_error p.id (overdue_row now)
    expire_each now (suc count) rest

  unfoldable pub mark_expired_payments : M ℕ
  mark_expired_payments = do
    now ← clock env
    overdue ← list_payments env database_error (is_overdue now)
    expire_each now 0 overdue
