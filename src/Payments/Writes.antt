-- ===== src/Payments/Writes.antt =====
-- The updates of a row by the monitor keep what was agreed on.
use zabypay_core.Prelude.{ℕ, String, ◌≡◌, refl, inl, inr}
use zabypay_core.Errors.{database_error}
use zabypay_core.Entities.{Payment}
use zabypay_core.Store.{Env, M, ◌>>=◌, clock, world_of, update_payment}
use zabypay_core.Payments.Moves.{
  Handled, IsHandling, same_tables, bind-IsHandling, update_payment-IsHandling,
}
use zabypay_core.Payments.{
  Chain, Metadata, expired_row, paid_row, failed_row, detected_row, notify, expire_payment,
  fail_payment,
}

pub paid-Handled : (text : String) (now : ℕ) (x : Payment) → Handled x (paid_row text now x)
paid-Handled text now x = record {
  status = inr (inl refl);
  merchant_id = refl;
  amount = refl;
  currency = refl;
  environment = refl;
  wallet_address = refl;
  expires_at = refl;
}

expired-Handled : (text : String) (now : ℕ) (x : Payment) → Handled x (expired_row text now x)
expired-Handled text now x = record {
  status = inr (inr (inl refl));
  merchant_id = refl;
  amount = refl;
  currency = refl;
  environment = refl;
  wallet_address = refl;
  expires_at = refl;
}

failed-Handled : (text : String) (now : ℕ) (x : Payment) → Handled x (failed_row text now x)
failed-Handled text now x = record {
  status = inr (inr (inr refl));
  merchant_id = refl;
  amount = refl;
  currency = refl;
  environment = refl;
  wallet_address = refl;
  expires_at = refl;
}

pub detected-Handled : (text : String) (now : ℕ) (x : Payment) → Handled x (detected_row text now x)
detected-Handled text now x = record {
  status = inl refl;
  merchant_id = refl;
  amount = refl;
  currency = refl;
  environment = refl;
  wallet_address = refl;
  expires_at = refl;
}

pub notify-IsHandling : (id key event : String) → IsHandling id (notify key event)
notify-IsHandling id key event s = same_tables id s (world_of (notify key event s)) refl

module _ (env : Env) (chain : Chain) (json : Metadata) (p : Payment) where
  -- An update of the row by its key, with the time at which it starts, and the rest.
  pub update_then :
      {A : Type 0} (row : ℕ → Payment → Payment)
      → ((now : ℕ) (x : Payment) → (row now x).id ≡ x.id)
      → ((now : ℕ) (x : Payment) → Handled x (row now x))
      → (rest : M A) → IsHandling p.id rest
      → IsHandling p.id
          (clock env >>= λ now. update_payment env database_error p.id (row now) >>= λ _. rest)
  update_then row keep fine rest h s =
      bind-IsHandling p.id (update_payment env database_error p.id (row (env.now s.tick)))
        (λ _. rest)
        (update_payment-IsHandling p.id env database_error (row (env.now s.tick))
          (keep (env.now s.tick)) (fine (env.now s.tick)))
        (λ _. h) s

  pub expire-IsHandling : IsHandling p.id (expire_payment env chain json p)
  unfolding expire_payment
  expire-IsHandling s =
      update_then (λ now. expired_row (json.with_expiry p.metadata now) now) (λ now x. refl)
        (λ now x. expired-Handled (json.with_expiry p.metadata now) now x)
        (notify p.id "payment.expired") (notify-IsHandling p.id p.id "payment.expired") s

  pub fail-IsHandling : (hash : String) → IsHandling p.id (fail_payment env chain json p hash)
  unfolding fail_payment
  fail-IsHandling hash s =
      update_then (λ now. failed_row (json.with_failure p.metadata hash now) now) (λ now x. refl)
        (λ now x. failed-Handled (json.with_failure p.metadata hash now) now x)
        (notify p.id "payment.failed") (notify-IsHandling p.id p.id "payment.failed") s
