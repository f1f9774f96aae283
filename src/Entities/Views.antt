-- ===== src/Entities/Views.antt =====
-- The read-only methods of the two main entities.
use zabypay_core.Prelude.{ℤ, Bool, ◌+ℤ◌, ◌-ℤ◌, leb_ℤ, ◌||◌, str_eq}
use zabypay_core.States.{FundsState, LifecycleState, Parsed, parse_funds, parse_lifecycle}
use zabypay_core.States
use zabypay_core.Entities.{Withdrawal, Balance}

-- `matches!(self.status.as_str(), "pending" | "processing")`
unfoldable pub can_be_cancelled : Withdrawal → Bool
can_be_cancelled w = str_eq w.status "pending" || str_eq w.status "processing"

abbrev funds_or : FundsState → Parsed FundsState → FundsState
funds_or default (Parsed.ok state) = state
funds_or default (Parsed.err _) = default

abbrev lifecycle_or : LifecycleState → Parsed LifecycleState → LifecycleState
lifecycle_or default (Parsed.ok state) = state
lifecycle_or default (Parsed.err _) = default

unfoldable pub get_funds_state : Withdrawal → FundsState
get_funds_state w = funds_or FundsState.unlocked (parse_funds w.withdrawal_funds_state)

unfoldable pub get_lifecycle_state : Withdrawal → LifecycleState
get_lifecycle_state w = lifecycle_or LifecycleState.quoted (parse_lifecycle w.lifecycle_state)

unfoldable pub is_terminal : Withdrawal → Bool
is_terminal w = States.is_terminal (get_lifecycle_state w)

unfoldable pub is_active : Withdrawal → Bool
is_active w = States.is_active (get_lifecycle_state w)

unfoldable pub has_locked_funds : Withdrawal → Bool
has_locked_funds w = States.is_locked (get_funds_state w)

unfoldable pub get_total_with_locked : Balance → ℤ
get_total_with_locked b = b.available_balance +ℤ b.pending_balance +ℤ b.locked_balance

unfoldable pub get_spendable_balance : Balance → ℤ
get_spendable_balance b = b.available_balance -ℤ b.locked_balance

unfoldable pub has_sufficient_available : Balance → ℤ → Bool
has_sufficient_available b amount = leb_ℤ amount (get_spendable_balance b)
