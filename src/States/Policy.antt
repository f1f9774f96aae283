-- ===== src/States/Policy.antt =====
-- How the lifecycle of a withdrawal and the state of its funds belong together.
use zabypay_core.Prelude.{true, false, ◌≡◌, ◌↔◌, ◌⊎◌, ◌||◌, arith}
use zabypay_core.States.{
  FundsState, LifecycleState, is_locked, is_committed, is_terminal, is_active, can_be_cancelled,
  expected_funds_state,
}

-- The statement about one lifecycle state.
abbrev pub FollowsPolicy : LifecycleState → Type 0
FollowsPolicy l =
    (is_active l ≡ is_locked (expected_funds_state l))
    × ((is_terminal l ≡ true) ↔ (
        (is_committed (expected_funds_state l) ≡ true)
        ⊎ (expected_funds_state l ≡ FundsState.released)))
    × ((is_active l || is_terminal l ≡ false) ↔ (expected_funds_state l ≡ FundsState.unlocked))
    × (can_be_cancelled l ≡ true → is_terminal l ≡ false)

-- A lifecycle state is active exactly when its funds are expected to be locked, terminal exactly
-- when they are expected to be committed or released, and neither exactly when they are expected to
-- be unlocked; a state that can be cancelled is not terminal.
pub lifecycle-funds_policy : (l : LifecycleState) → FollowsPolicy l
unfolding is_active is_locked is_terminal is_committed can_be_cancelled expected_funds_state
lifecycle-funds_policy l = ground arith
