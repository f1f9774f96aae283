-- ===== src/Estimator/Bounds.antt =====
-- The times and fees of src/shared/service/fee_estimator.rs, against those of
-- src/merchant/services/withdrawal_service.rs.
use zabypay_core.Prelude.{
  ◌*◌, ◌≤◌, ℤ, String, true, some, ◌≡◌, ◌⊎◌, inl, inr, ◌≤ℤ◌, str_eq, arith, sym, subst, eq_iff,
}
use zabypay_core.Creation.Amounts.{calculate_network_fee}
use zabypay_core.Estimator.{
  get_required_confirmations, block_time_seconds, get_estimated_confirmation_time,
  estimate_network_fee,
}

-- The time that a withdrawal is said to take is that of its confirmations, with no overflow: at
-- least a second and at most an hour.
time_bounds :
    (network environment : String)
    → (get_estimated_confirmation_time network environment
        ≡ get_required_confirmations network environment * block_time_seconds network)
      × (1 ≤ get_estimated_confirmation_time network environment)
      × (get_estimated_confirmation_time network environment ≤ 3600)
unfolding get_estimated_confirmation_time get_required_confirmations block_time_seconds
time_bounds network environment = ground arith

abbrev Covers : ℤ → ℤ → String → Type 0
Covers estimate fee network =
    estimate_network_fee network "mainnet" ≡ inr estimate
    → calculate_network_fee network "mainnet" ≡ some fee
    → fee ≤ℤ estimate

-- The networks whose fee the estimator knows.
abbrev IsKnown : String → Type 0
IsKnown network =
    (str_eq network "sol" ≡ true)
    ⊎ ((str_eq network "eth" ≡ true)
        ⊎ ((str_eq network "btc" ≡ true) ⊎ (str_eq network "bnb" ≡ true)))

estimated-IsKnown :
    (network : String) (estimate : ℤ)
    → estimate_network_fee network "mainnet" ≡ inr estimate
    → IsKnown network
unfolding estimate_network_fee
estimated-IsKnown network estimate estimated = ground arith

at_word :
    (estimate fee : ℤ) (network word : String)
    → str_eq network word ≡ true
    → Covers estimate fee word
    → Covers estimate fee network
at_word estimate fee network word same =
    subst (Covers estimate fee) (sym ((eq_iff network word).0 same))

known-Covers : (estimate fee : ℤ) (network : String) → IsKnown network → Covers estimate fee network
unfolding estimate_network_fee calculate_network_fee
known-Covers estimate fee network (inl h) =
    at_word estimate fee network "sol" h (λ e f. ground arith)
known-Covers estimate fee network (inr (inl h)) =
    at_word estimate fee network "eth" h (λ e f. ground arith)
known-Covers estimate fee network (inr (inr (inl h))) =
    at_word estimate fee network "btc" h (λ e f. ground arith)
known-Covers estimate fee network (inr (inr (inr h))) =
    at_word estimate fee network "bnb" h (λ e f. ground arith)

-- On the main network, where both the estimator and the withdrawal service know a fee, the
-- estimator's is at least the one that the withdrawal is charged.
mainnet_estimate_covers :
    (network : String) (estimate fee : ℤ)
    → estimate_network_fee network "mainnet" ≡ inr estimate
    → calculate_network_fee network "mainnet" ≡ some fee
    → fee ≤ℤ estimate
mainnet_estimate_covers network estimate fee estimated =
    known-Covers estimate fee network (estimated-IsKnown network estimate estimated) estimated
