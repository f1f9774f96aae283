-- ===== src/Quotes/Answers.antt =====
-- The whole calls: `estimate_fee` and `get_max_withdrawable_amount` of
-- src/merchant/services/withdrawal_service.rs.
use zabypay_core.Prelude.{ℕ, ℤ, String, Option, ◌⊎◌, inl, inr}
use zabypay_core.Errors.{AppError, database_error, not_found}
use zabypay_core.Store.{Env, World, ok, err, M, ◌>>=◌, ok_or, find_merchant}
use zabypay_core.Quotes.{
  Decimals, MaxWithdrawableRequest, FeeEstimateRequest, FeeEstimateResponse,
  MaxWithdrawableResponse, EvmPreview,
}
use zabypay_core.Quotes.Balances.{get_balances}
use zabypay_core.Quotes.Estimate.{estimate_with}
use zabypay_core.Quotes.Maximum.{max_with}

unfoldable pub of_result : {A : Type 0} → AppError ⊎ A → M A
of_result (inl e) s = err e s
of_result (inr x) s = ok x s

-- `evm` is the answer of EvmMultiWalletService in a state of the database.
module _ (env : Env) (library : Decimals) (usd_price : ℕ → String → Option ℤ)
    (evm : World → AppError ⊎ EvmPreview) where
  unfoldable pub estimate_fee : String → FeeEstimateRequest → M FeeEstimateResponse
  estimate_fee merchant_id request = do
    found ← find_merchant env database_error merchant_id
    _ ← ok_or (not_found "Merchant not found") found
    balances ← get_balances env library usd_price merchant_id request.environment
    of_result (estimate_with library balances.balances request)

  unfoldable pub get_max_withdrawable_amount :
      String → MaxWithdrawableRequest → M MaxWithdrawableResponse
  get_max_withdrawable_amount merchant_id request = do
    balances ← get_balances env library usd_price merchant_id request.environment
    (λ s. of_result (max_with library (evm s) balances.balances request) s)
