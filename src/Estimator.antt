-- ===== src/Estimator.antt =====
-- Fees and confirmations by network: src/shared/service/fee_estimator.rs. The answers of the Solana
-- node are arguments.
pub mod Bounds
use zabypay_core.Prelude.{
  ℕ, ◌+◌, ◌*◌, ◌^◌, ◌%◌, ℤ, pos, String, ◌<>◌, ◌||◌, ◌⊎◌, inl, inr, str_eq, if◌then◌else◌,
}
use zabypay_core.Errors.{AppError, validation_error, external_service_error}
use zabypay_core.Creation.Amounts.{of_lamports}

-- In lamports, but for `fee_decimal`.
pub record FeeEstimate : Type 0 where
  pub base_fee : ℕ
  pub priority_fee : ℕ
  pub total_fee : ℕ
  pub fee_decimal : ℤ

-- The node at an address, for a transfer between two given accounts: a recent block hash or the
-- text of an error, and the fee of a transfer of so many lamports in a message with that hash, a
-- `u64`, or the text of an error.
pub record Node : Type 0 where
  pub get_latest_blockhash : String → String ⊎ String
  pub get_fee_for_message : String → String → ℕ → String ⊎ ℕ

unfoldable pub get_solana_rpc_url : String → AppError ⊎ String
get_solana_rpc_url environment =
    if str_eq environment "mainnet"
    then inr "https://api.mainnet-beta.solana.com"
    else if str_eq environment "testnet"
    then inr "https://api.testnet.solana.com"
    else if str_eq environment "devnet"
    then inr "https://api.devnet.solana.com"
    else inl (validation_error ("Unsupported Solana environment: " <> environment))

abbrev pub estimate_of : ℕ → FeeEstimate
estimate_of base_fee = record {
  base_fee = base_fee;
  priority_fee = 0;
  total_fee = base_fee + 0;
  fee_decimal = of_lamports (base_fee + 0);
}

unfoldable pub estimate_solana_fee : Node → ℕ → String → AppError ⊎ FeeEstimate
estimate_solana_fee node amount_lamports environment = elim (get_solana_rpc_url environment) [
  | inl e ↦ inl e
  | inr url ↦ elim (node.get_latest_blockhash url) [
    | inl e ↦ inl (external_service_error ("Failed to get blockhash: " <> e))
    | inr hash ↦ elim (node.get_fee_for_message url hash amount_lamports) [
      | inl e ↦ inl (external_service_error ("Failed to get fee: " <> e))
      | inr base_fee ↦ inr (estimate_of base_fee)
    ]
  ]
]

abbrev pub unsupported : String → AppError ⊎ ℤ
unsupported environment = inl (validation_error ("Unsupported environment: " <> environment))

-- One fee on the main network and another on the test network, in units of 10⁻²⁸.
abbrev pub by_environment : String → ℕ → ℕ → AppError ⊎ ℤ
by_environment environment on_mainnet on_testnet =
    if str_eq environment "mainnet"
    then inr (pos on_mainnet)
    else if str_eq environment "testnet"
    then inr (pos on_testnet)
    else unsupported environment

unfoldable pub estimate_network_fee : String → String → AppError ⊎ ℤ
estimate_network_fee network environment =
    if str_eq network "sol"
    then (if str_eq environment "mainnet"
        then inr (pos (5 * 10 ^ 22))
        else if str_eq environment "testnet" || str_eq environment "devnet"
        then inr (pos (5 * 10 ^ 22))
        else unsupported environment)
    else if str_eq network "eth"
    then by_environment environment (2 * 10 ^ 25) (10 ^ 25)
    else if str_eq network "btc"
    then by_environment environment (10 ^ 24) (10 ^ 23)
    else if str_eq network "bnb"
    then by_environment environment (10 ^ 25) (5 * 10 ^ 24)
    else inl (validation_error ("Unsupported network for fee estimation: " <> network))

unfoldable pub get_required_confirmations : String → String → ℕ
get_required_confirmations network environment =
    if str_eq environment "testnet" || str_eq environment "devnet"
    then 1
    else if str_eq environment "mainnet"
    then (if str_eq network "eth"
        then 12
        else if str_eq network "btc"
        then 6
        else if str_eq network "sol"
        then 32
        else if str_eq network "bnb"
        then 20
        else 6)
    else 6

unfoldable pub block_time_seconds : String → ℕ
block_time_seconds network =
    if str_eq network "eth"
    then 15
    else if str_eq network "btc"
    then 600
    else if str_eq network "sol"
    then 1
    else if str_eq network "bnb"
    then 3
    else 30

-- A product of two `u32`.
unfoldable pub get_estimated_confirmation_time : String → String → ℕ
get_estimated_confirmation_time network environment =
    get_required_confirmations network environment * block_time_seconds network % 2 ^ 32
