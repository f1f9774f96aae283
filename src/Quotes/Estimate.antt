-- ===== src/Quotes/Estimate.antt =====
-- `estimate_fee` of src/merchant/services/withdrawal_service.rs: its answer for a request, from the
-- merchant's balances.
use zabypay_core.Prelude.{
  ℤ, pos, String, some, List, ◌<>◌, ◌&&◌, ◌⊎◌, inl, inr, leb_ℤ, ltb_ℤ, if◌then◌else◌,
}
use zabypay_core.Prelude.Table.{find_first}
use zabypay_core.Errors.{AppError, validation_error}
use zabypay_core.Creation.Amounts.{network_to_currency, calculate_network_fee}
use zabypay_core.Quotes.{
  Decimals, NetworkBalance, FeeEstimateRequest, FeeEstimateResponse, get_network_info, gas_details,
  required, matches_estimate, rest_of, safety_buffer_of, transferable_of,
}

abbrev pub symbol_of : Decimals → String → String
symbol_of library network = (get_network_info library (network_to_currency network) network).symbol

abbrev pub insufficient_text : Decimals → String → ℤ → ℤ → String
insufficient_text library symbol transferable amount =
    "Insufficient transferable balance. Maximum transferable: "
    <> library.print transferable
    <> " "
    <> symbol
    <> ", Requested: "
    <> library.print amount
    <> " "
    <> symbol

abbrev pub too_small_text : Decimals → String → ℤ → ℤ → String
too_small_text library symbol total fee =
    "Balance too small to cover network fees. Balance: "
    <> library.print total
    <> " "
    <> symbol
    <> ", Required fee: "
    <> library.print fee
    <> " "
    <> symbol

-- The estimate, from the balance, the amount and the fee.
unfoldable pub estimate_from :
    Decimals → FeeEstimateRequest → ℤ → ℤ → ℤ → AppError ⊎ FeeEstimateResponse
estimate_from library request total amount fee =
    if ltb_ℤ (transferable_of library total fee) amount
      && ltb_ℤ (pos 0) (transferable_of library total fee)
    then inl (
        validation_error (
          insufficient_text library (symbol_of library request.network)
            (transferable_of library total fee) amount))
    else if leb_ℤ total fee
    then inl
        (validation_error (too_small_text library (symbol_of library request.network) total fee))
    else inr (record {
      network = request.network;
      currency = symbol_of library request.network;
      balance = library.print total;
      estimated_fee = library.print fee;
      transferable = library.print (transferable_of library total fee);
      net_amount = library.print (rest_of amount fee);
      decimals =
          (get_network_info library (network_to_currency request.network) request.network).decimals;
      gas = gas_details request.network request.environment;
      priority = "medium";
      safety_buffer = some (library.print (safety_buffer_of library total));
    })

-- `estimate_fee`, once the merchant is found and the balances are read.
unfoldable pub estimate_with :
    Decimals → List NetworkBalance → FeeEstimateRequest → AppError ⊎ FeeEstimateResponse
estimate_with library balances request =
    required (validation_error ("No balance found for network: " <> request.network))
      (find_first (matches_estimate request.network) balances)
      (λ b.
        required (validation_error "Invalid balance amount") (library.parse b.available) (λ total.
          required (validation_error "Invalid amount") (library.parse request.amount) (λ amount.
            required (validation_error ("Unsupported network: " <> request.network))
              (calculate_network_fee request.network request.environment)
              (λ fee. estimate_from library request total amount fee))))
