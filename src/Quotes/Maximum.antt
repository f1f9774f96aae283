-- ===== src/Quotes/Maximum.antt =====
-- `get_max_withdrawable_amount` of src/merchant/services/withdrawal_service.rs, from the merchant's
-- balances.
use zabypay_core.Prelude.{
  ℕ, ◌^◌, ℤ, pos, String, none, some, List, [], ◌∷◌, ◌<>◌, ◌⊎◌, inl, inr, str_eq, leb_ℤ, lower,
  if◌then◌else◌,
}
use zabypay_core.Prelude.Table.{find_first}
use zabypay_core.Errors.{AppError, validation_error}
use zabypay_core.Creation.Amounts.{calculate_network_fee}
use zabypay_core.Quotes.Balances.{count}
use zabypay_core.Quotes.{
  Decimals, NetworkBalance, MaxWithdrawableRequest, MaxWithdrawableResponse, EvmPreview,
  gas_details, required, matches_max, rest_of,
}

-- The entries in the message, joined by commas.
abbrev pub entry_text : NetworkBalance → String
entry_text b =
    "'" <> b.network <> "' (currency: '" <> b.currency <> "', symbol: '" <> b.symbol <> "')"

unfoldable pub entries_text : List NetworkBalance → String
entries_text [] = ""
entries_text (b ∷ []) = entry_text b
entries_text (b ∷ c ∷ balances) = entry_text b <> ", " <> entries_text (c ∷ balances)

abbrev pub no_balances_text : Decimals → MaxWithdrawableRequest → String
no_balances_text library request =
    "No wallet balances found for environment: "
    <> request.environment
    <> ". To withdraw funds, you need to first receive payments on the "
    <> library.upper request.network
    <> " network to create deposit wallets."

abbrev pub no_match_text : MaxWithdrawableRequest → List NetworkBalance → String
no_match_text request balances =
    "No balance found for network: '"
    <> request.network
    <> "'. Available networks: ["
    <> entries_text balances
    <> "]"

-- The answer where the EVM service gave its own, and where it failed: then the fee is 0.001.
unfoldable pub calculate_eth_max_withdrawable :
    Decimals
    → MaxWithdrawableRequest
    → NetworkBalance
    → ℤ
    → AppError ⊎ EvmPreview
    → MaxWithdrawableResponse
calculate_eth_max_withdrawable library request b total (inr preview) = record {
  network = request.network;
  currency = b.symbol;
  max_withdrawable = preview.net_amount;
  total_balance = b.available;
  estimated_fee = preview.estimated_gas_fee;
  gas_price = none;
  gas_limit = none;
  wallets_available = 1;
}
calculate_eth_max_withdrawable library request b total (inl e) = record {
  network = request.network;
  currency = b.symbol;
  max_withdrawable = library.print (rest_of total (pos (10 ^ 25)));
  total_balance = b.available;
  estimated_fee = library.print (pos (10 ^ 25));
  gas_price = some "20000000000";
  gas_limit = some "21000";
  wallets_available = 1;
}

abbrev pub nothing_to_withdraw :
    MaxWithdrawableRequest → NetworkBalance → ℕ → MaxWithdrawableResponse
nothing_to_withdraw request b wallets = record {
  network = request.network;
  currency = b.symbol;
  max_withdrawable = "0";
  total_balance = b.available;
  estimated_fee = "0";
  gas_price = none;
  gas_limit = none;
  wallets_available = wallets;
}

abbrev pub max_response :
    Decimals → MaxWithdrawableRequest → NetworkBalance → ℕ → ℤ → ℤ → MaxWithdrawableResponse
max_response library request b wallets total fee = record {
  network = request.network;
  currency = b.symbol;
  max_withdrawable = library.print (rest_of total fee);
  total_balance = b.available;
  estimated_fee = library.print fee;
  gas_price = (gas_details request.network request.environment).gas_price;
  gas_limit = (gas_details request.network request.environment).gas_limit;
  wallets_available = wallets;
}

-- The maximum, from the entry that was found and its balance.
unfoldable pub max_from :
    Decimals
    → AppError ⊎ EvmPreview
    → MaxWithdrawableRequest
    → ℕ
    → NetworkBalance
    → ℤ
    → AppError ⊎ MaxWithdrawableResponse
max_from library evm request wallets b total =
    if leb_ℤ total (pos 0)
    then inr (nothing_to_withdraw request b wallets)
    else if str_eq (lower request.network) "eth"
    then inr (calculate_eth_max_withdrawable library request b total evm)
    else required (validation_error ("Unsupported network: " <> request.network))
        (calculate_network_fee request.network request.environment)
        (λ fee. inr (max_response library request b wallets total fee))

-- `get_max_withdrawable_amount`, once the balances are read.
unfoldable pub max_with :
    Decimals
    → AppError ⊎ EvmPreview
    → List NetworkBalance
    → MaxWithdrawableRequest
    → AppError ⊎ MaxWithdrawableResponse
max_with library evm [] request = inl (validation_error (no_balances_text library request))
max_with library evm (first ∷ others) request =
    required (validation_error (no_match_text request (first ∷ others)))
      (find_first (matches_max library request.network) (first ∷ others))
      (λ b.
        required (validation_error "Invalid balance amount") (library.parse b.available)
          (max_from library evm request (count (first ∷ others)) b))
