-- ===== src/Quotes.antt =====
-- What a merchant is told before a withdrawal: `estimate_fee`, `get_max_withdrawable_amount`,
-- `calculate_eth_max_withdrawable`, `get_balances`, `get_network_info` and the details of
-- `calculate_network_fee` in src/merchant/services/withdrawal_service.rs. The answers of the price
-- service and of EvmMultiWalletService are arguments.
pub mod Balances
pub mod Estimate
pub mod Maximum
pub mod Answers
pub mod Reads
pub mod Agree
pub mod Tests
use zabypay_core.Prelude.{
  ℕ, suc, ◌*◌, ◌^◌, ℤ, pos, String, Bool, Option, none, some, List, [], ◌∷◌, ◌+ℤ◌, ◌-ℤ◌, ◌<>◌, ◌&&◌,
  ◌||◌, ◌⊎◌, inl, inr, str_eq, leb_ℤ, ltb_ℤ, lower, if◌then◌else◌,
}
use zabypay_core.Prelude.Table.{find_first}
use zabypay_core.Errors.{AppError, validation_error}
use zabypay_core.Creation.Amounts.{network_to_currency, calculate_network_fee}

-- What the libraries give: `parse::<Decimal>()`, `to_string()`, the rounded product of two decimals
-- and `to_uppercase()`.
pub record Decimals : Type 0 where
  pub parse : String → Option ℤ
  pub print : ℤ → String
  pub times : ℤ → ℤ → ℤ
  pub upper : String → String

pub record NetworkInfo : Type 0 where
  pub network : String
  pub symbol : String
  pub decimals : ℕ

pub record NetworkBalance : Type 0 where
  pub currency : String
  pub network : String
  pub symbol : String
  pub available : String
  pub pending : String
  pub total : String
  pub decimals : ℕ
  pub updated_at : ℕ

-- The fields of the requests that are read here.
pub record MaxWithdrawableRequest : Type 0 where
  pub network : String
  pub environment : String

pub record FeeEstimateRequest : Type 0 where
  pub network : String
  pub environment : String
  pub amount : String

pub record GasDetails : Type 0 where
  pub gas_price : Option String
  pub gas_limit : Option String
  pub fee_rate : Option String
  pub confirmation_time : Option String

pub record FeeEstimateResponse : Type 0 where
  pub network : String
  pub currency : String
  pub balance : String
  pub estimated_fee : String
  pub transferable : String
  pub net_amount : String
  pub decimals : ℕ
  pub gas : GasDetails
  pub priority : String
  pub safety_buffer : Option String

pub record MaxWithdrawableResponse : Type 0 where
  pub network : String
  pub currency : String
  pub max_withdrawable : String
  pub total_balance : String
  pub estimated_fee : String
  pub gas_price : Option String
  pub gas_limit : Option String
  pub wallets_available : ℕ

-- The fields of the EVM service's answer that are read here.
pub record EvmPreview : Type 0 where
  pub net_amount : String
  pub estimated_gas_fee : String

abbrev pub network_info : String → String → ℕ → NetworkInfo
network_info network symbol decimals = record {
  network = network;
  symbol = symbol;
  decimals = decimals;
}

unfoldable pub get_network_info : Decimals → String → String → NetworkInfo
get_network_info library currency network =
    if (str_eq currency "usdt" || str_eq currency "usdt_bnb") && str_eq network "usdt_bep20"
    then network_info "BNB Smart Chain (BEP-20)" "USDT" 18
    else if (str_eq currency "usdt" || str_eq currency "usdt_bnb") && str_eq network "usdt_erc20"
    then network_info "Ethereum (ERC-20)" "USDT" 6
    else if str_eq currency "bitcoin"
    then network_info "Bitcoin" "BTC" 8
    else if str_eq currency "ethereum"
    then network_info "Ethereum" "ETH" 18
    else if str_eq currency "solana"
    then network_info "Solana" "SOL" 9
    else if str_eq currency "bnb"
    then network_info "BNB Chain" "BNB" 18
    else if str_eq currency "usdt"
    then network_info "Ethereum (USDT)" "USDT" 6
    else if str_eq currency "usdt_bnb"
    then network_info "BNB Chain (USDT)" "USDT" 18
    else network_info currency (library.upper currency) 18

abbrev pub gas_of : String → String → GasDetails
gas_of price time = record {
  gas_price = some price;
  gas_limit = some "21000";
  fee_rate = none;
  confirmation_time = some time;
}

-- The other parts of the result of `calculate_network_fee`, where it has one.
unfoldable pub gas_details : String → String → GasDetails
gas_details network environment =
    if str_eq network "eth" || str_eq network "usdt_erc20"
    then gas_of (if str_eq environment "mainnet" then "20000000000" else "1000000000") "2-5 minutes"
    else if str_eq network "bnb" || str_eq network "usdt_bep20"
    then gas_of "5000000000" "30-60 seconds"
    else if str_eq network "btc"
    then record {
      gas_price = none;
      gas_limit = none;
      fee_rate = some (if str_eq environment "mainnet" then "20" else "10");
      confirmation_time = some "10-30 minutes";
    }
    else if str_eq network "sol"
    then record {
      gas_price = none;
      gas_limit = none;
      fee_rate = none;
      confirmation_time = some "1-2 seconds";
    }
    else gas_of (if str_eq environment "mainnet" then "5000000000" else "2000000000") "1-2 seconds"

-- `ok_or_else` and `map_err`, with `?`.
abbrev pub required : {A B : Type 0} → AppError → Option A → (A → AppError ⊎ B) → AppError ⊎ B
required e found rest = elim found [ none ↦ inl e | some x ↦ rest x ]

unfoldable pub matches_estimate : String → NetworkBalance → Bool
matches_estimate network b =
    str_eq (lower b.network) (lower network) || str_eq (lower b.currency) (lower network)

unfoldable pub matches_max : Decimals → String → NetworkBalance → Bool
matches_max library network b =
    str_eq (lower b.network) (lower network)
    || str_eq (lower b.currency) (lower network)
    || str_eq (lower b.symbol) (library.upper network)

abbrev pub min_ℤ : ℤ → ℤ → ℤ
min_ℤ a b = if leb_ℤ a b then a else b

abbrev pub max_ℤ : ℤ → ℤ → ℤ
max_ℤ a b = if ltb_ℤ b a then a else b

-- What is left of a total, or zero.
unfoldable pub rest_of : ℤ → ℤ → ℤ
rest_of total part = if ltb_ℤ part total then total -ℤ part else pos 0

-- A thousandth of the balance, but at least 0.000001 and at most a tenth of the balance.
unfoldable pub safety_buffer_of : Decimals → ℤ → ℤ
safety_buffer_of library total =
    min_ℤ (max_ℤ (library.times total (pos (10 ^ 25))) (pos (10 ^ 22)))
      (library.times total (pos (10 ^ 27)))

unfoldable pub transferable_of : Decimals → ℤ → ℤ → ℤ
transferable_of library total fee =
    if ltb_ℤ (fee +ℤ safety_buffer_of library total) total
    then total -ℤ fee -ℤ safety_buffer_of library total
    else pos 0
