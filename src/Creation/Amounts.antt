-- ===== src/Creation/Amounts.antt =====
-- The sums of a new withdrawal: `calculate_network_fee`, `network_to_currency` and the amounts that
-- `create_withdrawal` decides, in src/merchant/services/withdrawal_service.rs.
use zabypay_core.Prelude.{
  ◌*◌, ◌^◌, ◌/◌, ℕ, ℤ, pos, pos_part, String, Bool, Option, none, some, ◌+ℤ◌, ◌-ℤ◌, ◌<>◌, ◌&&◌,
  ◌||◌, ◌⊎◌, inl, inr, str_eq, ltb, leb, ltb_ℤ, if◌then◌else◌,
}
use zabypay_core.Errors.{AppError, validation_error}
use zabypay_core.Entities.{Balance}
use zabypay_core.Store.{ok, err, M, pure, ◌>>=◌, ok_or}

-- The fields of `CreateWithdrawalRequest` that are read here.
pub record Request : Type 0 where
  pub environment : String
  pub network : String
  pub to_address : String
  pub amount : String
  pub amount_type : Option String
  pub idempotency_key : String
  pub external_id : Option String

-- What the libraries give: `parse::<Decimal>()`, the price service's conversion of a sum in dollars
-- to a currency in an environment, and the text of the error about a shortage on a network.
pub record Library : Type 0 where
  pub parse : String → Option ℤ
  pub convert : String → String → String → AppError ⊎ String
  pub shortage_text : String → ℕ → ℕ → ℕ → String

-- What was decided: the amount and net amount to be stored, the fee, and the sum asked for.
pub record Sums : Type 0 where
  pub amount : ℤ
  pub fee : ℤ
  pub net_amount : ℤ
  pub needed : ℤ

abbrev pub is_usd_withdrawal : Request → Bool
is_usd_withdrawal request =
    str_eq (elim request.amount_type [ none ↦ "crypto" | some type ↦ type ]) "usd"

unfoldable pub network_to_currency : String → String
network_to_currency network =
    if str_eq network "eth"
    then "ethereum"
    else if str_eq network "bnb"
    then "bnb"
    else if str_eq network "sol"
    then "solana"
    else if str_eq network "btc"
    then "bitcoin"
    else if str_eq network "base_eth"
    then "ethereum"
    else network

unfoldable pub required_confirmations : String → String → ℤ
required_confirmations environment network =
    if str_eq environment "testnet"
    then (if str_eq network "sol" then pos 5 else pos 1)
    else if str_eq environment "mainnet"
    then (if str_eq network "ethereum"
        then pos 12
        else if str_eq network "bitcoin"
        then pos 6
        else if str_eq network "polygon"
        then pos 20
        else if str_eq network "base"
        then pos 10
        else if str_eq network "sol"
        then pos 32
        else pos 6)
    else pos 6

-- A fee of so many wei, satoshis or lamports, in units of 10⁻²⁸.
abbrev pub of_wei : ℕ → ℤ
of_wei n = pos (n * 10 ^ 10)

abbrev pub of_satoshis : ℕ → ℤ
of_satoshis n = pos (n * 10 ^ 20)

abbrev pub of_lamports : ℕ → ℤ
of_lamports n = pos (n * 10 ^ 19)

-- The fee of `calculate_network_fee`, the first part of its result.
unfoldable pub calculate_network_fee : String → String → Option ℤ
calculate_network_fee network environment =
    if str_eq network "eth" || str_eq network "usdt_erc20"
    then some (of_wei ((if str_eq environment "mainnet" then 20000000000 else 1000000000) * 21000))
    else if str_eq network "bnb" || str_eq network "usdt_bep20"
    then some (of_wei (5000000000 * 21000))
    else if str_eq network "btc"
    then some (of_satoshis ((if str_eq environment "mainnet" then 20 else 10) * 250))
    else if str_eq network "sol"
    then some (of_lamports 5000)
    else if str_eq network "base_eth"
    then some (of_wei ((if str_eq environment "mainnet" then 5000000000 else 2000000000) * 21000))
    else none

-- `(d * 1_000_000_000).to_u64().unwrap_or(0)`
unfoldable pub to_lamports : ℤ → ℕ
to_lamports d = let n = pos_part d / 10 ^ 19 in if ltb n (2 ^ 64) then n else 0

-- Whether the balance falls short of the sum for the adjusted amount.
unfoldable pub is_short : Balance → Sums → Bool
is_short read sums = ltb_ℤ read.available_balance (sums.amount +ℤ sums.fee)

abbrev pub shortage : Library → Request → Balance → Sums → AppError
shortage library request read sums = validation_error (
    library.shortage_text request.network (to_lamports sums.needed) (to_lamports sums.fee)
      (to_lamports read.available_balance))

-- Whether a Solana amount is cut down to what the balance allows: at most 10,000 lamports are
-- missing.
unfoldable pub is_adjusted : Request → Balance → ℤ → ℤ → Bool
is_adjusted request read fee needed =
    str_eq request.network "sol"
    && ltb_ℤ read.available_balance needed
    && leb (to_lamports (needed -ℤ read.available_balance)) 10000
    && ltb_ℤ (pos 0) (read.available_balance -ℤ fee)

-- The sums, from the parsed amount, the amount after a conversion, and the fee.
unfoldable pub adjust : Request → Balance → ℤ → ℤ → ℤ → Sums
adjust request read amount wanted fee =
    if is_adjusted request read fee (wanted +ℤ fee)
    then record {
      amount = read.available_balance -ℤ fee;
      fee = fee;
      net_amount = read.available_balance -ℤ fee -ℤ fee;
      needed = wanted +ℤ fee;
    }
    else record { amount = amount; fee = fee; net_amount = wanted -ℤ fee; needed = wanted +ℤ fee }

-- The conversion of a sum in dollars.
unfoldable pub convert_amount : Library → Request → ℤ → M ℤ
convert_amount library request amount s =
    if is_usd_withdrawal request
    then elim (library.convert request.amount (network_to_currency request.network)
        request.environment) [
          | inl e ↦ err e s
          | inr text ↦
              ok_or (validation_error "Invalid converted crypto amount") (library.parse text) s
        ]
    else ok amount s

unfoldable pub decide_sums : Library → Request → Balance → M Sums
decide_sums library request read = do
  amount ← ok_or (validation_error "Invalid amount") (library.parse request.amount)
  wanted ← convert_amount library request amount
  fee ←
      ok_or (validation_error ("Unsupported network: " <> request.network))
        (calculate_network_fee request.network request.environment)
  pure (adjust request read amount wanted fee)
