-- ===== src/Quotes/Balances.antt =====
-- `get_balances` of src/merchant/services/withdrawal_service.rs: the sync from payments, then the
-- balances of the merchant's wallets and their worth.
use Prim.Native.Char.{code}
use zabypay_core.Prelude.{
  ℕ, ◌^◌, ◌*◌, ℤ, pos, String, Bool, true, false, Option, none, some, List, [], ◌∷◌, ◌++◌, ◌+ℤ◌,
  ◌<>◌, ◌&&◌, ◌||◌, ◌==◌, ltb, str_eq, lower, is_like, if◌then◌else◌,
}
use zabypay_core.Prelude.Table.{filter_rows}
use zabypay_core.Errors.{database_error, not_found}
use zabypay_core.Entities.{Balance, Wallet, Payment}
use zabypay_core.Store.{
  Env, Outcome, ok, err, M, pure, ◌>>=◌, ◌>>◌, ok_or, advance, ignoring, call, clock, find_merchant,
  find_balance, list_payments,
}
use zabypay_core.BalanceSync.{is_paid_in, sync_wallet_balances_from_payments_for_environment}
use zabypay_core.Quotes.{Decimals, NetworkBalance, get_network_info}

-- The fields of `BalancesResponse`, but for the wallet breakdown, which is always empty.
pub record BalancesResponse : Type 0 where
  pub environment : String
  pub balances : List NetworkBalance
  pub total_usd_value : Option String
  pub total_wallets : ℕ
  pub last_updated : ℕ

-- A currency and a network.
pub record Names : Type 0 where
  pub currency : String
  pub network : String

abbrev pub without_suffix : String → String → String
without_suffix suffix String.[] = String.[]
without_suffix suffix (String.◌∷◌ c s) =
    if str_eq (String.◌∷◌ c s) suffix then String.[] else String.◌∷◌ c (without_suffix suffix s)

-- The part before the first underscore.
abbrev pub first_part : String → String
first_part String.[] = String.[]
first_part (String.◌∷◌ c s) = if code c == b'_' then String.[] else String.◌∷◌ c (first_part s)

abbrev pub both_are : String → Names
both_are name = record { currency = name; network = name }

unfoldable pub names_of : String → Names
names_of text =
    if str_eq (lower text) "usdt_bnb"
    then record { currency = "usdt_bnb"; network = "usdt_bep20" }
    else if str_eq (lower text) "usdt"
    then record { currency = "usdt"; network = "usdt_erc20" }
    else if str_eq (lower text) "eth"
    then both_are "eth"
    else if str_eq (lower text) "btc"
    then both_are "btc"
    else if str_eq (lower text) "sol"
    then both_are "sol"
    else if str_eq (lower text) "bnb"
    then both_are "bnb"
    else both_are (first_part text)

unfoldable pub extract_currency_and_network : String → String → Names
extract_currency_and_network wallet_currency environment =
    names_of (without_suffix ("_" <> environment) wallet_currency)

-- In units of 10⁻²⁸ dollars.
unfoldable pub get_approximate_usd_price : String → ℤ
get_approximate_usd_price currency =
    if str_eq currency "ethereum" || str_eq currency "eth"
    then pos (3200 * 10 ^ 28)
    else if str_eq currency "bitcoin" || str_eq currency "btc"
    then pos (95000 * 10 ^ 28)
    else if str_eq currency "solana" || str_eq currency "sol"
    then pos (200 * 10 ^ 28)
    else if str_eq currency "bnb"
    then pos (700 * 10 ^ 28)
    else if str_eq currency "usdt" || str_eq currency "usdt_bnb"
    then pos (10 ^ 28)
    else pos 0

-- The balances of the wallets so far, their worth and the time of the oldest.
pub record Gathered : Type 0 where
  pub balances : List NetworkBalance
  pub total_usd_value : ℤ
  pub last_updated : ℕ

abbrev pub is_bnb_usdt : String → String → Payment → Bool
is_bnb_usdt merchant_id environment p =
    is_paid_in merchant_id environment p && str_eq p.currency "USDT_BNB"

abbrev pub is_of_environment : String → String → Wallet → Bool
is_of_environment user_id environment w =
    str_eq w.user_id user_id && is_like w.currency ("%_" <> environment <> "%")

abbrev pub is_nonempty : List Payment → Bool
is_nonempty [] = false
is_nonempty (p ∷ payments) = true

-- The names that a USDT wallet gets, given the payments in USDT on BNB.
abbrev pub renamed : Names → List Payment → Names
renamed names payments =
    if is_nonempty payments then record { currency = "usdt_bnb"; network = "usdt_bep20" } else names

-- `if let Ok(rows)`, where rows are asked for.
abbrev pub or_no_rows : Outcome (List Payment) → Outcome (List Payment)
or_no_rows (ok rows s) = ok rows s
or_no_rows (err e s) = ok [] s

unfoldable pub count : List NetworkBalance → ℕ
count [] = 0
count (b ∷ balances) = ℕ.suc (count balances)

-- `usd_price` is the answer of the price service for a currency where it gives one that is read as a
-- decimal, by the tick at which it is asked.
module _ (env : Env) (library : Decimals) (usd_price : ℕ → String → Option ℤ) where
  unfoldable pub list_wallets : (Wallet → Bool) → M (List Wallet)
  list_wallets p = call env database_error >>= λ _ w. ok (filter_rows p w.db.wallets) w

  unfoldable pub price_of : String → M ℤ
  price_of currency s =
      ok
        (elim (usd_price s.tick currency) [
          | none ↦ get_approximate_usd_price currency
          | some price ↦ price
        ])
        (advance s)

  unfoldable pub bnb_usdt_payments : String → String → M (List Payment)
  bnb_usdt_payments merchant_id environment s =
      or_no_rows (list_payments env database_error (is_bnb_usdt merchant_id environment) s)

  -- The names of a wallet of the other USDT, where there are payments in USDT on BNB.
  unfoldable pub correct_names : String → String → Names → M Names
  correct_names merchant_id environment names =
      if str_eq names.currency "usdt" && str_eq names.network "usdt_erc20"
      then (do payments ← bnb_usdt_payments merchant_id environment; pure (renamed names payments))
      else pure names

  abbrev pub entry_of : Names → Balance → NetworkBalance
  entry_of names balance =
      let info = get_network_info library names.currency names.network in
      record {
        currency = names.currency;
        network = names.network;
        symbol = info.symbol;
        available = library.print balance.available_balance;
        pending = library.print balance.pending_balance;
        total = library.print balance.total_balance;
        decimals = info.decimals;
        updated_at = balance.last_updated;
      }

  abbrev pub with_entry : Gathered → Names → Balance → ℤ → Gathered
  with_entry sofar names balance price = record {
    balances = sofar.balances ++ entry_of names balance ∷ [];
    total_usd_value = sofar.total_usd_value +ℤ library.times balance.total_balance price;
    last_updated =
        if ltb balance.last_updated sofar.last_updated
        then balance.last_updated
        else sofar.last_updated;
  }

  unfoldable pub add_balance : String → String → Wallet → Gathered → Option Balance → M Gathered
  add_balance merchant_id environment wallet sofar none = pure sofar
  add_balance merchant_id environment wallet sofar (some balance) = do
    names ←
        correct_names merchant_id environment
          (extract_currency_and_network wallet.currency environment)
    price ← price_of names.currency
    pure (with_entry sofar names balance price)

  unfoldable pub gather : String → String → List Wallet → Gathered → M Gathered
  gather merchant_id environment [] sofar s = ok sofar s
  gather merchant_id environment (wallet ∷ wallets) sofar s =
      (do
        found ← find_balance env database_error wallet.id
        next ← add_balance merchant_id environment wallet sofar found
        gather merchant_id environment wallets next)
        s

  abbrev pub response_of : String → Gathered → BalancesResponse
  response_of environment all = record {
    environment = environment;
    balances = all.balances;
    total_usd_value = some (library.print all.total_usd_value);
    total_wallets = count all.balances;
    last_updated = all.last_updated;
  }

  unfoldable pub get_balances : String → String → M BalancesResponse
  get_balances merchant_id environment = do
    ignoring (sync_wallet_balances_from_payments_for_environment env merchant_id environment)
    found ← find_merchant env database_error merchant_id
    merchant ← ok_or (not_found "Merchant not found") found
    wallets ← list_wallets (is_of_environment merchant.user_id environment)
    now ← clock env
    all ←
        gather merchant_id environment wallets
          (record { balances = []; total_usd_value = pos 0; last_updated = now })
    pure (response_of environment all)
