-- ===== src/Creation/Entry.antt =====
-- `create_withdrawal` of src/merchant/services/withdrawal_service.rs as a whole: the checks of the
-- request, the key and the address, and the choice of the wallet.
use zabypay_core.Prelude.{
  String, Bool, Option, none, some, ◌<>◌, ◌&&◌, not, str_eq, codes, contains, lower, is_like,
  if◌then◌else◌,
}
use zabypay_core.Errors.{AppError, database_error, not_found, validation_error}
use zabypay_core.Entities.{Withdrawal, Wallet}
use zabypay_core.Store.{
  Env, World, Outcome, ok, err, M, pure, throw, ◌>>=◌, ◌>>◌, ok_or, ignoring, find_merchant,
  find_wallet_where,
}
use zabypay_core.BalanceSync.Totals.{is_supported}
use zabypay_core.BalanceSync.{has_currency, sync_wallet_balances_from_payments_for_environment}
use zabypay_core.Creation.Amounts.{Library, Request, network_to_currency}
use zabypay_core.Creation.Validate.{Refusal, Validated, validate_amount_for_network}
use zabypay_core.Creation.{find_duplicate, create_in_wallet}

-- What is settled outside this code: the switch for USDT, which addresses a currency has (bdk, hex
-- and bs58), and the texts of refused amounts.
pub record Settings : Type 0 where
  pub enable_usdt : Bool
  pub validate_wallet_address : String → String → Bool
  pub refusal_text : Refusal → String

abbrev pub usdt_disabled : AppError
usdt_disabled =
    validation_error
      "USDT withdrawals are temporarily disabled. Please use ETH, BNB, or SOL instead."

abbrev pub no_wallet : Request → AppError
no_wallet request = validation_error (
    "No " <> request.network <> " wallet found for " <> request.environment
    <> " environment. Please ensure you have received payments in this currency first.")

-- A wallet that was made for a payment on this network.
abbrev pub is_payment_funded : String → Request → Wallet → Bool
is_payment_funded user_id request w =
    str_eq w.user_id user_id
    && is_like w.currency (request.network <> "_" <> request.environment <> "_%")

abbrev pub environment_currency : Request → String
environment_currency request = network_to_currency request.network <> "_" <> request.environment

abbrev pub network_environment_currency : Request → String
network_environment_currency request = request.network <> "_" <> request.environment

abbrev pub is_owned : String → Wallet → Bool
is_owned user_id w = str_eq w.user_id user_id

abbrev pub wallet_error : String → AppError
wallet_error e = database_error ("Failed to find wallet: " <> e)

-- A read whose failure counts as finding nothing: `if let Ok(Some(wallet))`.
abbrev pub or_nothing : Outcome (Option Wallet) → Outcome (Option Wallet)
or_nothing (ok found s) = ok found s
or_nothing (err e s) = ok none s

module _ (env : Env) where
  -- The wallet that was found, or what is done without one.
  unfoldable pub or_find : Option Wallet → M Wallet → M Wallet
  or_find (some wallet) other s = ok wallet s
  or_find none other s = other s

  -- After a sync, whose failure is passed over, the wallets by both currencies.
  unfoldable pub find_after_sync : String → String → Request → M Wallet
  find_after_sync merchant_id user_id request = do
    ignoring
        (sync_wallet_balances_from_payments_for_environment env merchant_id request.environment)
    by_network ← (λ s. or_nothing (
        find_wallet_where env wallet_error
          (has_currency user_id (network_environment_currency request)) s))
    or_find by_network (do
      by_currency ← (λ s. or_nothing (
          find_wallet_where env wallet_error (has_currency user_id (environment_currency request))
            s))
      or_find by_currency (throw (no_wallet request)))

  -- The wallet that pays for a withdrawal: the first that was made for a payment, one with the
  -- currency, one with the network's name, or one of these after a sync.
  unfoldable pub find_paying_wallet : String → String → Request → M Wallet
  find_paying_wallet merchant_id user_id request = do
    funded ←
        find_wallet_where env (λ e. database_error ("Failed to find payment-funded wallets: " <> e))
          (is_payment_funded user_id request)
    or_find funded (do
      _ ←
          find_wallet_where env (λ e. database_error ("Failed to query all wallets: " <> e))
            (is_owned user_id)
      by_currency ←
          find_wallet_where env wallet_error (has_currency user_id (environment_currency request))
      or_find by_currency (do
        by_network ←
            find_wallet_where env wallet_error
              (has_currency user_id (network_environment_currency request))
        or_find by_network (find_after_sync merchant_id user_id request)))

  unfoldable pub check_usdt : Settings → Request → M (Unit {0})
  check_usdt settings request =
      if not settings.enable_usdt && contains (lower request.network) "usdt"
      then throw usdt_disabled
      else pure tt

  unfoldable pub check_amount : Settings → Library → Request → M (Unit {0})
  check_amount settings library request s = elim (validate_amount_for_network library request) [
    | Validated.valid amount ↦ ok tt s
    | Validated.refused reason ↦ err (validation_error (settings.refusal_text reason)) s
  ]

  unfoldable pub check_address : Settings → Request → M (Unit {0})
  check_address settings request =
      let currency = network_to_currency request.network in
      if is_supported (codes currency)
      then (if settings.validate_wallet_address currency request.to_address
          then pure tt
          else throw (validation_error "Invalid destination address"))
      else throw (validation_error ("Unsupported currency: " <> currency))

  -- What is done for a key that is new.
  unfoldable pub create_new :
      Settings → Library → (World → Option World) → String → String → Request → M Withdrawal
  create_new settings library late merchant_id user_id request = do
    check_address settings request
    wallet ← find_paying_wallet merchant_id user_id request
    create_in_wallet env library late merchant_id wallet request

  unfoldable pub create_withdrawal :
      Settings → Library → (World → Option World) → String → Request → M Withdrawal
  create_withdrawal settings library late merchant_id request = do
    check_usdt settings request
    check_amount settings library request
    found ← find_merchant env (λ e. database_error ("Failed to find merchant: " <> e)) merchant_id
    merchant ← ok_or (not_found "Merchant not found") found
    existing ← find_duplicate env merchant_id request.idempotency_key
    elim existing [
      | some w ↦ pure w
      | none ↦ create_new settings library late merchant_id merchant.user_id request
    ]
