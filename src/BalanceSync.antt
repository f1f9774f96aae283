-- ===== src/BalanceSync.antt =====
-- The sync of balances from payments: src/merchant/services/balance_sync_service.rs, with
-- `Currency::from_str` and `generate_wallet_with_key` of src/shared/service/wallet.rs.
pub mod Totals
pub mod Mild
pub mod Locks
pub mod Net
pub mod Single
pub mod Tests
use zabypay_core.Prelude.{
  ℕ, ℤ, pos, String, Bool, true, false, Option, none, some, List, [], ◌∷◌, ◌-ℤ◌, ◌<>◌, ◌&&◌, ◌||◌,
  str_eq, ltb_ℤ, max_zero, lower, codes, same, is_like, if◌then◌else◌,
}
use zabypay_core.Errors.{AppError, database_error, not_found, internal_server_error}
use zabypay_core.Entities.{Withdrawal, Balance, Wallet, Payment, Merchant}
use zabypay_core.Store.{
  Env, World, Outcome, ok, err, M, pure, throw, ◌>>=◌, ◌>>◌, ok_or, clock, fresh_id, address,
  no_key, find_merchant, find_balance, find_wallet_where, list_payments, list_withdrawals,
  insert_wallet, insert_balance, update_balance,
}
use zabypay_core.BalanceSync.Totals.{
  Total, key_of, keys_of, total_of_key, totals_of, base_code, is_supported,
}

-- The rows that count: paid, or confirmed, for this merchant in this environment.
abbrev pub is_paid_in : String → String → Payment → Bool
is_paid_in merchant_id environment p =
    str_eq p.merchant_id merchant_id && str_eq p.status "paid" && str_eq p.environment environment

abbrev pub is_confirmed_in : String → String → Withdrawal → Bool
is_confirmed_in merchant_id environment w =
    str_eq w.merchant_id merchant_id
    && str_eq w.environment environment
    && str_eq w.status "confirmed"

abbrev pub has_currency : String → String → Wallet → Bool
has_currency user_id key w = str_eq w.user_id user_id && str_eq w.currency key

-- The wallet of a payment in this currency, such as "sol_mainnet_" and a payment's identifier.
abbrev pub has_prefix : String → String → Wallet → Bool
has_prefix user_id key w = str_eq w.user_id user_id && is_like w.currency (key <> "_%")

abbrev pub synced_row : ℤ → ℕ → Balance → Balance
synced_row net now row = record row {
  available_balance = if ltb_ℤ net (pos 0) then pos 0 else net;
  total_balance = max_zero net;
  pending_balance = pos 0;
  last_updated = now;
}

abbrev pub first_balance : String → ℕ → String → String → ℤ → Balance
first_balance id now wallet_id key net = record {
  id = id;
  wallet_id = wallet_id;
  currency = key;
  available_balance = if ltb_ℤ net (pos 0) then pos 0 else net;
  pending_balance = pos 0;
  locked_balance = pos 0;
  total_balance = max_zero net;
  last_updated = now;
  created_at = now;
}

abbrev pub save_error : String → AppError
save_error e = internal_server_error ("Failed to save wallet: " <> e)

module _ (env : Env) where
  abbrev pub new_wallet : String → String → String → String → Wallet
  new_wallet id user_id key addr = record {
    id = id;
    user_id = user_id;
    address = addr;
    currency = key;
  }

  -- `generate_wallet_with_key`, whose keys are the environment's.
  unfoldable pub generate_wallet_with_key : String → String → M (Unit {0})
  generate_wallet_with_key user_id key s = elim (env.keygen s.tick) [
    | no_key e ↦ err e s
    | address addr ↦
        (do
          id ← fresh_id env
          _ ← insert_wallet env save_error (new_wallet id user_id key addr)
          pure tt)
          s
  ]

  unfoldable pub create_wallet : String → String → String → M Wallet
  create_wallet user_id environment key =
      if is_supported (base_code key environment)
      then (do
        generate_wallet_with_key user_id key
        created ← find_wallet_where env database_error (has_currency user_id key)
        ok_or (internal_server_error "Failed to retrieve created wallet") created)
      else (do
        id ← fresh_id env
        insert_wallet env database_error
            (new_wallet id user_id key ("generated_" <> key <> "_address")))

  -- The wallet whose balance stands for this currency.
  unfoldable pub choose_wallet : String → String → String → M Wallet
  choose_wallet user_id environment key = do
    exact ← find_wallet_where env database_error (has_currency user_id key)
    elim exact [
      | some wallet ↦ pure wallet
      | none ↦ (do
        paid_into ← find_wallet_where env database_error (has_prefix user_id key)
        elim paid_into [ some wallet ↦ pure wallet | none ↦ create_wallet user_id environment key ])
    ]

  -- The update of the balance that was found, or a first one.
  unfoldable pub write_balance : Wallet → String → ℤ → ℕ → Option Balance → M (Unit {0})
  write_balance wallet key net now none = do
    id ← fresh_id env
    insert_balance env database_error (first_balance id now wallet.id key net)
  write_balance wallet key net now (some read) =
      update_balance env database_error read.id (synced_row net now)

  unfoldable pub set_balance : Wallet → String → ℤ → M (Unit {0})
  set_balance wallet key net = do
    existing ← find_balance env database_error wallet.id
    now ← clock env
    write_balance wallet key net now existing

  unfoldable pub sync_currency : String → String → String → ℤ → M (Unit {0})
  sync_currency user_id environment key net = do
    wallet ← choose_wallet user_id environment key
    set_balance wallet key net

  unfoldable pub sync_each : String → String → List Total → List String → M (Unit {0})
  sync_each user_id environment totals [] s = ok tt s
  sync_each user_id environment totals (key ∷ keys) s =
      (do
        sync_currency user_id environment key (total_of_key key totals)
        sync_each user_id environment totals keys)
        s

  unfoldable pub sync_wallet_balances_from_payments_for_environment : String → String → M (Unit {0})
  sync_wallet_balances_from_payments_for_environment merchant_id environment = do
    found ← find_merchant env database_error merchant_id
    merchant ← ok_or (not_found "Merchant not found") found
    paid ← list_payments env database_error (is_paid_in merchant_id environment)
    confirmed ← list_withdrawals env database_error (is_confirmed_in merchant_id environment)
    let totals = totals_of env.json_tx_hash environment paid confirmed
    sync_each merchant.user_id environment totals (env.hash_order (keys_of totals))

  unfoldable pub sync_wallet_balances_from_payments : String → M (Unit {0})
  sync_wallet_balances_from_payments merchant_id = do
    sync_wallet_balances_from_payments_for_environment merchant_id "mainnet"
    sync_wallet_balances_from_payments_for_environment merchant_id "testnet"
