-- ===== src/Quotes/Reads.antt =====
-- That the calls of src/merchant/services/withdrawal_service.rs which only ask for something change
-- no more than the sync that they start with.
use zabypay_core.Prelude.{
  ℕ, ℤ, pos, Bool, true, false, String, Option, none, some, List, [], ◌∷◌, ◌⊎◌, inl, inr, str_eq,
  if◌then◌else◌, ◌&&◌,
}
use zabypay_core.Prelude.Table.{find_first, filter_rows}
use zabypay_core.Errors.{AppError, database_error, not_found}
use zabypay_core.Entities.{Balance, Wallet, Payment, Merchant}
use zabypay_core.Store.{
  Env, World, Outcome, ok, err, M, pure, ◌>>=◌, ok_or, world_of, find_merchant, find_balance,
  list_payments, merchant_by_id, ignoring, clock,
}
use zabypay_core.Store.Runs.{ignoring-Keeps}
use zabypay_core.BalanceSync.{sync_wallet_balances_from_payments_for_environment}
use zabypay_core.BalanceSync.Mild.{
  Mild, IsMild, Mild-refl, Mild-trans, bind-IsMild, pure-IsMild, ok_or-IsMild, read-IsMild,
  find_balance-IsMild, ticked,
}
use zabypay_core.BalanceSync.Locks.{sync-Mild}
use zabypay_core.Quotes.{
  Decimals, MaxWithdrawableRequest, FeeEstimateRequest, FeeEstimateResponse, EvmPreview,
}
use zabypay_core.Quotes.Balances.{
  BalancesResponse, Names, Gathered, is_bnb_usdt, is_of_environment, or_no_rows, renamed,
  response_of, list_wallets, price_of, bnb_usdt_payments, correct_names,
  extract_currency_and_network, add_balance, gather, get_balances, with_entry,
}
use zabypay_core.Quotes.Estimate.{estimate_with}
use zabypay_core.Quotes.Maximum.{max_with}
use zabypay_core.Quotes.Answers.{of_result, estimate_fee, get_max_withdrawable_amount}

or_no_rows-Mild :
    (s : World) (o : Outcome (List Payment))
    → Mild s (world_of o)
    → Mild s (world_of (or_no_rows o))
or_no_rows-Mild s (ok rows t) h = h
or_no_rows-Mild s (err e t) h = h

module _ (env : Env) (library : Decimals) (usd_price : ℕ → String → Option ℤ) where
  bnb_payments-IsMild :
      (merchant_id environment : String)
      → IsMild (bnb_usdt_payments env library usd_price merchant_id environment)
  unfolding bnb_usdt_payments list_payments
  bnb_payments-IsMild merchant_id environment s =
      or_no_rows-Mild s (list_payments env database_error (is_bnb_usdt merchant_id environment) s) (
        read-IsMild env database_error
          (λ w. filter_rows (is_bnb_usdt merchant_id environment) w.db.payments) s)

  correct-IsMild :
      (merchant_id environment : String) (names : Names)
      → IsMild (correct_names env library usd_price merchant_id environment names)
  unfolding correct_names
  correct-IsMild merchant_id environment names =
      elim (str_eq names.currency "usdt" && str_eq names.network "usdt_erc20")
        as (λ b. IsMild (
          if b
          then (bnb_usdt_payments env library usd_price merchant_id environment >>= λ payments.
              pure (renamed names payments))
          else pure names)) [
            | true ↦
                bind-IsMild (bnb_usdt_payments env library usd_price merchant_id environment)
                  (λ payments. pure (renamed names payments))
                  (bnb_payments-IsMild merchant_id environment)
                  (λ payments. pure-IsMild (renamed names payments))
            | false ↦ pure-IsMild names
          ]

  price-IsMild : (currency : String) → IsMild (price_of env library usd_price currency)
  unfolding price_of
  price-IsMild currency s = ticked s

  add-IsMild :
      (merchant_id environment : String) (wallet : Wallet) (sofar : Gathered)
      (found : Option Balance)
      → IsMild (add_balance env library usd_price merchant_id environment wallet sofar found)
  unfolding add_balance
  add-IsMild merchant_id environment wallet sofar none s = Mild-refl s
  add-IsMild merchant_id environment wallet sofar (some balance) s =
      let named =
        correct_names env library usd_price merchant_id environment
          (extract_currency_and_network wallet.currency environment) in
      let priced : Names → M Gathered = λ names.
        price_of env library usd_price names.currency >>= λ price.
        pure (with_entry env library usd_price sofar names balance price) in
      bind-IsMild named priced
        (correct-IsMild merchant_id environment
          (extract_currency_and_network wallet.currency environment))
        (λ names.
          bind-IsMild (price_of env library usd_price names.currency)
            (λ price. pure (with_entry env library usd_price sofar names balance price))
            (price-IsMild names.currency)
            (λ price. pure-IsMild (with_entry env library usd_price sofar names balance price)))
        s

  gather-IsMild :
      (merchant_id environment : String) (wallets : List Wallet) (sofar : Gathered)
      → IsMild (gather env library usd_price merchant_id environment wallets sofar)
  unfolding gather
  gather-IsMild merchant_id environment [] sofar s = Mild-refl s
  gather-IsMild merchant_id environment (wallet ∷ wallets) sofar s =
      let add = add_balance env library usd_price merchant_id environment wallet sofar in
      let rest = gather env library usd_price merchant_id environment wallets in
      bind-IsMild (find_balance env database_error wallet.id) (λ found. add found >>= rest)
        (find_balance-IsMild env database_error wallet.id)
        (λ found.
          bind-IsMild (add found) rest (add-IsMild merchant_id environment wallet sofar found)
            (λ next. gather-IsMild merchant_id environment wallets next))
        s

  found_merchant-IsMild :
      (merchant_id : String) → IsMild (find_merchant env database_error merchant_id)
  unfolding find_merchant
  found_merchant-IsMild merchant_id =
      read-IsMild env database_error (λ w. find_first (merchant_by_id merchant_id) w.db.merchants)

  wallets-IsMild : (p : Wallet → Bool) → IsMild (list_wallets env library usd_price p)
  unfolding list_wallets
  wallets-IsMild p = read-IsMild env database_error (λ w. filter_rows p w.db.wallets)

  balances-IsMild :
      (merchant_id environment : String)
      → IsMild (get_balances env library usd_price merchant_id environment)
  unfolding get_balances
  balances-IsMild merchant_id environment =
      let from : ℕ → Gathered =
        λ now. record { balances = []; total_usd_value = pos 0; last_updated = now } in
      let gathered : List Wallet → ℕ → M Gathered =
        λ wallets now. gather env library usd_price merchant_id environment wallets (from now) in
      let answer : Gathered → M BalancesResponse =
        λ all. pure (response_of env library usd_price environment all) in
      let listed : Merchant → M (List Wallet) = λ merchant.
        list_wallets env library usd_price (is_of_environment merchant.user_id environment) in
      let rest : Merchant → M BalancesResponse = λ merchant.
        listed merchant >>= λ wallets. clock env >>= λ now. gathered wallets now >>= answer in
      let missing = not_found "Merchant not found" in
      let synced =
        ignoring (sync_wallet_balances_from_payments_for_environment env merchant_id environment) in
      bind-IsMild synced
        (λ _.
          find_merchant env database_error merchant_id >>= λ found. ok_or missing found >>= rest)
        (ignoring-Keeps Mild Mild-refl Mild-trans
          (sync_wallet_balances_from_payments_for_environment env merchant_id environment)
          (sync-Mild env merchant_id environment))
        (λ _.
          bind-IsMild (find_merchant env database_error merchant_id)
            (λ found. ok_or missing found >>= rest) (found_merchant-IsMild merchant_id)
            (λ found.
              bind-IsMild (ok_or missing found) rest (ok_or-IsMild missing found) (λ merchant.
                bind-IsMild (listed merchant)
                  (λ wallets. clock env >>= λ now. gathered wallets now >>= answer)
                  (wallets-IsMild (is_of_environment merchant.user_id environment))
                  (λ wallets s.
                    bind-IsMild (gathered wallets (env.now s.tick)) answer
                      (gather-IsMild merchant_id environment wallets (from (env.now s.tick)))
                      (λ all. pure-IsMild (response_of env library usd_price environment all)) s))))

of_result-IsMild : {A : Type 0} (x : AppError ⊎ A) → IsMild (of_result x)
unfolding of_result
of_result-IsMild (inl e) s = Mild-refl s
of_result-IsMild (inr x) s = Mild-refl s

module _ (env : Env) (library : Decimals) (usd_price : ℕ → String → Option ℤ)
    (evm : World → AppError ⊎ EvmPreview) where
  maximum-IsMild :
      (merchant_id : String) (request : MaxWithdrawableRequest)
      → IsMild (get_max_withdrawable_amount env library usd_price evm merchant_id request)
  unfolding get_max_withdrawable_amount
  maximum-IsMild merchant_id request =
      bind-IsMild (get_balances env library usd_price merchant_id request.environment)
        (λ b s. of_result (max_with library (evm s) b.balances request) s)
        (balances-IsMild env library usd_price merchant_id request.environment)
        (λ b s. of_result-IsMild (max_with library (evm s) b.balances request) s)

  estimate-IsMild :
      (merchant_id : String) (request : FeeEstimateRequest)
      → IsMild (estimate_fee env library usd_price evm merchant_id request)
  unfolding estimate_fee
  estimate-IsMild merchant_id request =
      let balances = get_balances env library usd_price merchant_id request.environment in
      let answer : BalancesResponse → M FeeEstimateResponse =
        λ b. of_result (estimate_with library b.balances request) in
      let missing = not_found "Merchant not found" in
      bind-IsMild (find_merchant env database_error merchant_id)
        (λ found. ok_or missing found >>= λ _. balances >>= answer)
        (found_merchant-IsMild env library usd_price merchant_id)
        (λ found.
          bind-IsMild (ok_or missing found) (λ _. balances >>= answer) (ok_or-IsMild missing found)
            (λ _.
              bind-IsMild balances answer
                (balances-IsMild env library usd_price merchant_id request.environment)
                (λ b. of_result-IsMild (estimate_with library b.balances request))))

  -- Whatever the database, the price service and the EVM service answer, and also where it ends
  -- with an error: a request for the maximum or for an estimate, with the reading of the balances
  -- and the sync in it, changes no locked balance, no withdrawal, no payment, no merchant and no
  -- transaction record; it sends nothing, starts no task and puts none off, reports no event of a
  -- payment and does not sleep.
  pub asking-Mild :
      (merchant_id : String) (largest : MaxWithdrawableRequest) (request : FeeEstimateRequest)
      (s : World)
      → (Mild s
          (world_of (get_max_withdrawable_amount env library usd_price evm merchant_id largest s)))
        × (Mild s (world_of (estimate_fee env library usd_price evm merchant_id request s)))
  asking-Mild merchant_id largest request s =
      (maximum-IsMild merchant_id largest s, estimate-IsMild merchant_id request s)
