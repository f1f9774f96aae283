-- ===== src/BalanceSync/Locks.antt =====
-- What a sync leaves alone, whatever the database answers.
use zabypay_core.Prelude.{
  ℕ, ℤ, String, Bool, ◌<>◌, none, some, List, [], ◌∷◌, refl, Option, Bool-cases, inl, inr,
}
use zabypay_core.Prelude.Table.{filter_rows, find_first}
use zabypay_core.Entities.{Withdrawal, Balance, Wallet, Payment, Merchant}
use zabypay_core.Store.{
  Env, World, merchant_by_id, err, world_of, M, clock, pure, address, no_key, ◌>>=◌, continue,
  ok_or, find_merchant, find_balance, find_wallet_where, list_payments, list_withdrawals,
  insert_wallet,
}
use zabypay_core.Errors.{AppError, database_error, not_found, internal_server_error}
use zabypay_core.BalanceSync.Totals.{
  Total, totals_of, keys_of, total_of_key, is_supported, base_code,
}
use zabypay_core.BalanceSync.{
  save_error, synced_row, first_balance, new_wallet, has_currency, has_prefix, is_paid_in,
  is_confirmed_in, generate_wallet_with_key, create_wallet, choose_wallet, write_balance,
  set_balance, sync_currency, sync_each, sync_wallet_balances_from_payments_for_environment,
}
use zabypay_core.BalanceSync.Mild.{
  Mild, IsMild, Mild-refl, bind-IsMild, pure-IsMild, ok_or-IsMild, read-IsMild, find_balance-IsMild,
  insert_wallet-IsMild, insert_balance-IsMild, update_balance-IsMild,
}

module _ (env : Env) where
  generate-IsMild : (user_id key : String) → IsMild (generate_wallet_with_key env user_id key)
  unfolding generate_wallet_with_key
  generate-IsMild user_id key s =
      elim (env.keygen s.tick)
        as (λ x. Mild s (
          world_of (elim x [
            | no_key e ↦ err e s
            | address addr ↦
                continue
                  (insert_wallet env save_error (new_wallet env (env.uuid s.tick) user_id key addr)
                    s)
                  (λ _. pure tt)
          ]))) [
            | no_key e ↦ Mild-refl s
            | address addr ↦
                let row = new_wallet env (env.uuid s.tick) user_id key addr in
                bind-IsMild (insert_wallet env save_error row) (λ _. pure tt)
                  (insert_wallet-IsMild env save_error row) (λ _. pure-IsMild tt) s
          ]

  find_wallet-IsMild :
      (wrap : String → AppError) (p : Wallet → Bool) → IsMild (find_wallet_where env wrap p)
  unfolding find_wallet_where
  find_wallet-IsMild wrap p = read-IsMild env wrap (λ w. find_first p w.db.wallets)

  create-IsMild :
      (user_id environment key : String) → IsMild (create_wallet env user_id environment key)
  unfolding create_wallet
  create-IsMild user_id environment key =
      let unseen = internal_server_error "Failed to retrieve created wallet" in
      let found = find_wallet_where env database_error (has_currency user_id key) in
      let unkeyed : String → Wallet =
        λ id. new_wallet env id user_id key ("generated_" <> key <> "_address") in
      elim (Bool-cases (is_supported (base_code key environment))) [
        | inl e ↦ rw e (
            bind-IsMild (generate_wallet_with_key env user_id key)
              (λ _. found >>= λ created. ok_or unseen created) (generate-IsMild user_id key)
              (λ _.
                bind-IsMild found (λ created. ok_or unseen created)
                  (find_wallet-IsMild database_error (has_currency user_id key))
                  (ok_or-IsMild unseen)))
        | inr e ↦ rw e (λ s. insert_wallet-IsMild env database_error (unkeyed (env.uuid s.tick)) s)
      ]

  -- The wallet that an optional row stands for, or the one that is chosen without it.
  or_else : Option Wallet → M Wallet → M Wallet
  or_else x other = elim x [ some wallet ↦ pure wallet | none ↦ other ]

  or_else-IsMild : (x : Option Wallet) (other : M Wallet) → IsMild other → IsMild (or_else x other)
  unfolding or_else
  or_else-IsMild none other h s = h s
  or_else-IsMild (some wallet) other h s = Mild-refl s

  choose-IsMild :
      (user_id environment key : String) → IsMild (choose_wallet env user_id environment key)
  unfolding choose_wallet or_else
  choose-IsMild user_id environment key =
      let paid_into = find_wallet_where env database_error (has_prefix user_id key) in
      let create = create_wallet env user_id environment key in
      bind-IsMild (find_wallet_where env database_error (has_currency user_id key))
        (λ exact. or_else exact (paid_into >>= λ x. or_else x create))
        (find_wallet-IsMild database_error (has_currency user_id key))
        (λ exact. or_else-IsMild exact _ (
          bind-IsMild paid_into (λ x. or_else x create)
            (find_wallet-IsMild database_error (has_prefix user_id key))
            (λ x. or_else-IsMild x create (create-IsMild user_id environment key))))

  write-IsMild :
      (wallet : Wallet) (key : String) (net : ℤ) (now : ℕ) (existing : Option Balance)
      → IsMild (write_balance env wallet key net now existing)
  unfolding write_balance
  write-IsMild wallet key net now none s =
      insert_balance-IsMild env database_error
        (first_balance (env.uuid s.tick) now wallet.id key net) s
  write-IsMild wallet key net now (some read) s =
      update_balance-IsMild env database_error read.id (synced_row net now) (λ x. refl) (λ x. refl)
        s

  set-IsMild : (wallet : Wallet) (key : String) (net : ℤ) → IsMild (set_balance env wallet key net)
  unfolding set_balance
  set-IsMild wallet key net =
      bind-IsMild (find_balance env database_error wallet.id)
        (λ existing. clock env >>= λ now. write_balance env wallet key net now existing)
        (find_balance-IsMild env database_error wallet.id)
        (λ existing s. write-IsMild wallet key net (env.now s.tick) existing s)

  currency-IsMild :
      (user_id environment key : String) (net : ℤ)
      → IsMild (sync_currency env user_id environment key net)
  unfolding sync_currency
  currency-IsMild user_id environment key net =
      bind-IsMild (choose_wallet env user_id environment key)
        (λ wallet. set_balance env wallet key net) (choose-IsMild user_id environment key)
        (λ wallet. set-IsMild wallet key net)

  each-IsMild :
      (user_id environment : String) (totals : List Total) (keys : List String)
      → IsMild (sync_each env user_id environment totals keys)
  unfolding sync_each
  each-IsMild user_id environment totals [] s = Mild-refl s
  each-IsMild user_id environment totals (key ∷ keys) s =
      bind-IsMild (sync_currency env user_id environment key (total_of_key key totals))
        (λ _. sync_each env user_id environment totals keys)
        (currency-IsMild user_id environment key (total_of_key key totals))
        (λ _. each-IsMild user_id environment totals keys) s

  environment-IsMild :
      (merchant_id environment : String)
      → IsMild (sync_wallet_balances_from_payments_for_environment env merchant_id environment)
  unfolding sync_wallet_balances_from_payments_for_environment find_merchant list_payments
      list_withdrawals
  environment-IsMild merchant_id environment =
      let merchant_found = find_merchant env database_error merchant_id in
      let missing = not_found "Merchant not found" in
      let paid_in = list_payments env database_error (is_paid_in merchant_id environment) in
      let confirmed_in =
        list_withdrawals env database_error (is_confirmed_in merchant_id environment) in
      let run : Merchant → List Payment → List Withdrawal → M (Unit {0}) =
        λ merchant paid confirmed.
          let totals = totals_of env.json_tx_hash environment paid confirmed in
          sync_each env merchant.user_id environment totals (env.hash_order (keys_of totals)) in
      bind-IsMild merchant_found
        (λ found. ok_or missing found >>= λ merchant.
          paid_in >>= λ paid. confirmed_in >>= run merchant paid)
        (read-IsMild env database_error
          (λ w. find_first (merchant_by_id merchant_id) w.db.merchants))
        (λ found.
          bind-IsMild (ok_or missing found)
            (λ merchant. paid_in >>= λ paid. confirmed_in >>= run merchant paid)
            (ok_or-IsMild missing found)
            (λ merchant.
              bind-IsMild paid_in (λ paid. confirmed_in >>= run merchant paid)
                (read-IsMild env database_error
                  (λ w. filter_rows (is_paid_in merchant_id environment) w.db.payments))
                (λ paid.
                  bind-IsMild confirmed_in (run merchant paid)
                    (read-IsMild env database_error
                      (λ w. filter_rows (is_confirmed_in merchant_id environment) w.db.withdrawals))
                    (λ confirmed.
                      let totals = totals_of env.json_tx_hash environment paid confirmed in
                      each-IsMild merchant.user_id environment totals
                        (env.hash_order (keys_of totals))))))

  -- Whatever the database and the key generator answer, and also where it ends with an error, a
  -- sync of one environment changes no locked balance, no withdrawal, no payment, no merchant and
  -- no transaction record; it sends nothing, starts no task and puts none off, reports no event of
  -- a payment and does not sleep.
  pub sync-Mild :
      (merchant_id environment : String) (s : World)
      → Mild s (
          world_of
            (sync_wallet_balances_from_payments_for_environment env merchant_id environment s))
  sync-Mild merchant_id environment s = environment-IsMild merchant_id environment s
