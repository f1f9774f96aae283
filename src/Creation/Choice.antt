-- ===== src/Creation/Choice.antt =====
-- Whose wallet pays for a withdrawal.
use zabypay_core.Prelude.{
  String, Bool, true, Option, none, some, ◌≡◌, refl, subst, arith, ◌<>◌, ◌⊎◌, inl, inr, eq_iff,
  is_like,
}
use zabypay_core.Prelude.Table.{find_first, find_first_holds}
use zabypay_core.Errors.{AppError, database_error}
use zabypay_core.Entities.{Wallet}
use zabypay_core.Store.{
  Env, World, Outcome, ok, err, M, throw, ◌>>=◌, continue, advance, call, world_of,
  find_wallet_where,
}
use zabypay_core.BalanceSync.{has_currency, sync_wallet_balances_from_payments_for_environment}
use zabypay_core.Creation.Amounts.{Request}
use zabypay_core.Creation.Entry.{
  no_wallet, is_payment_funded, environment_currency, network_environment_currency, is_owned,
  wallet_error, or_nothing, or_find, find_after_sync, find_paying_wallet,
}

-- The wallet is the user's, and was made for a payment on the network, or has the currency or the
-- name of the network in the environment.
abbrev pub PaysFor : String → Request → Wallet → Type 0
PaysFor user_id request w =
    (w.user_id ≡ user_id)
    × ((is_like w.currency (request.network <> "_" <> request.environment <> "_%") ≡ true)
        ⊎ ((w.currency ≡ environment_currency request)
            ⊎ (w.currency ≡ network_environment_currency request)))

-- Where a call gives a wallet, it is one that may pay.
abbrev Gives : String → Request → Outcome Wallet → Type 0
Gives user_id request (ok w s) = PaysFor user_id request w
Gives user_id request (err e s) = Unit {0}

module _ (env : Env) (user_id : String) (request : Request) where
  -- A read of a wallet, with what is known of it, and the rest.
  read_then :
      (wrap : String → AppError) (p : Wallet → Bool) (k : Option Wallet → M Wallet)
      → ((x : Option Wallet) (t : World)
          → ((w : Wallet) → x ≡ some w → p w ≡ true)
          → Gives user_id request (k x t))
      → (s : World) → Gives user_id request ((find_wallet_where env wrap p >>= k) s)
  unfolding find_wallet_where call
  read_then wrap p k rest s =
      elim (env.fault s.tick)
        as (λ f. Gives user_id request (
          continue
            (continue (elim f [ none ↦ ok tt (advance s) | some e ↦ err (wrap e) (advance s) ])
              (λ _ t. ok (find_first p t.db.wallets) t))
            k)) [
              | none ↦
                  rest (find_first p s.db.wallets) (advance s) (find_first_holds p s.db.wallets)
              | some e ↦ tt
            ]

  quiet_read_then :
      (wrap : String → AppError) (p : Wallet → Bool) (k : Option Wallet → M Wallet)
      → ((x : Option Wallet) (t : World)
          → ((w : Wallet) → x ≡ some w → p w ≡ true)
          → Gives user_id request (k x t))
      → (s : World)
      → Gives user_id request (((λ t. or_nothing (find_wallet_where env wrap p t)) >>= k) s)
  unfolding find_wallet_where call
  quiet_read_then wrap p k rest s =
      elim (env.fault s.tick)
        as (λ f. Gives user_id request (
          continue
            (or_nothing (
              continue (elim f [ none ↦ ok tt (advance s) | some e ↦ err (wrap e) (advance s) ])
                (λ _ t. ok (find_first p t.db.wallets) t)))
            k)) [
              | none ↦
                  rest (find_first p s.db.wallets) (advance s) (find_first_holds p s.db.wallets)
              | some e ↦ rest none (advance s) (λ w h. absurd (cc))
            ]

  or_find_lem :
      (x : Option Wallet) (other : M Wallet) (s : World)
      → ((w : Wallet) → x ≡ some w → PaysFor user_id request w)
      → Gives user_id request (other s)
      → Gives user_id request (or_find env x other s)
  unfolding or_find
  or_find_lem none other s found rest = rest
  or_find_lem (some w) other s found rest = found w refl

  funded-PaysFor :
      (w : Wallet) → is_payment_funded user_id request w ≡ true → PaysFor user_id request w
  funded-PaysFor w h = ((eq_iff w.user_id user_id).0 (ground arith), inl (ground arith))

  currency-PaysFor :
      (w : Wallet)
      → has_currency user_id (environment_currency request) w ≡ true
      → PaysFor user_id request w
  currency-PaysFor w h = (
    (eq_iff w.user_id user_id).0 (ground arith),
    inr (inl ((eq_iff w.currency (environment_currency request)).0 (ground arith))),
  )

  network-PaysFor :
      (w : Wallet)
      → has_currency user_id (network_environment_currency request) w ≡ true
      → PaysFor user_id request w
  network-PaysFor w h = (
    (eq_iff w.user_id user_id).0 (ground arith),
    inr (inr ((eq_iff w.currency (network_environment_currency request)).0 (ground arith))),
  )

  after_sync-Gives :
      (merchant_id : String) (s : World)
      → Gives user_id request (find_after_sync env merchant_id user_id request s)
  unfolding find_after_sync
  after_sync-Gives merchant_id s =
      quiet_read_then wallet_error (has_currency user_id (network_environment_currency request)) _
        (λ x t known.
          or_find_lem x _ t (λ w e. network-PaysFor w (known w e))
            (quiet_read_then wallet_error (has_currency user_id (environment_currency request)) _
              (λ y u kept.
                or_find_lem y (throw (no_wallet request)) u (λ w e. currency-PaysFor w (kept w e))
                  tt)
              t))
        (world_of (
          sync_wallet_balances_from_payments_for_environment env merchant_id request.environment s))

  paying_wallet-Gives :
      (merchant_id : String) (s : World)
      → Gives user_id request (find_paying_wallet env merchant_id user_id request s)
  unfolding find_paying_wallet
  paying_wallet-Gives merchant_id =
      read_then (λ e. database_error ("Failed to find payment-funded wallets: " <> e))
        (is_payment_funded user_id request) _
        (λ x t known.
          or_find_lem x _ t (λ w e. funded-PaysFor w (known w e))
            (read_then (λ e. database_error ("Failed to query all wallets: " <> e))
              (is_owned user_id) _
              (λ every v all.
                read_then wallet_error (has_currency user_id (environment_currency request)) _
                  (λ y u kept.
                    or_find_lem y _ u (λ w e. currency-PaysFor w (kept w e))
                      (read_then wallet_error
                        (has_currency user_id (network_environment_currency request)) _
                        (λ z r held.
                          or_find_lem z _ r (λ w e. network-PaysFor w (held w e))
                            (after_sync-Gives merchant_id r))
                        u))
                  v)
              t))

  -- Whatever the database answers, on each of the ways to a wallet, the one after a balance sync
  -- included: the wallet that is chosen to pay for a withdrawal is the user's, and was made for a
  -- payment on the network, or has the currency or the name of the network in the environment.
  pub paying_wallet-PaysFor :
      (merchant_id : String) (s t : World) (w : Wallet)
      → find_paying_wallet env merchant_id user_id request s ≡ ok w t
      → PaysFor user_id request w
  paying_wallet-PaysFor merchant_id s t w e =
      subst (Gives user_id request) e (paying_wallet-Gives merchant_id s)
