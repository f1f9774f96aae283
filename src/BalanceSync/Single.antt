-- ===== src/BalanceSync/Single.antt =====
-- The balance that a sync leaves where a merchant was paid in one currency.
use text.Mathlib.TextPositions.{eq_refl}
use zabypay_core.Prelude.{
  ℤ, pos, suc, String, true, some, List, [], ◌∷◌, ◌-ℤ◌, ◌+ℤ◌, ◌≡◌, refl, ◌∙◌, ap, arith, int_laws,
  eq_of_parts, max_zero, ltb_ℤ, str_eq, if◌then◌else◌,
}
use zabypay_core.Prelude.Table.{
  find_first, filter_rows, modify_where, find_first-modify_where, find_first-some,
}
use zabypay_core.Entities.{Balance, Wallet, Merchant}
use zabypay_core.Store.{
  Env, World, ok, advance, by_wallet, by_balance_id, merchant_by_id, call, find_merchant,
  find_balance, find_wallet_where, list_payments, list_withdrawals, update_balance,
}
use zabypay_core.Store.Laws.{IsQuiet, set_balances}
use zabypay_core.BalanceSync.Totals.{Total, keys_of, total_of_key, totals_of}
use zabypay_core.BalanceSync.Net.{sum_totals, paid_sum, withdrawn_sum, sum_of_totals}
use zabypay_core.BalanceSync.{
  is_paid_in, is_confirmed_in, has_currency, synced_row, choose_wallet, write_balance, set_balance,
  sync_currency, sync_each, sync_wallet_balances_from_payments_for_environment,
}

-- What the merchant was paid in this environment, less what has left it in confirmed withdrawals.
abbrev pub net_of : String → String → World → ℤ
net_of merchant_id environment s =
    paid_sum (filter_rows (is_paid_in merchant_id environment) s.db.payments)
    -ℤ withdrawn_sum (filter_rows (is_confirmed_in merchant_id environment) s.db.withdrawals)

abbrev pub totals_in : Env → String → String → World → List Total
totals_in env merchant_id environment s =
    totals_of env.json_tx_hash environment
      (filter_rows (is_paid_in merchant_id environment) s.db.payments)
      (filter_rows (is_confirmed_in merchant_id environment) s.db.withdrawals)

-- The merchant `m` has sums in the one currency `key`, in the wallet and the balance `b`.
pub record IsSingle (env : Env) (environment : String) (m : Merchant) (key : String)
    (wallet : Wallet) (b : Balance) (s : World) : Type 0 where
  pub listed : find_first (merchant_by_id m.id) s.db.merchants ≡ some m
  pub keys : keys_of (totals_in env m.id environment s) ≡ key ∷ []
  pub order : env.hash_order (key ∷ []) ≡ key ∷ []
  pub owned : find_first (has_currency m.user_id key) s.db.wallets ≡ some wallet
  pub funded : find_first (by_wallet wallet.id) s.db.balances ≡ some b

one_total :
    (key : String) (ts : List Total) → keys_of ts ≡ key ∷ [] → total_of_key key ts ≡ sum_totals ts
unfolding total_of_key
one_total key [] h = absurd (cc)
one_total key (t ∷ []) h =
    let same : t.key ≡ key = cc in
    let found : str_eq t.key key ≡ true = ap (λ x. str_eq x key) same ∙ eq_refl key in
    rw found (eq_of_parts t.amount (t.amount +ℤ pos 0) (omega int_laws))
one_total key (t ∷ u ∷ ts) h = absurd (cc)

floor_is_max : (net : ℤ) → (if ltb_ℤ net (pos 0) then pos 0 else net) ≡ max_zero net
unfolding max_zero
floor_is_max net = ground arith

module _ (env : Env) (quiet : IsQuiet env) where
  abbrev pub written : ℤ → Balance → World → World
  written net b s =
      set_balances (modify_where (by_balance_id b.id) (synced_row net (env.now (suc s.tick))))
        (advance (advance s))

  set_run :
      (wallet : Wallet) (key : String) (net : ℤ) (b : Balance) (s : World)
      → find_first (by_wallet wallet.id) s.db.balances ≡ some b
      → set_balance env wallet key net s ≡ ok tt (written net b s)
  unfolding set_balance write_balance find_balance update_balance call
  set_run wallet key net b s funded =
      let there =
        find_first-some (by_wallet wallet.id) (by_balance_id b.id) s.db.balances b funded
          (eq_refl b.id) in
      ground (arith, there, quiet s.tick, quiet (suc s.tick))

  currency_run :
      (user_id environment key : String) (net : ℤ) (wallet : Wallet) (b : Balance) (s : World)
      → find_first (has_currency user_id key) s.db.wallets ≡ some wallet
      → find_first (by_wallet wallet.id) s.db.balances ≡ some b
      → sync_currency env user_id environment key net s ≡ ok tt (written net b (advance s))
  unfolding sync_currency choose_wallet find_wallet_where call
  currency_run user_id environment key net wallet b s owned funded =
      ground (arith, quiet s.tick, set_run wallet key net b (advance s) funded)

module _ (env : Env) (quiet : IsQuiet env) (environment : String) (m : Merchant) (key : String)
    (wallet : Wallet) (b : Balance) (s : World)
    (single : IsSingle env environment m key wallet b s) where
  abbrev asked : World
  asked = record s { tick = suc (suc (suc s.tick)) }

  abbrev total : ℤ
  total = total_of_key key (totals_in env m.id environment s)

  abbrev pub synced : World
  synced = written env quiet total b (advance asked)

  pub sync_run :
      sync_wallet_balances_from_payments_for_environment env m.id environment s ≡ ok tt synced
  unfolding sync_wallet_balances_from_payments_for_environment find_merchant list_payments
      list_withdrawals call sync_each
  sync_run =
      let keys : env.hash_order (keys_of (totals_in env m.id environment s)) ≡ key ∷ [] =
        ap env.hash_order single.keys ∙ single.order in
      ground (
        arith,
        keys,
        single.listed,
        quiet s.tick,
        quiet (suc s.tick),
        quiet (suc (suc s.tick)),
        currency_run env quiet m.user_id environment key total wallet b asked single.owned
            single.funded,
      )

  pub total_is_net : total ≡ net_of m.id environment s
  total_is_net =
      one_total key (totals_in env m.id environment s) single.keys
      ∙ sum_of_totals env.json_tx_hash environment
          (filter_rows (is_paid_in m.id environment) s.db.payments)
          (filter_rows (is_confirmed_in m.id environment) s.db.withdrawals)

-- A sync succeeds, and leaves `net` or zero as available and total balance, nothing pending, and
-- what was locked in `b`.
abbrev pub SetsNet : Env → String → Merchant → Wallet → Balance → ℤ → World → Type 0
SetsNet env environment m wallet b net s =
    (t : World) × (sync_wallet_balances_from_payments_for_environment env m.id environment s
      ≡ ok tt t)
    × ((d : Balance) × (find_first (by_wallet wallet.id) t.db.balances ≡ some d)
        × (d.available_balance ≡ max_zero net)
        × (d.total_balance ≡ max_zero net)
        × (d.pending_balance ≡ pos 0)
        × (d.locked_balance ≡ b.locked_balance))

-- When the database answers: for a merchant with sums in one currency, a sync sets the available
-- and the total balance of the wallet with that currency to what was paid less what was withdrawn
-- and confirmed, or to zero where that is less, whatever they were; nothing is left pending, and
-- the lock stays.
pub sync-SetsNet :
    (env : Env) (quiet : IsQuiet env) (environment : String) (m : Merchant) (key : String)
    (wallet : Wallet) (b : Balance) (s : World)
    → IsSingle env environment m key wallet b s
    → SetsNet env environment m wallet b (net_of m.id environment s) s
sync-SetsNet env quiet environment m key wallet b s single =
    let net = total_is_net env quiet environment m key wallet b s single in
    let sum = total env quiet environment m key wallet b s single in
    let row = synced_row sum (env.now (suc (suc (suc (suc (suc s.tick)))))) in
    (
      synced env quiet environment m key wallet b s single,
      sync_run env quiet environment m key wallet b s single,
      (
        row b,
        find_first-modify_where (by_wallet wallet.id) (by_balance_id b.id) row (λ x. refl)
            s.db.balances b single.funded (eq_refl b.id),
        floor_is_max sum ∙ ap max_zero net,
        ap max_zero net,
        refl,
        refl,
      ),
    )
