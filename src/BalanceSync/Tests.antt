-- ===== src/BalanceSync/Tests.antt =====
-- The sync on a merchant that was paid twice in one currency.
use zabypay_core.Prelude.{Bool, pos, refl, ◌≡◌, ◌-ℤ◌, ◌+ℤ◌, lower, contains, ◌∷◌, []}
use zabypay_core.Prelude.Table.{find_first, filter_rows}
use zabypay_core.Store.{world_of}
use zabypay_core.Samples.{calm, flaky, shop, till, cash, market, payment, done}
use zabypay_core.BalanceSync.Totals.{
  totals_of, actual_currency, add_to, add_payments, subtract_all, base_code, is_supported,
}
use zabypay_core.BalanceSync.{sync_wallet_balances_from_payments_for_environment}
use zabypay_core.BalanceSync.Mild.{Mild}
use zabypay_core.BalanceSync.Locks.{sync-Mild}
use zabypay_core.BalanceSync.Net.{sum_totals, paid_sum, withdrawn_sum, sum_of_totals}
use zabypay_core.BalanceSync.Single.{IsSingle, SetsNet, net_of, sync-SetsNet}

base_code_test : is_supported (base_code "sol_mainnet" "mainnet") ≡ Bool.true
unfolding is_supported base_code
base_code_test = refl

market-IsSingle : IsSingle calm "mainnet" shop "sol_mainnet" till cash market
unfolding find_first filter_rows lower contains actual_currency add_to add_payments subtract_all
market-IsSingle = record { listed = refl; keys = refl; order = refl; owned = refl; funded = refl }

sync-SetsNet_example : SetsNet calm "mainnet" shop till cash (net_of "m1" "mainnet" market) market
sync-SetsNet_example =
    sync-SetsNet calm (λ n. refl) "mainnet" shop "sol_mainnet" till cash market market-IsSingle

net_test : net_of "m1" "mainnet" market ≡ pos 180
unfolding filter_rows ◌+ℤ◌ ◌-ℤ◌
net_test = refl

sync-Mild_example :
    Mild market
      (world_of (sync_wallet_balances_from_payments_for_environment flaky "m1" "mainnet" market))
sync-Mild_example = sync-Mild flaky "m1" "mainnet" market

sum_of_totals_example :
    sum_totals (totals_of calm.json_tx_hash "mainnet" (payment "sol" ∷ []) (done ∷ []))
    ≡ paid_sum (payment "sol" ∷ []) -ℤ withdrawn_sum (done ∷ [])
sum_of_totals_example = sum_of_totals calm.json_tx_hash "mainnet" (payment "sol" ∷ []) (done ∷ [])
