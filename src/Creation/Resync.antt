-- ===== src/Creation/Resync.antt =====
-- A balance sync while a withdrawal waits.
use zabypay_core.Prelude.{String, false, some, ◌≡◌, refl, sym, ◌∙◌, ap, arith, max_zero, ◌+ℤ◌, ◌-ℤ◌}
use zabypay_core.Prelude.Table.{
  find_first, filter_rows, find_first-modify_where, filter_rows-append,
}
use text.Mathlib.TextPositions.{eq_refl}
use zabypay_core.Entities.{Withdrawal, Balance, Wallet, Merchant, total_of}
use zabypay_core.Store.{Env, World, ok, advance, by_wallet, by_balance_id}
use zabypay_core.Store.Laws.{IsQuiet}
use zabypay_core.BalanceSync.{
  is_paid_in, is_confirmed_in, sync_wallet_balances_from_payments_for_environment,
}
use zabypay_core.BalanceSync.Totals.{keys_of, totals_of}
use zabypay_core.BalanceSync.Net.{paid_sum, withdrawn_sum}
use zabypay_core.BalanceSync.Single.{IsSingle, net_of, sync-SetsNet}
use zabypay_core.Creation.Amounts.{Library, Request, Sums, decide_sums, is_short}
use zabypay_core.Creation.{reserve}
use zabypay_core.Creation.Reserve.{created, lock, reserved, reserve_run}

-- A withdrawal is created, which takes its sum from the available balance and locks it; and the
-- sync after it puts the sum back into the available balance, where it stays locked as well.
abbrev pub ReturnsLock : Env → Library → Merchant → Wallet → Request → Balance → World → Type 0
ReturnsLock env library m wallet request b s =
    (w : Withdrawal) × (t u : World) × (reserve env library m.id wallet request s ≡ ok w t)
    × (sync_wallet_balances_from_payments_for_environment env m.id request.environment t ≡ ok tt u)
    × ((c : Balance) × (find_first (by_wallet wallet.id) t.db.balances ≡ some c)
        × (c.available_balance ≡ b.available_balance -ℤ total_of w))
    × ((d : Balance) × (find_first (by_wallet wallet.id) u.db.balances ≡ some d)
        × (d.available_balance ≡ b.available_balance)
        × (d.locked_balance ≡ b.locked_balance +ℤ total_of w))

-- When the database answers, the merchant has sums in one currency, and the balance of the wallet
-- with it is as a sync leaves it: a covered withdrawal takes its sum from the available balance and
-- locks it, and a sync before it is confirmed makes all of it available again, for another
-- withdrawal, while it is still locked.
pub reserve_then_sync-ReturnsLock :
    (env : Env) (quiet : IsQuiet env) (library : Library) (m : Merchant) (key : String)
    (wallet : Wallet) (request : Request) (b : Balance) (sums : Sums) (s : World)
    → IsSingle env request.environment m key wallet b s
    → b.available_balance ≡ max_zero (net_of m.id request.environment s)
    → decide_sums library request b (advance s) ≡ ok sums (advance s)
    → is_short b sums ≡ false
    → ReturnsLock env library m wallet request b s
reserve_then_sync-ReturnsLock env quiet library m key wallet request b sums s single synced decided
      covered =
    let funded = single.funded in
    let w : Withdrawal = created env library m.id wallet request b sums s funded decided in
    let row = lock env library m.id wallet request b sums s funded decided in
    let t : World = reserved env library m.id wallet request b sums s funded decided in
    let rows : filter_rows (is_confirmed_in m.id request.environment) t.db.withdrawals
        ≡ filter_rows (is_confirmed_in m.id request.environment) s.db.withdrawals =
      filter_rows-append (is_confirmed_in m.id request.environment) s.db.withdrawals w
        (ground arith) in
    let paid = filter_rows (is_paid_in m.id request.environment) s.db.payments in
    let found : find_first (by_wallet wallet.id) t.db.balances ≡ some (row b) =
      find_first-modify_where (by_wallet wallet.id) (by_balance_id b.id) row (λ x. refl)
        s.db.balances b funded (eq_refl b.id) in
    let again : IsSingle env request.environment m key wallet (row b) t = record {
      listed = single.listed;
      keys =
          ap (λ x. keys_of (totals_of env.json_tx_hash request.environment paid x)) rows
          ∙ single.keys;
      order = single.order;
      owned = single.owned;
      funded = found;
    } in
    let net : net_of m.id request.environment t ≡ net_of m.id request.environment s =
      ap (λ x. paid_sum paid -ℤ withdrawn_sum x) rows in
    let (u, run, (d, kept, da, dt, dp, dl)) =
      sync-SetsNet env quiet request.environment m key wallet (row b) t again in
    (
      w,
      t,
      u,
      reserve_run env library m.id wallet request b sums s funded decided quiet covered,
      run,
      (row b, found, refl),
      (d, kept, da ∙ ap max_zero net ∙ sym synced, dl),
    )
