-- ===== src/Monitor/Funds.antt =====
-- What the deduction and the release do to the balances, when the database answers.
use text.Mathlib.TextPositions.{eq_refl}
use zabypay_core.Prelude.{
  ℕ, ℤ, suc, some, ◌≡◌, refl, arith, int_laws, ◌≤ℤ◌, ◌+ℤ◌, ◌-ℤ◌, max_zero, max_zero_of_nonneg,
  -ℤ-nonneg,
}
use zabypay_core.Prelude.Table.{find_first, modify_where, find_first-some, find_first-modify_where}
use zabypay_core.Entities.{Withdrawal, Balance, total_of}
use zabypay_core.Entities.Views.{get_total_with_locked}
use zabypay_core.Store.{
  Env, World, ok, advance, by_wallet, by_balance_id, find_balance, update_balance,
  insert_transaction, call,
}
use zabypay_core.Store.Laws.{IsQuiet, set_balances, add_transaction}
use zabypay_core.Monitor.{
  deduct, release, final_row, release_row, finalize_withdrawal_deduction, release_locked_funds,
}

-- The world after a deduction of `w`'s funds, when `b` was read.
abbrev pub after_deduction : Env → Withdrawal → Balance → World → World
after_deduction env w b s =
    add_transaction (final_row (env.uuid (suc (suc s.tick))) (env.now (suc (suc s.tick))) w b) (
      set_balances
        (modify_where (by_balance_id b.id) (deduct (total_of w) b (env.now (suc s.tick))))
        (advance (advance (advance s))))

-- The world after a release of `w`'s funds, when `b` was read.
abbrev pub after_release : Env → Withdrawal → Balance → World → World
after_release env w b s =
    add_transaction (release_row (env.uuid (suc (suc s.tick))) (env.now (suc (suc s.tick))) w b) (
      set_balances
        (modify_where (by_balance_id b.id) (release (total_of w) b (env.now (suc s.tick))))
        (advance (advance (advance s))))

module _ (env : Env) (quiet : IsQuiet env) (w : Withdrawal) (s : World) (b : Balance)
    (found : find_first (by_wallet w.wallet_id) s.db.balances ≡ some b) where
  -- The row that was read is there to be updated.
  row_there : (x : Balance) × (find_first (by_balance_id b.id) s.db.balances ≡ some x)
  row_there = find_first-some (by_wallet w.wallet_id) (by_balance_id b.id) _ b found (eq_refl b.id)

  pub finalize_withdrawal_deduction_lem :
      finalize_withdrawal_deduction env w s ≡ ok tt (after_deduction env w b s)
  unfolding finalize_withdrawal_deduction find_balance update_balance insert_transaction call
  finalize_withdrawal_deduction_lem =
      ground (arith, row_there, quiet s.tick, quiet (suc s.tick), quiet (suc (suc s.tick)))

  pub release_locked_funds_lem : release_locked_funds env w s ≡ ok tt (after_release env w b s)
  unfolding release_locked_funds find_balance update_balance insert_transaction call
  release_locked_funds_lem =
      ground (arith, row_there, quiet s.tick, quiet (suc s.tick), quiet (suc (suc s.tick)))

  -- The wallet's balance is found again, with the patch applied.
  pub find-patched :
      (patch : Balance → Balance)
      → ((x : Balance) → (patch x).wallet_id ≡ x.wallet_id)
      → find_first (by_wallet w.wallet_id) (modify_where (by_balance_id b.id) patch s.db.balances)
        ≡ some (patch b)
  find-patched patch keep =
      find_first-modify_where (by_wallet w.wallet_id) (by_balance_id b.id) patch
        (λ x. ground (arith, keep x)) s.db.balances b found (eq_refl b.id)

-- A sum of at most the locked funds.
pub record IsCovered (total : ℤ) (b : Balance) : Type 0 where
  pub by_locked : total ≤ℤ b.locked_balance
  pub by_total : total ≤ℤ b.total_balance

-- A deduction of covered funds takes the same sum from the locked and from the total balance.
pub deduct_exact :
    (total : ℤ) (b : Balance) (now : ℕ)
    → IsCovered total b
    → ((deduct total b now b).locked_balance ≡ b.locked_balance -ℤ total)
      × ((deduct total b now b).total_balance ≡ b.total_balance -ℤ total)
      × (get_total_with_locked (deduct total b now b) ≡ get_total_with_locked b -ℤ total)
unfolding get_total_with_locked
deduct_exact total b now c =
    let locked : max_zero (b.locked_balance -ℤ total) ≡ b.locked_balance -ℤ total =
      max_zero_of_nonneg _ (-ℤ-nonneg _ _ c.by_locked) in
    (locked, max_zero_of_nonneg _ (-ℤ-nonneg _ _ c.by_total), rw locked (omega int_laws))

-- A release of covered funds moves them, and changes no total.
pub release_exact :
    (total : ℤ) (b : Balance) (now : ℕ)
    → total ≤ℤ b.locked_balance
    → ((release total b now b).locked_balance ≡ b.locked_balance -ℤ total)
      × ((release total b now b).available_balance ≡ b.available_balance +ℤ total)
      × (get_total_with_locked (release total b now b) ≡ get_total_with_locked b)
unfolding get_total_with_locked
release_exact total b now c =
    let locked : max_zero (b.locked_balance -ℤ total) ≡ b.locked_balance -ℤ total =
      max_zero_of_nonneg _ (-ℤ-nonneg _ _ c) in
    (locked, refl, rw locked (omega int_laws))
