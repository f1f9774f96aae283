-- ===== src/Monitor/Failure.antt =====
-- What `handle_withdrawal_failure` promises, and what it lets happen.
use text.Mathlib.TextPositions.{eq_refl}
use zabypay_core.Prelude.{ℕ, suc, String, some, ◌≡◌, refl, arith, ◌≤ℤ◌, ◌+ℤ◌, ◌-ℤ◌, eq_iff}
use zabypay_core.Prelude.Table.{find_first, modify_where, find_first_holds, find_first-modify_where}
use zabypay_core.States.{
  LifecycleState, FundsState, parse_lifecycle, parse_funds, lifecycle_text, funds_text,
}
use zabypay_core.Entities.{Withdrawal, Balance, total_of}
use zabypay_core.Entities.Views.{get_total_with_locked, get_lifecycle_state, get_funds_state}
use zabypay_core.Store.{Env, World, ok, advance, by_id, by_wallet}
use zabypay_core.Store.Laws.{
  IsQuiet, set_withdrawals, update_withdrawal-quiet, find_withdrawal-quiet,
}
use zabypay_core.Monitor.{
  fail_row, release, handle_withdrawal_failure, fetch_withdrawal_error, update_failed_error,
}
use zabypay_core.Monitor.Funds.{
  after_release, release_locked_funds_lem, find-patched, release_exact,
}

module _ (env : Env) (quiet : IsQuiet env) (reason : String) (w : Withdrawal) (s : World)
    (b : Balance) (id : String) (listed : find_first (by_id id) s.db.withdrawals ≡ some w)
    (found : find_first (by_wallet w.wallet_id) s.db.balances ≡ some b) where
  -- The world after the withdrawal's row was marked.
  abbrev pub marked : World
  marked =
      set_withdrawals (modify_where (by_id w.id) (fail_row reason (env.now (suc s.tick))))
        (advance (advance s))

  same_id : w.id ≡ id
  same_id = (eq_iff w.id id).0 (find_first_holds (by_id id) s.db.withdrawals w listed)

  listed_self : find_first (by_id w.id) s.db.withdrawals ≡ some w
  listed_self = ground (arith, same_id, listed)

  pub handle_withdrawal_failure_lem :
      handle_withdrawal_failure env id reason s ≡ ok tt (after_release env w b marked)
  unfolding handle_withdrawal_failure
  handle_withdrawal_failure_lem = ground (
    arith,
    find_withdrawal-quiet env quiet fetch_withdrawal_error s id,
    update_withdrawal-quiet env quiet update_failed_error (advance s) w.id
        (fail_row reason (env.now (suc s.tick))) w listed_self,
    release_locked_funds_lem env quiet w marked b found,
  )

  -- The row is found again, marked.
  pub marked_row :
      find_first (by_id id) marked.db.withdrawals ≡ some (fail_row reason (env.now (suc s.tick)) w)
  marked_row =
      find_first-modify_where (by_id id) (by_id w.id) (fail_row reason (env.now (suc s.tick)))
        (λ x. refl) s.db.withdrawals w listed (eq_refl w.id)

  pub released_balance :
      find_first (by_wallet w.wallet_id) (after_release env w b marked).db.balances
      ≡ some (release (total_of w) b (env.now (suc marked.tick)) b)
  released_balance =
      find-patched env quiet w marked b found (release (total_of w) b (env.now (suc marked.tick)))
        (λ x. refl)

-- The row of a failed withdrawal.
pub record IsFailed (why : String) (r : Withdrawal) : Type 0 where
  pub status : r.status ≡ "failed"
  pub lifecycle : get_lifecycle_state r ≡ LifecycleState.failed
  pub funds : get_funds_state r ≡ FundsState.released
  pub reason : r.failure_reason ≡ some why

fail_row-IsFailed :
    (reason : String) (now : ℕ) (w : Withdrawal) → IsFailed reason (fail_row reason now w)
unfolding get_lifecycle_state get_funds_state lifecycle_text funds_text parse_lifecycle parse_funds
fail_row-IsFailed reason now w = record {
  status = refl;
  lifecycle = refl;
  funds = refl;
  reason = refl;
}

-- The failure handler, run on `s` for `id`, succeeds and moves the funds of `w` back in the balance
-- `b`.
abbrev pub ReleasesFunds : Env → String → Withdrawal → World → Balance → String → Type 0
ReleasesFunds env reason w s b id =
    (t : World) × (handle_withdrawal_failure env id reason s ≡ ok tt t)
    × ((r : Withdrawal) × (find_first (by_id id) t.db.withdrawals ≡ some r) × IsFailed reason r)
    × ((c : Balance) × (find_first (by_wallet w.wallet_id) t.db.balances ≡ some c)
        × (c.locked_balance ≡ b.locked_balance -ℤ total_of w)
        × (c.available_balance ≡ b.available_balance +ℤ total_of w)
        × (c.total_balance ≡ b.total_balance)
        × (get_total_with_locked c ≡ get_total_with_locked b))

-- Two runs of the failure handler succeed and credit the available balance twice.
abbrev pub CreditsTwice : Env → String → Withdrawal → World → Balance → String → Type 0
CreditsTwice env reason w s b id =
    (t : World) × (u : World) × (handle_withdrawal_failure env id reason s ≡ ok tt t)
    × (handle_withdrawal_failure env id reason t ≡ ok tt u)
    × ((c : Balance) × (find_first (by_wallet w.wallet_id) u.db.balances ≡ some c)
        × (c.available_balance ≡ b.available_balance +ℤ total_of w +ℤ total_of w))

-- When the database answers, the withdrawal exists and its wallet's locked funds cover it, the
-- failure handler succeeds; the withdrawal is then failed with its funds marked released, and its
-- amount and fee have moved from the locked to the available balance, with the total balance and
-- the sum of available, pending and locked funds unchanged.
pub failure_releases :
    (env : Env) (quiet : IsQuiet env) (reason : String) (w : Withdrawal) (s : World) (b : Balance)
    (id : String)
    → find_first (by_id id) s.db.withdrawals ≡ some w
    → find_first (by_wallet w.wallet_id) s.db.balances ≡ some b
    → total_of w ≤ℤ b.locked_balance
    → ReleasesFunds env reason w s b id
failure_releases env quiet reason w s b id listed found covered =
    let t : World = after_release env w b (marked env quiet reason w s b id listed found) in
    let exact = release_exact (total_of w) b (env.now (suc (suc (suc s.tick)))) covered in
    (
      t,
      handle_withdrawal_failure_lem env quiet reason w s b id listed found,
      (
        fail_row reason (env.now (suc s.tick)) w,
        marked_row env quiet reason w s b id listed found,
        fail_row-IsFailed reason (env.now (suc s.tick)) w,
      ),
      (
        release (total_of w) b (env.now (suc (suc (suc s.tick)))) b,
        released_balance env quiet reason w s b id listed found,
        exact.0,
        exact.1,
        refl,
        exact.2,
      ),
    )

-- When the database answers, the withdrawal exists and its wallet has a balance: two calls of the
-- failure handler both succeed, and the wallet's available balance grows by twice the withdrawal's
-- amount and fee, whatever was locked.
pub failure_twice-CreditsTwice :
    (env : Env) (quiet : IsQuiet env) (reason : String) (w : Withdrawal) (s : World) (b : Balance)
    (id : String)
    → find_first (by_id id) s.db.withdrawals ≡ some w
    → find_first (by_wallet w.wallet_id) s.db.balances ≡ some b
    → CreditsTwice env reason w s b id
failure_twice-CreditsTwice env quiet reason w s b id listed found =
    let w1 : Withdrawal = fail_row reason (env.now (suc s.tick)) w in
    let b1 : Balance = release (total_of w) b (env.now (suc (suc (suc s.tick)))) b in
    let t : World = after_release env w b (marked env quiet reason w s b id listed found) in
    let listed1 : find_first (by_id id) t.db.withdrawals ≡ some w1 =
      marked_row env quiet reason w s b id listed found in
    let found1 : find_first (by_wallet w.wallet_id) t.db.balances ≡ some b1 =
      released_balance env quiet reason w s b id listed found in
    (
      t,
      after_release env w1 b1 (marked env quiet reason w1 t b1 id listed1 found1),
      handle_withdrawal_failure_lem env quiet reason w s b id listed found,
      handle_withdrawal_failure_lem env quiet reason w1 t b1 id listed1 found1,
      (
        release (total_of w1) b1 (env.now (suc (suc (suc t.tick)))) b1,
        released_balance env quiet reason w1 t b1 id listed1 found1,
        refl,
      ),
    )
