-- ===== src/Monitor/Confirm.antt =====
-- What `process_withdrawal_confirmation` promises on each branch.
use text.Mathlib.TextPositions.{eq_refl}
use zabypay_core.Prelude.{
  ℕ, ℤ, suc, String, Option, none, some, true, false, Bool, ◌≡◌, refl, ◌∙◌, arith, ◌-ℤ◌, str_eq,
  leb_ℤ, eq_iff, ◌||◌, ◌&&◌,
}
use zabypay_core.Prelude.Table.{find_first, modify_where, find_first-modify_where}
use zabypay_core.States.{
  LifecycleState, FundsState, parse_lifecycle, parse_funds, lifecycle_text, funds_text,
}
use zabypay_core.Entities.{Withdrawal, Balance, total_of}
use zabypay_core.Entities.Views.{get_total_with_locked, get_lifecycle_state, get_funds_state}
use zabypay_core.Store.{Env, World, ok, advance, by_id, by_wallet}
use zabypay_core.Store.Laws.{IsQuiet, set_withdrawals, update_withdrawal-quiet}
use zabypay_core.Monitor.{
  confirm_row, deduct, settle_confirmation, process_withdrawal_confirmation,
  update_withdrawal_error,
}
use zabypay_core.Monitor.Chain.{get_chain_config, check_blockchain_confirmations}
use zabypay_core.Monitor.Funds.{
  after_deduction, finalize_withdrawal_deduction_lem, find-patched, deduct_exact, IsCovered,
}

-- The networks and environments for which the counts that the monitor assumes reach finality.
abbrev pub is_settled : String → String → Bool
is_settled network environment =
    str_eq network "sol"
    || str_eq network "eth"
    || str_eq network "bnb"
    || (str_eq network "btc" && (str_eq environment "mainnet" || str_eq environment "testnet"))

abbrev pub reaches : Option ℤ → ℤ → Bool
reaches none finality = false
reaches (some confirmations) finality = leb_ℤ finality confirmations

-- The confirmations that the monitor assumes reach the configured finality exactly for "sol", "eth"
-- and "bnb" in every environment, and for "btc" on "mainnet" and "testnet".
pub finality_reached_iff :
    (tx_hash network environment : String)
    → reaches
        (check_blockchain_confirmations tx_hash network)
        (get_chain_config network environment).finality_confirmations
      ≡ is_settled network environment
unfolding check_blockchain_confirmations get_chain_config
finality_reached_iff tx_hash network environment =
    ground (
      arith,
      eq_iff network "sol",
      eq_iff network "eth",
      eq_iff network "bnb",
      eq_iff network "btc",
    )

-- The row of a confirmed withdrawal.
pub record IsConfirmed (r : Withdrawal) : Type 0 where
  pub status : r.status ≡ "confirmed"
  pub lifecycle : get_lifecycle_state r ≡ LifecycleState.confirmed
  pub funds : get_funds_state r ≡ FundsState.confirmed

pub confirm_row-IsConfirmed :
    (confirmations : ℤ) (now : ℕ) (w : Withdrawal) → IsConfirmed (confirm_row confirmations now w)
unfolding get_lifecycle_state get_funds_state lifecycle_text funds_text parse_lifecycle parse_funds
confirm_row-IsConfirmed confirmations now w = record {
  status = refl;
  lifecycle = refl;
  funds = refl;
}

module _ (env : Env) (quiet : IsQuiet env) (w : Withdrawal) (s : World) (b : Balance)
    (listed : find_first (by_id w.id) s.db.withdrawals ≡ some w)
    (found : find_first (by_wallet w.wallet_id) s.db.balances ≡ some b) (confirmations finality : ℤ)
    (final : leb_ℤ finality confirmations ≡ true) where
  -- The world after the withdrawal's row was confirmed.
  abbrev pub confirmed_world : World
  confirmed_world =
      set_withdrawals (modify_where (by_id w.id) (confirm_row confirmations (env.now s.tick)))
        (advance s)

  pub settle_confirmation_lem :
      settle_confirmation env w confirmations finality s
      ≡ ok true (after_deduction env w b confirmed_world)
  unfolding settle_confirmation
  settle_confirmation_lem = ground (
    arith,
    update_withdrawal-quiet env quiet update_withdrawal_error s w.id
        (confirm_row confirmations (env.now s.tick)) w listed,
    finalize_withdrawal_deduction_lem env quiet w confirmed_world b found,
  )

-- The count that the monitor assumes on a settled network, with the two facts that it gives.
pub known_counts :
    (hash network environment : String)
    → is_settled network environment ≡ true
    → (c : ℤ) × (check_blockchain_confirmations hash network ≡ some c)
      × (leb_ℤ (get_chain_config network environment).finality_confirmations c ≡ true)
known_counts hash network environment settled =
    counts_of (check_blockchain_confirmations hash network) _
      (finality_reached_iff hash network environment ∙ settled)
  where
    counts_of :
        (o : Option ℤ) (finality : ℤ)
        → reaches o finality ≡ true
        → (c : ℤ) × (o ≡ some c) × (leb_ℤ finality c ≡ true)
    counts_of none finality h = absurd (cc)
    counts_of (some c) finality h = (c, refl, h)

pub process_of_counts :
    (env : Env) (w : Withdrawal) (s : World) (hash : String) (c : ℤ)
    → w.tx_hash ≡ some hash
    → check_blockchain_confirmations hash w.network ≡ some c
    → process_withdrawal_confirmation env w s
      ≡ settle_confirmation env w c
          (get_chain_config w.network w.environment).finality_confirmations
          s
unfolding process_withdrawal_confirmation
process_of_counts env w s hash c hashed counted = ground (arith)

-- A monitoring step for `w` on `s` succeeds, confirms the row and takes the funds out of `b`.
abbrev pub DeductsFunds : Env → Withdrawal → World → Balance → Type 0
DeductsFunds env w s b =
    (t : World) × (process_withdrawal_confirmation env w s ≡ ok true t)
    × ((r : Withdrawal) × (find_first (by_id w.id) t.db.withdrawals ≡ some r) × IsConfirmed r)
    × ((c : Balance) × (find_first (by_wallet w.wallet_id) t.db.balances ≡ some c)
        × (c.locked_balance ≡ b.locked_balance -ℤ total_of w)
        × (c.total_balance ≡ b.total_balance -ℤ total_of w)
        × (c.available_balance ≡ b.available_balance)
        × (get_total_with_locked c ≡ get_total_with_locked b -ℤ total_of w))

-- When the database answers, the withdrawal has a transaction hash and is on one of the networks
-- that reach finality, and its wallet's locked and total balances cover it, a monitoring step
-- succeeds with "done": the withdrawal is confirmed in status, lifecycle and funds state, and its
-- amount and fee have left both the locked and the total balance, with the available balance as it
-- was and the sum of available, pending and locked funds smaller by the same.
pub confirmation_deducts :
    (env : Env) (quiet : IsQuiet env) (w : Withdrawal) (s : World) (b : Balance) (hash : String)
    → find_first (by_id w.id) s.db.withdrawals ≡ some w
    → find_first (by_wallet w.wallet_id) s.db.balances ≡ some b
    → w.tx_hash ≡ some hash
    → is_settled w.network w.environment ≡ true
    → IsCovered (total_of w) b
    → DeductsFunds env w s b
confirmation_deducts env quiet w s b hash listed found hashed settled covered =
    let counts = known_counts hash w.network w.environment settled in
    let confirmations : ℤ = counts.0 in
    let finality : ℤ = (get_chain_config w.network w.environment).finality_confirmations in
    let t : World =
      after_deduction env w b
        (confirmed_world env quiet w s b listed found confirmations finality counts.2) in
    let exact = deduct_exact (total_of w) b (env.now (suc (suc s.tick))) covered in
    (
      t,
      process_of_counts env w s hash confirmations hashed counts.1
          ∙ settle_confirmation_lem env quiet w s b listed found confirmations finality counts.2,
      (
        confirm_row confirmations (env.now s.tick) w,
        find_first-modify_where (by_id w.id) (by_id w.id)
            (confirm_row confirmations (env.now s.tick)) (λ x. refl) s.db.withdrawals w listed
            (eq_refl w.id),
        confirm_row-IsConfirmed confirmations (env.now s.tick) w,
      ),
      (
        deduct (total_of w) b (env.now (suc (suc s.tick))) b,
        find-patched env quiet w s b found (deduct (total_of w) b (env.now (suc (suc s.tick))))
            (λ x. refl),
        exact.0,
        exact.1,
        refl,
        exact.2,
      ),
    )
