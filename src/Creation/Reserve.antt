-- ===== src/Creation/Reserve.antt =====
-- What a new withdrawal locks, and what an error leaves.
use text.Mathlib.TextPositions.{eq_refl}
use zabypay_core.Prelude.{
  ◌++◌, ◌∷◌, [], ℕ, suc, ℤ, pos, String, true, false, none, some, ◌≡◌, refl, arith, int_laws,
  -ℤ-nonneg, eq_of_parts, ◌+ℤ◌, ◌-ℤ◌, ◌≤ℤ◌,
}
use zabypay_core.Prelude.Table.{
  find_first, modify_where, find_first-modify_where, find_first-some, find_first-append,
}
use zabypay_core.Entities.{Withdrawal, Balance, Wallet, total_of}
use zabypay_core.Entities.Views.{get_total_with_locked}
use zabypay_core.Store.{
  Env, World, ok, err, advance, by_id, by_wallet, by_balance_id, call, find_balance, update_balance,
  insert_withdrawal, insert_transaction,
}
use zabypay_core.Store.Laws.{IsQuiet, set_withdrawals, set_balances, add_transaction}
use zabypay_core.Creation.Amounts.{
  Library, Request, Sums, network_to_currency, decide_sums, is_short, shortage,
}
use zabypay_core.States.{funds_text, lifecycle_text}
use zabypay_core.Creation.{new_withdrawal, locking_row, lock_record, record_lock, reserve}

module _ (env : Env) (library : Library) (merchant_id : String) (wallet : Wallet)
    (request : Request) (b : Balance) (sums : Sums) (s : World)
    (funded : find_first (by_wallet wallet.id) s.db.balances ≡ some b)
    (decided : decide_sums library request b (advance s) ≡ ok sums (advance s)) where
  abbrev pub created : Withdrawal
  created =
      new_withdrawal (env.uuid (suc s.tick)) (env.now (suc s.tick)) merchant_id wallet.id request
        (network_to_currency request.network) sums

  abbrev pub lock : Balance → Balance
  lock = locking_row (sums.amount +ℤ sums.fee) b (env.now (suc (suc s.tick)))

  abbrev pub reserved : World
  reserved =
      add_transaction
        (lock_record (env.uuid (suc (suc (suc s.tick)))) (env.now (suc (suc (suc s.tick))))
          created.id wallet request (network_to_currency request.network) sums b)
        (set_balances (modify_where (by_balance_id b.id) lock) (
          set_withdrawals (λ rows. rows ++ created ∷ [])
            (record s { tick = suc (suc (suc (suc s.tick))) })))

  -- A shortage is refused before any row is written.
  reserve_short :
      (quiet : IsQuiet env)
      → is_short b sums ≡ true
      → reserve env library merchant_id wallet request s
        ≡ err (shortage library request b sums) (advance s)
  unfolding reserve find_balance call
  reserve_short quiet short = ground (arith, quiet s.tick, funded, decided, short)

  pub reserve_run :
      (quiet : IsQuiet env)
      → is_short b sums ≡ false
      → reserve env library merchant_id wallet request s ≡ ok created reserved
  unfolding reserve find_balance insert_withdrawal update_balance record_lock insert_transaction
      call
  reserve_run quiet covered =
      let there =
        find_first-some (by_wallet wallet.id) (by_balance_id b.id) s.db.balances b funded
          (eq_refl b.id) in
      ground (
        arith,
        quiet s.tick,
        quiet (suc s.tick),
        quiet (suc (suc s.tick)),
        quiet (suc (suc (suc s.tick))),
        funded,
        decided,
        there,
      )

-- The withdrawal is created and waits with its funds marked as locked; they have moved from the
-- available balance `b` to the locked one, and what is available is not overdrawn.
abbrev pub LocksFunds : Env → Library → String → Wallet → Request → Balance → Sums → World → Type 0
LocksFunds env library merchant_id wallet request b sums s =
    (w : Withdrawal) × (t : World) × (reserve env library merchant_id wallet request s ≡ ok w t)
    × (find_first (by_id w.id) t.db.withdrawals ≡ some w)
    × (w.status ≡ "pending")
    × (w.withdrawal_funds_state ≡ "locked")
    × (w.lifecycle_state ≡ "quoted")
    × (w.amount ≡ sums.amount)
    × (w.wallet_id ≡ wallet.id)
    × (w.network ≡ request.network)
    × (t.db.wallets ≡ s.db.wallets)
    × ((c : Balance) × (find_first (by_wallet wallet.id) t.db.balances ≡ some c)
        × (c.available_balance ≡ b.available_balance -ℤ total_of w)
        × (pos 0 ≤ℤ c.available_balance)
        × (c.locked_balance ≡ b.locked_balance +ℤ total_of w)
        × (c.pending_balance ≡ b.pending_balance)
        × (c.total_balance ≡ b.total_balance)
        × (get_total_with_locked c ≡ get_total_with_locked b))

not_short :
    (b : Balance) (sums : Sums)
    → is_short b sums ≡ false
    → pos 0 ≤ℤ b.available_balance -ℤ (sums.amount +ℤ sums.fee)
unfolding is_short
not_short b sums h = -ℤ-nonneg b.available_balance (sums.amount +ℤ sums.fee) (ground arith)

locking_keeps_total :
    (b : Balance) (total : ℤ) (now : ℕ)
    → get_total_with_locked (locking_row total b now b) ≡ get_total_with_locked b
unfolding get_total_with_locked
locking_keeps_total b total now = eq_of_parts _ _ (omega int_laws)

-- The row that is written is new.
abbrev pub IsFresh : Env → World → Type 0
IsFresh env s = find_first (by_id (env.uuid (suc s.tick))) s.db.withdrawals ≡ none

-- When the database answers, the wallet's balance is found, the sums are decided and covered by
-- what is available, and the identifier is new: a withdrawal of the decided amount is created,
-- "pending" and with funds "locked" but in the lifecycle state "quoted"; its amount and fee move
-- from the available to the locked balance, which leaves no negative available balance and the sum
-- of available, pending and locked funds as it was.
pub reserve-LocksFunds :
    (env : Env) (quiet : IsQuiet env) (library : Library) (merchant_id : String) (wallet : Wallet)
    (request : Request) (b : Balance) (sums : Sums) (s : World)
    → find_first (by_wallet wallet.id) s.db.balances ≡ some b
    → decide_sums library request b (advance s) ≡ ok sums (advance s)
    → is_short b sums ≡ false
    → IsFresh env s
    → LocksFunds env library merchant_id wallet request b sums s
unfolding funds_text lifecycle_text
reserve-LocksFunds env quiet library merchant_id wallet request b sums s funded decided covered
      fresh =
    let w : Withdrawal = created env library merchant_id wallet request b sums s funded decided in
    let row = lock env library merchant_id wallet request b sums s funded decided in
    (
      w,
      reserved env library merchant_id wallet request b sums s funded decided,
      reserve_run env library merchant_id wallet request b sums s funded decided quiet covered,
      find_first-append (by_id w.id) s.db.withdrawals w fresh (eq_refl w.id),
      refl,
      refl,
      refl,
      refl,
      refl,
      refl,
      refl,
      (
        row b,
        find_first-modify_where (by_wallet wallet.id) (by_balance_id b.id) row (λ x. refl)
            s.db.balances b funded (eq_refl b.id),
        refl,
        not_short b sums covered,
        refl,
        refl,
        refl,
        locking_keeps_total b (sums.amount +ℤ sums.fee) (env.now (suc (suc s.tick))),
      ),
    )
