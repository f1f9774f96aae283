-- ===== src/Creation/Unlocked.antt =====
-- A new withdrawal whose funds could not be locked.
use text.Mathlib.TextPositions.{eq_refl}
use zabypay_core.Prelude.{
  ◌<>◌, ◌++◌, ◌∷◌, [], suc, String, false, Option, none, some, ◌≡◌, refl, arith,
}
use zabypay_core.Prelude.Table.{find_first, find_first-append}
use zabypay_core.Errors.{database_error}
use zabypay_core.Entities.{Withdrawal, Balance, Wallet}
use zabypay_core.Store.{
  Env, World, ok, err, advance, by_id, by_wallet, call, find_balance, update_balance,
  insert_withdrawal,
}
use zabypay_core.Store.Laws.{FailsAt, set_withdrawals}
use zabypay_core.Creation.Amounts.{Library, Request, Sums, decide_sums, is_short}
use zabypay_core.States.{funds_text}
use zabypay_core.Creation.{create_from_key, by_key, find_duplicate, reserve}
use zabypay_core.Creation.Reserve.{created, IsFresh}

-- An error is reported and no balance has changed, but the withdrawal is there, pending and with
-- funds marked as locked, and a second request that reaches the check of the key returns it as a
-- success.
abbrev pub LeavesUnlocked :
    Env → Library → (World → Option World) → String → Wallet → Request → String → World → Type 0
LeavesUnlocked env library late merchant_id wallet request reason s =
    (t : World) × (reserve env library merchant_id wallet request s
      ≡ err (database_error ("Failed to update balance: " <> reason)) t)
    × (t.db.balances ≡ s.db.balances)
    × (t.db.transactions ≡ s.db.transactions)
    × ((w : Withdrawal) × (find_first (by_id w.id) t.db.withdrawals ≡ some w)
        × (w.status ≡ "pending")
        × (w.withdrawal_funds_state ≡ "locked")
        × (create_from_key env library late merchant_id wallet request t ≡ ok w (advance t)))

module _ (env : Env) (library : Library) (late : World → Option World) (merchant_id : String)
    (wallet : Wallet) (request : Request) (b : Balance) (sums : Sums) (reason : String) (s : World)
    (fails : FailsAt env (suc (suc s.tick)) reason)
    (funded : find_first (by_wallet wallet.id) s.db.balances ≡ some b)
    (decided : decide_sums library request b (advance s) ≡ ok sums (advance s)) where
  abbrev unlocked : World
  unlocked =
      set_withdrawals
        (λ rows.
          rows ++ created env library merchant_id wallet request b sums s funded decided ∷ [])
        (record s { tick = suc (suc (suc s.tick)) })

  update_stops :
      is_short b sums ≡ false
      → reserve env library merchant_id wallet request s
        ≡ err (database_error ("Failed to update balance: " <> reason)) unlocked
  unfolding reserve find_balance insert_withdrawal update_balance call
  update_stops covered =
      ground (arith, fails.0, fails.1 s.tick, fails.1 (suc s.tick), funded, decided)

  duplicate_returned :
      (t : World) (w : Withdrawal)
      → env.fault t.tick ≡ none
      → find_first (by_key merchant_id request.idempotency_key) t.db.withdrawals ≡ some w
      → create_from_key env library late merchant_id wallet request t ≡ ok w (advance t)
  unfolding create_from_key find_duplicate call
  duplicate_returned t w quiet there = ground arith

  -- Where the database fails at the update of the balance, and at no other call, and the merchant
  -- has no withdrawal with this key yet: creating a covered withdrawal reports the error and no
  -- balance changes, but the withdrawal is there, pending with its funds marked as locked, and the
  -- next request that reaches the check of the key returns it as a success.
  pub reserve-LeavesUnlocked :
      is_short b sums ≡ false
      → IsFresh env s
      → find_first (by_key merchant_id request.idempotency_key) s.db.withdrawals ≡ none
      → LeavesUnlocked env library late merchant_id wallet request reason s
  unfolding funds_text
  reserve-LeavesUnlocked covered fresh unique =
      let w : Withdrawal = created env library merchant_id wallet request b sums s funded decided in
      (
        unlocked,
        update_stops covered,
        refl,
        refl,
        (
          w,
          find_first-append (by_id w.id) s.db.withdrawals w fresh (eq_refl w.id),
          refl,
          refl,
          duplicate_returned unlocked w (fails.2 unlocked.tick (omega arith)) (
              find_first-append (by_key merchant_id request.idempotency_key) s.db.withdrawals w
                unique (ground (arith, eq_refl merchant_id, eq_refl request.idempotency_key))),
        ),
      )
