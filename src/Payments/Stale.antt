-- ===== src/Payments/Stale.antt =====
-- A payment that is confirmed while a cycle holds an older copy of it.
use text.Mathlib.TextPositions.{eq_refl}
use zabypay_core.Prelude.{
  suc, String, true, false, none, some, List, [], ◌∷◌, ◌++◌, ◌≡◌, refl, arith, str_eq, leb, ◌≢◌,
}
use zabypay_core.Prelude.Table.{find_first, modify_where, find_first-modify_where}
use zabypay_core.Entities.{Payment}
use zabypay_core.Store.{Env, World, ok, advance, payment_by_id, call, find_payment, update_payment}
use zabypay_core.Store.Laws.{IsQuiet}
use zabypay_core.BalanceSync.{is_paid_in}
use zabypay_core.Payments.{
  Chain, Metadata, paid_row, expired_row, mark_paid, verify, confirm_payment, expire_payment,
  check_payment,
}

-- The world with another table of payments.
abbrev set_payments : List Payment → World → World
set_payments rows s = record s { db = record s.db { payments = rows } }

abbrev told : String → String → World → World
told id event s = record s { events = s.events ++ record { payment_id = id; event = event } ∷ [] }

module _ (env : Env) (quiet : IsQuiet env) (chain : Chain) (json : Metadata) (p : Payment)
    (hash : String) where
  abbrev paid_now : World → Payment → Payment
  paid_now s =
      paid_row (json.with_confirmation p.metadata hash (env.now (suc (suc s.tick))))
        (env.now (suc (suc s.tick)))

  abbrev pub paid_world : World → World
  paid_world s = told p.id "payment.confirmed" (
      set_payments (modify_where (payment_by_id p.id) (paid_now s) s.db.payments)
        (record s { tick = suc (suc (suc (suc (suc (suc s.tick))))) }))

  abbrev marked : World → World
  marked s =
      set_payments (modify_where (payment_by_id p.id) (paid_now s) s.db.payments)
        (record s { tick = suc (suc (suc (suc s.tick))) })

  marked_found :
      (r : Payment) (s : World)
      → find_first (payment_by_id p.id) s.db.payments ≡ some r
      → str_eq r.id p.id ≡ true
      → find_first (payment_by_id p.id) (marked s).db.payments ≡ some (paid_now s r)
  marked_found r s listed same =
      find_first-modify_where (payment_by_id p.id) (payment_by_id p.id) (paid_now s) (λ x. refl)
        s.db.payments r listed same

  mark_run :
      (s : World)
      → find_first (payment_by_id p.id) s.db.payments ≡ some p
      → mark_paid env chain json p hash s ≡ ok tt (marked s)
  unfolding mark_paid find_payment update_payment call
  mark_run s listed = ground (
    arith,
    quiet s.tick,
    quiet (suc s.tick),
    quiet (suc (suc s.tick)),
    quiet (suc (suc (suc s.tick))),
    listed,
  )

  verify_run :
      (s : World)
      → find_first (payment_by_id p.id) s.db.payments ≡ some p
      → verify env chain json 3 p.id (marked s) ≡ ok tt (advance (marked s))
  unfolding verify find_payment call
  verify_run s listed =
      let found = marked_found p s listed (eq_refl p.id) in
      ground (arith, quiet (marked s).tick, found)

  confirm_run :
      (s : World)
      → find_first (payment_by_id p.id) s.db.payments ≡ some p
      → confirm_payment env chain json p hash s ≡ ok tt (paid_world s)
  unfolding confirm_payment
  confirm_run s listed = ground (arith, mark_run s listed, verify_run s listed)

  abbrev expired_now : World → Payment → Payment
  expired_now s = expired_row (json.with_expiry p.metadata (env.now s.tick)) (env.now s.tick)

  abbrev expired_world : World → World
  expired_world s = told p.id "payment.expired" (
      set_payments (modify_where (payment_by_id p.id) (expired_now s) s.db.payments)
        (advance (advance s)))

  check_run :
      (r : Payment) (s : World)
      → find_first (payment_by_id p.id) s.db.payments ≡ some r
      → leb p.expires_at (env.now s.tick) ≡ true
      → check_payment env chain json p s ≡ ok tt (expired_world s)
  unfolding check_payment expire_payment update_payment call
  check_run r s listed late = ground (arith, quiet s.tick, listed, late)

-- The confirmation of `p` succeeds and its row counts as paid to the merchant; the check of the
-- copy succeeds as well, and then the row is expired, with the time at which it was paid, and no
-- longer counts.
abbrev pub LosesPayment : Env → Chain → Metadata → Payment → String → World → Type 0
LosesPayment env chain json p hash s =
    (t u : World) × (confirm_payment env chain json p hash s ≡ ok tt t)
    × ((q : Payment) × (find_first (payment_by_id p.id) t.db.payments ≡ some q)
        × (is_paid_in p.merchant_id p.environment q ≡ true))
    × (check_payment env chain json p t ≡ ok tt u)
    × ((q : Payment) × (find_first (payment_by_id p.id) u.db.payments ≡ some q)
        × (q.status ≡ "expired")
        × (q.paid_at ≢ none)
        × (is_paid_in p.merchant_id p.environment q ≡ false))

-- When the database answers: a payment that is confirmed counts as paid in the merchant's balance;
-- but a cycle that read it before, and checks that copy when its time is over, expires it all the
-- same, and the payment no longer counts, though the time of the payment stays in its row.
pub confirm_then_check-LosesPayment :
    (env : Env) (quiet : IsQuiet env) (chain : Chain) (json : Metadata) (p : Payment)
    (hash : String) (s : World)
    → find_first (payment_by_id p.id) s.db.payments ≡ some p
    → leb p.expires_at (env.now (paid_world env quiet chain json p hash s).tick) ≡ true
    → LosesPayment env chain json p hash s
confirm_then_check-LosesPayment env quiet chain json p hash s listed late =
    let t = paid_world env quiet chain json p hash s in
    let q = paid_now env quiet chain json p hash s p in
    let found : find_first (payment_by_id p.id) t.db.payments ≡ some q =
      marked_found env quiet chain json p hash p s listed (eq_refl p.id) in
    let row = expired_now env quiet chain json p hash t in
    (
      t,
      expired_world env quiet chain json p hash t,
      confirm_run env quiet chain json p hash s listed,
      (q, found, ground (arith, eq_refl p.merchant_id, eq_refl p.environment)),
      check_run env quiet chain json p hash q t found late,
      (
        row q,
        find_first-modify_where (payment_by_id p.id) (payment_by_id p.id) row (λ x. refl)
            t.db.payments q found (eq_refl p.id),
        refl,
        (λ e. absurd (cc)),
        ground (arith),
      ),
    )
