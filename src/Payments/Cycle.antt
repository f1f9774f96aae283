-- ===== src/Payments/Cycle.antt =====
-- A cycle of the monitor as a step of the state machine of a payment.
use zabypay_core.Prelude.{
  String, true, false, Option, none, some, List, [], ◌∷◌, ◌≡◌, refl, ◌∙◌, ap, sym, subst, arith,
  str_eq, eq_iff, ◌⊎◌, inl, inr, Bool-cases, Option-cases, leb,
}
use zabypay_core.Prelude.Table.{find_first, filter_rows}
use zabypay_core.Entities.{Payment}
use zabypay_core.Store.{Env, World, advance, world_of, payment_by_id, call, list_payments}
use zabypay_core.Payments.Moves.{IsFinal, Handled, Handles, Handled-refl, Handled-trans}
use zabypay_core.Payments.Writes.{expire-IsHandling}
use zabypay_core.Payments.Handlers.{open-IsHandling}
use zabypay_core.Payments.{
  Chain, Metadata, is_pending, extract_transaction_hash, check_payment, check_each,
  check_pending_payments,
}

-- The state machine: a payment waits, and then is paid, over its time or failed, once for all.
pub data Move : String → String → Type 0 where
  stays : (status : String) → Move status status
  pays : Move "pending" "paid"
  expires : Move "pending" "expired"
  fails : Move "pending" "failed"

-- Each row with this key is the row `r`, as a primary key has it.
abbrev pub IsOnly : String → Payment → List Payment → Type 0
IsOnly id r [] = Unit {0}
IsOnly id r (x ∷ rows) = ((str_eq x.id id ≡ false) ⊎ (x ≡ r)) × IsOnly id r rows

abbrev IsAbsent : String → List Payment → Type 0
IsAbsent id [] = Unit {0}
IsAbsent id (x ∷ rows) = (str_eq x.id id ≡ false) × IsAbsent id rows

pending-IsAbsent :
    (id : String) (r : Payment) (rows : List Payment)
    → IsOnly id r rows
    → is_pending r ≡ false
    → IsAbsent id (filter_rows is_pending rows)
unfolding filter_rows
pending-IsAbsent id r [] only done = tt
pending-IsAbsent id r (x ∷ rows) (this, only) done = elim (Bool-cases (is_pending x)) [
  | inl e ↦ elim this [
    | inl apart ↦ rw e (apart, pending-IsAbsent id r rows only done)
    | inr same ↦ let clash : true ≡ false = sym e ∙ ap is_pending same ∙ done in absurd (cc)
  ]
  | inr e ↦ rw e (pending-IsAbsent id r rows only done)
]

pending-Move : (x y : String) → x ≡ "pending" → (y ≡ x) ⊎ IsFinal y → Move x y
pending-Move x y e (inl same) = subst (Move x) (sym same) (stays x)
pending-Move x y e (inr (inl f)) =
    subst (λ a. Move a y) (sym e) (subst (Move "pending") (sym f) pays)
pending-Move x y e (inr (inr (inl f))) =
    subst (λ a. Move a y) (sym e) (subst (Move "pending") (sym f) expires)
pending-Move x y e (inr (inr (inr f))) =
    subst (λ a. Move a y) (sym e) (subst (Move "pending") (sym f) fails)

module _ (env : Env) (chain : Chain) (json : Metadata) where
  check-Handles :
      (p : Payment) (s : World) → Handles p.id s (world_of (check_payment env chain json p s))
  unfolding check_payment
  check-Handles p s = elim (Bool-cases (leb p.expires_at (env.now s.tick))) [
    | inl e ↦ rw e (expire-IsHandling env chain json p s)
    | inr e ↦ rw e (open-IsHandling env chain json p (extract_transaction_hash env chain json p) s)
  ]

  -- Where the world is that the rest of a cycle begins with.
  checked : Payment → World → World
  checked p s = world_of (check_payment env chain json p s)

  check_each-cons :
      (p : Payment) (rest : List Payment) (s : World)
      → world_of (check_each env chain json (p ∷ rest) s)
        ≡ world_of (check_each env chain json rest (checked p s))
  unfolding check_each check_payment checked
  check_each-cons p rest s = elim (Bool-cases (leb p.expires_at (env.now s.tick))) [
    | inl e ↦ rw e refl
    | inr e ↦ rw e refl
  ]

  -- Whatever is checked, a payment stays there and is handled as agreed.
  each-Handled :
      (ps : List Payment) (id : String) (r : Payment) (s : World)
      → find_first (payment_by_id id) s.db.payments ≡ some r
      → (q : Payment) × (find_first
            (payment_by_id id)
            (world_of (check_each env chain json ps s)).db.payments
          ≡ some q)
        × Handled r q
  unfolding check_each checked
  each-Handled [] id r s listed = (r, listed, Handled-refl r)
  each-Handled (p ∷ rest) id r s listed =
      let h = check-Handles p s in
      let one : (q : Payment) × (find_first (payment_by_id id) (checked p s).db.payments ≡ some q)
          × Handled r q =
        elim (Bool-cases (str_eq p.id id)) [
          | inl same ↦
              let e : p.id ≡ id = (eq_iff p.id id).0 same in
              let (q, found, fine) =
                h.own r (ap (λ k. find_first (payment_by_id k) s.db.payments) e ∙ listed) in
              (
                q,
                ap (λ k. find_first (payment_by_id k) (checked p s).db.payments) (sym e) ∙ found,
                fine,
              )
          | inr apart ↦ (r, h.others id r apart listed, Handled-refl r)
        ] in
      let (q, found, fine) = one in
      let (t, again, next) = each-Handled rest id q (checked p s) found in
      (
        t,
        ap (λ w. find_first (payment_by_id id) w.db.payments) (check_each-cons p rest s) ∙ again,
        Handled-trans r q t fine next,
      )

  -- A payment that is not among those that are checked keeps its row.
  each_other :
      (ps : List Payment) (id : String) (r : Payment) (s : World)
      → IsAbsent id ps
      → find_first (payment_by_id id) s.db.payments ≡ some r
      → find_first (payment_by_id id) (world_of (check_each env chain json ps s)).db.payments
        ≡ some r
  unfolding check_each checked
  each_other [] id r s absent listed = listed
  each_other (p ∷ rest) id r s (apart, absent) listed =
      ap (λ w. find_first (payment_by_id id) w.db.payments) (check_each-cons p rest s)
      ∙ each_other rest id r (checked p s) absent ((check-Handles p s).others id r apart listed)

  cycle_works :
      (s : World)
      → env.fault s.tick ≡ none
      → world_of (check_pending_payments env chain json s)
        ≡ world_of (check_each env chain json (filter_rows is_pending s.db.payments) (advance s))
  unfolding check_pending_payments list_payments call
  cycle_works s works = ground (arith, works)

  cycle_stops :
      (s : World) (e : String)
      → env.fault s.tick ≡ some e
      → world_of (check_pending_payments env chain json s) ≡ advance s
  unfolding check_pending_payments list_payments call
  cycle_stops s e fault = ground (arith, fault)

-- After a cycle, the payment `r` is where a move of the state machine leads, with its merchant,
-- amount, currency, environment, address and time as agreed; and one that does not wait has kept
-- its row.
abbrev pub RefinesMachine : Env → Chain → Metadata → String → Payment → World → Type 0
RefinesMachine env chain json id r s =
    (q : Payment) × (find_first (payment_by_id id)
        (world_of (check_pending_payments env chain json s)).db.payments
      ≡ some q)
    × Move r.status q.status
    × Handled r q
    × ((is_pending r ≡ true) ⊎ (q ≡ r))

-- Whatever the database, the explorers and the nodes answer, errors included: a cycle of the
-- monitor refines the state machine of each payment in the table. The payment stays in its state
-- or goes from "pending" to "paid", "expired" or "failed", with its merchant, amount, currency,
-- environment, address and time of expiry as agreed; one that is not pending keeps its row.
pub cycle-RefinesMachine :
    (env : Env) (chain : Chain) (json : Metadata) (id : String) (r : Payment) (s : World)
    → find_first (payment_by_id id) s.db.payments ≡ some r
    → IsOnly id r s.db.payments
    → RefinesMachine env chain json id r s
cycle-RefinesMachine env chain json id r s listed only =
    let ps = filter_rows is_pending s.db.payments in
    let find : World → Option Payment = λ w. find_first (payment_by_id id) w.db.payments in
    elim (Option-cases (env.fault s.tick)) [
      | inr (e, fault) ↦ (
        r,
        ap find (cycle_stops env chain json s e fault) ∙ listed,
        stays r.status,
        Handled-refl r,
        inr refl,
      )
      | inl works ↦ elim (Bool-cases (is_pending r)) [
        | inl waits ↦
            let (q, found, fine) = each-Handled env chain json ps id r (advance s) listed in
            (
              q,
              ap find (cycle_works env chain json s works) ∙ found,
              pending-Move r.status q.status ((eq_iff r.status "pending").0 waits) fine.status,
              fine,
              inl waits,
            )
        | inr settled ↦
            let kept =
              each_other env chain json ps id r (advance s)
                (pending-IsAbsent id r s.db.payments only settled) listed in
            (
              r,
              ap find (cycle_works env chain json s works) ∙ kept,
              stays r.status,
              Handled-refl r,
              inr refl,
            )
      ]
    ]
