-- ===== src/BalanceSync/Net.antt =====
-- What the sums by currency add up to.
use zabypay_core.Prelude.{
  ℤ, pos, neg, String, Option, List, [], ◌∷◌, ◌+ℤ◌, ◌-ℤ◌, ◌≡◌, ◌∙◌, ap, int_laws, eq_of_parts,
  str_eq, inl, inr, Bool-cases, lower,
}
use zabypay_core.Entities.{Withdrawal, Payment}
use zabypay_core.BalanceSync.Totals.{
  Total, key_of, payment_key, has_key, add_to, take_from, add_payments, subtract, subtract_all,
  totals_of,
}

abbrev pub sum_totals : List Total → ℤ
sum_totals [] = pos 0
sum_totals (t ∷ ts) = t.amount +ℤ sum_totals ts

-- The amounts of these payments, and of these withdrawals, together.
abbrev pub paid_sum : List Payment → ℤ
paid_sum [] = pos 0
paid_sum (p ∷ ps) = p.amount +ℤ paid_sum ps

abbrev pub withdrawn_sum : List Withdrawal → ℤ
withdrawn_sum [] = pos 0
withdrawn_sum (w ∷ ws) = w.amount +ℤ withdrawn_sum ws

sum-add_to :
    (key : String) (amount : ℤ) (ts : List Total)
    → sum_totals (add_to key amount ts) ≡ sum_totals ts +ℤ amount
unfolding add_to
sum-add_to key amount [] = eq_of_parts _ _ (omega int_laws)
sum-add_to key amount (t ∷ ts) = elim (Bool-cases (str_eq t.key key)) [
  | inl e ↦ rw e (
      eq_of_parts (t.amount +ℤ amount +ℤ sum_totals ts) (t.amount +ℤ sum_totals ts +ℤ amount)
        (omega int_laws))
  | inr e ↦
      rw (e, sum-add_to key amount ts)
        (eq_of_parts (t.amount +ℤ (sum_totals ts +ℤ amount)) (t.amount +ℤ sum_totals ts +ℤ amount)
          (omega int_laws))
]

sum-take_from :
    (key : String) (amount : ℤ) (ts : List Total)
    → sum_totals (take_from key amount ts) ≡ sum_totals ts -ℤ amount
unfolding take_from
sum-take_from key amount [] = eq_of_parts _ _ (omega int_laws)
sum-take_from key amount (t ∷ ts) = elim (Bool-cases (str_eq t.key key)) [
  | inl e ↦ rw e (
      eq_of_parts (t.amount -ℤ amount +ℤ sum_totals ts) (t.amount +ℤ sum_totals ts -ℤ amount)
        (omega int_laws))
  | inr e ↦
      rw (e, sum-take_from key amount ts)
        (eq_of_parts (t.amount +ℤ (sum_totals ts -ℤ amount)) (t.amount +ℤ sum_totals ts -ℤ amount)
          (omega int_laws))
]

sum-add_payments :
    (json : String → Option String) (environment : String) (ps : List Payment) (ts : List Total)
    → sum_totals (add_payments json environment ps ts) ≡ sum_totals ts +ℤ paid_sum ps
unfolding add_payments
sum-add_payments json environment [] ts = eq_of_parts _ _ (omega int_laws)
sum-add_payments json environment (p ∷ ps) ts =
    sum-add_payments json environment ps (add_to (payment_key json environment p) p.amount ts)
    ∙ ap (λ x. x +ℤ paid_sum ps) (sum-add_to (payment_key json environment p) p.amount ts)
    ∙ eq_of_parts (sum_totals ts +ℤ p.amount +ℤ paid_sum ps)
        (sum_totals ts +ℤ (p.amount +ℤ paid_sum ps)) (omega int_laws)

sum-subtract :
    (environment : String) (w : Withdrawal) (ts : List Total)
    → sum_totals (subtract environment w ts) ≡ sum_totals ts -ℤ w.amount
unfolding subtract
sum-subtract environment w ts =
    elim (Bool-cases (has_key (key_of (lower w.currency) environment) ts)) [
      | inl e ↦ rw e (sum-take_from (key_of (lower w.currency) environment) w.amount ts)
      | inr e ↦ elim (Bool-cases (has_key (lower w.currency) ts)) [
        | inl f ↦ rw (e, f) (sum-take_from (lower w.currency) w.amount ts)
        | inr f ↦
            rw (e, f)
              (eq_of_parts (neg w.amount +ℤ sum_totals ts) (sum_totals ts -ℤ w.amount)
                (omega int_laws))
      ]
    ]

sum-subtract_all :
    (environment : String) (ws : List Withdrawal) (ts : List Total)
    → sum_totals (subtract_all environment ws ts) ≡ sum_totals ts -ℤ withdrawn_sum ws
unfolding subtract_all
sum-subtract_all environment [] ts = eq_of_parts _ _ (omega int_laws)
sum-subtract_all environment (w ∷ ws) ts =
    sum-subtract_all environment ws (subtract environment w ts)
    ∙ ap (λ x. x -ℤ withdrawn_sum ws) (sum-subtract environment w ts)
    ∙ eq_of_parts (sum_totals ts -ℤ w.amount -ℤ withdrawn_sum ws)
        (sum_totals ts -ℤ (w.amount +ℤ withdrawn_sum ws)) (omega int_laws)

-- However payments and withdrawals are told apart by currency, none is counted twice or lost: the
-- totals of all currencies together are what was paid less what was withdrawn.
pub sum_of_totals :
    (json : String → Option String) (environment : String) (paid : List Payment)
    (confirmed : List Withdrawal)
    → sum_totals (totals_of json environment paid confirmed)
      ≡ paid_sum paid -ℤ withdrawn_sum confirmed
sum_of_totals json environment paid confirmed =
    sum-subtract_all environment confirmed (add_payments json environment paid [])
    ∙ ap (λ x. x -ℤ withdrawn_sum confirmed)
        (sum-add_payments json environment paid []
          ∙ eq_of_parts (pos 0 +ℤ paid_sum paid) (paid_sum paid) (omega int_laws))
