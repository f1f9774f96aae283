-- ===== src/Payments/Moves.antt =====
-- What the monitor may do to the row of the payment that it handles, and to the others.
use zabypay_core.Prelude.{
  subst, String, true, false, Option, none, some, ◌≡◌, refl, ◌∙◌, ap, sym, arith, str_eq, eq_iff,
  ◌⊎◌, inl, inr,
}
use zabypay_core.Prelude.Table.{
  find_first, modify_where, find_first-modify_where, find_first-modify_where_other,
  find_first_holds,
}
use zabypay_core.Errors.{AppError}
use zabypay_core.Entities.{Payment}
use zabypay_core.Store.{
  Env, World, Outcome, ok, err, M, ◌>>=◌, ok_or, none_updated, advance, world_of, rolled_back,
  payment_by_id, call, find_payment, update_payment,
}
use zabypay_core.Store.Runs.{Keeps, bind-Keeps, ok_or-Keeps}

-- The status is one that the monitor decides on.
abbrev pub IsFinal : String → Type 0
IsFinal status = (status ≡ "paid") ⊎ ((status ≡ "expired") ⊎ (status ≡ "failed"))

-- What was agreed on is the same, and the status is as it was, or a final one.
pub record Handled (r q : Payment) : Type 0 where
  pub status : (q.status ≡ r.status) ⊎ IsFinal q.status
  pub merchant_id : q.merchant_id ≡ r.merchant_id
  pub amount : q.amount ≡ r.amount
  pub currency : q.currency ≡ r.currency
  pub environment : q.environment ≡ r.environment
  pub wallet_address : q.wallet_address ≡ r.wallet_address
  pub expires_at : q.expires_at ≡ r.expires_at

abbrev pub status_chain :
    (x y z : String) → ((y ≡ x) ⊎ IsFinal y) → ((z ≡ y) ⊎ IsFinal z) → (z ≡ x) ⊎ IsFinal z
status_chain x y z (inl e) (inl f) = inl (f ∙ e)
status_chain x y z (inr final) (inl f) = inr (subst IsFinal (sym f) final)
status_chain x y z first (inr final) = inr final

pub Handled-refl : (r : Payment) → Handled r r
Handled-refl r = record {
  status = inl refl;
  merchant_id = refl;
  amount = refl;
  currency = refl;
  environment = refl;
  wallet_address = refl;
  expires_at = refl;
}

pub Handled-trans : (r q p : Payment) → Handled r q → Handled q p → Handled r p
Handled-trans r q p f g = record {
  status = status_chain r.status q.status p.status f.status g.status;
  merchant_id = g.merchant_id ∙ f.merchant_id;
  amount = g.amount ∙ f.amount;
  currency = g.currency ∙ f.currency;
  environment = g.environment ∙ f.environment;
  wallet_address = g.wallet_address ∙ f.wallet_address;
  expires_at = g.expires_at ∙ f.expires_at;
}

-- The row with this key is handled, the others stay, and so do the other tables.
pub record Handles (id : String) (s t : World) : Type 0 where
  pub own :
      (r : Payment)
      → find_first (payment_by_id id) s.db.payments ≡ some r
      → (q : Payment) × (find_first (payment_by_id id) t.db.payments ≡ some q) × Handled r q
  pub others :
      (other : String) (r : Payment)
      → str_eq id other ≡ false
      → find_first (payment_by_id other) s.db.payments ≡ some r
      → find_first (payment_by_id other) t.db.payments ≡ some r
  pub balances : t.db.balances ≡ s.db.balances
  pub withdrawals : t.db.withdrawals ≡ s.db.withdrawals

pub same_tables : (id : String) (s t : World) → t.db ≡ s.db → Handles id s t
same_tables id s t e = record {
  own = λ r h. (r, ap (λ d. find_first (payment_by_id id) d.payments) e ∙ h, Handled-refl r);
  others = λ other r apart h. ap (λ d. find_first (payment_by_id other) d.payments) e ∙ h;
  balances = ap (λ d. d.balances) e;
  withdrawals = ap (λ d. d.withdrawals) e;
}

pub Handles-refl : (id : String) (s : World) → Handles id s s
Handles-refl id s = same_tables id s s refl

pub Handles-trans : (id : String) (s t u : World) → Handles id s t → Handles id t u → Handles id s u
Handles-trans id s t u f g = record {
  own = λ r h.
      let (q, found, first) = f.own r h in
      let (p, again, next) = g.own q found in (p, again, Handled-trans r q p first next);
  others = λ other r apart h. g.others other r apart (f.others other r apart h);
  balances = g.balances ∙ f.balances;
  withdrawals = g.withdrawals ∙ f.withdrawals;
}

module _ (id : String) where
  abbrev pub IsHandling : {A : Type 0} → M A → Type 0
  IsHandling m = Keeps (Handles id) m

  pub bind-IsHandling :
      {A B : Type 0} (m : M A) (f : A → M B)
      → IsHandling m
      → ((a : A) → IsHandling (f a))
      → IsHandling (m >>= f)
  bind-IsHandling m f first rest =
      bind-Keeps (Handles id) (Handles-refl id) (Handles-trans id) m f first rest

  pub ok_or-IsHandling : {A : Type 0} (e : AppError) (x : Option A) → IsHandling (ok_or e x)
  ok_or-IsHandling e x = ok_or-Keeps (Handles id) (Handles-refl id) (Handles-trans id) e x

  rolled_back_lem :
      {A : Type 0} (s : World) (o : Outcome A)
      → Handles id s (world_of o)
      → Handles id s (world_of (rolled_back s.db o))
  rolled_back_lem s (ok a t) h = h
  rolled_back_lem s (err e t) h = same_tables id s (record t { db = s.db }) refl

  -- What a call changes and then takes back, it does not change.
  pub rolled_back-IsHandling :
      {A : Type 0} (m : M A) → IsHandling m → IsHandling (λ s. rolled_back s.db (m s))
  rolled_back-IsHandling m h s = rolled_back_lem s (m s) (h s)

  module _ (env : Env) where
    pub call-IsHandling : (wrap : String → AppError) → IsHandling (call env wrap)
    unfolding call
    call-IsHandling wrap s =
        elim (env.fault s.tick)
          as (λ x.
            Handles id s (
              world_of (elim x [ none ↦ ok tt (advance s) | some e ↦ err (wrap e) (advance s) ]))) [
                | none ↦ same_tables id s (advance s) refl
                | some e ↦ same_tables id s (advance s) refl
              ]

    pub find_payment-IsHandling :
        (wrap : String → AppError) (key : String) → IsHandling (find_payment env wrap key)
    unfolding find_payment
    find_payment-IsHandling wrap key =
        bind-IsHandling (call env wrap) (λ _ w. ok (find_first (payment_by_id key) w.db.payments) w)
          (call-IsHandling wrap) (λ _ s. Handles-refl id s)

    -- An update of the row, with a patch that keeps what was agreed on.
    patched :
        (f : Payment → Payment)
        → ((x : Payment) → (f x).id ≡ x.id)
        → ((x : Payment) → Handled x (f x))
        → (s : World)
        → Handles id s (record s {
          db = record s.db { payments = modify_where (payment_by_id id) f s.db.payments };
        })
    patched f keep fine s = record {
      own = λ r h. (
        f r,
        find_first-modify_where (payment_by_id id) (payment_by_id id) f
            (λ x. ap (λ k. str_eq k id) (keep x)) s.db.payments r h
            (find_first_holds (payment_by_id id) s.db.payments r h),
        fine r,
      );
      others = λ other r apart h.
          find_first-modify_where_other (payment_by_id other) (payment_by_id id) f
            (λ x. ap (λ k. str_eq k other) (keep x)) s.db.payments r h
            (apart_row r other apart (find_first_holds (payment_by_id other) s.db.payments r h));
      balances = refl;
      withdrawals = refl;
    }
      where
        apart_row :
            (r : Payment) (other : String)
            → str_eq id other ≡ false
            → str_eq r.id other ≡ true
            → str_eq r.id id ≡ false
        apart_row r other apart same =
            ground (arith, eq_iff r.id other, eq_iff r.id id, eq_iff id other)

    pub update_payment-IsHandling :
        (wrap : String → AppError) (f : Payment → Payment)
        → ((x : Payment) → (f x).id ≡ x.id)
        → ((x : Payment) → Handled x (f x))
        → IsHandling (update_payment env wrap id f)
    unfolding update_payment
    update_payment-IsHandling wrap f keep fine =
        bind-IsHandling (call env wrap)
          (λ _ w. elim (find_first (payment_by_id id) w.db.payments) [
            | none ↦ err (wrap none_updated) w
            | some r ↦ ok (f r) (record w {
              db = record w.db { payments = modify_where (payment_by_id id) f w.db.payments };
            })
          ])
          (call-IsHandling wrap)
          (λ _ s.
            elim (find_first (payment_by_id id) s.db.payments)
              as (λ x. Handles id s (
                world_of (elim x [
                  | none ↦ err (wrap none_updated) s
                  | some r ↦ ok (f r) (record s {
                    db = record s.db { payments = modify_where (payment_by_id id) f s.db.payments };
                  })
                ]))) [ none ↦ Handles-refl id s | some r ↦ patched f keep fine s ])
