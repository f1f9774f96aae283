-- ===== src/Prelude/Table.antt =====
-- A database table as the list of its rows: `find().filter(p).one()` and `UPDATE … WHERE q`.
use mathlib.Core.Path.{◌≡◌, refl, sym, ap}
use mathlib.Core.Bool.{Bool, true, false}
use mathlib.Core.Option.{Option, none, some}
use mathlib.Core.List.{List, [], ◌∷◌, ◌++◌, Memᴰ}
use mathlib.Core.List.Memᴰ
use mathlib.Core.Logic.{◌⊎◌, inl, inr}
use native.Mathlib.Omega.{arith}
use zabypay_core.Prelude.Tests.{if◌then◌else◌, Bool-cases}

module _ {ℓ} {Row : Type ℓ} where
  unfoldable pub find_first : (Row → Bool) → List Row → Option Row
  find_first p [] = none
  find_first p (r ∷ rows) = if p r then some r else find_first p rows

  unfoldable pub modify_where : (Row → Bool) → (Row → Row) → List Row → List Row
  modify_where q f [] = []
  modify_where q f (r ∷ rows) = (if q r then f r else r) ∷ modify_where q f rows

  unfoldable pub filter_rows : (Row → Bool) → List Row → List Row
  filter_rows p [] = []
  filter_rows p (r ∷ rows) = if p r then r ∷ filter_rows p rows else filter_rows p rows

  module _ (p q : Row → Bool) (f : Row → Row) (keep : (x : Row) → p (f x) ≡ p x) where
    -- A row that is found and updated is found again, updated.
    pub find_first-modify_where :
        (rows : List Row) (r : Row)
        → find_first p rows ≡ some r
        → q r ≡ true
        → find_first p (modify_where q f rows) ≡ some (f r)
    unfolding find_first modify_where
    find_first-modify_where [] r h m = absurd (cc)
    find_first-modify_where (x ∷ rows) r h m =
        ground (arith, keep x, find_first-modify_where rows r)

    -- A row that is found and is not updated is found again, unchanged.
    pub find_first-modify_where_other :
        (rows : List Row) (r : Row)
        → find_first p rows ≡ some r
        → q r ≡ false
        → find_first p (modify_where q f rows) ≡ some r
    unfolding find_first modify_where
    find_first-modify_where_other [] r h m = absurd (cc)
    find_first-modify_where_other (x ∷ rows) r h m =
        ground (arith, keep x, find_first-modify_where_other rows r)

    -- A row that is found is found again after an update, as it was or updated.
    pub find_first-kept_or_changed :
        (rows : List Row) (r : Row)
        → find_first p rows ≡ some r
        → (find_first p (modify_where q f rows) ≡ some r)
          ⊎ (find_first p (modify_where q f rows) ≡ some (f r))
    find_first-kept_or_changed rows r h = elim (Bool-cases (q r)) [
      | inl e ↦ inr (find_first-modify_where rows r h e)
      | inr e ↦ inl (find_first-modify_where_other rows r h e)
    ]

  -- Where a row satisfies the filter, one is found, which is a row of the table.
  pub find_first_present :
      (p : Row → Bool) (rows : List Row) (x : Row)
      → Memᴰ x rows
      → p x ≡ true
      → (r : Row) × (find_first p rows ≡ some r) × Memᴰ r rows
  unfolding find_first
  find_first_present p [] x at h = absurd (Memᴰ.not-nil at)
  find_first_present p (y ∷ rows) x at h = elim (Bool-cases (p y)) [
    | inl e ↦ (y, ground (arith, e), Memᴰ.head refl)
    | inr e ↦ elim (Memᴰ.cases_cons at) [
      | inl same ↦ absurd (ground (arith, sym h, e, ap p same))
      | inr later ↦
          let (r, found, among) = find_first_present p rows x later h in
          (r, ground (arith, e, found), Memᴰ.tail among)
    ]
  ]

  -- What is found satisfies the filter.
  pub find_first_holds :
      (p : Row → Bool) (rows : List Row) (r : Row) → find_first p rows ≡ some r → p r ≡ true
  unfolding find_first
  find_first_holds p [] r h = absurd (cc)
  find_first_holds p (x ∷ rows) r h = elim (Bool-cases (p x)) [
    | inl e ↦ ground (arith)
    | inr e ↦ find_first_holds p rows r (ground arith)
  ]

  -- Where one row passes the filter, some row is found.
  pub find_first-some :
      (p q : Row → Bool) (rows : List Row) (r : Row)
      → find_first p rows ≡ some r
      → q r ≡ true
      → (x : Row) × (find_first q rows ≡ some x)
  unfolding find_first
  find_first-some p q [] r h m = absurd (cc)
  find_first-some p q (x ∷ rows) r h m = elim (Bool-cases (q x)) [
    | inl e ↦ (x, rw e)
    | inr e ↦ elim (Bool-cases (p x)) [
      | inl f ↦ absurd (ground arith)
      | inr f ↦ rw e (find_first-some p q rows r (ground arith) m)
    ]
  ]

  -- A row that is appended is found where no other was.
  pub find_first-append :
      (p : Row → Bool) (rows : List Row) (x : Row)
      → find_first p rows ≡ none
      → p x ≡ true
      → find_first p (rows ++ x ∷ []) ≡ some x
  unfolding find_first
  find_first-append p [] x h m = ground arith
  find_first-append p (r ∷ rows) x h m = ground (arith, find_first-append p rows x)

  -- A row that is found is found after another was appended.
  pub find_first-append_kept :
      (p : Row → Bool) (rows : List Row) (r x : Row)
      → find_first p rows ≡ some r
      → find_first p (rows ++ x ∷ []) ≡ some r
  unfolding find_first
  find_first-append_kept p [] r x h = absurd (cc)
  find_first-append_kept p (y ∷ rows) r x h = ground (arith, find_first-append_kept p rows r x)

  -- A row that does not pass changes no list of those that do.
  pub filter_rows-append :
      (p : Row → Bool) (rows : List Row) (x : Row)
      → p x ≡ false
      → filter_rows p (rows ++ x ∷ []) ≡ filter_rows p rows
  unfolding filter_rows
  filter_rows-append p [] x h = ground arith
  filter_rows-append p (r ∷ rows) x h = ground (arith, filter_rows-append p rows x h)
