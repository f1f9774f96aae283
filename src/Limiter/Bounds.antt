-- ===== src/Limiter/Bounds.antt =====
-- When the limiter lets a request pass.
use zabypay_core.Prelude.{
  ℕ, suc, ◌+◌, ◌-◌, ◌<◌, ◌≤◌, String, Bool, true, List, [], ◌∷◌, ◌≡◌, sym, ◌∙◌, ap, arith, ltb,
  length, if◌then◌else◌, Bool-cases, inl, inr, subst,
}
use zabypay_core.Limiter.{Redis, replied, ok, redis_key, count_window, check_rate_limit}
use zabypay_core.Limiter.Sets.{
  Descends-le, Descends, above, add_score, above-Descends, add_score-Descends, length-above,
  SortedSets,
}

module _ {R : Type 0} (redis : Redis R) (laws : SortedSets redis) (key : String) where
  -- The seconds of the window that a request was recorded in.
  abbrev pub recorded : ℕ → ℕ → R → List ℕ
  recorded now window r = above (now - window) (laws.members r (redis_key key))

  -- The request is allowed and its second is recorded, or it is refused and nothing is.
  abbrev pub Decides : ℕ → ℕ → ℕ → R → Bool → Type 0
  Decides now limit window r allowed =
      (t : R) × (check_rate_limit redis now key limit window r ≡ ok allowed t)
      × (laws.members t (redis_key key)
          ≡ (if allowed then add_score now (recorded now window r) else recorded now window r))

  -- With Redis at hand, a request is allowed exactly where fewer than the limit's number of
  -- different seconds of the window have a request recorded, and only then is its second recorded.
  pub check-Decides :
      (now limit window : ℕ) (r : R)
      → Decides now limit window r (ltb (length (recorded now window r)) limit)
  unfolding check_rate_limit count_window
  check-Decides now limit window r =
      let k : String = redis_key key in
      let (r1, opened, same) = laws.connects r in
      let (r2, removed, left) = laws.removes k (now - window) r1 in
      let (r3, added, grown) = laws.adds k now r2 in
      let (r4, expired, kept) = laws.expires k (window + 60) r3 in
      let shown : laws.members r2 k ≡ recorded now window r =
        left ∙ ap (above (now - window)) (same k) in
      let counted : redis.zcard k r2 ≡ replied (length (recorded now window r)) =
        laws.counts k r2 ∙ ap (λ xs. replied (length xs)) shown in
      elim (Bool-cases (ltb (length (recorded now window r)) limit)) [
        | inl fits ↦ rw fits (
          r4,
          ground (arith, opened, removed, counted, added, expired, fits),
          kept ∙ grown ∙ ap (add_score now) shown,
        )
        | inr full ↦ rw full (r2, ground (arith, opened, removed, counted, full), shown)
      ]

  -- Times that do not go back.
  abbrev pub Ascends : ℕ → List ℕ → Type 0
  Ascends from [] = Unit
  Ascends from (now ∷ times) = (from ≤ now) × Ascends now times

  -- Requests at these times are all allowed.
  abbrev pub AllAllowed : ℕ → ℕ → List ℕ → R → Type 0
  AllAllowed limit window [] r = Unit
  AllAllowed limit window (now ∷ times) r =
      (t : R) × (check_rate_limit redis now key limit window r ≡ ok true t)
      × AllAllowed limit window times t

  room_left :
      (now window : ℕ) (r : R)
      → window ≤ now
      → Descends (suc now) (laws.members r (redis_key key))
      → length (recorded now window r) ≤ window
  room_left now window r old d =
      let count =
        length-above (now - window) (laws.members r (redis_key key)) (suc now) (omega arith) d in
      omega arith

  allowed_once :
      (now limit window : ℕ) (r : R)
      → window ≤ now
      → window < limit
      → Descends (suc now) (laws.members r (redis_key key))
      → (t : R) × (check_rate_limit redis now key limit window r ≡ ok true t)
        × Descends (suc now) (laws.members t (redis_key key))
  allowed_once now limit window r old wide d =
      let few = room_left now window r old d in
      let fits : ltb (length (recorded now window r)) limit ≡ true = ground arith in
      let (t, run, grown) =
        subst (Decides now limit window r) fits (check-Decides now limit window r) in
      (
        t,
        run,
        subst (Descends (suc now)) (sym grown) (
            add_score-Descends now (recorded now window r) (suc now) (omega arith)
              (above-Descends (now - window) (laws.members r (redis_key key)) (suc now) d)),
      )

  -- With Redis at hand and a clock that does not go back, a limit above the window's number of
  -- seconds, such as the 100 requests in 60 seconds of an API key, refuses no request, however many
  -- there are: the entries are named by the second, so that the requests of one second count once.
  pub wide_limit-AllAllowed :
      (limit window : ℕ)
      → window < limit
      → (times : List ℕ) (from : ℕ) (r : R) → window ≤ from
      → Descends (suc from) (laws.members r (redis_key key))
      → Ascends from times
      → AllAllowed limit window times r
  wide_limit-AllAllowed limit window wide [] from r old d up = tt
  wide_limit-AllAllowed limit window wide (now ∷ times) from r old d (le, up) =
      let (t, run, d') =
        allowed_once now limit window r (omega arith) wide
          (Descends-le (laws.members r (redis_key key)) (suc from) (suc now) (omega arith) d) in
      (t, run, wide_limit-AllAllowed limit window wide times now t (omega arith) d' up)
