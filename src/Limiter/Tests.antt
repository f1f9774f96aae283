-- ===== src/Limiter/Tests.antt =====
-- A server whose keys hold descending scores, and the limiter's theorems on it.
use zabypay_core.Prelude.{
  ℕ, String, List, [], ◌∷◌, ◌≡◌, refl, arith, str_eq, length, ltb, if◌then◌else◌,
}
use text.Mathlib.TextPositions.{eq_refl}
use zabypay_core.Limiter.{Redis, replied}
use zabypay_core.Limiter.Sets.{SortedSets, add_score, above}
use zabypay_core.Limiter.Bounds.{
  Decides, AllAllowed, recorded, check-Decides, wide_limit-AllAllowed,
}

abbrev Scores : Type 0
Scores = String → List ℕ

abbrev put : String → List ℕ → Scores → Scores
put key xs r k = if str_eq k key then xs else r k

put_same : (key : String) (xs : List ℕ) (r : Scores) → put key xs r key ≡ xs
put_same key xs r = rw (eq_refl key) refl

abbrev server : Redis Scores
server = record {
  get_connection = λ r. replied r;
  zrembyscore = λ key low r. replied (put key (above low (r key)) r);
  zcard = λ key r. replied (length (r key));
  zadd = λ key member score r. replied (put key (add_score score (r key)) r);
  expire = λ key seconds r. replied r;
}

laws : SortedSets server
laws = record {
  members = λ r. r;
  connects = λ r. (r, refl, λ k. refl);
  removes = λ key low r. (put key (above low (r key)) r, refl, put_same key (above low (r key)) r);
  counts = λ key r. refl;
  adds = λ key n r. (put key (add_score n (r key)) r, refl, put_same key (add_score n (r key)) r);
  expires = λ key n r. (r, refl, refl);
}

abbrev nobody : Scores
nobody k = []

wide_limit-AllAllowed_example :
    AllAllowed server laws "api_key:mainnet:a" 100 60 (1000 ∷ 1000 ∷ 1001 ∷ []) nobody
unfolding laws
wide_limit-AllAllowed_example =
    wide_limit-AllAllowed server laws "api_key:mainnet:a" 100 60 (omega arith)
      (1000 ∷ 1000 ∷ 1001 ∷ []) 1000 nobody (omega arith) tt
      (omega arith, (omega arith, (omega arith, tt)))

check-Decides_example :
    Decides server laws "ip:1" 1000 2 60 nobody
      (ltb (length (recorded server laws "ip:1" 1000 60 nobody)) 2)
check-Decides_example = check-Decides server laws "ip:1" 1000 2 60 nobody
