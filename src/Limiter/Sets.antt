-- ===== src/Limiter/Sets.antt =====
-- Redis' sorted sets as the limiter sees them: strictly descending lists of scores.
use zabypay_core.Prelude.{
  ℕ, suc, ◌+◌, ◌<◌, ◌≤◌, String, List, [], ◌∷◌, ◌≡◌, arith, ltb, ◌==◌, length, if◌then◌else◌,
  Bool-cases, ℕ-cases, inl, inr,
}
use zabypay_core.Limiter.{Redis, replied}

-- Strictly descending, from below a bound.
abbrev pub Descends : ℕ → List ℕ → Type 0
Descends bound [] = Unit
Descends bound (x ∷ xs) = (x < bound) × Descends x xs

-- A score joins; an entry that is there stays one entry.
unfoldable pub add_score : ℕ → List ℕ → List ℕ
add_score n [] = n ∷ []
add_score n (x ∷ xs) = if n == x then x ∷ xs else if ltb x n then n ∷ x ∷ xs else x ∷ add_score n xs

-- The scores above a bound.
unfoldable pub above : ℕ → List ℕ → List ℕ
above low [] = []
above low (x ∷ xs) = if ltb low x then x ∷ above low xs else above low xs

pub Descends-le : (xs : List ℕ) (a b : ℕ) → a ≤ b → Descends a xs → Descends b xs
Descends-le [] a b le d = tt
Descends-le (x ∷ xs) a b le (lt, d) = (omega arith, d)

pub above-Descends : (low : ℕ) (xs : List ℕ) (b : ℕ) → Descends b xs → Descends b (above low xs)
unfolding above
above-Descends low [] b d = tt
above-Descends low (x ∷ xs) b (lt, d) =
    let rest : Descends x (above low xs) = above-Descends low xs x d in
    elim (Bool-cases (ltb low x)) [
      | inl keep ↦ rw keep (lt, rest)
      | inr drop ↦ rw drop (Descends-le (above low xs) x b (omega arith) rest)
    ]

pub add_score-Descends :
    (n : ℕ) (xs : List ℕ) (b : ℕ) → n < b → Descends b xs → Descends b (add_score n xs)
unfolding add_score
add_score-Descends n [] b lt d = (lt, tt)
add_score-Descends n (x ∷ xs) b lt (below, d) = elim (ℕ-cases n x) [
  | inl same ↦ ground (arith, same, below, d)
  | inr (inl more) ↦ ground (arith, more, below, d, lt)
  | inr (inr less) ↦ ground (arith, less, below, add_score-Descends n xs x less d)
]

-- A strictly descending list above a bound has as many entries as there is room.
pub length-above :
    (low : ℕ) (xs : List ℕ) (b : ℕ) → low < b → Descends b xs → length (above low xs) + suc low ≤ b
unfolding above
length-above low [] b room d = omega arith
length-above low (x ∷ xs) b room (lt, d) = elim (Bool-cases (ltb low x)) [
  | inl keep ↦ ground (arith, keep, lt, length-above low xs x)
  | inr drop ↦
      ground (arith, drop, lt, length-above low xs b room (Descends-le xs x b (omega arith) d))
]

-- What the limiter relies on: the commands answer, and act on the scores that a key has.
pub record SortedSets {R : Type 0} (redis : Redis R) : Type 0 where
  pub members : R → String → List ℕ
  pub connects :
      (r : R)
      → (t : R) × (redis.get_connection r ≡ replied t) × ((k : String) → members t k ≡ members r k)
  pub removes :
      (key : String) (low : ℕ) (r : R)
      → (t : R) × (redis.zrembyscore key low r ≡ replied t)
        × (members t key ≡ above low (members r key))
  pub counts : (key : String) (r : R) → redis.zcard key r ≡ replied (length (members r key))
  pub adds :
      (key : String) (n : ℕ) (r : R)
      → (t : R) × (redis.zadd key n n r ≡ replied t) × (members t key ≡ add_score n (members r key))
  pub expires :
      (key : String) (n : ℕ) (r : R)
      → (t : R) × (redis.expire key n r ≡ replied t) × (members t key ≡ members r key)
