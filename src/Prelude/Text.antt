-- ===== src/Prelude/Text.antt =====
-- Texts: case folding as the source uses it, before a comparison with an ASCII word.
use Prim.Native.Nat.{ℕ, ◌+◌, ◌-◌}
use Prim.Native.Char.{Char, code}
use Prim.Native.String
use Prim.Native.String.{String, char_at}
use mathlib.Core.Path.{◌≡◌, refl, ap₂}
use mathlib.Core.Logic.{◌↔◌}
use native.Mathlib.Omega.{arith}
use mathlib.Core.Bool.{Bool, ◌&&◌, ◌||◌}
use mathlib.Core.List.{List, [], ◌∷◌}
use zabypay_core.Prelude.Tests.{leb, ◌==◌, if◌then◌else◌}

-- The code points of a text.
abbrev pub codes : String → List ℕ
codes String.[] = []
codes (String.◌∷◌ c s) = code c ∷ codes s

-- `char::to_lowercase` as far as a comparison with an ASCII word can tell: the ASCII capitals, and
-- the Kelvin sign, the one other character whose lower case is an ASCII letter.
abbrev pub lower_code : ℕ → ℕ
lower_code c = if leb b'A' c && leb c b'Z' then c + 32 else if c == 8490 then b'k' else c

-- `s.to_lowercase()`, for such a comparison.
abbrev pub to_lowercase : List ℕ → List ℕ
to_lowercase [] = []
to_lowercase (c ∷ s) = lower_code c ∷ to_lowercase s

-- Equality of code point lists.
abbrev pub same : List ℕ → List ℕ → Bool
same [] [] = Bool.true
same (a ∷ s) (b ∷ t) = a == b && same s t
same _ _ = Bool.false

same-eq : (s t : List ℕ) → same s t ≡ Bool.true → s ≡ t
same-eq [] [] h = refl
same-eq [] (b ∷ t) h = absurd (cc)
same-eq (a ∷ s) [] h = absurd (cc)
same-eq (a ∷ s) (b ∷ t) h = ap₂ ◌∷◌ (ground arith) (same-eq s t (ground arith))

same_refl : (s : List ℕ) → same s s ≡ Bool.true
same_refl [] = refl
same_refl (a ∷ s) = ground (arith, same_refl s)

eq-same : (s t : List ℕ) → s ≡ t → same s t ≡ Bool.true
eq-same s t e = rw e (same_refl t)

-- The test decides equality.
pub same_iff : (s t : List ℕ) → (same s t ≡ Bool.true) ↔ (s ≡ t)
same_iff s t = (same-eq s t, eq-same s t)

-- `format!` of two parts.
infixr 66 ◌<>◌
abbrev pub ◌<>◌ : String → String → String
a <> b = String.◌++◌ a b

-- `pattern` is how `text` begins.
abbrev pub starts_with : List ℕ → List ℕ → Bool
starts_with text [] = Bool.true
starts_with [] (p ∷ pattern) = Bool.false
starts_with (c ∷ text) (p ∷ pattern) = c == p && starts_with text pattern

abbrev pub contains_codes : List ℕ → List ℕ → Bool
contains_codes [] pattern = starts_with [] pattern
contains_codes (c ∷ text) pattern = starts_with (c ∷ text) pattern || contains_codes text pattern

-- `text.contains(pattern)`
unfoldable pub contains : String → String → Bool
contains text pattern = contains_codes (codes text) (codes pattern)

abbrev pub lower_char : Char → Char
lower_char c =
    if leb b'A' (code c) && leb (code c) b'Z'
    then char_at "abcdefghijklmnopqrstuvwxyz" (code c - 65)
    else if code c == 8490
    then char_at "k" 0
    else c

-- `s.to_lowercase()` as a text, where the other characters have no case.
unfoldable pub lower : String → String
lower String.[] = String.[]
lower (String.◌∷◌ c s) = String.◌∷◌ (lower_char c) (lower s)

-- The `%` of a pattern of SQL: some rest of the text.
abbrev pub some_rest : (List ℕ → Bool) → List ℕ → Bool
some_rest matches [] = matches []
some_rest matches (c ∷ text) = matches (c ∷ text) || some_rest matches text

-- `text LIKE pattern`, where `%` stands for any text and `_` for any one character.
abbrev pub like_codes : List ℕ → List ℕ → Bool
like_codes [] [] = Bool.true
like_codes [] (c ∷ text) = Bool.false
like_codes (p ∷ pattern) text =
    if p == b'%'
    then some_rest (like_codes pattern) text
    else elim text [ [] ↦ Bool.false | c ∷ rest ↦ (p == b'_' || p == c) && like_codes pattern rest ]

unfoldable pub is_like : String → String → Bool
is_like text pattern = like_codes (codes pattern) (codes text)

lower_example : lower "USDT_Bnb" ≡ "usdt_bnb"
unfolding lower
lower_example = refl

is_like_example : is_like "sol_mainnet_1f" "sol_mainnet_%" ≡ Bool.true
unfolding is_like
is_like_example = refl
