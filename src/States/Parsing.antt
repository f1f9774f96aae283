-- ===== src/States/Parsing.antt =====
-- Reading the states back from their texts.
use zabypay_core.Prelude.{String, true, ◌≡◌, ◌↔◌, arith, codes, to_lowercase, same_iff}
use zabypay_core.States.{
  FundsState, LifecycleState, ok, funds_text, lifecycle_text, is_word, parse_funds, parse_lifecycle,
}

-- An arm of a match is taken exactly at its word, in any mix of cases.
abbrev Reads : String → String → Type 0
Reads s word = (is_word s word ≡ true) ↔ (to_lowercase (codes s) ≡ codes word)

is_word_iff : (s word : String) → Reads s word
is_word_iff s word = same_iff (to_lowercase (codes s)) (codes word)

funds_words :
    (s : String) → Reads s "unlocked" × Reads s "locked" × Reads s "confirmed" × Reads s "released"
funds_words s = (
  is_word_iff s "unlocked",
  is_word_iff s "locked",
  is_word_iff s "confirmed",
  is_word_iff s "released",
)

-- A text is read as a funds state exactly when it is that state's name in any mix of cases.
pub parse_funds_iff :
    (s : String) (state : FundsState)
    → (parse_funds s ≡ ok state) ↔ (to_lowercase (codes s) ≡ codes (funds_text state))
unfolding parse_funds funds_text
parse_funds_iff s FundsState.unlocked = ground (arith, funds_words s)
parse_funds_iff s _ = ground (arith, funds_words s)

lifecycle_words :
    (s : String)
    → Reads s "quoted"
      × Reads s "broadcasted"
      × Reads s "processing"
      × Reads s "confirmed"
      × Reads s "failed"
      × Reads s "cancelled"
lifecycle_words s = (
  is_word_iff s "quoted",
  is_word_iff s "broadcasted",
  is_word_iff s "processing",
  is_word_iff s "confirmed",
  is_word_iff s "failed",
  is_word_iff s "cancelled",
)

-- A text is read as a lifecycle state exactly when it is that state's name in any mix of cases.
pub parse_lifecycle_iff :
    (s : String) (state : LifecycleState)
    → (parse_lifecycle s ≡ ok state) ↔ (to_lowercase (codes s) ≡ codes (lifecycle_text state))
unfolding parse_lifecycle lifecycle_text
parse_lifecycle_iff s LifecycleState.quoted = ground (arith, lifecycle_words s)
parse_lifecycle_iff s _ = ground (arith, lifecycle_words s)
