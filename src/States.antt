-- ===== src/States.antt =====
-- The two state enumerations of a withdrawal: src/shared/models/withdrawal_state.rs.
pub mod Parsing
pub mod Policy
mod Tests
use zabypay_core.Prelude.{
  ℕ, String, Bool, true, false, Option, none, some, List, ◌&&◌, ◌<>◌, str_eq, codes, to_lowercase,
  same, if◌then◌else◌,
}

pub data FundsState : Type 0 where
  unlocked locked confirmed released : FundsState

pub data LifecycleState : Type 0 where
  quoted broadcasted processing confirmed failed cancelled : LifecycleState

-- `Result<_, String>` of the two parsers.
pub data Parsed (A : Type 0) : Type 0 where
  ok : A → Parsed A
  err : String → Parsed A

unfoldable pub funds_text : FundsState → String
funds_text FundsState.unlocked = "unlocked"
funds_text FundsState.locked = "locked"
funds_text FundsState.confirmed = "confirmed"
funds_text FundsState.released = "released"

unfoldable pub lifecycle_text : LifecycleState → String
lifecycle_text LifecycleState.quoted = "quoted"
lifecycle_text LifecycleState.broadcasted = "broadcasted"
lifecycle_text LifecycleState.processing = "processing"
lifecycle_text LifecycleState.confirmed = "confirmed"
lifecycle_text LifecycleState.failed = "failed"
lifecycle_text LifecycleState.cancelled = "cancelled"

-- One arm `"word" => …` of a match on `s.to_lowercase().as_str()`.
abbrev pub is_word : String → String → Bool
is_word s word = same (to_lowercase (codes s)) (codes word)

unfoldable pub parse_funds : String → Parsed FundsState
parse_funds s =
    if is_word s "unlocked"
    then ok FundsState.unlocked
    else if is_word s "locked"
    then ok FundsState.locked
    else if is_word s "confirmed"
    then ok FundsState.confirmed
    else if is_word s "released"
    then ok FundsState.released
    else err ("Invalid withdrawal funds state: " <> s)

unfoldable pub parse_lifecycle : String → Parsed LifecycleState
parse_lifecycle s =
    if is_word s "quoted"
    then ok LifecycleState.quoted
    else if is_word s "broadcasted"
    then ok LifecycleState.broadcasted
    else if is_word s "processing"
    then ok LifecycleState.processing
    else if is_word s "confirmed"
    then ok LifecycleState.confirmed
    else if is_word s "failed"
    then ok LifecycleState.failed
    else if is_word s "cancelled"
    then ok LifecycleState.cancelled
    else err ("Invalid withdrawal lifecycle state: " <> s)

unfoldable pub is_locked : FundsState → Bool
is_locked FundsState.locked = true
is_locked _ = false

unfoldable pub is_committed : FundsState → Bool
is_committed FundsState.confirmed = true
is_committed _ = false

unfoldable pub is_available : FundsState → Bool
is_available FundsState.unlocked = true
is_available FundsState.released = true
is_available _ = false

unfoldable pub is_terminal : LifecycleState → Bool
is_terminal LifecycleState.confirmed = true
is_terminal LifecycleState.failed = true
is_terminal LifecycleState.cancelled = true
is_terminal _ = false

unfoldable pub is_active : LifecycleState → Bool
is_active LifecycleState.broadcasted = true
is_active LifecycleState.processing = true
is_active _ = false

unfoldable pub can_be_cancelled : LifecycleState → Bool
can_be_cancelled LifecycleState.quoted = true
can_be_cancelled LifecycleState.broadcasted = true
can_be_cancelled _ = false

unfoldable pub expected_funds_state : LifecycleState → FundsState
expected_funds_state LifecycleState.quoted = FundsState.unlocked
expected_funds_state LifecycleState.broadcasted = FundsState.locked
expected_funds_state LifecycleState.processing = FundsState.locked
expected_funds_state LifecycleState.confirmed = FundsState.confirmed
expected_funds_state LifecycleState.failed = FundsState.released
expected_funds_state LifecycleState.cancelled = FundsState.released
