-- ===== src/States/Tests.antt =====
-- The states' theorems at concrete values.
use zabypay_core.Prelude.{◌↔◌, ◌≡◌, codes, to_lowercase}
use zabypay_core.States.{LifecycleState, ok, parse_lifecycle, lifecycle_text}
use zabypay_core.States.Parsing.{parse_lifecycle_iff}

parse_lifecycle_example :
    (parse_lifecycle "cancel" ≡ ok LifecycleState.cancelled)
    ↔ (to_lowercase (codes "cancel") ≡ codes (lifecycle_text LifecycleState.cancelled))
parse_lifecycle_example = parse_lifecycle_iff "cancel" LifecycleState.cancelled
