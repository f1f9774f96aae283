-- ===== src/Limiter.antt =====
-- The rate limiter: src/shared/service/rate_limiter.rs. Redis is a parameter: its connection and
-- its commands on sorted sets, each of which answers or fails.
pub mod Sets
pub mod Bounds
pub mod Tests
use zabypay_core.Prelude.{
  ℕ, zero, suc, ◌+◌, ◌-◌, ◌<◌, String, Bool, true, false, Option, none, some, ◌<>◌, ltb, leb,
  if◌then◌else◌,
}
use zabypay_core.Errors.{AppError, internal_server_error}

pub data Reply (A : Type 0) : Type 0 where
  replied : A → Reply A
  failed : String → Reply A

-- The commands that the limiter sends, on a state of the server: the scores removed are those up to
-- the bound, and an entry is added with its member and its score.
pub record Redis (R : Type 0) : Type 0 where
  pub get_connection : R → Reply R
  pub zrembyscore : String → ℕ → R → Reply R
  pub zcard : String → R → Reply ℕ
  pub zadd : String → ℕ → ℕ → R → Reply R
  pub expire : String → ℕ → R → Reply R

-- `Result<A, AppError>`, with the server's state.
pub data Checked (R A : Type 0) : Type 0 where
  ok : A → R → Checked R A
  err : AppError → R → Checked R A

abbrev pub redis_key : String → String
redis_key key = "rate_limit:" <> key

module _ {R : Type 0} where
  -- `.map_err(…)?`, with the text before the server's.
  abbrev pub then_on : {A : Type 0} → String → Reply R → R → (R → Checked R A) → Checked R A
  then_on text (replied r) old next = next r
  then_on text (failed e) old next = err (internal_server_error (text <> e)) old

  abbrev pub then_with : {A : Type 0} → String → Reply ℕ → R → (ℕ → Checked R A) → Checked R A
  then_with text (replied n) old next = next n
  then_with text (failed e) old next = err (internal_server_error (text <> e)) old

  module _ (redis : Redis R) (now : ℕ) where
    -- The entries that are left in the window, after the older ones were removed.
    unfoldable pub count_window :
        {A : Type 0} → String → ℕ → (ℕ → R → Checked R A) → R → Checked R A
    count_window key window_seconds next r =
        then_on "Redis connection error: " (redis.get_connection r) r λ r₁.
          then_on "Redis zrembyscore error: "
            (redis.zrembyscore (redis_key key) (now - window_seconds) r₁) r₁
            λ r₂.
              then_with "Redis zcard error: " (redis.zcard (redis_key key) r₂) r₂
                λ count. next count r₂

    unfoldable pub check_rate_limit : String → ℕ → ℕ → R → Checked R Bool
    check_rate_limit key max_requests window_seconds = count_window key window_seconds λ count r.
        if leb max_requests count
        then ok false r
        else then_on "Redis zadd error: " (redis.zadd (redis_key key) now now r) r λ r₁.
          then_on "Redis expire error: " (redis.expire (redis_key key) (window_seconds + 60) r₁) r₁
            λ r₂. ok true r₂

    unfoldable pub get_remaining_requests : String → ℕ → ℕ → R → Checked R ℕ
    get_remaining_requests key max_requests window_seconds =
        count_window key window_seconds λ count r. ok (max_requests - count) r

    -- The limit of the merchant is looked at where the key's allows the request.
    unfoldable pub check_api_key_rate_limit : String → String → String → R → Checked R Bool
    check_api_key_rate_limit api_key_id merchant_id environment r =
        elim (check_rate_limit ("api_key:" <> environment <> ":" <> api_key_id) 100 60 r) [
          | err e t ↦ err e t
          | ok allowed t ↦ elim allowed [
            | false ↦ ok false t
            | true ↦ check_rate_limit ("merchant:" <> environment <> ":" <> merchant_id) 1000 60 t
          ]
        ]

    unfoldable pub check_jwt_rate_limit : String → Option String → String → R → Checked R Bool
    check_jwt_rate_limit user_id merchant_id environment =
        check_rate_limit
          ("jwt:"
            <> environment
            <> ":"
            <> user_id
            <> ":"
            <> (elim merchant_id [ none ↦ "none" | some merchant ↦ merchant ]))
          500 60

    unfoldable pub check_ip_rate_limit : String → R → Checked R Bool
    check_ip_rate_limit ip = check_rate_limit ("ip:" <> ip) 1000 60
