-- ===== src/Webhook.antt =====
-- Webhook deliveries: src/shared/service/webhook_service.rs, `send_webhook`,
-- `attempt_webhook_delivery`, `process_pending_webhooks` and the delays of the retries.
pub mod Attempts
pub mod Pending
pub mod Tests
use zabypay_core.Prelude.{
  ◌==◌, ◌++◌, ℕ, zero, suc, ◌+◌, ◌-◌, String, Bool, true, false, Option, none, some, List, [], ◌∷◌,
  ◌<>◌, ◌&&◌, str_eq, ltb, leb, if◌then◌else◌,
}
use zabypay_core.Prelude.Table.{find_first, modify_where, filter_rows}
use zabypay_core.Errors.{AppError, database_error, external_service_error}

-- The row of a delivery; `payload` is the event as JSON text.
pub record WebhookLog : Type 0 where
  pub id : String
  pub merchant_id : String
  pub event_type : String
  pub webhook_url : String
  pub payload : String
  pub status : String
  pub attempts : ℕ
  pub response_status : Option ℕ
  pub response_body : Option String
  pub next_retry_at : Option ℕ
  pub last_attempt_at : Option ℕ
  pub created_at : ℕ

-- The answer to a POST: a status and a body, or the text of an error.
pub data PostAnswer : Type 0 where
  answered : ℕ → String → PostAnswer
  unanswered : String → PostAnswer

-- What the service does not decide, each by the tick at which it is asked. An event is read from
-- its JSON text where `parse_event` gives its type; `webhook_secret` is of the merchant, where both
-- exist.
pub record Net : Type 0 where
  pub now : ℕ → ℕ
  pub uuid : ℕ → String
  pub fault : ℕ → Option String
  pub post : ℕ → PostAnswer
  pub parse_event : String → Option String
  pub webhook_secret : String → Option String

-- The log, the calls made so far, the POST requests among them, and the seconds slept.
pub record Hooks : Type 0 where
  pub logs : List WebhookLog
  pub tick : ℕ
  pub posts : ℕ
  pub slept : ℕ

-- `Result<(), AppError>`, with what the call leaves.
pub data Delivery : Type 0 where
  ok : Hooks → Delivery
  err : AppError → Hooks → Delivery

abbrev pub hooks_of : Delivery → Hooks
hooks_of (ok s) = s
hooks_of (err e s) = s

abbrev pub max_attempts : ℕ
max_attempts = 5

unfoldable pub get_retry_delay_seconds : ℕ → ℕ
get_retry_delay_seconds attempt =
    if attempt == 1
    then 30
    else if attempt == 2
    then 120
    else if attempt == 3
    then 600
    else if attempt == 4
    then 3600
    else 21600

abbrev pub is_success : PostAnswer → Bool
is_success (answered code body) = leb 200 code && ltb code 300
is_success (unanswered e) = false

-- The columns that every attempt sets.
abbrev pub tried_row : ℕ → ℕ → PostAnswer → WebhookLog → WebhookLog
tried_row attempt now (answered code body) row = record row {
  attempts = attempt;
  last_attempt_at = some now;
  response_status = some code;
  response_body = some body;
}
tried_row attempt now (unanswered e) row = record row {
  attempts = attempt;
  last_attempt_at = some now;
  response_body = some ("Request error: " <> e);
}

-- The row after an attempt that did not succeed.
abbrev pub unsent_row : ℕ → ℕ → WebhookLog → WebhookLog
unsent_row attempt now row =
    if ltb attempt max_attempts
    then record row {
      status = "retrying";
      next_retry_at = some (now + get_retry_delay_seconds attempt);
    }
    else record row { status = "failed" }

abbrev pub outcome_row : ℕ → ℕ → PostAnswer → WebhookLog → WebhookLog
outcome_row attempt now answer row =
    if is_success answer
    then record (tried_row attempt now answer row) { status = "delivered" }
    else unsent_row attempt now (tried_row attempt now answer row)

abbrev pub delivery_failed : AppError
delivery_failed = external_service_error "Webhook delivery failed after 5 attempts"

abbrev pub log_by_id : String → WebhookLog → Bool
log_by_id id row = str_eq row.id id

-- A retry is due: `Status.eq("retrying")` and `NextRetryAt.lte(now)`.
unfoldable pub is_due : ℕ → WebhookLog → Bool
is_due now row =
    str_eq row.status "retrying" && (elim row.next_retry_at [ none ↦ false | some at ↦ leb at now ])

-- `order_by_asc` on the time of the next retry.
abbrev pub due_at : WebhookLog → ℕ
due_at row = elim row.next_retry_at [ none ↦ 0 | some at ↦ at ]

unfoldable pub insert_due : WebhookLog → List WebhookLog → List WebhookLog
insert_due row [] = row ∷ []
insert_due row (x ∷ xs) =
    if leb (due_at row) (due_at x) then row ∷ x ∷ xs else x ∷ insert_due row xs

unfoldable pub sort_due : List WebhookLog → List WebhookLog
sort_due [] = []
sort_due (row ∷ rows) = insert_due row (sort_due rows)

abbrev pub new_log : String → ℕ → String → String → String → String → WebhookLog
new_log id now merchant_id url event_type payload = record {
  id = id;
  merchant_id = merchant_id;
  event_type = event_type;
  webhook_url = url;
  payload = payload;
  status = "pending";
  attempts = 0;
  response_status = none;
  response_body = none;
  next_retry_at = none;
  last_attempt_at = none;
  created_at = now;
}

module _ (net : Net) where
  unfoldable pub call_db : Hooks → Delivery
  call_db s = elim (net.fault s.tick) [
    | none ↦ ok (record s { tick = suc s.tick })
    | some e ↦ err (database_error e) (record s { tick = suc s.tick })
  ]

  unfoldable pub update_log : String → (WebhookLog → WebhookLog) → Hooks → Delivery
  update_log id patch s = elim (call_db s) [
    | err e t ↦ err e t
    | ok t ↦ elim (find_first (log_by_id id) t.logs) [
      | none ↦ err (database_error "None of the records are updated") t
      | some _ ↦ ok (record t { logs = modify_where (log_by_id id) patch t.logs })
    ]
  ]

  -- One attempt: the POST, and the update of the row by its answer.
  unfoldable pub try_once : ℕ → String → Hooks → Delivery
  try_once attempt id s =
      update_log id (outcome_row attempt (net.now s.tick) (net.post s.tick))
        (record s { tick = suc s.tick; posts = suc s.posts })

  -- The loop, by the attempts that are left after this one.
  unfoldable pub deliver : ℕ → ℕ → String → Hooks → Delivery
  deliver zero attempt id s = elim (try_once attempt id s) [
    | err e u ↦ err e u
    | ok u ↦ if is_success (net.post s.tick) then ok u else err delivery_failed u
  ]
  deliver (suc left) attempt id s =
      let again = λ (u : Hooks).
        deliver left (suc attempt) id
          (record u { slept = u.slept + get_retry_delay_seconds attempt }) in
      elim (try_once attempt id s) [
        | err e u ↦ err e u
        | ok u ↦ elim (is_success (net.post s.tick)) [ true ↦ ok u | false ↦ again u ]
      ]

  unfoldable pub attempt_webhook_delivery : String → Hooks → Delivery
  attempt_webhook_delivery = deliver (max_attempts - 1) 1

  unfoldable pub send_webhook : String → String → String → String → Hooks → Delivery
  send_webhook merchant_id url event_type payload s =
      let id = "webhook_" <> net.uuid s.tick in
      elim (call_db s) [
        | err e t ↦ err e t
        | ok t ↦ attempt_webhook_delivery id (record t {
          logs = t.logs ++ new_log id (net.now s.tick) merchant_id url event_type payload ∷ [];
        })
      ]

  -- One of the rows that are due; the result of the sending is passed over.
  unfoldable pub retry : WebhookLog → Hooks → Delivery
  retry row s = elim (call_db s) [
    | err e t ↦ err e t
    | ok t ↦ elim (net.webhook_secret row.merchant_id) [
      | none ↦ ok t
      | some secret ↦ elim (net.parse_event row.payload) [
        | none ↦ ok t
        | some event ↦
            ok (hooks_of (send_webhook row.merchant_id row.webhook_url event row.payload t))
      ]
    ]
  ]

  unfoldable pub retry_each : List WebhookLog → Hooks → Delivery
  retry_each [] s = ok s
  retry_each (row ∷ rows) s = elim (retry row s) [ err e t ↦ err e t | ok t ↦ retry_each rows t ]

  unfoldable pub process_pending_webhooks : Hooks → Delivery
  process_pending_webhooks s = elim (call_db s) [
    | err e t ↦ err e t
    | ok t ↦ retry_each (sort_due (filter_rows (is_due (net.now s.tick)) t.logs)) t
  ]
