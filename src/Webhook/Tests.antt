-- ===== src/Webhook/Tests.antt =====
-- A log with one delivery that waits for its retry.
use zabypay_core.Prelude.{ℕ, ◌≤◌, true, none, some, [], ◌∷◌, ◌≡◌, refl}
use zabypay_core.Prelude.Table.{find_first}
use zabypay_core.Webhook.{
  WebhookLog, Net, Hooks, answered, hooks_of, process_pending_webhooks, is_due,
}
use zabypay_core.Webhook.Attempts.{Ends, delivery-Ends}
use zabypay_core.Webhook.Pending.{Lists, pass-Lists}

abbrev deaf : Net
deaf = record {
  now = λ n. n;
  uuid = λ n. "u";
  fault = λ n. none;
  post = λ n. answered 500 "busy";
  parse_event = λ text. some "payment.completed";
  webhook_secret = λ merchant. some "secret";
}

abbrev due : WebhookLog
due = record {
  id = "webhook_old";
  merchant_id = "m1";
  event_type = "payment.completed";
  webhook_url = "https://shop";
  payload = "{}";
  status = "retrying";
  attempts = 1;
  response_status = some 500;
  response_body = some "busy";
  next_retry_at = some 10;
  last_attempt_at = some 1;
  created_at = 0;
}

abbrev log : Hooks
log = record { logs = due ∷ []; tick = 20; posts = 0; slept = 0 }

delivery-Ends_example : Ends deaf "webhook_old" log
unfolding find_first
delivery-Ends_example = delivery-Ends deaf (λ n. refl) "webhook_old" log due refl

pass-Lists_example :
    Lists deaf due (hooks_of (process_pending_webhooks deaf log))
    × ((later : ℕ) → 20 ≤ later → is_due later due ≡ true)
unfolding find_first is_due
pass-Lists_example = pass-Lists deaf due (λ n. refl) 20 log refl refl
