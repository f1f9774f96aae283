-- ===== src/Webhook/Pending.antt =====
-- What a pass over the deliveries that are due leaves of them.
use zabypay_core.Prelude.{
  ◌++◌, ℕ, zero, suc, ◌+◌, ◌≤◌, String, true, false, List, [], ◌∷◌, some, ◌≡◌, arith, ◌<>◌, str_eq,
  Option-cases, inl, inr,
}
use zabypay_core.Prelude.Table.{
  find_first, modify_where, find_first-modify_where_other, find_first-append_kept, filter_rows,
}
use zabypay_core.Webhook.{
  PostAnswer, WebhookLog, Net, Hooks, hooks_of, outcome_row, log_by_id, get_retry_delay_seconds,
  call_db, update_log, try_once, deliver, attempt_webhook_delivery, send_webhook, retry, retry_each,
  process_pending_webhooks, new_log, is_due, sort_due,
}

module _ (net : Net) (w : WebhookLog) where
  -- The log has `w` under its identifier.
  abbrev pub Lists : Hooks → Type 0
  Lists s = find_first (log_by_id w.id) s.logs ≡ some w

  outcome_id :
      (attempt now : ℕ) (answer : PostAnswer) (row : WebhookLog)
      → log_by_id w.id (outcome_row attempt now answer row) ≡ log_by_id w.id row
  outcome_id attempt now answer row = ground arith

  modify-Lists :
      (id : String) (attempt now : ℕ) (answer : PostAnswer) (s : Hooks)
      → str_eq w.id id ≡ false
      → Lists s
      → find_first
          (log_by_id w.id)
          (modify_where (log_by_id id) (outcome_row attempt now answer) s.logs)
        ≡ some w
  modify-Lists id attempt now answer s other there =
      find_first-modify_where_other (log_by_id w.id) (log_by_id id) (outcome_row attempt now answer)
        (outcome_id attempt now answer) s.logs w there other

  try_once-Lists :
      (attempt : ℕ) (id : String) (s : Hooks)
      → str_eq w.id id ≡ false
      → Lists s
      → Lists (hooks_of (try_once net attempt id s))
  unfolding try_once update_log call_db
  try_once-Lists attempt id s other there =
      ground (arith, modify-Lists id attempt (net.now s.tick) (net.post s.tick) s other there)

  deliver-Lists :
      (left attempt : ℕ) (id : String) (s : Hooks)
      → str_eq w.id id ≡ false
      → Lists s
      → Lists (hooks_of (deliver net left attempt id s))
  unfolding deliver
  deliver-Lists zero attempt id s other there =
      ground (arith, try_once-Lists attempt id s other there)
  deliver-Lists (suc left) attempt id s other there =
      let t : Hooks = hooks_of (try_once net attempt id s) in
      let kept : Lists t = try_once-Lists attempt id s other there in
      ground (
        arith,
        kept,
        deliver-Lists left (suc attempt) id
            (record t { slept = t.slept + get_retry_delay_seconds attempt }) other kept,
      )

  module _ (fresh : (n : ℕ) → str_eq w.id ("webhook_" <> net.uuid n) ≡ false) where
    send-Lists :
        (merchant_id url event payload : String) (s : Hooks)
        → Lists s
        → Lists (hooks_of (send_webhook net merchant_id url event payload s))
    unfolding send_webhook attempt_webhook_delivery call_db
    send-Lists merchant_id url event payload s there =
        let id = "webhook_" <> net.uuid s.tick in
        let row = new_log id (net.now s.tick) merchant_id url event payload in
        ground (
          arith,
          there,
          deliver-Lists 4 1 id (record s { tick = suc s.tick; logs = s.logs ++ row ∷ [] })
              (fresh s.tick) (find_first-append_kept (log_by_id w.id) s.logs w row there),
        )

    retry-Lists : (row : WebhookLog) (s : Hooks) → Lists s → Lists (hooks_of (retry net row s))
    unfolding retry call_db
    retry-Lists row s there = elim (Option-cases (net.parse_event row.payload)) [
      | inl none_read ↦ ground (arith, there, none_read)
      | inr (event, read) ↦ ground (
        arith,
        there,
        read,
        send-Lists row.merchant_id row.webhook_url event row.payload
            (record s { tick = suc s.tick }) there,
      )
    ]

    retry_each-Lists :
        (rows : List WebhookLog) (s : Hooks) → Lists s → Lists (hooks_of (retry_each net rows s))
    unfolding retry_each
    retry_each-Lists [] s there = there
    retry_each-Lists (row ∷ rows) s there =
        let kept : Lists (hooks_of (retry net row s)) = retry-Lists row s there in
        ground (arith, kept, retry_each-Lists rows (hooks_of (retry net row s)) kept)

    -- Whatever the receiver and the database answer, a delivery in the log that is due, and whose
    -- identifier is not drawn again, is in the log after a pass as it was before, whether it was
    -- sent or not, and is due at every later time.
    pub pass-Lists :
        (now : ℕ) (s : Hooks)
        → Lists s
        → is_due now w ≡ true
        → Lists (hooks_of (process_pending_webhooks net s))
          × ((later : ℕ) → now ≤ later → is_due later w ≡ true)
    unfolding process_pending_webhooks call_db is_due
    pass-Lists now s there due =
        let t : Hooks = record s { tick = suc s.tick } in
        (
          ground (
            arith,
            there,
            retry_each-Lists (sort_due (filter_rows (is_due (net.now s.tick)) s.logs)) t there,
          ),
          (λ later le. ground arith),
        )
