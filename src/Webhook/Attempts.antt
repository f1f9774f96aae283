-- ===== src/Webhook/Attempts.antt =====
-- How long a delivery goes on, and how it ends.
use zabypay_core.Prelude.{
  ℕ, zero, suc, ◌+◌, ◌≤◌, String, true, false, none, some, ◌≡◌, refl, sym, ◌∙◌, arith, Bool-cases,
  inl, inr, ◌⊎◌, subst,
}
use zabypay_core.Prelude.Table.{find_first, modify_where, find_first-modify_where, find_first_holds}
use zabypay_core.Webhook.{
  PostAnswer, WebhookLog, Net, Hooks, ok, err, hooks_of, is_success, outcome_row, delivery_failed,
  log_by_id, get_retry_delay_seconds, call_db, update_log, try_once, deliver,
  attempt_webhook_delivery,
}

-- The sleeps of this many more attempts, after the one with this number.
abbrev waits : ℕ → ℕ → ℕ
waits zero attempt = 0
waits (suc left) attempt = get_retry_delay_seconds attempt + waits left (suc attempt)

module _ (net : Net) (id : String) where
  try_counts :
      (attempt : ℕ) (s : Hooks)
      → ((hooks_of (try_once net attempt id s)).slept ≡ s.slept)
        × ((hooks_of (try_once net attempt id s)).posts ≡ suc s.posts)
  unfolding try_once update_log call_db
  try_counts attempt s = ground arith

  deliver_bounds :
      (left attempt : ℕ) (s : Hooks)
      → ((hooks_of (deliver net left attempt id s)).slept ≤ s.slept + waits left attempt)
        × ((hooks_of (deliver net left attempt id s)).posts ≤ s.posts + suc left)
  unfolding deliver
  deliver_bounds zero attempt s = ground (arith, try_counts attempt s)
  deliver_bounds (suc left) attempt s =
      let t : Hooks = hooks_of (try_once net attempt id s) in
      ground (
        arith,
        try_counts attempt s,
        deliver_bounds left (suc attempt)
            (record t { slept = t.slept + get_retry_delay_seconds attempt }),
      )

  -- Whatever the receiver and the database answer, a delivery ends after at most five POST requests
  -- and 4350 seconds of sleep.
  delivery_bounds :
      (s : Hooks)
      → ((hooks_of (attempt_webhook_delivery net id s)).slept ≤ s.slept + 4350)
        × ((hooks_of (attempt_webhook_delivery net id s)).posts ≤ s.posts + 5)
  unfolding attempt_webhook_delivery get_retry_delay_seconds
  delivery_bounds s = deliver_bounds 4 1 s

-- A delivery from the attempt with this number on ends with the row delivered and a success, or,
-- after all attempts that are left and their sleeps, with the row failed and the error.
abbrev EndsWell : Net → ℕ → ℕ → String → Hooks → Type 0
EndsWell net left attempt id s =
    (u : Hooks) × (row : WebhookLog) × (find_first (log_by_id id) u.logs ≡ some row)
    × (((deliver net left attempt id s ≡ ok u) × (row.status ≡ "delivered"))
        ⊎ ((deliver net left attempt id s ≡ err delivery_failed u)
            × (row.status ≡ "failed")
            × (row.attempts ≡ 5)
            × (u.posts ≡ s.posts + suc left)
            × (u.slept ≡ s.slept + waits left attempt)))

-- A delivery ends with the row delivered and a success, or with the row failed and the error.
abbrev pub Ends : Net → String → Hooks → Type 0
Ends net id s =
    (u : Hooks) × (row : WebhookLog) × (find_first (log_by_id id) u.logs ≡ some row)
    × (((attempt_webhook_delivery net id s ≡ ok u) × (row.status ≡ "delivered"))
        ⊎ ((attempt_webhook_delivery net id s ≡ err delivery_failed u)
            × (row.status ≡ "failed")
            × (row.attempts ≡ 5)
            × (u.posts ≡ s.posts + 5)
            × (u.slept ≡ s.slept + 4350)))

module _ (net : Net) (quiet : (n : ℕ) → net.fault n ≡ none) (id : String) where
  outcome_keeps :
      (attempt now : ℕ) (answer : PostAnswer) (row : WebhookLog)
      → log_by_id id (outcome_row attempt now answer row) ≡ log_by_id id row
  outcome_keeps attempt now answer row = ground arith

  delivered_status :
      (attempt now : ℕ) (answer : PostAnswer) (row : WebhookLog)
      → is_success answer ≡ true
      → (outcome_row attempt now answer row).status ≡ "delivered"
  delivered_status attempt now answer row h = ground arith

  failed_status :
      (now : ℕ) (answer : PostAnswer) (row : WebhookLog)
      → is_success answer ≡ false
      → ((outcome_row 5 now answer row).status ≡ "failed")
        × ((outcome_row 5 now answer row).attempts ≡ 5)
  failed_status now answer row h = ground arith

  abbrev tried : ℕ → Hooks → Hooks
  tried attempt s = record s {
    logs =
        modify_where (log_by_id id) (outcome_row attempt (net.now s.tick) (net.post s.tick)) s.logs;
    tick = suc (suc s.tick);
    posts = suc s.posts;
  }

  try_run :
      (attempt : ℕ) (s : Hooks) (w : WebhookLog)
      → find_first (log_by_id id) s.logs ≡ some w
      → try_once net attempt id s ≡ ok (tried attempt s)
  unfolding try_once update_log call_db
  try_run attempt s w listed = ground (arith, quiet (suc s.tick))

  try_listed :
      (attempt : ℕ) (s : Hooks) (w : WebhookLog)
      → find_first (log_by_id id) s.logs ≡ some w
      → find_first (log_by_id id) (tried attempt s).logs
        ≡ some (outcome_row attempt (net.now s.tick) (net.post s.tick) w)
  try_listed attempt s w listed =
      find_first-modify_where (log_by_id id) (log_by_id id)
        (outcome_row attempt (net.now s.tick) (net.post s.tick))
        (outcome_keeps attempt (net.now s.tick) (net.post s.tick)) s.logs w listed
        (find_first_holds (log_by_id id) s.logs w listed)

  deliver-EndsWell :
      (left attempt : ℕ) (s : Hooks) (w : WebhookLog)
      → attempt + left ≡ 5
      → find_first (log_by_id id) s.logs ≡ some w
      → EndsWell net left attempt id s
  unfolding deliver
  deliver-EndsWell zero attempt s w count listed =
      let at : attempt ≡ 5 = omega arith in
      let u : Hooks = tried attempt s in
      let row : WebhookLog = outcome_row attempt (net.now s.tick) (net.post s.tick) w in
      let run = try_run attempt s w listed in
      elim (Bool-cases (is_success (net.post s.tick))) [
        | inl done ↦ (
          u,
          row,
          try_listed attempt s w listed,
          inl (
            ground (arith, run, done),
            delivered_status attempt (net.now s.tick) (net.post s.tick) w done,
          ),
        )
        | inr not_done ↦ (
          u,
          row,
          try_listed attempt s w listed,
          inr (
            ground (arith, run, not_done),
            subst (λ n. (outcome_row n (net.now s.tick) (net.post s.tick) w).status ≡ "failed")
                (sym at) (failed_status (net.now s.tick) (net.post s.tick) w not_done).0,
            subst (λ n. (outcome_row n (net.now s.tick) (net.post s.tick) w).attempts ≡ 5) (sym at)
                (failed_status (net.now s.tick) (net.post s.tick) w not_done).1,
            omega arith,
            omega arith,
          ),
        )
      ]
  deliver-EndsWell (suc left) attempt s w count listed =
      let u : Hooks = tried attempt s in
      let row : WebhookLog = outcome_row attempt (net.now s.tick) (net.post s.tick) w in
      let run = try_run attempt s w listed in
      let next : Hooks = record u { slept = u.slept + get_retry_delay_seconds attempt } in
      elim (Bool-cases (is_success (net.post s.tick))) [
        | inl done ↦ (
          u,
          row,
          try_listed attempt s w listed,
          inl (
            ground (arith, run, done),
            delivered_status attempt (net.now s.tick) (net.post s.tick) w done,
          ),
        )
        | inr not_done ↦
            let (v, last, there, ends) =
              deliver-EndsWell left (suc attempt) next row (omega arith)
                (try_listed attempt s w listed) in
            let same : deliver net (suc left) attempt id s
                ≡ deliver net left (suc attempt) id next =
              ground (arith, run, not_done) in
            (
              v,
              last,
              there,
              elim ends [
                | inl (success, status) ↦ inl (same ∙ success, status)
                | inr (failure, status, tries, posts, slept) ↦
                    inr (same ∙ failure, status, tries, omega arith, omega arith)
              ],
            )
      ]

  -- When the database answers and the delivery is in the log: it ends as a success with its row
  -- "delivered", or with the error and its row "failed" after five attempts, five POST requests and
  -- exactly 4350 seconds of sleep.
  pub delivery-Ends :
      (s : Hooks) (w : WebhookLog) → find_first (log_by_id id) s.logs ≡ some w → Ends net id s
  unfolding attempt_webhook_delivery get_retry_delay_seconds
  delivery-Ends s w listed = deliver-EndsWell 4 1 s w refl listed
