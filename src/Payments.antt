-- ===== src/Payments.antt =====
-- The monitor of payments: src/shared/service/payment_monitor.rs. The explorers and nodes, the
-- transactions that `BlockchainMonitor` follows, and the JSON texts of metadata are parameters; the
-- pauses of milliseconds are left out.
pub mod Moves
pub mod Writes
pub mod Handlers
pub mod Cycle
pub mod Stale
pub mod Amounts
pub mod Jobs
pub mod Tests
use zabypay_core.Prelude.{
  ℕ, zero, suc, String, Bool, Option, none, some, List, [], ◌∷◌, ◌++◌, ◌<>◌, ◌||◌, str_eq, lower,
  codes, leb, starts_with, if◌then◌else◌,
}
use zabypay_core.Errors.{AppError, database_error, not_found}
use zabypay_core.Entities.{Payment}
use zabypay_core.Store.{
  Env, World, Outcome, ok, err, M, pure, ◌>>=◌, ◌>>◌, ok_or, clock, call, ignoring, advance,
  rolled_back, find_payment, list_payments, update_payment,
}

-- A transaction that was found at the address of a payment; its amount is a float that only reaches
-- the metadata, here as a text.
pub record DetectedTransaction : Type 0 where
  pub hash : String
  pub amount : String
  pub currency : String
  pub block_time : ℕ
  pub confirmations : ℕ
  pub status : String
  pub from_address : String
  pub to_address : String
  pub network : String

pub data TransactionStatus : Type 0 where
  confirmed : TransactionStatus
  pending : TransactionStatus
  failed : TransactionStatus
  dropped : TransactionStatus

-- The answers about chains by the tick at which they are asked, where there are any.
pub record Chain : Type 0 where
  pub transaction_status : ℕ → Option TransactionStatus
  pub payment_received : ℕ → Option DetectedTransaction

-- The metadata of a payment: its number of confirmations, and the text with new entries.
pub record Metadata : Type 0 where
  pub confirmations : String → Option ℕ
  pub with_expiry : Option String → ℕ → String
  pub with_confirmation : Option String → String → ℕ → String
  pub with_failure : Option String → String → ℕ → String
  pub with_detection : Option String → DetectedTransaction → ℕ → ℕ → String

unfoldable pub required_confirmations : Payment → ℕ
required_confirmations p =
    if str_eq p.environment "testnet"
    then 1
    else if str_eq (lower p.currency) "ethereum" || str_eq (lower p.currency) "eth"
    then 12
    else if str_eq (lower p.currency) "bnb" || str_eq (lower p.currency) "binancecoin"
    then 15
    else if str_eq (lower p.currency) "bitcoin" || str_eq (lower p.currency) "btc"
    then 6
    else if str_eq (lower p.currency) "solana" || str_eq (lower p.currency) "sol"
    then 1
    else if str_eq (lower p.currency) "usdt" || str_eq (lower p.currency) "tether"
    then 12
    else if str_eq (lower p.currency) "usdt_bnb"
        || str_eq (lower p.currency) "usdt_bep20"
        || str_eq (lower p.currency) "tether_bnb"
    then 15
    else 12

abbrev pub is_balance_detected : String → Bool
is_balance_detected hash = starts_with (codes hash) (codes "balance_detected_")

-- The columns that expiry, confirmation, failure and detection set.
abbrev pub expired_row : String → ℕ → Payment → Payment
expired_row text now row = record row {
  status = "expired";
  updated_at = some now;
  metadata = some text;
}

abbrev pub paid_row : String → ℕ → Payment → Payment
paid_row text now row = record row {
  status = "paid";
  paid_at = some now;
  updated_at = some now;
  metadata = some text;
}

abbrev pub failed_row : String → ℕ → Payment → Payment
failed_row text now row = record row {
  status = "failed";
  updated_at = some now;
  metadata = some text;
}

abbrev pub detected_row : String → ℕ → Payment → Payment
detected_row text now row = record row { updated_at = some now; metadata = some text }

abbrev pub is_pending : Payment → Bool
is_pending p = str_eq p.status "pending"

-- `send_payment_webhook`, whose failure is logged and passed over.
abbrev pub notify : String → String → M (Unit {0})
notify id event s =
    ok tt
      (record (advance s) { events = s.events ++ record { payment_id = id; event = event } ∷ [] })

module _ (env : Env) (chain : Chain) (json : Metadata) where
  unfoldable pub expire_payment : Payment → M (Unit {0})
  expire_payment p = do
    now ← clock env
    _ ← update_payment env database_error p.id (expired_row (json.with_expiry p.metadata now) now)
    notify p.id "payment.expired"

  unfoldable pub fail_payment : Payment → String → M (Unit {0})
  fail_payment p hash = do
    now ← clock env
    _ ←
        update_payment env database_error p.id
          (failed_row (json.with_failure p.metadata hash now) now)
    notify p.id "payment.failed"

  -- The attempts to see the payment as paid, each of them a read.
  unfoldable pub verify : ℕ → String → M (Unit {0})
  verify zero id s = ok tt s
  verify (suc left) id s = elim (find_payment env database_error id s) [
    | err e t ↦ verify left id t
    | ok found t ↦ elim found [
      | none ↦ verify left id t
      | some p ↦ if str_eq p.status "paid" then ok tt t else verify left id t
    ]
  ]

  -- `confirm_payment` within its database transaction.
  unfoldable pub mark_paid : Payment → String → M (Unit {0})
  mark_paid p hash = do
    call env (λ e. database_error ("Failed to start transaction: " <> e))
    found ← find_payment env database_error p.id
    _ ← ok_or (not_found "Payment not found during confirmation") found
    now ← clock env
    _ ←
        update_payment env database_error p.id
          (paid_row (json.with_confirmation p.metadata hash now) now)
    call env (λ e. database_error ("Transaction commit failed: " <> e))

  unfoldable pub confirm_payment : Payment → String → M (Unit {0})
  confirm_payment p hash = do
    (λ s. rolled_back s.db (mark_paid p hash s))
    verify 3 p.id
    notify p.id "payment.confirmed"

  -- What a followed transaction leads to, once the monitor knows it.
  unfoldable pub settle_followed : Payment → String → Option TransactionStatus → M (Unit {0})
  settle_followed p hash none s = ok tt s
  settle_followed p hash (some TransactionStatus.confirmed) s = confirm_payment p hash s
  settle_followed p hash (some TransactionStatus.pending) s = ok tt s
  settle_followed p hash (some TransactionStatus.failed) s = fail_payment p hash s
  settle_followed p hash (some TransactionStatus.dropped) s = fail_payment p hash s

  -- The transaction is asked for, which starts to follow it, and again.
  unfoldable pub follow : Payment → String → M (Unit {0})
  follow p hash s =
      settle_followed p hash (chain.transaction_status (suc s.tick)) (advance (advance s))

  -- The confirmations that the metadata has, none where it has no number.
  unfoldable pub noted_confirmations : Option String → ℕ
  noted_confirmations none = 0
  noted_confirmations (some text) = elim (json.confirmations text) [ none ↦ 0 | some n ↦ n ]

  unfoldable pub process_payment_transaction : Payment → String → M (Unit {0})
  process_payment_transaction p hash =
      if is_balance_detected hash || leb (required_confirmations p) (noted_confirmations p.metadata)
      then confirm_payment p hash
      else follow p hash

  unfoldable pub note_detection : Payment → DetectedTransaction → M (Unit {0})
  note_detection p tx = do
    call env (λ e. database_error ("Failed to start payment transaction: " <> e))
    now ← clock env
    _ ←
        update_payment env database_error p.id
          (detected_row (json.with_detection p.metadata tx (required_confirmations p) now) now)
    call env (λ e. database_error ("Metadata commit failed: " <> e))

  unfoldable pub process_detected_native_payment : Payment → DetectedTransaction → M (Unit {0})
  process_detected_native_payment p tx = do
    (λ s. rolled_back s.db (note_detection p tx s))
    (if is_balance_detected tx.hash || leb (required_confirmations p) tx.confirmations
        then confirm_payment p tx.hash
        else pure tt)

  unfoldable pub check_address_for_payment : Payment → M (Unit {0})
  check_address_for_payment p s = elim (chain.payment_received s.tick) [
    | none ↦ ok tt (advance s)
    | some tx ↦ process_detected_native_payment p tx (advance s)
  ]

  unfoldable pub extract_transaction_hash : Payment → Option String
  extract_transaction_hash p = elim p.metadata [ none ↦ none | some text ↦ env.json_tx_hash text ]

  -- What is known of a payment that is not over its time.
  unfoldable pub check_open : Payment → Option String → M (Unit {0})
  check_open p none = check_address_for_payment p
  check_open p (some hash) = process_payment_transaction p hash

  -- One payment of a cycle; its errors are logged and passed over.
  unfoldable pub check_payment : Payment → M (Unit {0})
  check_payment p s =
      if leb p.expires_at (env.now s.tick)
      then ignoring (expire_payment p) s
      else ignoring (check_open p (extract_transaction_hash p)) s

  unfoldable pub check_each : List Payment → M (Unit {0})
  check_each [] s = ok tt s
  check_each (p ∷ rest) s = (do check_payment p; check_each rest) s

  unfoldable pub check_pending_payments : M (Unit {0})
  check_pending_payments = do
    open_payments ← list_payments env database_error is_pending
    check_each open_payments
