-- ===== src/Payments/Tests.antt =====
-- The theorems about payments, on a merchant that was paid, and on one payment that waits.
use zabypay_core.Prelude.{
  lower, Option, pos, String, none, some, [], ◌∷◌, ◌≡◌, refl, str_eq, if◌then◌else◌, inr,
}
use zabypay_core.Prelude.Table.{find_first, modify_where, filter_rows}
use zabypay_core.Entities.{Payment}
use zabypay_core.Store.{World, world_of, call, list_payments, find_payment, update_payment}
use zabypay_core.Samples.{calm, market, payment, flaky}
use zabypay_core.Payments.{
  Chain, Metadata, DetectedTransaction, check_pending_payments, check_each, check_payment,
  check_open, check_address_for_payment, process_detected_native_payment, note_detection,
  confirm_payment, mark_paid, verify, extract_transaction_hash, required_confirmations,
}
use zabypay_core.Payments.Cycle.{RefinesMachine, cycle-RefinesMachine}
use zabypay_core.Payments.Stale.{LosesPayment, confirm_then_check-LosesPayment}
use zabypay_core.Payments.Amounts.{Decimal}

abbrev seen : DetectedTransaction
seen = record {
  hash = "5x";
  amount = "90";
  currency = "SOL";
  block_time = 3;
  confirmations = 1;
  status = "confirmed";
  from_address = "s9";
  to_address = "s1";
  network = "solana";
}

-- Explorers that find a transaction at each address.
abbrev busy : Chain
busy = record { transaction_status = λ n. none; payment_received = λ n. some seen }

abbrev plain : Metadata
plain = record {
  confirmations = λ text. none;
  with_expiry = λ old now. "expired";
  with_confirmation = λ old hash now. hash;
  with_failure = λ old hash now. hash;
  with_detection = λ old tx needed now. tx.hash;
}

abbrev asked_for : Payment
asked_for = record (payment "sol") { status = "pending"; paid_at = none }

abbrev counter : World
counter = record market { db = record market.db { payments = asked_for ∷ [] } }

abbrev one_more : Payment
one_more = record asked_for { id = "p2" }

-- A cycle that finds the transaction marks the payment as paid.
cycle_test :
    find_first
      (λ p. str_eq p.status "paid")
      (world_of (check_pending_payments calm busy plain counter)).db.payments
    ≡ some (record asked_for {
      status = "paid";
      paid_at = some 7;
      updated_at = some 7;
      metadata = some "5x";
    })
unfolding find_first modify_where filter_rows check_pending_payments check_each check_payment
    check_open check_address_for_payment process_detected_native_payment note_detection
    confirm_payment mark_paid verify extract_transaction_hash required_confirmations call
    list_payments find_payment update_payment lower
cycle_test = refl

cycle-RefinesMachine_example : RefinesMachine flaky busy plain "p1" asked_for counter
unfolding find_first
cycle-RefinesMachine_example =
    cycle-RefinesMachine flaky busy plain "p1" asked_for counter refl (inr refl, tt)

-- The payment's time is over at once.
abbrev brief : Payment
brief = record asked_for { expires_at = 6 }

abbrev hurry : World
hurry = record market { db = record market.db { payments = brief ∷ [] } }

confirm_then_check-LosesPayment_example : LosesPayment calm busy plain brief "5x" hurry
unfolding find_first
confirm_then_check-LosesPayment_example =
    confirm_then_check-LosesPayment calm (λ n. refl) busy plain brief "5x" hurry refl refl

-- Half a coin.
abbrev half : Decimal
half = record { mantissa = pos 5; scale = 1 }

abbrev reads : String → Option Decimal
reads text = if str_eq text "0.5" then some half else none
