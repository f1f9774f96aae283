-- ===== src/Processor/Tests.antt =====
-- The processor's theorems on a wallet with one withdrawal that waits.
use zabypay_core.Prelude.{if◌then◌else◌, ◌==◌, none, some, refl, arith, ◌≤◌, ◌+◌}
use zabypay_core.Prelude.Table.{find_first}
use zabypay_core.Errors.{database_error, not_found, display}
use zabypay_core.Store.{Env, unreachable, world_of, call, find_withdrawal, transaction}
use zabypay_core.Samples.{calm, sent, done, purse, safe, start, waiting, queue}
use zabypay_core.Processor.Submit.{
  process_withdrawal, process_withdrawal_internal, or_mark_failed, mark_withdrawal_failed, submit,
}
use zabypay_core.Processor.Watch.{monitor_solana_confirmation}
use zabypay_core.Processor.Atomic.{
  KeepsFunds, MarksAtMost, FailsProcessed, process_error_atomic, process_again-FailsProcessed,
}
use zabypay_core.Processor.Books.{IsReady, SubmitsFunds, process_submits}
use zabypay_core.Processor.Close.{
  ChargesTwice, ClosesWithdrawal, confirmation_closes, process_then_settle-ChargesTwice,
}
use zabypay_core.Processor.Bounds.{GivesUp, solana_confirmation_sleeps, silent_node-GivesUp}
use zabypay_core.Processor.Solana.{
  LosesHash, ForgetsTransfer, process_solana-LosesHash, process_solana-ForgetsTransfer,
}

btc-IsReady : IsReady "w2" (waiting "btc") safe purse (queue "btc")
unfolding find_first
btc-IsReady = record { listed = refl; pending = refl; owned = refl; funded = refl }

sol-IsReady : IsReady "w2" (waiting "sol") safe purse (queue "sol")
unfolding find_first
sol-IsReady = record { listed = refl; pending = refl; owned = refl; funded = refl }

process_submits_example : SubmitsFunds calm "w2" (waiting "btc") purse (queue "btc")
process_submits_example =
    process_submits calm (λ n. refl) "w2" (waiting "btc") safe purse (queue "btc") btc-IsReady refl

confirmation_closes_example : ClosesWithdrawal calm "w1" sent purse start
unfolding find_first
confirmation_closes_example =
    confirmation_closes calm (λ n. refl) "w1" sent purse "abcd" start refl refl refl refl

process_then_settle-ChargesTwice_example :
    ChargesTwice calm "w2" (waiting "btc") purse (queue "btc")
process_then_settle-ChargesTwice_example =
    process_then_settle-ChargesTwice calm (λ n. refl) "w2" (waiting "btc") safe purse (queue "btc")
      btc-IsReady refl

process_again-FailsProcessed_example : FailsProcessed calm "w0" done start
unfolding find_first
process_again-FailsProcessed_example =
    process_again-FailsProcessed calm (λ n. refl) "w0" done start refl refl

process_solana-LosesHash_example : LosesHash calm "w2" (waiting "sol") safe "sig" (queue "sol")
process_solana-LosesHash_example =
    process_solana-LosesHash calm (λ n. refl) "w2" (waiting "sol") safe purse "sig" (queue "sol")
      sol-IsReady refl refl refl

-- The database fails at its sixth call.
abbrev broken : Env
broken = record calm { fault = λ n. if n == 5 then some "gone" else none }

process_solana-ForgetsTransfer_example :
    ForgetsTransfer broken "w2" (waiting "sol") safe "gone" (queue "sol")
process_solana-ForgetsTransfer_example =
    process_solana-ForgetsTransfer broken "w2" (waiting "sol") safe purse "sig" "gone" (queue "sol")
      sol-IsReady (refl, (λ n h. ground arith), (λ n h. ground arith)) refl refl

abbrev mute : Env
mute = record calm { tx_status = λ n. unreachable (database_error "away") }

silent_node-GivesUp_example : GivesUp mute "w1" sent start
unfolding find_first
silent_node-GivesUp_example =
    silent_node-GivesUp mute (λ n. refl) (λ n. (database_error "away", refl)) "w1" sent start refl

solana_confirmation_sleeps_example :
    (world_of (monitor_solana_confirmation mute "w1" start)).slept ≤ start.slept + 1680
solana_confirmation_sleeps_example = solana_confirmation_sleeps mute "w1" start

process_error_atomic_example :
    KeepsFunds start (world_of (process_withdrawal calm "w9" start))
    × MarksAtMost "w9"
        (display (not_found "Withdrawal not found"))
        start
        (world_of (process_withdrawal calm "w9" start))
unfolding process_withdrawal process_withdrawal_internal or_mark_failed mark_withdrawal_failed
    submit find_withdrawal transaction call find_first
process_error_atomic_example =
    process_error_atomic calm "w9" start (not_found "Withdrawal not found")
      (world_of (process_withdrawal calm "w9" start)) refl
