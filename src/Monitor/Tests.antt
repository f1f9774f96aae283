-- ===== src/Monitor/Tests.antt =====
-- A wallet with one withdrawal, and the monitor's theorems on it.
use zabypay_core.Prelude.{◌+ℤ◌, refl, arith}
use zabypay_core.Prelude.Table.{find_first}
use zabypay_core.Store.{world_of, call, find_balance, update_withdrawal}
use zabypay_core.Samples.{calm, flaky, sent, purse, start}
use zabypay_core.Monitor.{
  process_withdrawal_confirmation, settle_confirmation, finalize_withdrawal_deduction,
  fetch_balance_error,
}
use zabypay_core.Monitor.Chain.{check_blockchain_confirmations, get_chain_config}
use zabypay_core.Monitor.Failure.{
  ReleasesFunds, CreditsTwice, failure_releases, failure_twice-CreditsTwice,
}
use zabypay_core.Monitor.Confirm.{DeductsFunds, confirmation_deducts}
use zabypay_core.Monitor.Stranded.{
  IsStranded, LeavesMarked, confirmation_error, confirmation-IsStranded,
}

failure_releases_example : ReleasesFunds calm "dropped" sent start purse "w1"
unfolding find_first ◌+ℤ◌
failure_releases_example =
    failure_releases calm (λ n. refl) "dropped" sent start purse "w1" refl refl (omega arith)

failure_twice-CreditsTwice_example : CreditsTwice calm "dropped" sent start purse "w1"
unfolding find_first
failure_twice-CreditsTwice_example =
    failure_twice-CreditsTwice calm (λ n. refl) "dropped" sent start purse "w1" refl refl

confirmation_deducts_example : DeductsFunds calm sent start purse
unfolding find_first ◌+ℤ◌
confirmation_deducts_example =
    confirmation_deducts calm (λ n. refl) sent start purse "abcd" refl refl refl refl
      (record { by_locked = omega arith; by_total = omega arith })

confirmation-IsStranded_example : IsStranded flaky sent start "gone"
unfolding find_first
confirmation-IsStranded_example =
    confirmation-IsStranded flaky sent start "abcd" "gone" refl refl refl refl refl

confirmation_error_example :
    LeavesMarked flaky sent start (world_of (process_withdrawal_confirmation flaky sent start))
unfolding process_withdrawal_confirmation settle_confirmation finalize_withdrawal_deduction
    find_first find_balance update_withdrawal call check_blockchain_confirmations get_chain_config
confirmation_error_example =
    confirmation_error flaky sent start (fetch_balance_error "gone")
      (world_of (process_withdrawal_confirmation flaky sent start)) refl
