-- ===== src/Solana/Tests.antt =====
-- A transfer to an account that is not there yet.
use zabypay_core.Prelude.{Bool, none, some, refl, arith}
use zabypay_core.Solana.{
  Node, actual_transfer_amount, send_checked, transfer_sol_with_confirmation, estimate_transfer_fee,
  execute_withdrawal,
}
use zabypay_core.Solana.Transfer.{TopsUp, executed-TopsUp}

abbrev node : Node
node = record {
  sender_balance = some 2000000;
  recipient_balance = none;
  is_address = Bool.true;
  has_blockhash = Bool.true;
  fee_for_message = λ amount. some 5000;
  send_and_confirm = λ amount. some "sig";
  by_float = λ n. n;
}

executed-TopsUp_example : TopsUp node 1000 891880
unfolding actual_transfer_amount send_checked transfer_sol_with_confirmation estimate_transfer_fee
    execute_withdrawal
executed-TopsUp_example =
    executed-TopsUp node (λ y fee h. ground arith) 1000 891880 "sig" (omega arith) refl
