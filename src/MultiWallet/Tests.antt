-- ===== src/MultiWallet/Tests.antt =====
-- A withdrawal from one wallet, as a plan of several.
use zabypay_core.Prelude.{
  String, Bool, pos, none, some, [], ◌∷◌, ◌≡◌, refl, str_eq, inr, ◌==◌, if◌then◌else◌,
}
use zabypay_core.Prelude.Table.{find_first, modify_where}
use zabypay_core.Store.{
  Env, World, Outcome, ok, err, world_of, call, find_merchant, find_wallet, find_withdrawal,
  find_balance, insert_withdrawal, update_withdrawal, update_balance, insert_transaction,
  transaction,
}
use zabypay_core.Samples.{calm, start, shop}
use zabypay_core.Processor.Submit.{
  process_withdrawal, process_withdrawal_internal, or_mark_failed, submit, send_on_network,
  broadcast, record_withdrawal,
}
use zabypay_core.MultiWallet.{
  WalletSelection, MultiWalletWithdrawalRequest, Sources, Response, existing, executed,
  final_status, finish_single, execute_single_wallet_withdrawal, execute_each, complete, preview,
  execute_plan, execute_selection, check_idempotency, execute_new, execute_multi_wallet_withdrawal,
}
use zabypay_core.MultiWallet.Spares.{Spares}
use zabypay_core.MultiWallet.Execute.{execute-Spares}

-- The identifier of the whole is drawn at the third call.
abbrev distinct : Env
distinct = record calm { uuid = λ n. if n == 2 then "u9" else "u8" }

abbrev part : WalletSelection
part = record {
  wallet_id = "a1";
  address = "bc1p";
  currency = "btc";
  symbol = "BTC";
  amount_crypto = "40";
  amount_usd = "40";
  estimated_fee = "1";
  network = "mainnet";
}

abbrev sources : Sources
sources = record {
  parse = λ text. if str_eq text "40" then some (pos 40) else some (pos 1);
  preview_withdrawal = λ s. inr (record {
    can_fulfill = Bool.true;
    estimated_total_fees_usd = "1";
    net_amount_usd = "39";
    wallet_selections = part ∷ [];
  });
}

abbrev wanted : MultiWalletWithdrawalRequest
wanted = record {
  environment = "mainnet";
  to_address = "bc1q";
  amount = "40";
  external_id = none;
  idempotency_key = "k7";
}

abbrev stall : World
stall = record start { db = record start.db { merchants = shop ∷ [] } }

abbrev status_of : Outcome Response → String
status_of (ok (existing w) s) = w.status
status_of (ok (executed status n m d p) s) = status
status_of (err e s) = ""

execute_test :
    status_of (execute_multi_wallet_withdrawal distinct sources "m1" wanted stall) ≡ "confirmed"
unfolding execute_multi_wallet_withdrawal check_idempotency execute_new preview execute_selection
    execute_plan execute_each execute_single_wallet_withdrawal finish_single complete final_status
    process_withdrawal process_withdrawal_internal or_mark_failed submit send_on_network broadcast
    record_withdrawal call find_merchant find_wallet find_withdrawal find_balance insert_withdrawal
    update_withdrawal update_balance insert_transaction transaction find_first modify_where
execute_test = refl

execute-Spares_example :
    Spares stall (world_of (execute_multi_wallet_withdrawal distinct sources "m1" wanted stall))
execute-Spares_example = execute-Spares distinct sources "m1" wanted stall
