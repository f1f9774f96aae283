-- ===== src/MultiWallet.antt =====
-- A withdrawal from several wallets at once: execute_multi_wallet_withdrawal and
-- execute_single_wallet_withdrawal of src/merchant/services/multi_wallet_service.rs. The preview,
-- which only reads and converts to dollars, is a parameter, as is `parse::<Decimal>()`.
pub mod Spares
pub mod Process
pub mod Execute
pub mod Tests
use zabypay_core.Prelude.{
  ℕ, suc, ℤ, pos, String, Bool, true, false, Option, none, some, List, [], ◌∷◌, ◌++◌, ◌+ℤ◌, ◌-ℤ◌,
  ◌<>◌, ◌⊎◌, inl, inr, ◌&&◌, ◌||◌, str_eq, ◌==◌, if◌then◌else◌,
}
use zabypay_core.Prelude.Table.{find_first}
use zabypay_core.Errors.{AppError, database_error, not_found, validation_error, display}
use zabypay_core.States.{FundsState, LifecycleState, funds_text, lifecycle_text}
use zabypay_core.Entities.{Withdrawal}
use zabypay_core.Store.{
  Env, World, Outcome, ok, err, M, pure, throw, ◌>>=◌, ◌>>◌, ok_or, clock, fresh_id, call, world_of,
  find_merchant, find_wallet, insert_withdrawal, update_withdrawal,
}
use zabypay_core.Processor.Submit.{process_withdrawal}

pub record WalletSelection : Type 0 where
  pub wallet_id : String
  pub address : String
  pub currency : String
  pub symbol : String
  pub amount_crypto : String
  pub amount_usd : String
  pub estimated_fee : String
  pub network : String

-- The fields of `WithdrawalPreview` that are read here.
pub record Preview : Type 0 where
  pub can_fulfill : Bool
  pub estimated_total_fees_usd : String
  pub net_amount_usd : String
  pub wallet_selections : List WalletSelection

pub record MultiWalletWithdrawalRequest : Type 0 where
  pub environment : String
  pub to_address : String
  pub amount : String
  pub external_id : Option String
  pub idempotency_key : String

pub record Sources : Type 0 where
  pub parse : String → Option ℤ
  pub preview_withdrawal : World → AppError ⊎ Preview

-- One wallet's part, with its hash where it went out.
pub record WithdrawalTransaction : Type 0 where
  pub wallet_id : String
  pub wallet_address : String
  pub currency : String
  pub amount : String
  pub fee : String
  pub net_amount : ℤ
  pub usd_equivalent : String
  pub tx_hash : Option String
  pub status : String

-- The answer: a withdrawal that had the key, or the one that was executed, with its status, how
-- many wallets succeeded and failed, the dollars transferred and the parts.
pub data Response : Type 0 where
  existing : Withdrawal → Response
  executed : String → ℕ → ℕ → ℤ → List WithdrawalTransaction → Response

-- `parse::<Decimal>().unwrap_or_default()`
abbrev pub parse_or_zero : Sources → String → ℤ
parse_or_zero sources text = elim (sources.parse text) [ none ↦ pos 0 | some n ↦ n ]

-- What the rows of the whole and of its parts have in common.
abbrev pub unlocked_row :
    String
    → ℕ
    → String
    → String
    → String
    → String
    → String
    → String
    → String
    → ℤ
    → ℤ
    → ℤ
    → String
    → Withdrawal
unlocked_row id now merchant_id wallet_id external_id key environment network to_address amount fee
      net_amount status =
    record {
      id = id;
      merchant_id = merchant_id;
      wallet_id = wallet_id;
      external_id = external_id;
      idempotency_key = key;
      environment = environment;
      network = network;
      currency = network;
      to_address = to_address;
      amount = amount;
      fee = some fee;
      net_amount = net_amount;
      status = status;
      tx_hash = none;
      blockchain_confirmations = none;
      required_confirmations = pos 1;
      metadata = none;
      error_message = none;
      created_at = now;
      processed_at = none;
      confirmed_at = none;
      updated_at = now;
      broadcast_at = none;
      failed_at = none;
      failure_reason = none;
      finality_required = pos 1;
      finality_reached_at = none;
      replaced_by_tx = none;
      reorg_depth = pos 0;
      lifecycle_state = lifecycle_text LifecycleState.quoted;
      withdrawal_funds_state = funds_text FundsState.unlocked;
    }

abbrev pub failed_part : WalletSelection → WithdrawalTransaction
failed_part selection = record {
  wallet_id = selection.wallet_id;
  wallet_address = selection.address;
  currency = selection.currency;
  amount = selection.amount_crypto;
  fee = selection.estimated_fee;
  net_amount = pos 0;
  usd_equivalent = "0";
  tx_hash = none;
  status = "failed";
}

abbrev pub sent_part : WalletSelection → ℤ → String → WithdrawalTransaction
sent_part selection net_amount hash = record {
  wallet_id = selection.wallet_id;
  wallet_address = selection.address;
  currency = selection.currency;
  amount = selection.amount_crypto;
  fee = selection.estimated_fee;
  net_amount = net_amount;
  usd_equivalent = selection.amount_usd;
  tx_hash = some hash;
  status = "confirmed";
}

abbrev pub failed_single_row : String → ℕ → Withdrawal → Withdrawal
failed_single_row reason now row = record row {
  status = "failed";
  failure_reason = some reason;
  failed_at = some now;
  updated_at = now;
}

-- `final_status`, by the numbers of wallets that succeeded and failed.
unfoldable pub final_status : ℕ → ℕ → String
final_status successful failed =
    if successful == 0 then "failed" else if failed == 0 then "confirmed" else "partially_completed"

abbrev pub final_row : String → ℕ → Withdrawal → Withdrawal
final_row status now row =
    if str_eq status "failed"
    then record row {
      status = status;
      processed_at = some now;
      updated_at = now;
      failed_at = some now;
      failure_reason = some "All wallet withdrawals failed";
    }
    else record row {
      status = status;
      processed_at = some now;
      updated_at = now;
      confirmed_at = some now;
      broadcast_at = some now;
    }

module _ (env : Env) (sources : Sources) where
  -- The part's row after the processor: its error marks the row as failed, where the update works.
  unfoldable pub finish_single :
      WalletSelection → ℤ → String → Outcome String → Outcome WithdrawalTransaction
  finish_single selection net_amount id (ok hash t) = ok (sent_part selection net_amount hash) t
  finish_single selection net_amount id (err e t) = err e (
      world_of (
        update_withdrawal env database_error id (failed_single_row (display e) (env.now t.tick)) t))

  unfoldable pub execute_single_wallet_withdrawal :
      WalletSelection → String → String → M WithdrawalTransaction
  execute_single_wallet_withdrawal selection to_address master_id = do
    found ← find_wallet env database_error selection.wallet_id
    wallet ← ok_or (not_found "Wallet not found") found
    id ← fresh_id env
    amount ← ok_or (validation_error "Invalid amount") (sources.parse selection.amount_crypto)
    fee ← ok_or (validation_error "Invalid fee") (sources.parse selection.estimated_fee)
    now ← clock env
    let key = master_id <> "_" <> selection.wallet_id
    _ ←
        insert_withdrawal env (λ e. database_error ("Failed to create withdrawal: " <> e))
          (unlocked_row id now "auto" wallet.id key key selection.network selection.currency
            to_address amount fee (amount -ℤ fee) "pending")
    (λ s. finish_single selection (amount -ℤ fee) id (process_withdrawal env id s))

  -- The loop over the wallets: successes, failures, dollars and parts so far.
  unfoldable pub execute_each :
      String → String → ℕ → ℕ → ℤ → List WithdrawalTransaction → List WalletSelection → M Response
  execute_each to_address master_id successful failed dollars parts [] s =
      ok (executed (final_status successful failed) successful failed dollars parts) s
  execute_each to_address master_id successful failed dollars parts (w ∷ rest) s =
      elim (execute_single_wallet_withdrawal w to_address master_id s) [
        | ok tx t ↦
            execute_each to_address master_id (suc successful) failed
              (dollars +ℤ parse_or_zero sources tx.usd_equivalent) (parts ++ tx ∷ []) rest t
        | err e t ↦
            execute_each to_address master_id successful (suc failed) dollars
              (parts ++ failed_part w ∷ []) rest t
      ]

  -- The last update of the whole.
  unfoldable pub complete : String → Response → M Response
  complete id (existing w) = pure (existing w)
  complete id (executed status successful failed dollars parts) = do
    now ← clock env
    _ ←
        update_withdrawal env (λ e. database_error ("Failed to update master withdrawal: " <> e)) id
          (final_row status now)
    pure (executed status successful failed dollars parts)

  unfoldable pub preview : M Preview
  preview s = elim (sources.preview_withdrawal s) [ inl e ↦ err e s | inr p ↦ ok p s ]

  unfoldable pub execute_plan :
      String → MultiWalletWithdrawalRequest → Preview → WalletSelection → M Response
  execute_plan merchant_id request p primary = do
    id ← fresh_id env
    now ← clock env
    _ ←
        insert_withdrawal env (λ e. database_error ("Failed to create master withdrawal: " <> e))
          (unlocked_row id now merchant_id primary.wallet_id
            (elim request.external_id [ none ↦ id | some external ↦ external ])
            request.idempotency_key request.environment "multi" request.to_address
            (parse_or_zero sources request.amount)
            (parse_or_zero sources p.estimated_total_fees_usd)
            (parse_or_zero sources p.net_amount_usd) "processing")
    done ← execute_each request.to_address id 0 0 (pos 0) [] p.wallet_selections
    complete id done

  unfoldable pub execute_selection : String → MultiWalletWithdrawalRequest → Preview → M Response
  execute_selection merchant_id request p =
      if p.can_fulfill
      then elim p.wallet_selections [
        | [] ↦ throw (validation_error "No wallets selected for withdrawal")
        | primary ∷ rest ↦ execute_plan merchant_id request p primary
      ]
      else throw (validation_error "Cannot fulfill withdrawal with available balances")

  abbrev pub with_key : String → String → Withdrawal → Bool
  with_key merchant_id key r = str_eq r.merchant_id merchant_id && str_eq r.idempotency_key key

  unfoldable pub check_idempotency : String → String → M (Option Withdrawal)
  check_idempotency merchant_id key = call env database_error >>= λ _ s.
      ok (find_first (with_key merchant_id key) s.db.withdrawals) s

  unfoldable pub execute_new :
      String → MultiWalletWithdrawalRequest → Option Withdrawal → M Response
  execute_new merchant_id request (some w) = pure (existing w)
  execute_new merchant_id request none = do
    found ← find_merchant env database_error merchant_id
    _ ← ok_or (not_found "Merchant not found") found
    p ← preview
    execute_selection merchant_id request p

  unfoldable pub execute_multi_wallet_withdrawal :
      String → MultiWalletWithdrawalRequest → M Response
  execute_multi_wallet_withdrawal merchant_id request = do
    held ← check_idempotency merchant_id request.idempotency_key
    execute_new merchant_id request held
