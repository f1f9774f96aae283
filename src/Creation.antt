-- ===== src/Creation.antt =====
-- Creating a withdrawal: src/merchant/services/withdrawal_service.rs, `create_withdrawal` from the
-- check of the idempotency key, and from the wallet that was found. `Amounts` decides the sums,
-- `Entry` has the whole function.
pub mod Amounts
pub mod Reserve
pub mod Unlocked
pub mod Decide
pub mod Validate
pub mod Lifecycle
pub mod Resync
pub mod Entry
pub mod Choice
pub mod Again
pub mod Tests
use zabypay_core.Prelude.{
  ◌==◌, ℕ, suc, ℤ, pos, String, Bool, true, false, Option, none, some, List, ◌+ℤ◌, ◌-ℤ◌, ◌<>◌, ◌&&◌,
  ◌||◌, str_eq, contains, ltb_ℤ, if◌then◌else◌, ◌++◌, ◌∷◌, [],
}
use zabypay_core.Prelude.Table.{find_first}
use zabypay_core.Errors.{AppError, database_error, not_found, validation_error}
use zabypay_core.States.{FundsState, LifecycleState, funds_text, lifecycle_text}
use zabypay_core.Entities.{Withdrawal, Balance, Wallet, WalletTransaction}
use zabypay_core.Store.{
  Env, World, Outcome, ok, err, M, pure, throw, ◌>>=◌, ◌>>◌, ok_or, world_of, call, clock, fresh_id,
  find_withdrawal, find_balance, update_balance, insert_withdrawal, insert_transaction,
}
use zabypay_core.Processor.Submit.{process_withdrawal}
use zabypay_core.Creation.Amounts.{
  Library, Request, Sums, network_to_currency, required_confirmations, decide_sums, is_short,
  shortage,
}

-- "relation", or "does not exist": the tables were not made.
abbrev pub is_unmigrated : String → Bool
is_unmigrated e = contains e "relation" || contains e "does not exist"

abbrev pub is_schema_error : String → Bool
is_schema_error e =
    contains e "relation" || contains e "table" || contains e "no such table" || contains e "column"

abbrev pub key_error : String → AppError
key_error e =
    if is_unmigrated e
    then database_error
        "Withdrawal system database tables are not configured. Please run migrations."
    else database_error ("Failed to check idempotency key: " <> e)

abbrev pub balance_error : String → AppError
balance_error e =
    if is_unmigrated e
    then database_error
        "Wallet balance system database tables are not configured. Please run migrations."
    else database_error ("Failed to find wallet balance: " <> e)

abbrev pub insert_error : String → AppError
insert_error e =
    if is_schema_error e
    then validation_error "Withdrawal system is not fully configured. Database tables are missing."
    else database_error ("Failed to create withdrawal: " <> e)

abbrev pub no_balance : String → AppError
no_balance network = not_found (
    "No balance found for " <> network
    <> " wallet. Please ensure you have received payments first.")

-- The row that is inserted.
abbrev pub new_withdrawal : String → ℕ → String → String → Request → String → Sums → Withdrawal
new_withdrawal id now merchant_id wallet_id request currency sums = record {
  id = id;
  merchant_id = merchant_id;
  wallet_id = wallet_id;
  external_id = elim request.external_id [ none ↦ id | some external ↦ external ];
  idempotency_key = request.idempotency_key;
  environment = request.environment;
  network = request.network;
  currency = currency;
  to_address = request.to_address;
  amount = sums.amount;
  fee = some sums.fee;
  net_amount = sums.net_amount;
  status = "pending";
  tx_hash = none;
  blockchain_confirmations = none;
  required_confirmations = required_confirmations request.environment request.network;
  metadata = none;
  error_message = none;
  created_at = now;
  processed_at = none;
  confirmed_at = none;
  updated_at = now;
  broadcast_at = none;
  failed_at = none;
  failure_reason = none;
  finality_required = required_confirmations request.environment request.network;
  finality_reached_at = none;
  replaced_by_tx = none;
  reorg_depth = pos 0;
  lifecycle_state = lifecycle_text LifecycleState.quoted;
  withdrawal_funds_state = funds_text FundsState.locked;
}

abbrev pub locking_row : ℤ → Balance → ℕ → Balance → Balance
locking_row total read now row = record row {
  available_balance = read.available_balance -ℤ total;
  pending_balance = read.pending_balance;
  locked_balance = read.locked_balance +ℤ total;
  total_balance = read.total_balance;
  last_updated = now;
}

abbrev pub lock_record :
    String → ℕ → String → Wallet → Request → String → Sums → Balance → WalletTransaction
lock_record id now withdrawal_id wallet request currency sums read = record {
  id = id;
  wallet_id = wallet.id;
  transaction_type = "withdrawal_lock";
  currency = currency;
  amount = sums.amount;
  fee = some sums.fee;
  net_amount = pos 0;
  balance_before = read.available_balance;
  balance_after = read.available_balance -ℤ (sums.amount +ℤ sums.fee);
  tx_hash = none;
  from_address = some wallet.address;
  to_address = some request.to_address;
  status = "locked";
  description = some "Withdrawal funds locked - awaiting confirmation";
  related_entity_type = some "withdrawal_request";
  related_entity_id = some withdrawal_id;
  created_at = now;
  processed_at = none;
}

-- The errors of the last read, after a run that succeeded or failed.
abbrev pub fetch_error : Bool → String → AppError
fetch_error done e = database_error (
    (if done then "Failed to fetch updated withdrawal: " else "Failed to fetch failed withdrawal: ")
    <> e)

abbrev pub record_missing : Bool → AppError
record_missing done =
    not_found
      (if done then "Updated withdrawal record not found" else "Failed withdrawal record not found")

abbrev pub is_done : {A : Type 0} → Outcome A → Bool
is_done (ok _ _) = true
is_done (err _ _) = false

abbrev pub by_key : String → String → Withdrawal → Bool
by_key merchant_id key r = str_eq r.merchant_id merchant_id && str_eq r.idempotency_key key

module _ (env : Env) where
  -- The record of the lock: a missing table is passed over.
  unfoldable pub record_lock : WalletTransaction → M (Unit {0})
  record_lock row s = elim (insert_transaction env database_error row s) [
    | ok _ t ↦ ok tt t
    | err (database_error e) t ↦
        if is_schema_error e
        then ok tt t
        else err (database_error ("Failed to create wallet transaction: " <> e)) t
    | err e t ↦ err e t
  ]

  -- From the balance of the wallet to the record of the lock.
  unfoldable pub reserve : Library → String → Wallet → Request → M Withdrawal
  reserve library merchant_id wallet request = do
    found ← find_balance env balance_error wallet.id
    read ← ok_or (no_balance request.network) found
    sums ← decide_sums library request read
    (if is_short read sums then throw (shortage library request read sums) else pure tt)
    let currency = network_to_currency request.network
    id ← fresh_id env
    now ← clock env
    created ←
        insert_withdrawal env insert_error
          (new_withdrawal id now merchant_id wallet.id request currency sums)
    locked ← clock env
    update_balance env (λ e. database_error ("Failed to update balance: " <> e)) read.id
        (locking_row (sums.amount +ℤ sums.fee) read locked)
    entry ← fresh_id env
    noted ← clock env
    record_lock (lock_record entry noted id wallet request currency sums read)
    pure created

  -- The processing, where it ends within 30 seconds; `late` gives the world in which it is cut off,
  -- where it does not, and then it is started again in a task of its own.
  unfoldable pub respond : (World → Option World) → Withdrawal → M Withdrawal
  respond late created s = elim (late s) [
    | none ↦
        let run = process_withdrawal env created.id s in
        (do
          found ← find_withdrawal env (fetch_error (is_done run)) created.id
          ok_or (record_missing (is_done run)) found)
          (world_of run)
    | some t ↦ ok created (record t { queued = t.queued ++ created.id ∷ [] })
  ]

  -- `create_withdrawal` from the wallet on.
  unfoldable pub create_in_wallet :
      Library → (World → Option World) → String → Wallet → Request → M Withdrawal
  create_in_wallet library late merchant_id wallet request =
      reserve library merchant_id wallet request >>= respond late

  -- The check of the idempotency key: the withdrawal that has it, if there is one.
  unfoldable pub find_duplicate : String → String → M (Option Withdrawal)
  find_duplicate merchant_id key =
      call env key_error >>= λ _ s. ok (find_first (by_key merchant_id key) s.db.withdrawals) s

  -- `create_withdrawal` from the check of the key on, for a valid address and the wallet that was
  -- chosen.
  unfoldable pub create_from_key :
      Library → (World → Option World) → String → Wallet → Request → M Withdrawal
  create_from_key library late merchant_id wallet request = do
    existing ← find_duplicate merchant_id request.idempotency_key
    elim existing [
      | some w ↦ pure w
      | none ↦ create_in_wallet library late merchant_id wallet request
    ]
