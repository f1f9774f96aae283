-- ===== src/Processor/Submit.antt =====
-- From a pending withdrawal to a transaction: `process_withdrawal`, `process_withdrawal_internal`,
-- `mark_withdrawal_failed`, the simulated chains and the call of the Solana service.
use zabypay_core.Prelude.{
  ℕ, ℤ, String, Bool, none, some, [], ◌∷◌, ◌++◌, ◌+ℤ◌, ◌-ℤ◌, neg, ◌<>◌, ◌&&◌, ◌||◌, not, str_eq,
  suc, if◌then◌else◌,
}
use zabypay_core.Errors.{AppError, database_error, not_found, validation_error, display}
use zabypay_core.Entities.{Withdrawal, Balance, Wallet, WalletTransaction, total_of}
use zabypay_core.Store.{
  Env, Outcome, ok, err, M, pure, throw, ◌>>=◌, ◌>>◌, ok_or, clock, fresh_id, world_of, hashed,
  advance, refused, find_withdrawal, find_balance, find_wallet, update_withdrawal, update_balance,
  insert_transaction, transaction,
}

abbrev pub failed_row : String → ℕ → Withdrawal → Withdrawal
failed_row reason now row = record row {
  status = "failed";
  updated_at = now;
  failed_at = some now;
  failure_reason = some reason;
}

abbrev pub processing_row : ℕ → Withdrawal → Withdrawal
processing_row now row = record row { status = "processing"; updated_at = now }

abbrev pub broadcast_row : String → ℕ → Withdrawal → Withdrawal
broadcast_row hash now row = record row {
  status = "broadcasted";
  tx_hash = some hash;
  broadcast_at = some now;
}

abbrev pub pending_row : ℤ → Balance → ℕ → Balance → Balance
pending_row total read now row = record row {
  pending_balance = read.pending_balance -ℤ total;
  last_updated = now;
}

abbrev pub request_row : String → ℕ → Withdrawal → Wallet → Balance → String → WalletTransaction
request_row id now w wallet read hash = record {
  id = id;
  wallet_id = wallet.id;
  transaction_type = "withdrawal";
  currency = w.currency;
  amount = w.amount;
  fee = w.fee;
  net_amount = neg (total_of w);
  balance_before = read.available_balance +ℤ total_of w;
  balance_after = read.available_balance;
  tx_hash = some hash;
  from_address = some wallet.address;
  to_address = some w.to_address;
  status = "pending";
  description = some "Withdrawal request";
  related_entity_type = some "withdrawal_request";
  related_entity_id = some w.id;
  created_at = now;
  processed_at = none;
}

-- `status != "pending" && status != "processing"`
abbrev pub is_processed : Withdrawal → Bool
is_processed w = not (str_eq w.status "pending") && not (str_eq w.status "processing")

abbrev pub already_processed : Withdrawal → AppError
already_processed w = validation_error ("Withdrawal already in status: " <> w.status)

abbrev pub unsupported : Withdrawal → AppError
unsupported w = validation_error ("Unsupported network: " <> w.network)

abbrev pub solana_environment : String → String
solana_environment e =
    if str_eq e "mainnet"
    then "mainnet"
    else if str_eq e "testnet"
    then "testnet"
    else if str_eq e "devnet"
    then "devnet"
    else "mainnet"

module _ (env : Env) where
  unfoldable pub mark_withdrawal_failed : String → String → M (Unit {0})
  mark_withdrawal_failed id reason s = elim (find_withdrawal env database_error id s) [
    | err e t ↦ ok tt t
    | ok found t ↦ elim found [
      | none ↦ ok tt t
      | some w ↦
          (do
            now ← clock env
            _ ← update_withdrawal env database_error w.id (failed_row reason now)
            pure tt)
            t
    ]
  ]

  -- `simulate_ethereum_withdrawal` and `simulate_bnb_withdrawal`: "0x" and the digits of a UUID.
  abbrev pub simulated_hash : M String
  simulated_hash s = ok ("0x" <> env.uuid_hex s.tick) s

  -- `simulate_bitcoin_withdrawal`
  abbrev pub simulated_bitcoin_hash : M String
  simulated_bitcoin_hash s = ok (env.uuid_hex s.tick) s

  -- `execute_solana_withdrawal`: the transfer goes out where the service gives a hash.
  unfoldable pub execute_solana_withdrawal : Withdrawal → Wallet → M String
  execute_solana_withdrawal w wallet s = elim (env.send s.tick) [
    | refused e ↦ err e (advance s)
    | hashed hash ↦ ok hash (record s {
      tick = suc s.tick;
      transfers =
          s.transfers
          ++ record {
            wallet_id = wallet.id;
            to_address = w.to_address;
            amount = w.amount;
            environment = solana_environment w.environment;
          }
            ∷ [];
    })
  ]

  -- A simulated branch: a hash, then the row is marked as broadcasted.
  unfoldable pub broadcast : Withdrawal → M String → M String
  broadcast w simulate = do
    hash ← simulate
    now ← clock env
    _ ← update_withdrawal env database_error w.id (broadcast_row hash now)
    pure hash

  -- `match withdrawal.network.as_str()`
  unfoldable pub send_on_network : Withdrawal → Wallet → M String
  send_on_network w wallet s =
      if str_eq w.network "eth" || str_eq w.network "usdt_erc20"
      then broadcast w simulated_hash s
      else if str_eq w.network "bnb" || str_eq w.network "usdt_bep20"
      then broadcast w simulated_hash s
      else if str_eq w.network "btc"
      then broadcast w simulated_bitcoin_hash s
      else if str_eq w.network "sol"
      then execute_solana_withdrawal w wallet s
      else err (unsupported w) s

  -- The wallet's balance and the transaction record, after the transaction was sent.
  unfoldable pub record_withdrawal : Withdrawal → Wallet → String → M (Unit {0})
  record_withdrawal w wallet hash = do
    found ← find_balance env database_error wallet.id
    read ← ok_or (not_found "Wallet balance not found") found
    now ← clock env
    update_balance env database_error read.id (pending_row (total_of w) read now)
    id ← fresh_id env
    created ← clock env
    insert_transaction env database_error (request_row id created w wallet read hash)

  -- What runs between `begin` and `commit`.
  unfoldable pub submit : String → M String
  submit id = do
    found ← find_withdrawal env database_error id
    w ← ok_or (not_found "Withdrawal not found") found
    (if is_processed w then throw (already_processed w) else pure tt)
    owner ← find_wallet env database_error w.wallet_id
    wallet ← ok_or (not_found "Wallet not found") owner
    now ← clock env
    _ ← update_withdrawal env database_error w.id (processing_row now)
    hash ← send_on_network w wallet
    record_withdrawal w wallet hash
    pure hash

  -- `tokio::spawn` of the confirmation of this withdrawal.
  abbrev pub spawn : String → M (Unit {0})
  spawn id s = ok tt (record s { spawned = s.spawned ++ id ∷ [] })

  unfoldable pub process_withdrawal_internal : String → M String
  process_withdrawal_internal id = do
    hash ← transaction env database_error (submit id)
    spawn id
    pure hash

  -- `process_withdrawal`, on the outcome of the internal function.
  unfoldable pub or_mark_failed : String → Outcome String → Outcome String
  or_mark_failed id (ok hash t) = ok hash t
  or_mark_failed id (err e t) = err e (world_of (mark_withdrawal_failed id (display e) t))

  unfoldable pub process_withdrawal : String → M String
  process_withdrawal id s = or_mark_failed id (process_withdrawal_internal id s)
