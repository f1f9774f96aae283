-- ===== src/Processor/Watch.antt =====
-- Following a transaction: `monitor_blockchain_confirmation`, `monitor_solana_confirmation` and
-- `monitor_transaction`.
use zabypay_core.Prelude.{
  ℕ, zero, suc, ℤ, pos, String, Bool, true, false, Option, none, some, ◌+◌, ◌-◌, ◌*◌, ◌/◌, ◌<>◌,
  ◌&&◌, not, str_eq, ltb, leb_ℤ, if◌then◌else◌,
}
use Prim.Native.Nat.{min}
use zabypay_core.Errors.{
  AppError, database_error, not_found, validation_error, internal_server_error,
}
use zabypay_core.Entities.{Withdrawal}
use zabypay_core.Store.{
  Env, World, ok, err, M, pure, throw, ◌>>=◌, ◌>>◌, ok_or, call, clock, advance, StatusAnswer,
  status, unreachable, find_withdrawal, update_withdrawal,
}
use zabypay_core.Processor.Settle.{finalize_wallet_balance, fallback_time_based_confirmation}

abbrev pub max_attempts : ℕ
max_attempts = 60

abbrev pub withdrawal_missing : AppError
withdrawal_missing = not_found "Withdrawal not found"

abbrev pub transaction_failed : String → AppError
transaction_failed e = internal_server_error ("Transaction failed: " <> e)

abbrev pub monitoring_timeout : AppError
monitoring_timeout = internal_server_error "Transaction monitoring timeout"

-- What is set in the row after each answer of the node; the status where the answer decides it.
abbrev pub seen_row : ℤ → ℕ → Withdrawal → Withdrawal
seen_row confirmations now row = record row {
  blockchain_confirmations = some confirmations;
  updated_at = now;
}

abbrev pub broken_row : ℤ → ℕ → Withdrawal → Withdrawal
broken_row confirmations now row = record row {
  status = "failed";
  blockchain_confirmations = some confirmations;
  updated_at = now;
}

abbrev pub final_row : ℤ → ℕ → Withdrawal → Withdrawal
final_row confirmations now row = record row {
  status = "confirmed";
  blockchain_confirmations = some confirmations;
  confirmed_at = some now;
  updated_at = now;
}

abbrev pub timeout_row : ℕ → Withdrawal → Withdrawal
timeout_row now row = record row { status = "timeout"; updated_at = now }

-- The environment that the Solana client is made for.
abbrev pub client_environment : String → String
client_environment e =
    if str_eq e "mainnet" then "mainnet" else if str_eq e "testnet" then "testnet" else "devnet"

-- `std::cmp::min(delay * 2, max_delay)`
abbrev pub next_delay : ℕ → ℕ
next_delay delay = min (delay * 2) 30

module _ (env : Env) where
  -- `get_transaction_status`
  abbrev pub ask_status : M StatusAnswer
  ask_status s = ok (env.tx_status s.tick) (advance s)

  -- One `Ok(status)` arm of the loop; the result tells whether the withdrawal is confirmed.
  unfoldable pub take_status : String → Bool → ℤ → Option String → M Bool
  take_status id confirmed confirmations error = do
    found ← find_withdrawal env database_error id
    w ← ok_or withdrawal_missing found
    now ← clock env
    elim error [
      | some e ↦ (do
        _ ← update_withdrawal env database_error w.id (broken_row confirmations now)
        throw (transaction_failed e))
      | none ↦
          if confirmed && leb_ℤ (pos 1) confirmations
          then (do
            finalize_wallet_balance env w
            _ ← update_withdrawal env database_error w.id (final_row confirmations now)
            pure true)
          else (do
            _ ← update_withdrawal env database_error w.id (seen_row confirmations now)
            pure false)
    ]

  -- One round: the answer of the node, or its silence.
  unfoldable pub attempt : String → M Bool
  attempt id = do
    answer ← ask_status
    elim answer [
      | status confirmed confirmations error ↦ take_status id confirmed confirmations error
      | unreachable e ↦ pure false
    ]

  unfoldable pub give_up : String → M (Unit {0})
  give_up id = do
    found ← find_withdrawal env database_error id
    w ← ok_or withdrawal_missing found
    now ← clock env
    _ ← update_withdrawal env database_error w.id (timeout_row now)
    throw monitoring_timeout

  -- The loop, by the attempts that are left after this one, and the delay of the next sleep.
  unfoldable pub watch : ℕ → ℕ → String → M (Unit {0})
  watch zero delay id s = (do done ← attempt id; (if done then pure tt else give_up id)) s
  watch (suc left) delay id s =
      let again =
        λ (t : World). watch left (next_delay delay) id (record t { slept = t.slept + delay }) in
      elim (attempt id s) [
        | err e t ↦ err e t
        | ok done t ↦ elim done [ true ↦ ok tt t | false ↦ again t ]
      ]

  -- `SolanaHttpClient::new` reads the database, and can fail.
  unfoldable pub monitor_solana_confirmation : String → M (Unit {0})
  monitor_solana_confirmation id = do call env database_error; watch (max_attempts - 1) 2 id

  unfoldable pub monitor_blockchain_confirmation : String → M (Unit {0})
  monitor_blockchain_confirmation id = do
    found ← find_withdrawal env database_error id
    w ← ok_or withdrawal_missing found
    hash ← ok_or (validation_error "No transaction hash found") w.tx_hash
    (if str_eq w.network "sol"
        then monitor_solana_confirmation id
        else fallback_time_based_confirmation env id)

  -- The Solana branch of `monitor_transaction`: one answer, and no second confirmation.
  unfoldable pub check_once : Withdrawal → Bool → ℤ → Option String → M (Unit {0})
  check_once w confirmed confirmations error = do
    now ← clock env
    elim error [
      | some e ↦ (do
        _ ← update_withdrawal env database_error w.id (broken_row confirmations now)
        throw (transaction_failed e))
      | none ↦
          if confirmed && leb_ℤ (pos 1) confirmations && not (str_eq w.status "confirmed")
          then (do
            finalize_wallet_balance env w
            _ ← update_withdrawal env database_error w.id (final_row confirmations now)
            pure tt)
          else (do
            _ ← update_withdrawal env database_error w.id (seen_row confirmations now)
            pure tt)
    ]

  -- Its branch for the other networks: confirmed after two minutes, with six confirmations.
  unfoldable pub check_elapsed : Withdrawal → M (Unit {0})
  check_elapsed w = do
    now ← clock env
    let minutes = (now - w.created_at) / 60
    (if ltb 2 minutes && not (str_eq w.status "confirmed")
        then (do
          finalize_wallet_balance env w
          later ← clock env
          _ ←
              update_withdrawal env database_error w.id
                (λ row. record (final_row (pos 6) now row) { updated_at = later })
          pure tt)
        else (do
          _ ←
              update_withdrawal env database_error w.id
                (seen_row (if ltb 2 minutes then pos 6 else pos minutes) now)
          pure tt))

  unfoldable pub monitor_transaction : String → M (Unit {0})
  monitor_transaction id = do
    found ← find_withdrawal env database_error id
    w ← ok_or withdrawal_missing found
    _ ← ok_or (validation_error "No transaction hash") w.tx_hash
    (if str_eq w.network "sol"
        then (do
          call env database_error
          answer ← ask_status
          elim answer [
            | status confirmed confirmations error ↦ check_once w confirmed confirmations error
            | unreachable e ↦ throw e
          ])
        else check_elapsed w)
