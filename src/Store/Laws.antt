-- ===== src/Store/Laws.antt =====
-- What the calls do when the database does not fail, and which rows they leave alone.
use zabypay_core.Prelude.{◌<◌, some, ℕ, String, none, List, [], ◌∷◌, ◌++◌, ◌≡◌, arith}
use zabypay_core.Prelude.Table.{find_first, modify_where}
use zabypay_core.Errors.{AppError}
use zabypay_core.Entities.{Withdrawal, Balance, WalletTransaction}
use zabypay_core.Store.{
  Env, World, ok, advance, by_id, by_wallet, by_balance_id, call, find_withdrawal, find_balance,
  update_withdrawal, update_balance, insert_transaction,
}

-- The database answers every call.
abbrev pub IsQuiet : Env → Type 0
IsQuiet env = (n : ℕ) → env.fault n ≡ none

-- The database fails at this one call.
abbrev pub FailsAt : Env → ℕ → String → Type 0
FailsAt env at reason =
    (env.fault at ≡ some reason)
    × ((n : ℕ) → n < at → env.fault n ≡ none)
    × ((n : ℕ) → at < n → env.fault n ≡ none)

abbrev pub set_withdrawals : (List Withdrawal → List Withdrawal) → World → World
set_withdrawals f s = record s { db = record s.db { withdrawals = f s.db.withdrawals } }

abbrev pub set_balances : (List Balance → List Balance) → World → World
set_balances f s = record s { db = record s.db { balances = f s.db.balances } }

abbrev pub add_transaction : WalletTransaction → World → World
add_transaction row s = record s {
  db = record s.db { transactions = s.db.transactions ++ row ∷ [] };
}

module _ (env : Env) (quiet : IsQuiet env) (wrap : String → AppError) (s : World) where
  pub call-quiet : call env wrap s ≡ ok tt (advance s)
  unfolding call
  call-quiet = ground (arith, quiet s.tick)

  pub find_withdrawal-quiet :
      (id : String)
      → find_withdrawal env wrap id s ≡ ok (find_first (by_id id) s.db.withdrawals) (advance s)
  unfolding find_withdrawal
  find_withdrawal-quiet id = rw call-quiet

  pub find_balance-quiet :
      (wallet_id : String)
      → find_balance env wrap wallet_id s
        ≡ ok (find_first (by_wallet wallet_id) s.db.balances) (advance s)
  unfolding find_balance
  find_balance-quiet wallet_id = rw call-quiet

  pub update_withdrawal-quiet :
      (id : String) (patch : Withdrawal → Withdrawal) (r : Withdrawal)
      → find_first (by_id id) s.db.withdrawals ≡ some r
      → update_withdrawal env wrap id patch s
        ≡ ok (patch r) (set_withdrawals (modify_where (by_id id) patch) (advance s))
  unfolding update_withdrawal
  update_withdrawal-quiet id patch r h = ground (arith, call-quiet)

  pub update_balance-quiet :
      (id : String) (patch : Balance → Balance) (r : Balance)
      → find_first (by_balance_id id) s.db.balances ≡ some r
      → update_balance env wrap id patch s
        ≡ ok tt (set_balances (modify_where (by_balance_id id) patch) (advance s))
  unfolding update_balance
  update_balance-quiet id patch r h = ground (arith, call-quiet)

  pub insert_transaction-quiet :
      (row : WalletTransaction)
      → insert_transaction env wrap row s ≡ ok tt (add_transaction row (advance s))
  unfolding insert_transaction
  insert_transaction-quiet row = rw call-quiet
