-- ===== src/Store.antt =====
-- The database as the withdrawal path uses it (sea-orm over Postgres): six tables, and calls that
-- succeed or fail as an environment decides. Each call of `find`, `update` and `insert` is one
-- tick; `env.fault n` is the database's error at tick `n`, if it has one. A failed call changes
-- nothing.
pub mod Laws
pub mod Runs
use zabypay_core.Prelude.{
  ℤ, ◌+◌, ℕ, suc, String, Bool, Option, none, some, List, [], ◌∷◌, ◌++◌, str_eq, if◌then◌else◌,
}
use zabypay_core.Prelude.Table.{find_first, filter_rows, modify_where}
use zabypay_core.Errors.{AppError}
use zabypay_core.Entities.{Withdrawal, Balance, Wallet, WalletTransaction, Payment, Merchant}

pub record Db : Type 0 where
  pub withdrawals : List Withdrawal
  pub balances : List Balance
  pub wallets : List Wallet
  pub transactions : List WalletTransaction
  pub payments : List Payment
  pub merchants : List Merchant

-- The answer of the Solana service to a transfer: the transaction's hash, or an error.
pub data SendAnswer : Type 0 where
  hashed : String → SendAnswer
  refused : AppError → SendAnswer

-- The answer of a node about a transaction: whether it is confirmed, its confirmations and its
-- error; or no answer.
pub data StatusAnswer : Type 0 where
  status : Bool → ℤ → Option String → StatusAnswer
  unreachable : AppError → StatusAnswer

-- The address of a fresh wallet, or why no key could be made.
pub data KeyAnswer : Type 0 where
  address : String → KeyAnswer
  no_key : AppError → KeyAnswer

-- What this part of the program does not decide: `Utc::now()`, `Uuid::new_v4()` as text and as
-- hexadecimal digits, the failures of database calls, the Solana service and its node, and the keys
-- of new wallets, each by the tick at which it is asked; the transaction hash that a JSON text has,
-- and the order in which a `HashMap` with these keys is walked.
pub record Env : Type 0 where
  pub now : ℕ → ℕ
  pub uuid : ℕ → String
  pub uuid_hex : ℕ → String
  pub fault : ℕ → Option String
  pub send : ℕ → SendAnswer
  pub tx_status : ℕ → StatusAnswer
  pub keygen : ℕ → KeyAnswer
  pub json_tx_hash : String → Option String
  pub hash_order : List String → List String

-- A transfer that was handed to the Solana service: wallet, recipient, amount and environment.
pub record Transfer : Type 0 where
  pub wallet_id : String
  pub to_address : String
  pub amount : ℤ
  pub environment : String

-- An event about a payment that was handed to the webhook service.
pub record Event : Type 0 where
  pub payment_id : String
  pub event : String

-- The database, the number of external calls so far, the transfers that went out, the withdrawals
-- whose confirmation runs in a task of its own, those whose processing was put off to one, the
-- seconds slept, and the events about payments.
pub record World : Type 0 where
  pub db : Db
  pub tick : ℕ
  pub transfers : List Transfer
  pub spawned : List String
  pub queued : List String
  pub slept : ℕ
  pub events : List Event

-- `Result<A, AppError>`, with the world that the call leaves.
pub data Outcome (A : Type 0) : Type 0 where
  ok : A → World → Outcome A
  err : AppError → World → Outcome A

abbrev pub M : Type 0 → Type 0
M A = World → Outcome A

abbrev pub pure : {A : Type 0} → A → M A
pure a w = ok a w

abbrev pub throw : {A : Type 0} → AppError → M A
throw e w = err e w

abbrev pub continue : {A B : Type 0} → Outcome A → (A → M B) → Outcome B
continue (ok a w) f = f a w
continue (err e w) f = err e w

infixl 5 ◌>>=◌ ◌>>◌
abbrev pub ◌>>=◌ : {A B : Type 0} → M A → (A → M B) → M B
◌>>=◌ m f w = continue (m w) f

abbrev pub ◌>>◌ : {B : Type 0} → M (Unit {0}) → M B → M B
m >> k = m >>= λ _. k

-- `.ok_or_else(|| e)?`
abbrev pub ok_or : {A : Type 0} → AppError → Option A → M A
ok_or e none = throw e
ok_or e (some a) = pure a

-- The world after one call.
abbrev pub advance : World → World
advance w = record w { tick = suc w.tick }

abbrev pub world_of : {A : Type 0} → Outcome A → World
world_of (ok a w) = w
world_of (err e w) = w

abbrev pub none_updated : String
none_updated = "None of the records are updated"

abbrev pub by_id : String → Withdrawal → Bool
by_id id r = str_eq r.id id

abbrev pub by_wallet : String → Balance → Bool
by_wallet wallet_id r = str_eq r.wallet_id wallet_id

abbrev pub by_balance_id : String → Balance → Bool
by_balance_id id r = str_eq r.id id

abbrev pub merchant_by_id : String → Merchant → Bool
merchant_by_id id r = str_eq r.id id

abbrev pub payment_by_id : String → Payment → Bool
payment_by_id id r = str_eq r.id id

abbrev pub wallet_by_id : String → Wallet → Bool
wallet_by_id id r = str_eq r.id id

-- `sleep(Duration::from_secs(n))`
abbrev pub sleep : ℕ → M (Unit {0})
sleep n w = ok tt (record w { slept = w.slept + n })

-- `Err(e) => log`: an error is logged and passed over.
abbrev pub ignoring : M (Unit {0}) → M (Unit {0})
ignoring m w = ok tt (world_of (m w))

abbrev pub rolled_back : {A : Type 0} → Db → Outcome A → Outcome A
rolled_back db (ok a w) = ok a w
rolled_back db (err e w) = err e (record w { db = db })

module _ (env : Env) where
  -- The answer of the database at this tick; `wrap` is the caller's `map_err`.
  unfoldable pub call : (String → AppError) → M (Unit {0})
  call wrap w = elim (env.fault w.tick) [
    | none ↦ ok tt (advance w)
    | some e ↦ err (wrap e) (advance w)
  ]

  abbrev pub clock : M ℕ
  clock w = ok (env.now w.tick) w

  abbrev pub fresh_id : M String
  fresh_id w = ok (env.uuid w.tick) w

  unfoldable pub find_withdrawal : (String → AppError) → String → M (Option Withdrawal)
  find_withdrawal wrap id = call wrap >>= λ _ w. ok (find_first (by_id id) w.db.withdrawals) w

  unfoldable pub find_balance : (String → AppError) → String → M (Option Balance)
  find_balance wrap wallet_id =
      call wrap >>= λ _ w. ok (find_first (by_wallet wallet_id) w.db.balances) w

  unfoldable pub find_wallet : (String → AppError) → String → M (Option Wallet)
  find_wallet wrap id = call wrap >>= λ _ w. ok (find_first (wallet_by_id id) w.db.wallets) w

  unfoldable pub find_merchant : (String → AppError) → String → M (Option Merchant)
  find_merchant wrap id = call wrap >>= λ _ w. ok (find_first (merchant_by_id id) w.db.merchants) w

  -- `find().filter(p).one()` and `.all()` on the tables that are searched by several columns.
  unfoldable pub find_wallet_where : (String → AppError) → (Wallet → Bool) → M (Option Wallet)
  find_wallet_where wrap p = call wrap >>= λ _ w. ok (find_first p w.db.wallets) w

  unfoldable pub list_payments : (String → AppError) → (Payment → Bool) → M (List Payment)
  list_payments wrap p = call wrap >>= λ _ w. ok (filter_rows p w.db.payments) w

  unfoldable pub list_withdrawals : (String → AppError) → (Withdrawal → Bool) → M (List Withdrawal)
  list_withdrawals wrap p = call wrap >>= λ _ w. ok (filter_rows p w.db.withdrawals) w

  unfoldable pub find_payment : (String → AppError) → String → M (Option Payment)
  find_payment wrap id = call wrap >>= λ _ w. ok (find_first (payment_by_id id) w.db.payments) w

  unfoldable pub insert_wallet : (String → AppError) → Wallet → M Wallet
  insert_wallet wrap row = call wrap >>= λ _ w.
      ok row (record w { db = record w.db { wallets = w.db.wallets ++ row ∷ [] } })

  unfoldable pub insert_balance : (String → AppError) → Balance → M (Unit {0})
  insert_balance wrap row = call wrap >>= λ _ w.
      ok tt (record w { db = record w.db { balances = w.db.balances ++ row ∷ [] } })

  -- `ActiveModel::update`: the columns that were `Set` change in the row with this primary key.
  unfoldable pub update_withdrawal :
      (String → AppError) → String → (Withdrawal → Withdrawal) → M Withdrawal
  update_withdrawal wrap id patch = call wrap >>= λ _ w.
      elim (find_first (by_id id) w.db.withdrawals) [
        | none ↦ err (wrap none_updated) w
        | some r ↦ ok (patch r) (record w {
          db = record w.db { withdrawals = modify_where (by_id id) patch w.db.withdrawals };
        })
      ]

  unfoldable pub update_payment : (String → AppError) → String → (Payment → Payment) → M Payment
  update_payment wrap id patch = call wrap >>= λ _ w.
      elim (find_first (payment_by_id id) w.db.payments) [
        | none ↦ err (wrap none_updated) w
        | some r ↦ ok (patch r) (record w {
          db = record w.db { payments = modify_where (payment_by_id id) patch w.db.payments };
        })
      ]

  unfoldable pub update_balance : (String → AppError) → String → (Balance → Balance) → M (Unit {0})
  update_balance wrap id patch = call wrap >>= λ _ w.
      elim (find_first (by_balance_id id) w.db.balances) [
        | none ↦ err (wrap none_updated) w
        | some _ ↦ ok tt (record w {
          db = record w.db { balances = modify_where (by_balance_id id) patch w.db.balances };
        })
      ]

  unfoldable pub insert_transaction : (String → AppError) → WalletTransaction → M (Unit {0})
  insert_transaction wrap row = call wrap >>= λ _ w.
      ok tt (record w { db = record w.db { transactions = w.db.transactions ++ row ∷ [] } })

  unfoldable pub insert_withdrawal : (String → AppError) → Withdrawal → M Withdrawal
  insert_withdrawal wrap row = call wrap >>= λ _ w.
      ok row (record w { db = record w.db { withdrawals = w.db.withdrawals ++ row ∷ [] } })

  -- `begin`, the calls on the transaction, `commit`: an error on the way undoes the tables.
  unfoldable pub transaction : {A : Type 0} → (String → AppError) → M A → M A
  transaction wrap body w = rolled_back w.db ((do call wrap; a ← body; call wrap; pure a) w)
