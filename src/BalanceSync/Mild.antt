-- ===== src/BalanceSync/Mild.antt =====
-- The calls that change no lock, and nothing but wallets and balances.
use zabypay_core.Prelude.{
  String, none, some, List, [], ◌∷◌, ◌++◌, ◌≡◌, refl, ◌∙◌, ap, Option, inl, inr, str_eq,
}
use zabypay_core.Prelude.Table.{
  find_first, modify_where, find_first-append_kept, find_first-kept_or_changed,
}
use zabypay_core.Entities.{Balance, Wallet}
use zabypay_core.Store.{
  Env, World, ok, err, advance, world_of, by_wallet, by_balance_id, call, M, pure, none_updated,
  ◌>>=◌, ok_or, find_balance, insert_wallet, insert_balance, update_balance,
}
use zabypay_core.Errors.{AppError}
use zabypay_core.Store.Runs.{Keeps, bind-Keeps, ok_or-Keeps}

-- The wallet with a balance has one afterwards, with as much locked.
abbrev pub KeepsLocks : List Balance → List Balance → Type 0
KeepsLocks before after =
    (wallet_id : String) (b : Balance)
    → find_first (by_wallet wallet_id) before ≡ some b
    → (d : Balance) × (find_first (by_wallet wallet_id) after ≡ some d)
      × (d.locked_balance ≡ b.locked_balance)

-- From one world to a later: balances keep their locks, and the withdrawals, the transaction
-- records, the payments, the merchants, the transfers that went out, the tasks that were started or
-- put off, the events about payments and the time slept are the same.
pub record Mild (s t : World) : Type 0 where
  pub locks : KeepsLocks s.db.balances t.db.balances
  pub withdrawals : t.db.withdrawals ≡ s.db.withdrawals
  pub transactions : t.db.transactions ≡ s.db.transactions
  pub payments : t.db.payments ≡ s.db.payments
  pub merchants : t.db.merchants ≡ s.db.merchants
  pub transfers : t.transfers ≡ s.transfers
  pub spawned : t.spawned ≡ s.spawned
  pub queued : t.queued ≡ s.queued
  pub events : t.events ≡ s.events
  pub slept : t.slept ≡ s.slept

same_locks : (rows : List Balance) → KeepsLocks rows rows
same_locks rows wallet_id b h = (b, h, refl)

then_locks : (x y z : List Balance) → KeepsLocks x y → KeepsLocks y z → KeepsLocks x z
then_locks x y z f g wallet_id b h =
    let (d, found, e) = f wallet_id b h in
    let (c, again, k) = g wallet_id d found in (c, again, k ∙ e)

pub Mild-refl : (s : World) → Mild s s
Mild-refl s = record {
  locks = same_locks s.db.balances;
  withdrawals = refl;
  transactions = refl;
  payments = refl;
  merchants = refl;
  transfers = refl;
  spawned = refl;
  queued = refl;
  events = refl;
  slept = refl;
}

pub Mild-trans : (s t u : World) → Mild s t → Mild t u → Mild s u
Mild-trans s t u f g = record {
  locks = then_locks _ _ _ f.locks g.locks;
  withdrawals = g.withdrawals ∙ f.withdrawals;
  transactions = g.transactions ∙ f.transactions;
  payments = g.payments ∙ f.payments;
  merchants = g.merchants ∙ f.merchants;
  transfers = g.transfers ∙ f.transfers;
  spawned = g.spawned ∙ f.spawned;
  queued = g.queued ∙ f.queued;
  events = g.events ∙ f.events;
  slept = g.slept ∙ f.slept;
}

inserted_locks : (rows : List Balance) (x : Balance) → KeepsLocks rows (rows ++ x ∷ [])
inserted_locks rows x wallet_id b h =
    (b, find_first-append_kept (by_wallet wallet_id) rows b x h, refl)

-- An update that leaves the wallet and the lock of a row alone.
changed_locks :
    (id : String) (f : Balance → Balance)
    → ((x : Balance) → (f x).wallet_id ≡ x.wallet_id)
    → ((x : Balance) → (f x).locked_balance ≡ x.locked_balance)
    → (rows : List Balance) → KeepsLocks rows (modify_where (by_balance_id id) f rows)
changed_locks id f owner lock rows wallet_id b h =
    elim (find_first-kept_or_changed (by_wallet wallet_id) (by_balance_id id) f
      (λ x. ap (λ o. str_eq o wallet_id) (owner x)) rows b h) [
        | inl kept ↦ (b, kept, refl)
        | inr changed ↦ (f b, changed, lock b)
      ]

-- A call after which the world is as `Mild` says, whatever its result.
abbrev pub IsMild : {A : Type 0} → M A → Type 0
IsMild m = Keeps Mild m

pub bind-IsMild :
    {A B : Type 0} (m : M A) (f : A → M B) → IsMild m → ((a : A) → IsMild (f a)) → IsMild (m >>= f)
bind-IsMild m f first rest = bind-Keeps Mild Mild-refl Mild-trans m f first rest

pub pure-IsMild : {A : Type 0} (a : A) → IsMild (pure a)
pure-IsMild a s = Mild-refl s

pub ok_or-IsMild : {A : Type 0} (e : AppError) (found : Option A) → IsMild (ok_or e found)
ok_or-IsMild e found = ok_or-Keeps Mild Mild-refl Mild-trans e found

pub ticked : (s : World) → Mild s (advance s)
ticked s = record {
  locks = same_locks s.db.balances;
  withdrawals = refl;
  transactions = refl;
  payments = refl;
  merchants = refl;
  transfers = refl;
  spawned = refl;
  queued = refl;
  events = refl;
  slept = refl;
}

module _ (env : Env) where
  pub call-IsMild : (wrap : String → AppError) → IsMild (call env wrap)
  unfolding call
  call-IsMild wrap s =
      elim (env.fault s.tick)
        as (λ x.
          Mild s
            (world_of (elim x [ none ↦ ok tt (advance s) | some e ↦ err (wrap e) (advance s) ]))) [
              | none ↦ ticked s
              | some e ↦ ticked s
            ]

  pub read-IsMild :
      {A : Type 0} (wrap : String → AppError) (read : World → A)
      → IsMild (call env wrap >>= λ _ w. ok (read w) w)
  read-IsMild wrap read =
      bind-IsMild (call env wrap) (λ _ w. ok (read w) w) (call-IsMild wrap) (λ a s. Mild-refl s)

  pub find_balance-IsMild :
      (wrap : String → AppError) (id : String) → IsMild (find_balance env wrap id)
  unfolding find_balance
  find_balance-IsMild wrap id = read-IsMild wrap (λ w. find_first (by_wallet id) w.db.balances)

  pub insert_wallet-IsMild :
      (wrap : String → AppError) (row : Wallet) → IsMild (insert_wallet env wrap row)
  unfolding insert_wallet
  insert_wallet-IsMild wrap row = bind-IsMild (call env wrap) _ (call-IsMild wrap) (λ _ s. record {
    locks = same_locks s.db.balances;
    withdrawals = refl;
    transactions = refl;
    payments = refl;
    merchants = refl;
    transfers = refl;
    spawned = refl;
    queued = refl;
    events = refl;
    slept = refl;
  })

  pub insert_balance-IsMild :
      (wrap : String → AppError) (row : Balance) → IsMild (insert_balance env wrap row)
  unfolding insert_balance
  insert_balance-IsMild wrap row = bind-IsMild (call env wrap) _ (call-IsMild wrap) (λ _ s. record {
    locks = inserted_locks s.db.balances row;
    withdrawals = refl;
    transactions = refl;
    payments = refl;
    merchants = refl;
    transfers = refl;
    spawned = refl;
    queued = refl;
    events = refl;
    slept = refl;
  })

  pub update_balance-IsMild :
      (wrap : String → AppError) (id : String) (f : Balance → Balance)
      → ((x : Balance) → (f x).wallet_id ≡ x.wallet_id)
      → ((x : Balance) → (f x).locked_balance ≡ x.locked_balance)
      → IsMild (update_balance env wrap id f)
  unfolding update_balance
  update_balance-IsMild wrap id f owner lock =
      bind-IsMild (call env wrap) _ (call-IsMild wrap) (λ _ s.
        elim (find_first (by_balance_id id) s.db.balances)
          as (λ x. Mild s (
            world_of (elim x [
              | none ↦ err (wrap none_updated) s
              | some _ ↦ ok tt (record s {
                db = record s.db { balances = modify_where (by_balance_id id) f s.db.balances };
              })
            ]))) [
              | none ↦ Mild-refl s
              | some r ↦ record {
                locks = changed_locks id f owner lock s.db.balances;
                withdrawals = refl;
                transactions = refl;
                payments = refl;
                merchants = refl;
                transfers = refl;
                spawned = refl;
                queued = refl;
                events = refl;
                slept = refl;
              }
            ])
