-- ===== src/MultiWallet/Spares.antt =====
-- What a run of the processor spares: the available, the locked and the total balances.
use zabypay_core.Prelude.{ℕ, ℤ, String, Option, none, some, ◌≡◌, refl, ◌∙◌, ap, arith, inl, inr}
use zabypay_core.Prelude.Table.{find_first, modify_where, find_first-kept_or_changed}
use zabypay_core.Errors.{AppError, database_error}
use zabypay_core.Entities.{Withdrawal, Balance, Wallet, WalletTransaction}
use zabypay_core.Store.{
  Env, World, Outcome, ok, err, M, ◌>>=◌, ok_or, world_of, rolled_back, none_updated, by_wallet,
  by_balance_id, call, find_withdrawal, find_balance, find_wallet, update_withdrawal,
  update_balance, insert_transaction,
}
use zabypay_core.Store.Runs.{Keeps, bind-Keeps, ok_or-Keeps}
use zabypay_core.Processor.Submit.{
  pending_row, mark_withdrawal_failed, execute_solana_withdrawal, broadcast, send_on_network,
}

-- A wallet with a balance has one afterwards, with the same available, locked and total parts.
pub record Spares (s t : World) : Type 0 where
  pub kept :
      (wallet_id : String) (b : Balance)
      → find_first (by_wallet wallet_id) s.db.balances ≡ some b
      → (d : Balance) × (find_first (by_wallet wallet_id) t.db.balances ≡ some d)
        × (d.available_balance ≡ b.available_balance)
        × (d.locked_balance ≡ b.locked_balance)
        × (d.total_balance ≡ b.total_balance)

pub same-Spares : (s t : World) → t.db.balances ≡ s.db.balances → Spares s t
same-Spares s t e = record {
  kept = λ wallet_id b h. (b, ap (find_first (by_wallet wallet_id)) e ∙ h, refl, refl, refl);
}

pub refl-Spares : (s : World) → Spares s s
refl-Spares s = same-Spares s s refl

pub trans-Spares : (s t u : World) → Spares s t → Spares t u → Spares s u
trans-Spares s t u f g = record {
  kept = λ wallet_id b h.
      let (d, found, da, dl, dt) = f.kept wallet_id b h in
      let (c, again, ca, cl, ct) = g.kept wallet_id d found in
      (c, again, ca ∙ da, cl ∙ dl, ct ∙ dt);
}

abbrev pub IsSparing : {A : Type 0} → M A → Type 0
IsSparing m = Keeps Spares m

pub bind-IsSparing :
    {A B : Type 0} (m : M A) (f : A → M B)
    → IsSparing m
    → ((a : A) → IsSparing (f a))
    → IsSparing (m >>= f)
bind-IsSparing m f first rest = bind-Keeps Spares refl-Spares trans-Spares m f first rest

pub ok_or-IsSparing : {A : Type 0} (e : AppError) (x : Option A) → IsSparing (ok_or e x)
ok_or-IsSparing e x = ok_or-Keeps Spares refl-Spares trans-Spares e x

pub rolled_back_lem :
    {A : Type 0} (s : World) (o : Outcome A)
    → Spares s (world_of o)
    → Spares s (world_of (rolled_back s.db o))
rolled_back_lem s (ok a t) h = h
rolled_back_lem s (err e t) h = same-Spares s (record t { db = s.db }) refl

module _ (env : Env) where
  pub call-IsSparing : (wrap : String → AppError) → IsSparing (call env wrap)
  unfolding call
  call-IsSparing wrap s = same-Spares s (world_of (call env wrap s)) (ground arith)

  pub find_withdrawal-IsSparing :
      (wrap : String → AppError) (id : String) → IsSparing (find_withdrawal env wrap id)
  unfolding find_withdrawal call
  find_withdrawal-IsSparing wrap id s =
      same-Spares s (world_of (find_withdrawal env wrap id s)) (ground arith)

  pub find_wallet-IsSparing :
      (wrap : String → AppError) (id : String) → IsSparing (find_wallet env wrap id)
  unfolding find_wallet call
  find_wallet-IsSparing wrap id s =
      same-Spares s (world_of (find_wallet env wrap id s)) (ground arith)

  pub find_balance-IsSparing :
      (wrap : String → AppError) (id : String) → IsSparing (find_balance env wrap id)
  unfolding find_balance call
  find_balance-IsSparing wrap id s =
      same-Spares s (world_of (find_balance env wrap id s)) (ground arith)

  pub update_withdrawal-IsSparing :
      (wrap : String → AppError) (id : String) (f : Withdrawal → Withdrawal)
      → IsSparing (update_withdrawal env wrap id f)
  unfolding update_withdrawal call
  update_withdrawal-IsSparing wrap id f s =
      same-Spares s (world_of (update_withdrawal env wrap id f s)) (ground arith)

  pub insert_transaction-IsSparing :
      (wrap : String → AppError) (row : WalletTransaction)
      → IsSparing (insert_transaction env wrap row)
  unfolding insert_transaction call
  insert_transaction-IsSparing wrap row s =
      same-Spares s (world_of (insert_transaction env wrap row s)) (ground arith)

  pub send-IsSparing : (w : Withdrawal) (wallet : Wallet) → IsSparing (send_on_network env w wallet)
  unfolding send_on_network broadcast execute_solana_withdrawal update_withdrawal call
  send-IsSparing w wallet s =
      same-Spares s (world_of (send_on_network env w wallet s)) (ground arith)

  pub mark-IsSparing : (id reason : String) → IsSparing (mark_withdrawal_failed env id reason)
  unfolding mark_withdrawal_failed find_withdrawal update_withdrawal call
  mark-IsSparing id reason s =
      same-Spares s (world_of (mark_withdrawal_failed env id reason s)) (ground arith)

  -- The update of the pending part alone.
  pending_lem :
      (id : String) (total : ℤ) (read : Balance) (now : ℕ) (s : World)
      → Spares s (record s {
        db = record s.db {
          balances = modify_where (by_balance_id id) (pending_row total read now) s.db.balances;
        };
      })
  pending_lem id total read now s = record {
    kept = λ wallet_id b h.
        elim (find_first-kept_or_changed (by_wallet wallet_id) (by_balance_id id)
          (pending_row total read now) (λ x. refl) s.db.balances b h) [
            | inl same ↦ (b, same, refl, refl, refl)
            | inr changed ↦ (pending_row total read now b, changed, refl, refl, refl)
          ];
  }

  pub update_pending-IsSparing :
      (id : String) (total : ℤ) (read : Balance) (now : ℕ)
      → IsSparing (update_balance env database_error id (pending_row total read now))
  unfolding update_balance
  update_pending-IsSparing id total read now =
      bind-IsSparing (call env database_error) _ (call-IsSparing database_error) (λ _ s.
        elim (find_first (by_balance_id id) s.db.balances)
          as (λ x. Spares s (
            world_of (elim x [
              | none ↦ err (database_error none_updated) s
              | some r ↦ ok tt (record s {
                db = record s.db {
                  balances =
                      modify_where (by_balance_id id) (pending_row total read now) s.db.balances;
                };
              })
            ]))) [ none ↦ refl-Spares s | some r ↦ pending_lem id total read now s ])
