-- ===== src/MultiWallet/Execute.antt =====
-- A withdrawal from several wallets takes nothing from what they have available.
use zabypay_core.Prelude.{
  ℕ, suc, ℤ, pos, String, Option, none, some, List, [], ◌∷◌, ◌++◌, ◌+ℤ◌, ◌-ℤ◌, ◌<>◌, arith, ◌⊎◌,
  inl, inr, Bool-cases,
}
use zabypay_core.Errors.{AppError, database_error, not_found, validation_error, display}
use zabypay_core.Entities.{Withdrawal, Wallet}
use zabypay_core.Store.{
  Env, World, Outcome, ok, err, M, pure, throw, ◌>>=◌, ok_or, clock, fresh_id, call, world_of,
  find_merchant, find_wallet, insert_withdrawal, update_withdrawal,
}
use zabypay_core.Processor.Submit.{process_withdrawal}
use zabypay_core.MultiWallet.Spares.{
  Spares, IsSparing, same-Spares, refl-Spares, trans-Spares, bind-IsSparing, ok_or-IsSparing,
  find_wallet-IsSparing, update_withdrawal-IsSparing,
}
use zabypay_core.MultiWallet.Process.{process-IsSparing}
use zabypay_core.MultiWallet.{
  WalletSelection, Preview, MultiWalletWithdrawalRequest, Sources, WithdrawalTransaction, Response,
  existing, executed, parse_or_zero, unlocked_row, failed_part, failed_single_row, final_row,
  finish_single, execute_single_wallet_withdrawal, execute_each, complete, preview, execute_plan,
  execute_selection, check_idempotency, execute_new, execute_multi_wallet_withdrawal,
}

module _ (env : Env) (sources : Sources) where
  insert-IsSparing :
      (wrap : String → AppError) (row : Withdrawal) → IsSparing (insert_withdrawal env wrap row)
  unfolding insert_withdrawal call
  insert-IsSparing wrap row s =
      same-Spares s (world_of (insert_withdrawal env wrap row s)) (ground arith)

  finish_lem :
      (selection : WalletSelection) (net_amount : ℤ) (id : String) (s : World) (o : Outcome String)
      → Spares s (world_of o)
      → Spares s (world_of (finish_single env sources selection net_amount id o))
  unfolding finish_single
  finish_lem selection net_amount id s (ok hash t) h = h
  finish_lem selection net_amount id s (err e t) h =
      let row = failed_single_row (display e) (env.now t.tick) in
      trans-Spares s t (world_of (update_withdrawal env database_error id row t)) h
        (update_withdrawal-IsSparing env database_error id row t)

  single-IsSparing :
      (selection : WalletSelection) (to_address master_id : String)
      → IsSparing (execute_single_wallet_withdrawal env sources selection to_address master_id)
  unfolding execute_single_wallet_withdrawal
  single-IsSparing selection to_address master_id =
      let found = find_wallet env database_error selection.wallet_id in
      let missing = not_found "Wallet not found" in
      let key = master_id <> "_" <> selection.wallet_id in
      let run : String → ℤ → M WithdrawalTransaction = λ id net_amount s.
        finish_single env sources selection net_amount id (process_withdrawal env id s) in
      let create : Wallet → String → ℤ → ℤ → M WithdrawalTransaction = λ wallet id amount fee.
        clock env >>= λ now.
        insert_withdrawal env (λ e. database_error ("Failed to create withdrawal: " <> e))
          (unlocked_row id now "auto" wallet.id key key selection.network selection.currency
            to_address amount fee (amount -ℤ fee) "pending")
        >>= λ _. run id (amount -ℤ fee) in
      let fees : Wallet → String → ℤ → M WithdrawalTransaction = λ wallet id amount.
        ok_or (validation_error "Invalid fee") (sources.parse selection.estimated_fee)
        >>= create wallet id amount in
      let amounts : Wallet → String → M WithdrawalTransaction = λ wallet id.
        ok_or (validation_error "Invalid amount") (sources.parse selection.amount_crypto)
        >>= fees wallet id in
      bind-IsSparing found (λ x. ok_or missing x >>= λ wallet. fresh_id env >>= amounts wallet)
        (find_wallet-IsSparing env database_error selection.wallet_id)
        (λ x.
          bind-IsSparing (ok_or missing x) (λ wallet. fresh_id env >>= amounts wallet)
            (ok_or-IsSparing missing x)
            (λ wallet s.
              bind-IsSparing
                (ok_or (validation_error "Invalid amount") (sources.parse selection.amount_crypto))
                (fees wallet (env.uuid s.tick))
                (ok_or-IsSparing _ (sources.parse selection.amount_crypto))
                (λ amount.
                  bind-IsSparing
                    (ok_or (validation_error "Invalid fee") (sources.parse selection.estimated_fee))
                    (create wallet (env.uuid s.tick) amount)
                    (ok_or-IsSparing _ (sources.parse selection.estimated_fee))
                    (λ fee t.
                      let row =
                        unlocked_row (env.uuid s.tick) (env.now t.tick) "auto" wallet.id key key
                          selection.network selection.currency to_address amount fee (amount -ℤ fee)
                          "pending" in
                      let wrap : String → AppError =
                        λ e. database_error ("Failed to create withdrawal: " <> e) in
                      bind-IsSparing (insert_withdrawal env wrap row)
                        (λ _. run (env.uuid s.tick) (amount -ℤ fee)) (insert-IsSparing wrap row)
                        (λ _ u.
                          finish_lem selection (amount -ℤ fee) (env.uuid s.tick) u
                            (process_withdrawal env (env.uuid s.tick) u)
                            (process-IsSparing env (env.uuid s.tick) u))
                        t))
                s))

  -- The loop after one wallet.
  each_lem :
      (to_address master_id : String) (ok_count failed : ℕ) (dollars : ℤ)
      (parts : List WithdrawalTransaction) (w : WalletSelection) (rest : List WalletSelection)
      (s : World) (o : Outcome WithdrawalTransaction)
      → Spares s (world_of o)
      → ((n m : ℕ) (d : ℤ) (p : List WithdrawalTransaction)
          → IsSparing (execute_each env sources to_address master_id n m d p rest))
      → Spares s (
          world_of (elim o [
            | ok tx t ↦
                execute_each env sources to_address master_id
                  (suc ok_count)
                  failed
                  (dollars +ℤ parse_or_zero sources tx.usd_equivalent)
                  (parts ++ tx ∷ [])
                  rest
                  t
            | err e t ↦
                execute_each env sources to_address master_id ok_count
                  (suc failed)
                  dollars
                  (parts ++ failed_part w ∷ [])
                  rest
                  t
          ]))
  each_lem to_address master_id ok_count failed dollars parts w rest s (ok tx t) h again =
      trans-Spares s t _ h (
        again (suc ok_count) failed (dollars +ℤ parse_or_zero sources tx.usd_equivalent)
          (parts ++ tx ∷ []) t)
  each_lem to_address master_id ok_count failed dollars parts w rest s (err e t) h again =
      trans-Spares s t _ h (again ok_count (suc failed) dollars (parts ++ failed_part w ∷ []) t)

  each-IsSparing :
      (to_address master_id : String) (ok_count failed : ℕ) (dollars : ℤ)
      (parts : List WithdrawalTransaction) (ws : List WalletSelection)
      → IsSparing (execute_each env sources to_address master_id ok_count failed dollars parts ws)
  unfolding execute_each
  each-IsSparing to_address master_id ok_count failed dollars parts [] s = refl-Spares s
  each-IsSparing to_address master_id ok_count failed dollars parts (w ∷ rest) s =
      each_lem to_address master_id ok_count failed dollars parts w rest s
        (execute_single_wallet_withdrawal env sources w to_address master_id s)
        (single-IsSparing w to_address master_id s)
        (λ n m d p. each-IsSparing to_address master_id n m d p rest)

  complete-IsSparing : (id : String) (r : Response) → IsSparing (complete env sources id r)
  unfolding complete
  complete-IsSparing id (existing w) s = refl-Spares s
  complete-IsSparing id (executed status n m d p) s =
      let wrap : String → AppError =
        λ e. database_error ("Failed to update master withdrawal: " <> e) in
      bind-IsSparing (update_withdrawal env wrap id (final_row status (env.now s.tick)))
        (λ _. pure (executed status n m d p))
        (update_withdrawal-IsSparing env wrap id (final_row status (env.now s.tick)))
        (λ _ t. refl-Spares t) s

  plan-IsSparing :
      (merchant_id : String) (request : MultiWalletWithdrawalRequest) (p : Preview)
      (primary : WalletSelection)
      → IsSparing (execute_plan env sources merchant_id request p primary)
  unfolding execute_plan
  plan-IsSparing merchant_id request p primary s =
      let id = env.uuid s.tick in
      let wrap : String → AppError =
        λ e. database_error ("Failed to create master withdrawal: " <> e) in
      let row =
        unlocked_row id (env.now s.tick) merchant_id primary.wallet_id
          (elim request.external_id [ none ↦ id | some external ↦ external ])
          request.idempotency_key request.environment "multi" request.to_address
          (parse_or_zero sources request.amount) (parse_or_zero sources p.estimated_total_fees_usd)
          (parse_or_zero sources p.net_amount_usd) "processing" in
      let loop =
        execute_each env sources request.to_address id 0 0 (pos 0) [] p.wallet_selections in
      bind-IsSparing (insert_withdrawal env wrap row) (λ _. loop >>= complete env sources id)
        (insert-IsSparing wrap row)
        (λ _.
          bind-IsSparing loop (complete env sources id)
            (each-IsSparing request.to_address id 0 0 (pos 0) [] p.wallet_selections)
            (complete-IsSparing id))
        s

  selection_lem :
      (merchant_id : String) (request : MultiWalletWithdrawalRequest) (p : Preview)
      (ws : List WalletSelection)
      → IsSparing (elim ws as (λ x. M Response) [
        | [] ↦ throw (validation_error "No wallets selected for withdrawal")
        | primary ∷ rest ↦ execute_plan env sources merchant_id request p primary
      ])
  selection_lem merchant_id request p [] s = refl-Spares s
  selection_lem merchant_id request p (w ∷ ws) s = plan-IsSparing merchant_id request p w s

  selection-IsSparing :
      (merchant_id : String) (request : MultiWalletWithdrawalRequest) (p : Preview)
      → IsSparing (execute_selection env sources merchant_id request p)
  unfolding execute_selection
  selection-IsSparing merchant_id request p = elim (Bool-cases p.can_fulfill) [
    | inl e ↦ rw e (selection_lem merchant_id request p p.wallet_selections)
    | inr e ↦ rw e (λ s. refl-Spares s)
  ]

  preview_lem :
      (s : World) (x : AppError ⊎ Preview)
      → Spares s (world_of (elim x as (λ y. Outcome Preview) [ inl e ↦ err e s | inr p ↦ ok p s ]))
  preview_lem s (inl e) = refl-Spares s
  preview_lem s (inr p) = refl-Spares s

  new-IsSparing :
      (merchant_id : String) (request : MultiWalletWithdrawalRequest) (held : Option Withdrawal)
      → IsSparing (execute_new env sources merchant_id request held)
  unfolding execute_new preview find_merchant call
  new-IsSparing merchant_id request (some w) s = refl-Spares s
  new-IsSparing merchant_id request none s =
      let found = find_merchant env database_error merchant_id in
      let missing = not_found "Merchant not found" in
      let last = execute_selection env sources merchant_id request in
      bind-IsSparing found (λ x. ok_or missing x >>= λ _. preview env sources >>= last)
        (λ t. same-Spares t (world_of (found t)) (ground arith))
        (λ x.
          bind-IsSparing (ok_or missing x) (λ _. preview env sources >>= last)
            (ok_or-IsSparing missing x)
            (λ _.
              bind-IsSparing (preview env sources) last
                (λ t. preview_lem t (sources.preview_withdrawal t))
                (selection-IsSparing merchant_id request)))
        s

  -- Whatever the database and the Solana service answer, and however many wallets fail: a
  -- withdrawal from several wallets changes no available, locked or total balance of any wallet,
  -- so that what it sends out can be withdrawn again.
  pub execute-Spares :
      (merchant_id : String) (request : MultiWalletWithdrawalRequest) (s : World)
      → Spares s (world_of (execute_multi_wallet_withdrawal env sources merchant_id request s))
  unfolding execute_multi_wallet_withdrawal check_idempotency call
  execute-Spares merchant_id request s =
      let held = check_idempotency env sources merchant_id request.idempotency_key in
      bind-IsSparing held (execute_new env sources merchant_id request)
        (λ t. same-Spares t (world_of (held t)) (ground arith)) (new-IsSparing merchant_id request)
        s
