-- ===== src/Processor/Solana.antt =====
-- Withdrawals on "sol": what a run writes down of the transfer that the Solana service made.
use text.Mathlib.TextPositions.{eq_refl}
use zabypay_core.Prelude.{
  ◌++◌, ◌∷◌, [], ℕ, suc, String, none, some, ◌≡◌, refl, ap, arith, ◌<◌, str_eq, eq_iff,
}
use zabypay_core.Prelude.Table.{find_first, modify_where, find_first-modify_where, find_first_holds}
use zabypay_core.Errors.{database_error, validation_error, display}
use zabypay_core.Entities.{Withdrawal, Wallet, WalletTransaction, Balance}
use zabypay_core.Store.{
  Env, World, Transfer, hashed, ok, err, advance, by_id, call, find_withdrawal, find_wallet,
  find_balance, update_withdrawal, transaction,
}
use zabypay_core.Store.Laws.{FailsAt, IsQuiet, set_withdrawals}
use zabypay_core.Processor.Submit.{
  processing_row, failed_row, solana_environment, send_on_network, broadcast,
  execute_solana_withdrawal, record_withdrawal, submit, process_withdrawal_internal, or_mark_failed,
  process_withdrawal, mark_withdrawal_failed, request_row,
}
use zabypay_core.Processor.Watch.{monitor_blockchain_confirmation}
use zabypay_core.Processor.Books.{
  IsReady, after_processing, after_record, submit_to_network, record_withdrawal_lem, funded_wallet,
}

-- The transfer that is handed to the service for `w`.
abbrev pub transfer_of : Withdrawal → Wallet → Transfer
transfer_of w wallet = record {
  wallet_id = wallet.id;
  to_address = w.to_address;
  amount = w.amount;
  environment = solana_environment w.environment;
}

abbrev after_transfer : Withdrawal → Wallet → World → World
after_transfer w wallet s = record s {
  tick = suc s.tick;
  transfers = s.transfers ++ transfer_of w wallet ∷ [];
}

module _ (env : Env) (w : Withdrawal) (wallet : Wallet) (s : World) (hash : String) where
  send_solana :
      w.network ≡ "sol"
      → env.send s.tick ≡ hashed hash
      → send_on_network env w wallet s ≡ ok hash (after_transfer w wallet s)
  unfolding send_on_network execute_solana_withdrawal broadcast
  send_solana network answer =
      let is : (x : String) → str_eq w.network x ≡ str_eq "sol" x =
        λ x. ap (λ n. str_eq n x) network in
      ground
        (arith, answer, is "eth", is "usdt_erc20", is "bnb", is "usdt_bep20", is "btc", is "sol")

-- The transfer of `w` goes out, the run reports its hash and adds one record with it, but the row is
-- still in processing without a hash, and the confirmation that the run spawned fails.
abbrev pub LosesHash : Env → String → Withdrawal → Wallet → String → World → Type 0
LosesHash env id w wallet hash s =
    (t : World) × (process_withdrawal env id s ≡ ok hash t)
    × (t.transfers ≡ s.transfers ++ transfer_of w wallet ∷ [])
    × (t.spawned ≡ s.spawned ++ id ∷ [])
    × ((x : WalletTransaction) × (t.db.transactions ≡ s.db.transactions ++ x ∷ [])
        × (x.related_entity_id ≡ some id)
        × (x.tx_hash ≡ some hash))
    × ((r : Withdrawal) × (find_first (by_id id) t.db.withdrawals ≡ some r)
        × (r.status ≡ "processing")
        × (r.tx_hash ≡ none))
    × (monitor_blockchain_confirmation env id t
        ≡ err (validation_error "No transaction hash found") (advance t))

module _ (env : Env) (quiet : IsQuiet env) (id : String) (s : World) (r : Withdrawal)
    (listed : find_first (by_id id) s.db.withdrawals ≡ some r) where
  no_hash :
      r.tx_hash ≡ none
      → monitor_blockchain_confirmation env id s
        ≡ err (validation_error "No transaction hash found") (advance s)
  unfolding monitor_blockchain_confirmation find_withdrawal call
  no_hash missing = ground (arith, quiet s.tick)

-- When the database answers and the Solana service makes the transfer: a run for a ready
-- withdrawal on "sol" without a transaction hash succeeds with the transfer's hash and adds one
-- transaction record, which is of this withdrawal and has the hash; but the withdrawal's row stays
-- in processing without a hash, and the confirmation that the run spawned is refused for the want
-- of it.
pub process_solana-LosesHash :
    (env : Env) (quiet : IsQuiet env) (id : String) (w : Withdrawal) (wallet : Wallet) (b : Balance)
    (hash : String) (s : World)
    → IsReady id w wallet b s
    → w.network ≡ "sol"
    → w.tx_hash ≡ none
    → env.send (after_processing env w s).tick ≡ hashed hash
    → LosesHash env id w wallet hash s
process_solana-LosesHash env quiet id w wallet b hash s ready network missing answer =
    let p : World = after_processing env w s in
    let t : World = after_transfer w wallet p in
    let u : World = after_record env w wallet hash b t in
    let v : World = record u { tick = suc u.tick; spawned = u.spawned ++ id ∷ [] } in
    let row = processing_row (env.now (suc (suc (suc s.tick)))) in
    let record_of : WalletTransaction =
      request_row (env.uuid (suc (suc t.tick))) (env.now (suc (suc t.tick))) w wallet b hash in
    let same : w.id ≡ id =
      (eq_iff w.id id).0 (find_first_holds (by_id id) s.db.withdrawals w ready.listed) in
    let listed : find_first (by_id id) v.db.withdrawals ≡ some (row w) =
      find_first-modify_where (by_id id) (by_id w.id) row (λ x. refl) s.db.withdrawals w
        ready.listed (eq_refl w.id) in
    (
      v,
      submit_to_network env quiet id w wallet b s ready hash t u
          (send_solana env w wallet p hash network answer)
          (record_withdrawal_lem env quiet w wallet b hash t
            (funded_wallet env quiet id w wallet b s ready)),
      refl,
      refl,
      (record_of, refl, ap some same, refl),
      (row w, listed, refl, missing),
      no_hash env quiet id v (row w) listed missing,
    )

-- The run fails and the tables are as before but that the row is failed; the transfer is out.
abbrev pub ForgetsTransfer : Env → String → Withdrawal → Wallet → String → World → Type 0
ForgetsTransfer env id w wallet reason s =
    (t : World) × (process_withdrawal env id s ≡ err (database_error reason) t)
    × (t.transfers ≡ s.transfers ++ transfer_of w wallet ∷ [])
    × (t.db.balances ≡ s.db.balances)
    × (t.db.transactions ≡ s.db.transactions)
    × ((r : Withdrawal) × (find_first (by_id id) t.db.withdrawals ≡ some r)
        × (r.status ≡ "failed")
        × (r.tx_hash ≡ w.tx_hash))

module _ (env : Env) (id : String) (w : Withdrawal) (wallet : Wallet) (b : Balance)
    (hash reason : String) (s : World) (ready : IsReady id w wallet b s)
    (fails : FailsAt env (after_transfer w wallet (after_processing env w s)).tick reason) where
  abbrev stranded : World
  stranded = record s {
    tick = suc (suc (suc (suc (suc (suc s.tick)))));
    transfers = s.transfers ++ transfer_of w wallet ∷ [];
  }

  quiet_until : (n : ℕ) → n < suc (suc (suc (suc (suc s.tick)))) → env.fault n ≡ none
  quiet_until = fails.1

  submit_stops :
      w.network ≡ "sol"
      → env.send (after_processing env w s).tick ≡ hashed hash
      → process_withdrawal_internal env id s ≡ err (database_error reason) stranded
  unfolding process_withdrawal_internal transaction submit find_withdrawal find_wallet
      update_withdrawal call record_withdrawal find_balance
  submit_stops network answer =
      let same : w.id ≡ id =
        (eq_iff w.id id).0 (find_first_holds (by_id id) s.db.withdrawals w ready.listed) in
      let self : find_first (by_id w.id) s.db.withdrawals ≡ some w =
        ground (arith, same, ready.listed) in
      ground (
        arith,
        quiet_until s.tick,
        quiet_until (suc s.tick),
        quiet_until (suc (suc s.tick)),
        quiet_until (suc (suc (suc s.tick))),
        fails.0,
        ready.listed,
        ready.pending,
        ready.owned,
        self,
        send_solana env w wallet (after_processing env w s) hash network answer,
      )

  -- When the Solana service makes the transfer for a ready withdrawal on "sol" and the database
  -- fails at the next call, and at no other: the run reports the error and undoes the tables, the
  -- withdrawal is failed with the transaction hash it had before, no balance has paid for the
  -- transfer and no record of it exists, but the transfer went out.
  pub process_solana-ForgetsTransfer :
      w.network ≡ "sol"
      → env.send (after_processing env w s).tick ≡ hashed hash
      → ForgetsTransfer env id w wallet reason s
  unfolding process_withdrawal or_mark_failed mark_withdrawal_failed find_withdrawal
      update_withdrawal call
  process_solana-ForgetsTransfer network answer =
      let row = failed_row (display (database_error reason)) (env.now (suc stranded.tick)) in
      let same : w.id ≡ id =
        (eq_iff w.id id).0 (find_first_holds (by_id id) s.db.withdrawals w ready.listed) in
      let self : find_first (by_id w.id) s.db.withdrawals ≡ some w =
        ground (arith, same, ready.listed) in
      (
        set_withdrawals (modify_where (by_id w.id) row) (advance (advance stranded)),
        ground (
          arith,
          submit_stops network answer,
          fails.2 stranded.tick,
          fails.2 (suc stranded.tick),
          ready.listed,
          self,
        ),
        refl,
        refl,
        refl,
        (
          row w,
          find_first-modify_where (by_id id) (by_id w.id) row (λ x. refl) s.db.withdrawals w
              ready.listed (eq_refl w.id),
          refl,
          refl,
        ),
      )
