-- ===== src/Processor/Books.antt =====
-- The balances over a whole withdrawal: locked at its creation, submitted, and closed.
use text.Mathlib.TextPositions.{eq_refl}
use zabypay_core.Prelude.{
  ◌++◌, ◌∷◌, [], suc, String, Bool, true, false, some, ◌≡◌, refl, arith, ◌-ℤ◌, str_eq, eq_iff, ◌||◌,
  ◌<>◌, if◌then◌else◌,
}
use zabypay_core.Prelude.Table.{
  find_first, modify_where, find_first-modify_where, find_first_holds, find_first-some,
}
use zabypay_core.Entities.{Withdrawal, Wallet, Balance, total_of}
use zabypay_core.Store.{
  Env, World, ok, advance, by_id, by_wallet, by_balance_id, wallet_by_id, call, find_withdrawal,
  find_wallet, find_balance, update_balance, update_withdrawal, insert_transaction, transaction,
}
use zabypay_core.Store.Laws.{IsQuiet, set_withdrawals, set_balances, add_transaction}
use zabypay_core.Processor.Submit.{
  broadcast_row, processing_row, pending_row, request_row, is_processed, send_on_network, broadcast,
  record_withdrawal, submit, process_withdrawal_internal, process_withdrawal, or_mark_failed,
}

-- The networks whose transactions are simulated.
abbrev pub is_simulated : String → Bool
is_simulated network =
    str_eq network "eth"
    || str_eq network "usdt_erc20"
    || str_eq network "bnb"
    || str_eq network "usdt_bep20"
    || str_eq network "btc"

-- The world after the balance and the transaction record were written.
abbrev pub after_record : Env → Withdrawal → Wallet → String → Balance → World → World
after_record env w wallet hash b s =
    add_transaction
      (request_row (env.uuid (suc (suc s.tick))) (env.now (suc (suc s.tick))) w wallet b hash)
      (set_balances
        (modify_where (by_balance_id b.id) (pending_row (total_of w) b (env.now (suc s.tick))))
        (advance (advance (advance s))))

module _ (env : Env) (quiet : IsQuiet env) (w : Withdrawal) (wallet : Wallet) (b : Balance) where
  pub record_withdrawal_lem :
      (hash : String) (s : World)
      → find_first (by_wallet wallet.id) s.db.balances ≡ some b
      → record_withdrawal env w wallet hash s ≡ ok tt (after_record env w wallet hash b s)
  unfolding record_withdrawal find_balance update_balance insert_transaction call
  record_withdrawal_lem hash s found =
      let there =
        find_first-some (by_wallet wallet.id) (by_balance_id b.id) s.db.balances b found
          (eq_refl b.id) in
      ground (arith, there, quiet s.tick, quiet (suc s.tick), quiet (suc (suc s.tick)))

-- The hash that a simulated branch makes up.
abbrev made_up_hash : Env → String → World → String
made_up_hash env network s =
    if str_eq network "eth"
      || str_eq network "usdt_erc20"
      || str_eq network "bnb"
      || str_eq network "usdt_bep20"
    then "0x" <> env.uuid_hex s.tick
    else env.uuid_hex s.tick

abbrev after_broadcast : Env → Withdrawal → World → World
after_broadcast env w s =
    set_withdrawals
      (modify_where (by_id w.id) (broadcast_row (made_up_hash env w.network s) (env.now s.tick)))
      (advance s)

module _ (env : Env) (quiet : IsQuiet env) (w : Withdrawal) (wallet : Wallet) where
  send_simulated :
      (s : World) (r : Withdrawal)
      → is_simulated w.network ≡ true
      → find_first (by_id w.id) s.db.withdrawals ≡ some r
      → send_on_network env w wallet s ≡ ok (made_up_hash env w.network s) (after_broadcast env w s)
  unfolding send_on_network broadcast update_withdrawal call
  send_simulated s r simulated listed = ground (arith, quiet s.tick)

-- What the database holds before a withdrawal is processed.
pub record IsReady (id : String) (w : Withdrawal) (wallet : Wallet) (b : Balance) (s : World)
    : Type 0 where
  pub listed : find_first (by_id id) s.db.withdrawals ≡ some w
  pub pending : is_processed w ≡ false
  pub owned : find_first (wallet_by_id w.wallet_id) s.db.wallets ≡ some wallet
  pub funded : find_first (by_wallet w.wallet_id) s.db.balances ≡ some b

-- The world after `begin` and the update to "processing".
abbrev pub after_processing : Env → Withdrawal → World → World
after_processing env w s =
    set_withdrawals (modify_where (by_id w.id) (processing_row (env.now (suc (suc (suc s.tick))))))
      (record s { tick = suc (suc (suc (suc s.tick))) })

module _ (env : Env) (quiet : IsQuiet env) (id : String) (w : Withdrawal) (wallet : Wallet)
    (b : Balance) (s : World) (ready : IsReady id w wallet b s) where
  pub same_id : w.id ≡ id
  same_id = (eq_iff w.id id).0 (find_first_holds (by_id id) s.db.withdrawals w ready.listed)

  pub listed_self : find_first (by_id w.id) s.db.withdrawals ≡ some w
  listed_self = ground (arith, same_id, ready.listed)

  same_wallet : wallet.id ≡ w.wallet_id
  same_wallet =
      (eq_iff wallet.id w.wallet_id).0
        (find_first_holds (wallet_by_id w.wallet_id) s.db.wallets wallet ready.owned)

  pub funded_wallet : find_first (by_wallet wallet.id) s.db.balances ≡ some b
  funded_wallet = ground (arith, same_wallet, ready.funded)

  -- The run up to the call of the network.
  pub submit_to_network :
      (hash : String) (t u : World)
      → send_on_network env w wallet (after_processing env w s) ≡ ok hash t
      → record_withdrawal env w wallet hash t ≡ ok tt u
      → process_withdrawal env id s
        ≡ ok hash (record u { tick = suc u.tick; spawned = u.spawned ++ id ∷ [] })
  unfolding process_withdrawal or_mark_failed process_withdrawal_internal transaction submit
      find_withdrawal find_wallet update_withdrawal call
  submit_to_network hash t u sent recorded = ground (
    arith,
    quiet s.tick,
    quiet (suc s.tick),
    quiet (suc (suc s.tick)),
    quiet (suc (suc (suc s.tick))),
    quiet u.tick,
    ready.listed,
    ready.pending,
    ready.owned,
    listed_self,
    sent,
    recorded,
  )

-- After a run for `w` with the wallet's balance `b`: the row is broadcasted with the hash that the
-- run returned, one task was spawned, and of the balance only the pending part changed.
abbrev pub SubmitsFunds : Env → String → Withdrawal → Balance → World → Type 0
SubmitsFunds env id w b s =
    (hash : String) × (t : World) × (process_withdrawal env id s ≡ ok hash t)
    × (t.spawned ≡ s.spawned ++ id ∷ [])
    × ((r : Withdrawal) × (find_first (by_id id) t.db.withdrawals ≡ some r)
        × (r.status ≡ "broadcasted")
        × (r.tx_hash ≡ some hash)
        × (total_of r ≡ total_of w)
        × (r.wallet_id ≡ w.wallet_id)
        × (r.network ≡ w.network)
        × (r.withdrawal_funds_state ≡ w.withdrawal_funds_state))
    × ((c : Balance) × (find_first (by_wallet w.wallet_id) t.db.balances ≡ some c)
        × (c.pending_balance ≡ b.pending_balance -ℤ total_of w)
        × (c.available_balance ≡ b.available_balance)
        × (c.locked_balance ≡ b.locked_balance)
        × (c.total_balance ≡ b.total_balance))

-- When the database answers, the withdrawal is pending or in processing, its wallet and balance
-- exist and its network is one of the simulated ones, a run succeeds: the row is broadcasted with
-- the hash that is returned, its confirmation is spawned, and its amount and fee are taken from the
-- pending balance, while the available, locked and total balances stay.
pub process_submits :
    (env : Env) (quiet : IsQuiet env) (id : String) (w : Withdrawal) (wallet : Wallet) (b : Balance)
    (s : World)
    → IsReady id w wallet b s
    → is_simulated w.network ≡ true
    → SubmitsFunds env id w b s
process_submits env quiet id w wallet b s ready simulated =
    let p : World = after_processing env w s in
    let hash : String = made_up_hash env w.network p in
    let t : World = after_broadcast env w p in
    let u : World = after_record env w wallet hash b t in
    let listed : find_first (by_id w.id) s.db.withdrawals ≡ some w =
      listed_self env quiet id w wallet b s ready in
    let row1 = processing_row (env.now (suc (suc (suc s.tick)))) in
    let row2 = broadcast_row hash (env.now p.tick) in
    let processing : find_first (by_id w.id) p.db.withdrawals ≡ some (row1 w) =
      find_first-modify_where (by_id w.id) (by_id w.id) row1 (λ x. refl) s.db.withdrawals w listed
        (eq_refl w.id) in
    let processing_id : find_first (by_id id) p.db.withdrawals ≡ some (row1 w) =
      find_first-modify_where (by_id id) (by_id w.id) row1 (λ x. refl) s.db.withdrawals w
        ready.listed (eq_refl w.id) in
    let funds = pending_row (total_of w) b (env.now (suc t.tick)) in
    (
      hash,
      record u { tick = suc u.tick; spawned = u.spawned ++ id ∷ [] },
      submit_to_network env quiet id w wallet b s ready hash t u
          (send_simulated env quiet w wallet p (row1 w) simulated processing)
          (record_withdrawal_lem env quiet w wallet b hash t
            (funded_wallet env quiet id w wallet b s ready)),
      refl,
      (
        row2 (row1 w),
        find_first-modify_where (by_id id) (by_id w.id) row2 (λ x. refl) p.db.withdrawals (row1 w)
            processing_id (eq_refl w.id),
        refl,
        refl,
        refl,
        refl,
        refl,
        refl,
      ),
      (
        funds b,
        find_first-modify_where (by_wallet w.wallet_id) (by_balance_id b.id) funds (λ x. refl)
            s.db.balances b ready.funded (eq_refl b.id),
        refl,
        refl,
        refl,
        refl,
      ),
    )
