-- ===== src/Creation/Lifecycle.antt =====
-- A withdrawal from its creation to its confirmation.
use zabypay_core.Prelude.{
  String, true, false, some, ◌≡◌, sym, ◌∙◌, ap, ◌+ℤ◌, not, ◌&&◌, ◌||◌, none, str_eq,
}
use zabypay_core.Prelude.Table.{find_first}
use zabypay_core.Entities.{Withdrawal, Balance, Wallet, total_of}
use zabypay_core.Store.{Env, World, ok, advance, by_id, by_wallet, wallet_by_id}
use zabypay_core.Store.Laws.{IsQuiet}
use zabypay_core.Processor.Submit.{process_withdrawal}
use zabypay_core.Processor.Watch.{monitor_blockchain_confirmation}
use zabypay_core.Processor.Books.{IsReady, is_simulated, process_submits}
use zabypay_core.Processor.Close.{simulated_network, confirmation_closes}
use zabypay_core.States.{FundsState, funds_text}
use zabypay_core.Monitor.{needs_monitoring}
use zabypay_core.Creation.Amounts.{Library, Request, Sums, decide_sums, is_short}
use zabypay_core.Creation.{reserve}
use zabypay_core.Creation.Reserve.{IsFresh, reserve-LocksFunds}

-- The creation, the processing and the confirmation all succeed, and the withdrawal is confirmed;
-- but its sum is still locked in the wallet's balance, and its row says so.
abbrev pub KeepsLock : Env → Library → String → Wallet → Request → Balance → World → Type 0
KeepsLock env library merchant_id wallet request b s =
    (w : Withdrawal) × (t u v : World) × (hash : String) × (reserve env library merchant_id wallet
        request s
      ≡ ok w t)
    × (process_withdrawal env w.id t ≡ ok hash u)
    × (monitor_blockchain_confirmation env w.id u ≡ ok tt v)
    × ((q : Withdrawal) × (find_first (by_id w.id) v.db.withdrawals ≡ some q)
        × (q.status ≡ "confirmed")
        × (q.withdrawal_funds_state ≡ "locked")
        × (needs_monitoring q ≡ false))
    × ((d : Balance) × (find_first (by_wallet wallet.id) v.db.balances ≡ some d)
        × (d.locked_balance ≡ b.locked_balance +ℤ total_of w))

-- When the database answers: a covered withdrawal on a simulated network that is created, processed
-- and confirmed without any error ends confirmed with its funds state still "locked", and no
-- monitoring cycle selects it; whatever the balance sync at the end does, its sum is still in the
-- wallet's locked balance.
pub lifecycle-KeepsLock :
    (env : Env) (quiet : IsQuiet env) (library : Library) (merchant_id : String) (wallet : Wallet)
    (request : Request) (b : Balance) (sums : Sums) (s : World)
    → find_first (by_wallet wallet.id) s.db.balances ≡ some b
    → find_first (wallet_by_id wallet.id) s.db.wallets ≡ some wallet
    → decide_sums library request b (advance s) ≡ ok sums (advance s)
    → is_short b sums ≡ false
    → IsFresh env s
    → is_simulated request.network ≡ true
    → KeepsLock env library merchant_id wallet request b s
unfolding needs_monitoring
lifecycle-KeepsLock env quiet library merchant_id wallet request b sums s funded owned decided
      covered fresh simulated =
    let (
      w,
      t,
      made,
      listed,
      st,
      state,
      life,
      amount,
      owner,
      network,
      wallets,
      (c, cfunded, ca, cn, cl, cp, ct, keeps),
    ) =
      reserve-LocksFunds env quiet library merchant_id wallet request b sums s funded decided
        covered fresh in
    let ready : IsReady w.id w wallet c t = record {
      listed = listed;
      pending = ap (λ x. not (str_eq x "pending") && not (str_eq x "processing")) st;
      owned =
          ap (λ x. find_first (wallet_by_id x) t.db.wallets) owner
          ∙ ap (find_first (wallet_by_id wallet.id)) wallets
          ∙ owned;
      funded = ap (λ x. find_first (by_wallet x) t.db.balances) owner ∙ cfunded;
    } in
    let paid = ap is_simulated network ∙ simulated in
    let (
      hash,
      u,
      run,
      spawned,
      (r, rlisted, rst, sent, total, rowner, rnetwork, rstate),
      (e, efunded, ep, ea, el, et),
    ) =
      process_submits env quiet w.id w wallet c t ready paid in
    let (v, closed, slept, kept, (q, qlisted, qst, qn, qstate, qhash), (d, dfunded, dl)) =
      confirmation_closes env quiet w.id r e hash u rlisted
        (ap (λ x. find_first (by_wallet x) u.db.balances) rowner ∙ efunded) sent
        (ap (λ x. str_eq x "sol") rnetwork ∙ simulated_network w.network paid) in
    (
      w,
      t,
      u,
      v,
      hash,
      made,
      run,
      closed,
      (
        q,
        qlisted,
        qst,
        qstate ∙ rstate ∙ state,
        ap
            (λ x.
              (str_eq x "broadcasted" || str_eq x "pending" || str_eq x "processing")
              && str_eq q.withdrawal_funds_state (funds_text FundsState.locked)
              && elim q.tx_hash [ none ↦ false | some _ ↦ true ])
            qst,
      ),
      (
        d,
        ap (λ x. find_first (by_wallet x) v.db.balances) (sym (rowner ∙ owner)) ∙ dfunded,
        dl ∙ el ∙ cl,
      ),
    )
