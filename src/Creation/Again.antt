-- ===== src/Creation/Again.antt =====
-- A request whose key is in use: `create_withdrawal` of
-- src/merchant/services/withdrawal_service.rs up to the check of the key.
use mathlib.Core.List.{Memᴰ}
use zabypay_core.Prelude.{
  suc, Option, String, true, false, none, some, ◌≡◌, arith, ℤ, ◌&&◌, ◌⊎◌, ◌<>◌, inl, inr, not,
  contains, lower, refl, sym, subst, eq_iff, Bool-cases, Option-cases,
}
use zabypay_core.Prelude.Table.{find_first, find_first_present, find_first_holds}
use zabypay_core.Entities.{Withdrawal, Merchant}
use zabypay_core.Store.{Env, World, Outcome, ok, err, merchant_by_id, call, find_merchant, advance}
use zabypay_core.Creation.Amounts.{Library, Request}
use zabypay_core.Creation.Validate.{Validated, Refusal, validate_amount_for_network}
use zabypay_core.Errors.{database_error, not_found, validation_error}
use zabypay_core.Creation.{key_error, by_key, find_duplicate}
use zabypay_core.Creation.Entry.{
  Settings, usdt_disabled, check_usdt, check_amount, create_withdrawal,
}

-- No table is changed, nothing is sent, started, put off or reported, and no time is slept.
abbrev pub IsUntouched : World → World → Type 0
IsUntouched s t =
    (t.db ≡ s.db)
    × (t.transfers ≡ s.transfers)
    × (t.spawned ≡ s.spawned)
    × (t.queued ≡ s.queued)
    × (t.events ≡ s.events)
    × (t.slept ≡ s.slept)

module _ (env : Env) (settings : Settings) (library : Library) (merchant_id : String)
    (request : Request) (s : World) where
  -- USDT is switched off, the amount is refused, no such merchant exists, or one of the first two
  -- queries fails.
  abbrev pub IsBarred : Type 0
  IsBarred =
      (((not settings.enable_usdt) && contains (lower request.network) "usdt") ≡ true)
      ⊎ (((reason : Refusal) × (validate_amount_for_network library request
              ≡ Validated.refused reason))
          ⊎ ((find_first (merchant_by_id merchant_id) s.db.merchants ≡ none)
              ⊎ (((reason : String) × (env.fault s.tick ≡ some reason))
                  ⊎ ((reason : String) × (env.fault (suc s.tick) ≡ some reason)))))

  -- The answer is a withdrawal of the table, the merchant's own and with the request's key, or an
  -- error with one of these reasons; and the world is untouched.
  abbrev pub GivesExisting : Outcome Withdrawal → Type 0
  GivesExisting (ok w t) =
      IsUntouched s t
      × Memᴰ w s.db.withdrawals
      × (w.merchant_id ≡ merchant_id)
      × (w.idempotency_key ≡ request.idempotency_key)
  GivesExisting (err e t) = IsUntouched s t × IsBarred

Validated-cases :
    (v : Validated)
    → ((amount : ℤ) × (v ≡ Validated.valid amount))
      ⊎ ((reason : Refusal) × (v ≡ Validated.refused reason))
Validated-cases (Validated.valid amount) = inl (amount, refl)
Validated-cases (Validated.refused reason) = inr (reason, refl)

untouched : (s : World) → IsUntouched s s
untouched s = (refl, refl, refl, refl, refl, refl)

module _ (env : Env) (settings : Settings) (library : Library) (late : World → Option World)
    (merchant_id : String) (request : Request) (s : World) where
  abbrev run : Outcome Withdrawal
  run = create_withdrawal env settings library late merchant_id request s

  abbrev Gives : Outcome Withdrawal → Type 0
  Gives = GivesExisting env settings library merchant_id request s

  -- A run with this outcome.
  ends : (o : Outcome Withdrawal) → run ≡ o → Gives o → Gives run
  ends o e h = subst Gives (sym e) h

  usdt_off :
      (not settings.enable_usdt && contains (lower request.network) "usdt") ≡ true
      → run ≡ err usdt_disabled s
  unfolding create_withdrawal check_usdt
  usdt_off h = ground (arith, h)

  module _
      (allowed : (not settings.enable_usdt && contains (lower request.network) "usdt")
        ≡ false) where
    refused_amount :
        (reason : Refusal)
        → validate_amount_for_network library request ≡ Validated.refused reason
        → run ≡ err (validation_error (settings.refusal_text reason)) s
    unfolding create_withdrawal check_usdt check_amount
    refused_amount reason h = ground (arith, allowed, h)

    module _ (amount : ℤ)
        (valid : validate_amount_for_network library request ≡ Validated.valid amount) where
      first_fails :
          (reason : String)
          → env.fault s.tick ≡ some reason
          → run ≡ err (database_error ("Failed to find merchant: " <> reason)) (advance s)
      unfolding create_withdrawal check_usdt check_amount find_merchant call
      first_fails reason h = ground (arith, allowed, valid, h)

      module _ (quiet : env.fault s.tick ≡ none) where
        no_merchant :
            find_first (merchant_by_id merchant_id) s.db.merchants ≡ none
            → run ≡ err (not_found "Merchant not found") (advance s)
        unfolding create_withdrawal check_usdt check_amount find_merchant call
        no_merchant h = ground (arith, allowed, valid, quiet, h)

        module _ (m : Merchant)
            (listed : find_first (merchant_by_id merchant_id) s.db.merchants ≡ some m) where
          second_fails :
              (reason : String)
              → env.fault (suc s.tick) ≡ some reason
              → run ≡ err (key_error reason) (advance (advance s))
          unfolding create_withdrawal check_usdt check_amount find_merchant find_duplicate call
          second_fails reason h = ground (arith, allowed, valid, quiet, listed, h)

          reaches_key :
              (w : Withdrawal)
              → find_first (by_key merchant_id request.idempotency_key) s.db.withdrawals ≡ some w
              → env.fault (suc s.tick) ≡ none
              → run ≡ ok w (advance (advance s))
          unfolding create_withdrawal check_usdt check_amount find_merchant find_duplicate call
          reaches_key w made again = ground (arith, allowed, valid, quiet, listed, made, again)

  -- What the check of the key finds is the merchant's own withdrawal with the key.
  key_finds :
      (x : Withdrawal)
      → Memᴰ x s.db.withdrawals
      → x.merchant_id ≡ merchant_id
      → x.idempotency_key ≡ request.idempotency_key
      → (w : Withdrawal) × (find_first (by_key merchant_id request.idempotency_key) s.db.withdrawals
          ≡ some w)
        × Memᴰ w s.db.withdrawals
        × (w.merchant_id ≡ merchant_id)
        × (w.idempotency_key ≡ request.idempotency_key)
  key_finds x among owner key =
      let p = by_key merchant_id request.idempotency_key in
      let (w, found, listed) = find_first_present p s.db.withdrawals x among (
        ground (
          arith,
          (eq_iff x.merchant_id merchant_id).1 owner,
          (eq_iff x.idempotency_key request.idempotency_key).1 key,
        )) in
      let holds : p w ≡ true = find_first_holds p s.db.withdrawals w found in
      (
        w,
        found,
        listed,
        (eq_iff w.merchant_id merchant_id).0 (ground (arith, holds)),
        (eq_iff w.idempotency_key request.idempotency_key).0 (ground (arith, holds)),
      )

  -- The two queries, for a request that passes the first checks.
  by_queries :
      (not settings.enable_usdt && contains (lower request.network) "usdt") ≡ false
      → (amount : ℤ) → validate_amount_for_network library request ≡ Validated.valid amount
      → (x : Withdrawal) → Memᴰ x s.db.withdrawals
      → x.merchant_id ≡ merchant_id
      → x.idempotency_key ≡ request.idempotency_key
      → Gives run
  by_queries on amount valid x among owner key = elim (Option-cases (env.fault s.tick)) [
    | inr (e, gone) ↦
        ends _ (first_fails on amount valid e gone) (untouched s, inr (inr (inr (inl (e, gone)))))
    | inl quiet ↦ elim (Option-cases (find_first (merchant_by_id merchant_id) s.db.merchants)) [
      | inl missing ↦
          ends _ (no_merchant on amount valid quiet missing) (untouched s, inr (inr (inl missing)))
      | inr (m, listed) ↦ elim (Option-cases (env.fault (suc s.tick))) [
        | inr (e, gone) ↦
            ends _ (second_fails on amount valid quiet m listed e gone)
              (untouched s, inr (inr (inr (inr (e, gone)))))
        | inl again ↦
            let (w, found, there, owned, keyed) = key_finds x among owner key in
            ends _ (reaches_key on amount valid quiet m listed w found again)
              (untouched s, there, owned, keyed)
      ]
    ]
  ]

  -- Whatever the database answers and whatever is asked for, where the table has a withdrawal of
  -- the merchant with the request's key: the run gives a withdrawal of the table that is the
  -- merchant's own and has the key, or it fails because USDT is switched off, the amount is
  -- refused, the merchant does not exist or one of the two queries failed. In each case no table
  -- changes, nothing is sent, started, put off or reported, and no time is slept.
  pub create_again-GivesExisting :
      (x : Withdrawal)
      → Memᴰ x s.db.withdrawals
      → x.merchant_id ≡ merchant_id
      → x.idempotency_key ≡ request.idempotency_key
      → GivesExisting env settings library merchant_id request s
          (create_withdrawal env settings library late merchant_id request s)
  create_again-GivesExisting x among owner key =
      elim (Bool-cases (not settings.enable_usdt && contains (lower request.network) "usdt")) [
        | inl off ↦ ends _ (usdt_off off) (untouched s, inl off)
        | inr on ↦ elim (Validated-cases (validate_amount_for_network library request)) [
          | inr (reason, refused) ↦
              ends _ (refused_amount on reason refused) (untouched s, inr (inl (reason, refused)))
          | inl (amount, valid) ↦ by_queries on amount valid x among owner key
        ]
      ]
