-- ===== src/Selection/Capacity.antt =====
-- What a plan transfers, whatever the order of the wallets.
use zabypay_core.Prelude.{
  ℕ, suc, ℤ, pos, String, Bool, true, false, Option, List, [], ◌∷◌, ◌≡◌, refl, sym, ◌∙◌, ap, ap₂,
  arith, int_laws, +ℤ_parts, -ℤ_parts, eq_of_parts, ◌+ℤ◌, ◌-ℤ◌, ◌≤ℤ◌, leb_ℤ, ◌||◌, if◌then◌else◌,
  Bool-cases, inl, inr,
}
use zabypay_core.Selection.{
  WalletBalance, Picked, take_wallet, entry_of, min_ℤ, estimate_transaction_fee, balance_of, pick,
}

module _ (parse : String → Option ℤ) (currency : String) where
  -- What a wallet can send: its balance less the fee, where both are positive.
  abbrev pub spendable : WalletBalance → ℤ
  spendable w =
      let fee = estimate_transaction_fee currency w.network in
      if leb_ℤ (balance_of parse w) (pos 0) || leb_ℤ (balance_of parse w -ℤ fee) (pos 0)
      then pos 0
      else balance_of parse w -ℤ fee

  unfoldable pub capacity : List WalletBalance → ℤ
  capacity [] = pos 0
  capacity (w ∷ ws) = spendable w +ℤ capacity ws

  capacity-nonneg : (ws : List WalletBalance) → pos 0 ≤ℤ capacity ws
  unfolding capacity ◌+ℤ◌
  capacity-nonneg [] = omega arith
  capacity-nonneg (w ∷ ws) = ground (arith, capacity-nonneg ws)

  -- The arithmetic of one step, for a wallet that is taken.
  enough_step :
      (target cum room rest : ℤ)
      → pos 0 ≤ℤ rest
      → leb_ℤ target (cum +ℤ min_ℤ (target -ℤ cum) room) ≡ true
      → cum +ℤ min_ℤ (target -ℤ cum) room ≡ min_ℤ target (cum +ℤ (room +ℤ rest))
  enough_step target cum room rest nonneg full = ground (
    arith,
    +ℤ_parts cum (min_ℤ (target -ℤ cum) room),
    -ℤ_parts target cum,
    +ℤ_parts room rest,
    +ℤ_parts cum (room +ℤ rest),
    eq_of_parts (cum +ℤ min_ℤ (target -ℤ cum) room) (min_ℤ target (cum +ℤ (room +ℤ rest))),
  )

  more_step :
      (target cum room rest : ℤ)
      → leb_ℤ target (cum +ℤ min_ℤ (target -ℤ cum) room) ≡ false
      → min_ℤ target (cum +ℤ min_ℤ (target -ℤ cum) room +ℤ rest)
        ≡ min_ℤ target (cum +ℤ (room +ℤ rest))
  more_step target cum room rest more = ground (
    arith,
    +ℤ_parts cum (min_ℤ (target -ℤ cum) room),
    -ℤ_parts target cum,
    +ℤ_parts room rest,
    +ℤ_parts cum (room +ℤ rest),
    +ℤ_parts (cum +ℤ min_ℤ (target -ℤ cum) room) rest,
    eq_of_parts (cum +ℤ min_ℤ (target -ℤ cum) room +ℤ rest) (cum +ℤ (room +ℤ rest)),
  )

  pub add_zero : (a : ℤ) → a +ℤ pos 0 ≡ a
  add_zero a = eq_of_parts _ _ (omega int_laws)

  zero_add : (a : ℤ) → pos 0 +ℤ a ≡ a
  zero_add a = eq_of_parts _ _ (omega int_laws)

  module _ (target : ℤ) (w : WalletBalance) (ws : List WalletBalance) (index : ℕ)
      (cum fees : ℤ) where
    abbrev pub fee : ℤ
    fee = estimate_transaction_fee currency w.network

    abbrev pub room : ℤ
    room = balance_of parse w -ℤ fee

    abbrev pub amount : ℤ
    amount = min_ℤ (target -ℤ cum) room

    abbrev pub skipped : Bool
    skipped = leb_ℤ (balance_of parse w) (pos 0) || leb_ℤ room (pos 0)

    -- The step, by its two tests.
    abbrev pub step : Bool → Bool → Picked
    step skip enough = elim skip [
      | true ↦ pick parse currency target ws (suc index) cum fees
      | false ↦ take_wallet (entry_of parse currency target index amount fee w) (elim enough [
        | true ↦ record { selected = []; cumulative = cum +ℤ amount; fees = fees +ℤ fee }
        | false ↦ pick parse currency target ws (suc index) (cum +ℤ amount) (fees +ℤ fee)
      ])
    ]

    pub pick-step :
        (skip enough : Bool)
        → skipped ≡ skip
        → leb_ℤ target (cum +ℤ amount) ≡ enough
        → pick parse currency target (w ∷ ws) index cum fees ≡ step skip enough
    unfolding pick
    pick-step skip enough h e = ap₂ step h e

    capacity-step :
        (skip : Bool)
        → skipped ≡ skip
        → capacity (w ∷ ws) ≡ (if skip then pos 0 else room) +ℤ capacity ws
    unfolding capacity
    capacity-step skip h = ap (λ c. (if c then pos 0 else room) +ℤ capacity ws) h

  pick-nothing :
      (target : ℤ) (index : ℕ) (cum fees : ℤ)
      → leb_ℤ target cum ≡ false
      → (pick parse currency target [] index cum fees).cumulative
        ≡ min_ℤ target (cum +ℤ capacity [])
  unfolding pick capacity
  pick-nothing target index cum fees short = ground (arith, add_zero cum)

  pub pick_lem :
      (target : ℤ) (ws : List WalletBalance) (index : ℕ) (cum fees : ℤ)
      → leb_ℤ target cum ≡ false
      → (pick parse currency target ws index cum fees).cumulative
        ≡ min_ℤ target (cum +ℤ capacity ws)
  pick_lem target [] index cum fees short = pick-nothing target index cum fees short
  pick_lem target (w ∷ ws) index cum fees short =
      let test = leb_ℤ target (cum +ℤ amount target w ws index cum fees) in
      let whole = λ (c : ℤ). min_ℤ target (cum +ℤ c) in
      let at =
        λ (skip enough : Bool) (h : skipped target w ws index cum fees ≡ skip) (e : test ≡ enough).
          ap (λ p. p.cumulative) (pick-step target w ws index cum fees skip enough h e) in
      elim (Bool-cases (skipped target w ws index cum fees)) [
        | inl skip ↦
            at true test skip refl
            ∙ pick_lem target ws (suc index) cum fees short
            ∙ sym (
                ap whole
                  (capacity-step target w ws index cum fees true skip ∙ zero_add (capacity ws)))
        | inr taken ↦ elim (Bool-cases test) [
          | inl full ↦
              at false true taken full
              ∙ enough_step target cum (room target w ws index cum fees) (capacity ws)
                  (capacity-nonneg ws) full
              ∙ sym (ap whole (capacity-step target w ws index cum fees false taken))
          | inr more ↦
              at false false taken more
              ∙ pick_lem target ws (suc index) (cum +ℤ amount target w ws index cum fees)
                  (fees +ℤ fee target w ws index cum fees) more
              ∙ more_step target cum (room target w ws index cum fees) (capacity ws) more
              ∙ sym (ap whole (capacity-step target w ws index cum fees false taken))
        ]
      ]
