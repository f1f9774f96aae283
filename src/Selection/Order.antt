-- ===== src/Selection/Order.antt =====
-- The plan's sums do not depend on the strategy, and its transfers fit their wallets.
use zabypay_core.Prelude.{
  ℕ, suc, ℤ, pos, String, Bool, true, false, Option, List, [], ◌∷◌, ◌≡◌, refl, sym, ◌∙◌, ap, subst,
  arith, int_laws, eq_of_parts, +ℤ_parts, -ℤ_parts, ◌+ℤ◌, ◌-ℤ◌, ◌≤ℤ◌, leb_ℤ, str_eq, ◌||◌,
  Bool-cases, inl, inr,
}
use zabypay_core.Selection.{
  WalletBalance, SelectedWallet, Picked, min_ℤ, balance_of, insert_by, sort_by, order_wallets, pick,
  select_wallets_for_withdrawal,
}
use zabypay_core.Selection.Capacity.{
  capacity, spendable, pick_lem, pick-step, skipped, amount, room, fee, add_zero,
}

module _ (parse : String → Option ℤ) (currency : String) where
  swap_sums : (a b c : ℤ) → a +ℤ (b +ℤ c) ≡ b +ℤ (a +ℤ c)
  swap_sums a b c = eq_of_parts _ _ (omega int_laws)

  capacity-insert_by :
      (before : WalletBalance → WalletBalance → Bool) (w : WalletBalance) (ws : List WalletBalance)
      → capacity parse currency (insert_by before w ws)
        ≡ spendable parse currency w +ℤ capacity parse currency ws
  unfolding capacity insert_by
  capacity-insert_by before w [] = refl
  capacity-insert_by before w (x ∷ xs) = elim (Bool-cases (before w x)) [
    | inl first ↦ rw first refl
    | inr later ↦ rw later (
        ap (λ c. spendable parse currency x +ℤ c) (capacity-insert_by before w xs)
        ∙ swap_sums (spendable parse currency x) (spendable parse currency w)
            (capacity parse currency xs))
  ]

  capacity-sort_by :
      (before : WalletBalance → WalletBalance → Bool) (ws : List WalletBalance)
      → capacity parse currency (sort_by before ws) ≡ capacity parse currency ws
  unfolding capacity sort_by
  capacity-sort_by before [] = refl
  capacity-sort_by before (w ∷ ws) =
      capacity-insert_by before w (sort_by before ws)
      ∙ ap (λ c. spendable parse currency w +ℤ c) (capacity-sort_by before ws)

  capacity-order_wallets :
      (strategy : String) (ws : List WalletBalance)
      → capacity parse currency (order_wallets parse strategy ws) ≡ capacity parse currency ws
  unfolding order_wallets
  capacity-order_wallets strategy ws = elim (Bool-cases (str_eq strategy "fifo")) [
    | inl fifo ↦ rw fifo (capacity-sort_by _ ws)
    | inr other ↦ rw other (capacity-sort_by _ ws)
  ]

  zero_add : (a : ℤ) → pos 0 +ℤ a ≡ a
  zero_add a = eq_of_parts _ _ (omega int_laws)

  leb-min : (a b : ℤ) → leb_ℤ a (min_ℤ a b) ≡ leb_ℤ a b
  leb-min a b = ground arith

  -- Whatever the strategy, the plan for a positive sum transfers that sum or what the matching
  -- wallets can send together, which is the sum of their balances less their fees, where both are
  -- positive, whichever is less; and it can be fulfilled exactly where the wallets can send the
  -- sum.
  pub plan_transfers :
      (target : ℤ) (strategy : String) (ws : List WalletBalance)
      → leb_ℤ target (pos 0) ≡ false
      → ((select_wallets_for_withdrawal parse currency target strategy ws).net_transfer_amount
          ≡ min_ℤ target (capacity parse currency ws))
        × ((select_wallets_for_withdrawal parse currency target strategy ws).can_fulfill
            ≡ leb_ℤ target (capacity parse currency ws))
  unfolding select_wallets_for_withdrawal capacity
  plan_transfers target strategy [] positive = (ground arith, sym positive)
  plan_transfers target strategy (w ∷ ws) positive =
      let sorted = order_wallets parse strategy (w ∷ ws) in
      let sum =
        pick_lem parse currency target sorted 0 (pos 0) (pos 0) positive
        ∙ ap (λ c. min_ℤ target c) (zero_add (capacity parse currency sorted))
        ∙ ap (λ c. min_ℤ target c) (capacity-order_wallets strategy (w ∷ ws)) in
      (sum, ap (leb_ℤ target) sum ∙ leb-min target (capacity parse currency (w ∷ ws)))

-- Each transfer is positive, and it and its fee are within the wallet's balance.
abbrev pub AllFit : List SelectedWallet → Type 0
AllFit [] = Unit
AllFit (e ∷ es) =
    (leb_ℤ e.amount_to_transfer (pos 0) ≡ false)
    × (e.amount_to_transfer +ℤ e.estimated_fee ≤ℤ e.available_balance)
    × AllFit es

unfoldable pub sum_of : List SelectedWallet → ℤ
sum_of [] = pos 0
sum_of (e ∷ es) = e.amount_to_transfer +ℤ sum_of es

module _ (parse : String → Option ℤ) (currency : String) (target : ℤ) where
  amount_positive :
      (cum room : ℤ)
      → leb_ℤ target cum ≡ false
      → leb_ℤ room (pos 0) ≡ false
      → leb_ℤ (min_ℤ (target -ℤ cum) room) (pos 0) ≡ false
  amount_positive cum room short positive = ground (arith, -ℤ_parts target cum)

  amount_fits : (cum balance fee : ℤ) → min_ℤ (target -ℤ cum) (balance -ℤ fee) +ℤ fee ≤ℤ balance
  amount_fits cum balance fee =
      ground (arith, -ℤ_parts balance fee, +ℤ_parts (min_ℤ (target -ℤ cum) (balance -ℤ fee)) fee)

  -- What is picked fits, and its sum is what was added.
  abbrev PicksWell : ℤ → Picked → Type 0
  PicksWell cum p = AllFit p.selected × (p.cumulative ≡ cum +ℤ sum_of p.selected)

  add_assoc : (a b c : ℤ) → a +ℤ b +ℤ c ≡ a +ℤ (b +ℤ c)
  add_assoc a b c = eq_of_parts _ _ (omega int_laws)

  last_sum : (a b : ℤ) → a +ℤ b ≡ a +ℤ (b +ℤ pos 0)
  last_sum a b = eq_of_parts _ _ (omega int_laws)

  room_positive :
      (balance room : ℤ)
      → (leb_ℤ balance (pos 0) || leb_ℤ room (pos 0)) ≡ false
      → leb_ℤ room (pos 0) ≡ false
  room_positive balance room h = ground arith

  pick-PicksWell :
      (ws : List WalletBalance) (index : ℕ) (cum fees : ℤ)
      → leb_ℤ target cum ≡ false
      → PicksWell cum (pick parse currency target ws index cum fees)
  unfolding pick sum_of
  pick-PicksWell [] index cum fees short = (tt, sym (add_zero parse currency cum))
  pick-PicksWell (w ∷ ws) index cum fees short =
      let charge : ℤ = fee parse currency target w ws index cum fees in
      let space : ℤ = room parse currency target w ws index cum fees in
      let sent : ℤ = amount parse currency target w ws index cum fees in
      let at = pick-step parse currency target w ws index cum fees in
      elim (Bool-cases (skipped parse currency target w ws index cum fees)) [
        | inl skip ↦
            subst (PicksWell cum) (sym (at true (leb_ℤ target (cum +ℤ sent)) skip refl))
              (pick-PicksWell ws (suc index) cum fees short)
        | inr taken ↦
            let positive =
              amount_positive cum space short (room_positive (balance_of parse w) space taken) in
            let fits = amount_fits cum (balance_of parse w) charge in
            elim (Bool-cases (leb_ℤ target (cum +ℤ sent))) [
              | inl full ↦
                  subst (PicksWell cum) (sym (at false true taken full))
                    ((positive, fits, tt), last_sum cum sent)
              | inr more ↦
                  let (rest, total) =
                    pick-PicksWell ws (suc index) (cum +ℤ sent) (fees +ℤ charge) more in
                  subst (PicksWell cum) (sym (at false false taken more))
                    ((positive, fits, rest), total ∙ add_assoc cum sent _)
            ]
      ]

  -- The transfers of a plan for a positive sum are positive, each of them fits with its fee into
  -- the balance of its wallet, and they add up to what the plan transfers.
  pub plan_fits :
      (strategy : String) (ws : List WalletBalance)
      → leb_ℤ target (pos 0) ≡ false
      → AllFit (select_wallets_for_withdrawal parse currency target strategy ws).selected_wallets
        × ((select_wallets_for_withdrawal parse currency target strategy ws).net_transfer_amount
            ≡ sum_of
                (select_wallets_for_withdrawal parse currency target strategy ws).selected_wallets)
  unfolding select_wallets_for_withdrawal sum_of
  plan_fits strategy [] positive = (tt, refl)
  plan_fits strategy (w ∷ ws) positive =
      let (fits, total) =
        pick-PicksWell (order_wallets parse strategy (w ∷ ws)) 0 (pos 0) (pos 0) positive in
      (fits, total ∙ zero_add parse currency _)
