-- ===== src/Selection.antt =====
-- The choice of wallets for a withdrawal: src/merchant/services/multi_wallet_service.rs,
-- `select_wallets_for_withdrawal` from the wallets that match the currency, and
-- `estimate_transaction_fee`.
pub mod Capacity
pub mod Order
pub mod Tests
use zabypay_core.Prelude.{
  ◌*◌, ◌^◌, ◌+◌, ℕ, zero, suc, ℤ, pos, String, Bool, true, false, Option, none, some, List, [], ◌∷◌,
  ◌+ℤ◌, ◌-ℤ◌, ◌||◌, str_eq, leb, leb_ℤ, codes, same, to_lowercase, if◌then◌else◌,
}

pub record WalletBalance : Type 0 where
  pub wallet_id : String
  pub wallet_address : String
  pub currency : String
  pub network : String
  pub available_balance : String
  pub created_at : ℕ

-- The amounts that a plan prints are kept as numbers.
pub record SelectedWallet : Type 0 where
  pub wallet_id : String
  pub wallet_address : String
  pub available_balance : ℤ
  pub amount_to_transfer : ℤ
  pub estimated_fee : ℤ
  pub net_amount : ℤ
  pub order : ℕ

pub record WithdrawalPlan : Type 0 where
  pub requested_amount : ℤ
  pub total_available : ℤ
  pub selected_wallets : List SelectedWallet
  pub total_fees_estimated : ℤ
  pub net_transfer_amount : ℤ
  pub can_fulfill : Bool
  pub shortfall_amount : Option ℤ

-- `text.to_lowercase() == word`
abbrev pub reads : String → String → Bool
reads text word = same (to_lowercase (codes text)) (codes word)

-- `Decimal::try_from` of so many hundred millionths.
abbrev pub e_8 : ℕ → ℤ
e_8 n = pos (n * 10 ^ 20)

unfoldable pub estimate_transaction_fee : String → String → ℤ
estimate_transaction_fee currency network =
    if reads currency "sol" || reads currency "solana"
    then e_8 500
    else if reads currency "eth" || reads currency "ethereum"
    then e_8 200000
    else if reads currency "bnb"
    then e_8 50000
    else if reads currency "btc" || reads currency "bitcoin"
    then e_8 1000
    else if reads currency "usdt"
    then (if reads network "ethereum"
        then e_8 300000
        else if reads network "bsc" || reads network "bnb"
        then e_8 100000
        else if reads network "solana"
        then e_8 500
        else e_8 100000)
    else e_8 100000

-- A stable sort, as `sort_by` is, by a test that the first may stand before the second.
unfoldable pub insert_by :
    (WalletBalance → WalletBalance → Bool) → WalletBalance → List WalletBalance → List WalletBalance
insert_by before w [] = w ∷ []
insert_by before w (x ∷ xs) = if before w x then w ∷ x ∷ xs else x ∷ insert_by before w xs

unfoldable pub sort_by :
    (WalletBalance → WalletBalance → Bool) → List WalletBalance → List WalletBalance
sort_by before [] = []
sort_by before (w ∷ ws) = insert_by before w (sort_by before ws)

abbrev pub min_ℤ : ℤ → ℤ → ℤ
min_ℤ a b = if leb_ℤ a b then a else b

-- The wallets taken, their sum and their fees.
pub record Picked : Type 0 where
  pub selected : List SelectedWallet
  pub cumulative : ℤ
  pub fees : ℤ

abbrev pub take_wallet : SelectedWallet → Picked → Picked
take_wallet entry rest = record rest { selected = entry ∷ rest.selected }

-- `parse::<Decimal>()` is a parameter.
module _ (parse : String → Option ℤ) where
  -- `.parse().unwrap_or_default()`
  abbrev pub balance_of : WalletBalance → ℤ
  balance_of w = elim (parse w.available_balance) [ none ↦ pos 0 | some d ↦ d ]

  unfoldable pub order_wallets : String → List WalletBalance → List WalletBalance
  order_wallets strategy ws =
      if str_eq strategy "fifo"
      then sort_by (λ a b. leb a.created_at b.created_at) ws
      else sort_by (λ a b. leb_ℤ (balance_of b) (balance_of a)) ws

  unfoldable pub total_available_of : List WalletBalance → ℤ
  total_available_of [] = pos 0
  total_available_of (w ∷ ws) = balance_of w +ℤ total_available_of ws

  module _ (currency : String) (target : ℤ) where
    abbrev pub entry_of : ℕ → ℤ → ℤ → WalletBalance → SelectedWallet
    entry_of index amount fee w = record {
      wallet_id = w.wallet_id;
      wallet_address = w.wallet_address;
      available_balance = balance_of w;
      amount_to_transfer = amount;
      estimated_fee = fee;
      net_amount = amount;
      order = index + 1;
    }

    -- The loop, by the sum and the fees so far.
    unfoldable pub pick : List WalletBalance → ℕ → ℤ → ℤ → Picked
    pick [] index cumulative fees = record { selected = []; cumulative = cumulative; fees = fees }
    pick (w ∷ ws) index cumulative fees =
        let fee = estimate_transaction_fee currency w.network in
        let amount = min_ℤ (target -ℤ cumulative) (balance_of w -ℤ fee) in
        elim (leb_ℤ (balance_of w) (pos 0) || leb_ℤ (balance_of w -ℤ fee) (pos 0)) [
          | true ↦ pick ws (suc index) cumulative fees
          | false ↦
              take_wallet (entry_of index amount fee w)
                (elim (leb_ℤ target (cumulative +ℤ amount)) [
                  | true ↦ record {
                    selected = [];
                    cumulative = cumulative +ℤ amount;
                    fees = fees +ℤ fee;
                  }
                  | false ↦ pick ws (suc index) (cumulative +ℤ amount) (fees +ℤ fee)
                ])
        ]

    abbrev pub plan_of : ℤ → Picked → WithdrawalPlan
    plan_of available picked = record {
      requested_amount = target;
      total_available = available;
      selected_wallets = picked.selected;
      total_fees_estimated = picked.fees;
      net_transfer_amount = picked.cumulative;
      can_fulfill = leb_ℤ target picked.cumulative;
      shortfall_amount =
          if leb_ℤ target picked.cumulative then none else some (target -ℤ picked.cumulative);
    }

    -- Where no wallet matches.
    abbrev pub empty_plan : WithdrawalPlan
    empty_plan = record {
      requested_amount = target;
      total_available = pos 0;
      selected_wallets = [];
      total_fees_estimated = pos 0;
      net_transfer_amount = pos 0;
      can_fulfill = false;
      shortfall_amount = some target;
    }

    unfoldable pub select_wallets_for_withdrawal : String → List WalletBalance → WithdrawalPlan
    select_wallets_for_withdrawal strategy [] = empty_plan
    select_wallets_for_withdrawal strategy (w ∷ ws) =
        let sorted = order_wallets strategy (w ∷ ws) in
        plan_of (total_available_of sorted) (pick sorted 0 (pos 0) (pos 0))
