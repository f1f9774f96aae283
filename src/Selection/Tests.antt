-- ===== src/Selection/Tests.antt =====
-- Two wallets, and the plans made of them.
use zabypay_core.Prelude.{
  ℤ, String, Option, none, some, List, [], ◌∷◌, ◌≡◌, refl, str_eq, leb_ℤ, if◌then◌else◌,
}
use zabypay_core.Selection.{WalletBalance, select_wallets_for_withdrawal, min_ℤ, e_8}
use zabypay_core.Selection.Capacity.{capacity}
use zabypay_core.Selection.Order.{AllFit, sum_of, plan_transfers, plan_fits}

abbrev read_amount : String → Option ℤ
read_amount text =
    if str_eq text "1"
    then some (e_8 100000000)
    else if str_eq text "2"
    then some (e_8 200000000)
    else none

abbrev small : WalletBalance
small = record {
  wallet_id = "a";
  wallet_address = "x";
  currency = "sol_mainnet";
  network = "solana";
  available_balance = "1";
  created_at = 1;
}

abbrev large : WalletBalance
large = record small { wallet_id = "b"; available_balance = "2"; created_at = 2 }

abbrev both : List WalletBalance
both = small ∷ large ∷ []

plan_transfers_example :
    ((select_wallets_for_withdrawal read_amount "sol"
        (e_8 250000000)
        "fifo"
        both).net_transfer_amount
      ≡ min_ℤ (e_8 250000000) (capacity read_amount "sol" both))
    × ((select_wallets_for_withdrawal read_amount "sol" (e_8 250000000) "fifo" both).can_fulfill
        ≡ leb_ℤ (e_8 250000000) (capacity read_amount "sol" both))
plan_transfers_example = plan_transfers read_amount "sol" (e_8 250000000) "fifo" both refl

plan_fits_example :
    AllFit
      (select_wallets_for_withdrawal read_amount "sol"
        (e_8 250000000)
        "optimal"
        both).selected_wallets
    × ((select_wallets_for_withdrawal read_amount "sol"
          (e_8 250000000)
          "optimal"
          both).net_transfer_amount
        ≡ sum_of
            (select_wallets_for_withdrawal read_amount "sol"
              (e_8 250000000)
              "optimal"
              both).selected_wallets)
plan_fits_example = plan_fits read_amount "sol" (e_8 250000000) "optimal" both refl
