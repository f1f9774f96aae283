-- ===== src/Creation/Tests.antt =====
-- The theorems about creating a withdrawal, on a wallet with one balance.
use zabypay_core.Prelude.{
  true, is_like, max_zero, lower, contains, ◌∷◌, [], ℤ, none, some, refl, arith, ◌≡◌, ◌↔◌, ◌+ℤ◌,
  ◌-ℤ◌, false, str_eq, if◌then◌else◌, inr, ◌==◌,
}
use zabypay_core.Prelude.Table.{find_first, filter_rows}
use zabypay_core.Entities.{Balance}
use zabypay_core.Store.{Env, World}
use zabypay_core.Samples.{done, calm, purse, safe, start, shop, till, cash, market, payment}
use zabypay_core.BalanceSync.Totals.{actual_currency, add_to, add_payments, subtract_all}
use zabypay_core.BalanceSync.Single.{IsSingle}
use zabypay_core.Creation.Resync.{ReturnsLock, reserve_then_sync-ReturnsLock}
use zabypay_core.Creation.Amounts.{
  Library, Request, Sums, of_satoshis, decide_sums, is_short, adjust, is_adjusted, convert_amount,
  calculate_network_fee, network_to_currency,
}
use zabypay_core.Creation.Reserve.{LocksFunds, reserve-LocksFunds}
use zabypay_core.Creation.Unlocked.{LeavesUnlocked, reserve-LeavesUnlocked}
use zabypay_core.Creation.Decide.{IsCovered, StoresDollars, accepted_iff, usd_request-StoresDollars}
use zabypay_core.Store.{call, find_wallet_where}
use zabypay_core.Creation.Entry.{Settings, create_withdrawal, or_find, find_paying_wallet}
use zabypay_core.Creation.Choice.{PaysFor, paying_wallet-PaysFor}
use mathlib.Core.List.Memᴰ
use zabypay_core.Creation.Again.{GivesExisting, create_again-GivesExisting}
use zabypay_core.Creation.Lifecycle.{KeepsLock, lifecycle-KeepsLock}

abbrev coin : ℤ
coin = of_satoshis 50000000

-- Numbers in coins, and a dollar that is worth half a coin.
abbrev library : Library
library = record {
  parse = λ text.
      if str_eq text "2"
      then some (of_satoshis 200000000)
      else if str_eq text "1"
      then some coin
      else none;
  convert = λ amount currency environment. if str_eq amount "2" then inr "1" else inr "0";
  shortage_text = λ network needed fee have. "Insufficient balance";
}

abbrev request : Request
request = record {
  environment = "mainnet";
  network = "btc";
  to_address = "bc1q0000000";
  amount = "1";
  amount_type = none;
  idempotency_key = "k9";
  external_id = none;
}

abbrev dollars : Request
dollars = record request { amount = "2"; amount_type = some "usd" }

abbrev account : Balance
account = record purse { available_balance = of_satoshis 500000000 }

abbrev bank : World
bank = record start { db = record start.db { balances = account ∷ [] } }

abbrev decided_sums : Sums
decided_sums = record {
  amount = coin;
  fee = of_satoshis 5000;
  net_amount = coin -ℤ of_satoshis 5000;
  needed = coin +ℤ of_satoshis 5000;
}

reserve-LocksFunds_example : LocksFunds calm library "m1" safe request account decided_sums bank
unfolding find_first decide_sums convert_amount calculate_network_fee adjust is_adjusted is_short
    ◌+ℤ◌ ◌-ℤ◌
reserve-LocksFunds_example =
    reserve-LocksFunds calm (λ n. refl) library "m1" safe request account decided_sums bank refl
      refl refl refl

-- The database fails at its third call.
abbrev stopped : Env
stopped = record calm { fault = λ n. if n == 2 then some "gone" else none }

reserve-LeavesUnlocked_example :
    LeavesUnlocked stopped library (λ s. none) "m1" safe request "gone" bank
unfolding find_first decide_sums convert_amount calculate_network_fee adjust is_adjusted is_short
    ◌+ℤ◌ ◌-ℤ◌
reserve-LeavesUnlocked_example =
    reserve-LeavesUnlocked stopped library (λ s. none) "m1" safe request account decided_sums "gone"
      bank (refl, (λ n h. ground arith), (λ n h. ground arith)) refl refl refl refl refl

lifecycle-KeepsLock_example : KeepsLock calm library "m1" safe request account bank
unfolding find_first decide_sums convert_amount calculate_network_fee adjust is_adjusted is_short
    ◌+ℤ◌ ◌-ℤ◌
lifecycle-KeepsLock_example =
    lifecycle-KeepsLock calm (λ n. refl) library "m1" safe request account decided_sums bank refl
      refl refl refl refl refl

usd_request-StoresDollars_example :
    StoresDollars library dollars account bank (of_satoshis 200000000) coin (of_satoshis 5000)
unfolding calculate_network_fee network_to_currency
usd_request-StoresDollars_example =
    usd_request-StoresDollars library dollars account bank (of_satoshis 200000000) coin
      (of_satoshis 5000) "1" refl refl refl refl refl refl

accepted_example :
    (is_short account (adjust request account coin coin (of_satoshis 5000)) ≡ false)
    ↔ IsCovered request account coin (of_satoshis 5000)
accepted_example = accepted_iff request account coin (of_satoshis 5000)

abbrev coins : Request
coins = record request { network = "sol" }

-- A wallet of five coins, all of them paid in.
abbrev stash : Balance
stash = record cash { available_balance = of_satoshis 500000000 }

abbrev paid_market : World
paid_market = record market {
  db = record market.db {
    balances = stash ∷ [];
    payments = record (payment "sol") { amount = of_satoshis 500000000 } ∷ [];
  };
}

abbrev coin_sums : Sums
coin_sums = record {
  amount = coin;
  fee = of_satoshis 500;
  net_amount = coin -ℤ of_satoshis 500;
  needed = coin +ℤ of_satoshis 500;
}

paid_market-IsSingle : IsSingle calm "mainnet" shop "sol_mainnet" till stash paid_market
unfolding find_first filter_rows lower contains actual_currency add_to add_payments subtract_all
paid_market-IsSingle = record {
  listed = refl;
  keys = refl;
  order = refl;
  owned = refl;
  funded = refl;
}

reserve_then_sync-ReturnsLock_example : ReturnsLock calm library shop till coins stash paid_market
unfolding filter_rows decide_sums convert_amount calculate_network_fee adjust is_adjusted is_short
    max_zero ◌+ℤ◌ ◌-ℤ◌
reserve_then_sync-ReturnsLock_example =
    reserve_then_sync-ReturnsLock calm (λ n. refl) library shop "sol_mainnet" till coins stash
      coin_sums paid_market paid_market-IsSingle refl refl refl

abbrev settings : Settings
settings = record {
  enable_usdt = false;
  validate_wallet_address = λ currency text. true;
  refusal_text = λ reason. "refused";
}

-- A request with the key of a withdrawal that is there.
abbrev again : Request
again = record request { idempotency_key = "k1"; to_address = "elsewhere" }

abbrev open_shop : World
open_shop = record start { db = record start.db { merchants = shop ∷ [] } }

create_again-GivesExisting_example :
    GivesExisting calm settings library "m1" again open_shop
      (create_withdrawal calm settings library (λ s. none) "m1" again open_shop)
create_again-GivesExisting_example =
    create_again-GivesExisting calm settings library (λ s. none) "m1" again open_shop done
      (Memᴰ.head refl) refl refl

-- A wallet under the name of its network.
abbrev named : World
named = record start { db = record start.db { wallets = safe ∷ till ∷ [] } }

paying_wallet-PaysFor_example : PaysFor "u1" coins till
unfolding find_first is_like network_to_currency find_paying_wallet or_find call find_wallet_where
paying_wallet-PaysFor_example =
    paying_wallet-PaysFor calm "u1" coins "m1" named (record named { tick = 4 }) till refl
