-- ===== src/Samples.antt =====
-- Environments, rows and databases on which the witnesses evaluate the theorems.
use zabypay_core.Prelude.{String, pos, [], ◌∷◌, none, some, true, ◌==◌, if◌then◌else◌}
use zabypay_core.Entities.{Withdrawal, Balance, Wallet, Payment, Merchant}
use zabypay_core.Store.{address, hashed, status, Env, World}

abbrev pub calm : Env
calm = record {
  now = λ n. n;
  uuid = λ n. "u";
  fault = λ n. none;
  uuid_hex = λ n. "00";
  send = λ n. hashed "sig";
  tx_status = λ n. status true (pos 1) none;
  keygen = λ n. address "fresh";
  json_tx_hash = λ text. none;
  hash_order = λ keys. keys;
}

-- The database fails at its second call.
abbrev pub flaky : Env
flaky = record calm { fault = λ n. if n == 1 then some "gone" else none }

abbrev pub sent : Withdrawal
sent = record {
  id = "w1";
  merchant_id = "m1";
  wallet_id = "a1";
  external_id = "x1";
  idempotency_key = "k1";
  environment = "mainnet";
  network = "btc";
  currency = "bitcoin";
  to_address = "bc1q";
  amount = pos 70;
  fee = some (pos 5);
  net_amount = pos 65;
  status = "broadcasted";
  tx_hash = some "abcd";
  blockchain_confirmations = none;
  required_confirmations = pos 6;
  metadata = none;
  error_message = none;
  created_at = 0;
  processed_at = none;
  confirmed_at = none;
  updated_at = 0;
  broadcast_at = none;
  failed_at = none;
  failure_reason = none;
  finality_required = pos 6;
  finality_reached_at = none;
  replaced_by_tx = none;
  reorg_depth = pos 0;
  lifecycle_state = "quoted";
  withdrawal_funds_state = "locked";
}

-- One that is done already.
abbrev pub done : Withdrawal
done = record sent { id = "w0"; status = "confirmed"; withdrawal_funds_state = "confirmed" }

abbrev pub purse : Balance
purse = record {
  id = "b1";
  wallet_id = "a1";
  currency = "bitcoin";
  available_balance = pos 100;
  pending_balance = pos 0;
  total_balance = pos 180;
  locked_balance = pos 80;
  last_updated = 0;
  created_at = 0;
}

abbrev pub safe : Wallet
safe = record { id = "a1"; user_id = "u1"; address = "bc1p"; currency = "bitcoin" }

-- A withdrawal that waits, on this network.
abbrev pub waiting : String → Withdrawal
waiting network = record sent { id = "w2"; network = network; status = "pending"; tx_hash = none }

abbrev pub start : World
start = record {
  db = record {
    withdrawals = done ∷ sent ∷ [];
    balances = purse ∷ [];
    wallets = safe ∷ [];
    transactions = [];
    payments = [];
    merchants = [];
  };
  tick = 0;
  transfers = [];
  spawned = [];
  queued = [];
  slept = 0;
  events = [];
}

-- The world in which it waits.
abbrev pub queue : String → World
queue network = record start { db = record start.db { withdrawals = done ∷ waiting network ∷ [] } }

abbrev pub shop : Merchant
shop = record { id = "m1"; user_id = "u1" }

-- A payment of ninety in this currency.
abbrev pub payment : String → Payment
payment currency = record {
  id = "p1";
  merchant_id = "m1";
  external_id = none;
  amount = pos 90;
  currency = currency;
  wallet_address = "s1";
  status = "paid";
  metadata = none;
  payment_url = none;
  expires_at = 50;
  paid_at = some 9;
  created_at = 0;
  updated_at = none;
  environment = "mainnet";
}

abbrev pub till : Wallet
till = record { id = "a2"; user_id = "u1"; address = "s1"; currency = "sol_mainnet" }

abbrev pub cash : Balance
cash = record {
  id = "b2";
  wallet_id = "a2";
  currency = "sol_mainnet";
  available_balance = pos 180;
  pending_balance = pos 4;
  total_balance = pos 180;
  locked_balance = pos 7;
  last_updated = 0;
  created_at = 0;
}

-- A merchant that was paid twice in one currency, with nothing withdrawn.
abbrev pub market : World
market = record start {
  db = record {
    withdrawals = [];
    balances = purse ∷ cash ∷ [];
    wallets = safe ∷ till ∷ [];
    transactions = [];
    payments = payment "SOL" ∷ payment "sol" ∷ [];
    merchants = shop ∷ [];
  };
}
