-- ===== src/BalanceSync/Totals.antt =====
-- The sums by currency: what was paid, less what was withdrawn and confirmed.
use zabypay_core.Prelude.{
  ◌==◌, ℕ, ℤ, pos, neg, String, Bool, false, Option, none, some, List, [], ◌∷◌, ◌+ℤ◌, ◌-ℤ◌, ◌<>◌,
  ◌&&◌, ◌||◌, str_eq, lower, codes, contains, starts_with, same, to_lowercase, length,
  if◌then◌else◌,
}
use zabypay_core.Entities.{Withdrawal, Payment}

-- An entry of the `HashMap`.
pub record Total : Type 0 where
  pub key : String
  pub amount : ℤ

abbrev pub key_of : String → String → String
key_of currency environment = currency <> "_" <> environment

abbrev pub keys_of : List Total → List String
keys_of [] = []
keys_of (t ∷ ts) = t.key ∷ keys_of ts

unfoldable pub has_key : String → List Total → Bool
has_key key [] = false
has_key key (t ∷ ts) = str_eq t.key key || has_key key ts

unfoldable pub total_of_key : String → List Total → ℤ
total_of_key key [] = pos 0
total_of_key key (t ∷ ts) = if str_eq t.key key then t.amount else total_of_key key ts

-- `*entry(key).or_insert(ZERO) += amount`
unfoldable pub add_to : String → ℤ → List Total → List Total
add_to key amount [] = record { key = key; amount = pos 0 +ℤ amount } ∷ []
add_to key amount (t ∷ ts) =
    if str_eq t.key key
    then record t { amount = t.amount +ℤ amount } ∷ ts
    else t ∷ add_to key amount ts

-- `*entry(key).or_insert(ZERO) -= amount`
unfoldable pub take_from : String → ℤ → List Total → List Total
take_from key amount [] = record { key = key; amount = pos 0 -ℤ amount } ∷ []
take_from key amount (t ∷ ts) =
    if str_eq t.key key
    then record t { amount = t.amount -ℤ amount } ∷ ts
    else t ∷ take_from key amount ts

-- The currency that a payment counts for: USDT on BNB is told by its name, or by its hash.
unfoldable pub actual_currency : (String → Option String) → Payment → String
actual_currency json_tx_hash p =
    if str_eq (lower p.currency) "usdt" || contains (lower p.currency) "usdt_bnb"
    then (if contains (lower p.currency) "usdt_bnb" then "usdt_bnb" else elim p.metadata [
      | none ↦ p.currency
      | some text ↦ elim (json_tx_hash text) [
        | none ↦ p.currency
        | some hash ↦
            if length (codes hash) == 66 && starts_with (codes hash) (codes "0x")
            then "usdt_bnb"
            else p.currency
      ]
    ])
    else p.currency

abbrev pub payment_key : (String → Option String) → String → Payment → String
payment_key json_tx_hash environment p = key_of (lower (actual_currency json_tx_hash p)) environment

unfoldable pub add_payments :
    (String → Option String) → String → List Payment → List Total → List Total
add_payments json_tx_hash environment [] totals = totals
add_payments json_tx_hash environment (p ∷ ps) totals =
    add_payments json_tx_hash environment ps
      (add_to (payment_key json_tx_hash environment p) p.amount totals)

-- One withdrawal: the first of its keys that is there, or a new entry below zero. The keys with the
-- normalised currency are those with the currency.
unfoldable pub subtract : String → Withdrawal → List Total → List Total
subtract environment w totals =
    if has_key (key_of (lower w.currency) environment) totals
    then take_from (key_of (lower w.currency) environment) w.amount totals
    else if has_key (lower w.currency) totals
    then take_from (lower w.currency) w.amount totals
    else record { key = key_of (lower w.currency) environment; amount = neg w.amount } ∷ totals

unfoldable pub subtract_all : String → List Withdrawal → List Total → List Total
subtract_all environment [] totals = totals
subtract_all environment (w ∷ ws) totals =
    subtract_all environment ws (subtract environment w totals)

abbrev pub totals_of :
    (String → Option String) → String → List Payment → List Withdrawal → List Total
totals_of json_tx_hash environment paid confirmed =
    subtract_all environment confirmed (add_payments json_tx_hash environment paid [])

-- `strip_suffix` of the environment, then the part before the first underscore.
abbrev pub until_underscore : List ℕ → List ℕ
until_underscore [] = []
until_underscore (c ∷ text) = if c == b'_' then [] else c ∷ until_underscore text

abbrev pub strip_suffix : List ℕ → List ℕ → List ℕ
strip_suffix [] suffix = []
strip_suffix (c ∷ text) suffix = if same (c ∷ text) suffix then [] else c ∷ strip_suffix text suffix

-- `extract_base_currency_from_key`, as code points.
unfoldable pub base_code : String → String → List ℕ
base_code key environment = until_underscore (strip_suffix (codes key) (codes ("_" <> environment)))

abbrev reads : List ℕ → String → Bool
reads text word = same (to_lowercase text) (codes word)

-- The texts that `Currency::from_str` reads.
unfoldable pub is_supported : List ℕ → Bool
is_supported text =
    reads text "bitcoin"
    || reads text "btc"
    || reads text "ethereum"
    || reads text "eth"
    || reads text "usdt"
    || reads text "tether"
    || reads text "usdt_bnb"
    || reads text "usdt_bep20"
    || reads text "tether_bnb"
    || reads text "solana"
    || reads text "sol"
    || reads text "bnb"
    || reads text "binance"
    || reads text "binancecoin"
