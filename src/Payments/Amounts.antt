-- ===== src/Payments/Amounts.antt =====
-- The amount of a new payment: src/merchant/services/payment_service.rs, with the currencies and
-- their decimals of src/shared/service/wallet.rs.
use zabypay_core.Prelude.{
  ℕ, ℤ, pos, negsuc, ◌+◌, ◌-◌, ◌*◌, ◌^◌, ◌≤◌, String, Option, none, some, ◌≡◌, ltb, leb_ℤ, ltb_ℤ,
  ◌⊎◌, inl, inr, if◌then◌else◌,
}

pub data Currency : Type 0 where
  bitcoin ethereum usdt solana bnb : Currency

-- A `Decimal`: its mantissa, and how many of its digits stand after the point, at most 28.
pub record Decimal : Type 0 where
  pub mantissa : ℤ
  pub scale : ℕ

-- Its value in units of 10⁻²⁸.
unfoldable pub value : Decimal → ℤ
value d = elim d.mantissa [
  | pos n ↦ pos (n * 10 ^ (28 - d.scale))
  | negsuc n ↦ negsuc ((n + 1) * 10 ^ (28 - d.scale) - 1)
]

unfoldable pub get_currency_decimals : Currency → ℕ
get_currency_decimals bitcoin = 8
get_currency_decimals ethereum = 18
get_currency_decimals usdt = 6
get_currency_decimals solana = 9
get_currency_decimals bnb = 18

unfoldable pub get_minimum_amount : Currency → ℤ
get_minimum_amount bitcoin = pos (10 ^ 23)
get_minimum_amount ethereum = pos (10 ^ 25)
get_minimum_amount usdt = pos (10 ^ 26)
get_minimum_amount solana = pos (10 ^ 25)
get_minimum_amount bnb = pos (10 ^ 25)

unfoldable pub get_maximum_amount : Currency → ℤ
get_maximum_amount bitcoin = pos (10 ^ 30)
get_maximum_amount ethereum = pos (10 ^ 31)
get_maximum_amount usdt = pos (10 ^ 33)
get_maximum_amount solana = pos (10 ^ 33)
get_maximum_amount bnb = pos (10 ^ 33)

-- Why an amount is refused, each a validation error with a text of its own.
pub data AmountError : Type 0 where
  bad_format not_positive too_precise too_small too_large : AmountError

-- `Decimal::from_str` is the parameter `parse`.
unfoldable pub validate_and_parse_amount :
    (String → Option Decimal) → String → Currency → AmountError ⊎ ℤ
validate_and_parse_amount parse text currency = elim (parse text) [
  | none ↦ inl bad_format
  | some d ↦
      if leb_ℤ (value d) (pos 0)
      then inl not_positive
      else if ltb (get_currency_decimals currency) d.scale
      then inl too_precise
      else if ltb_ℤ (value d) (get_minimum_amount currency)
      then inl too_small
      else if ltb_ℤ (get_maximum_amount currency) (value d)
      then inl too_large
      else inr (value d)
]

-- The bounds in smallest units, such as satoshis and lamports.
unfoldable pub least_units : Currency → ℕ
least_units bitcoin = 1000
least_units ethereum = 10 ^ 15
least_units usdt = 10 ^ 4
least_units solana = 10 ^ 6
least_units bnb = 10 ^ 15

unfoldable pub most_units : Currency → ℕ
most_units bitcoin = 10 ^ 10
most_units ethereum = 10 ^ 21
most_units usdt = 10 ^ 11
most_units solana = 10 ^ 14
most_units bnb = 10 ^ 23

-- The number is a whole one of smallest units of the currency, as it is written, within bounds.
abbrev pub IsPayable : Currency → Decimal → Type 0
IsPayable currency d =
    (d.scale ≤ get_currency_decimals currency)
    × ((k : ℕ) × (value d ≡ pos (k * 10 ^ (28 - get_currency_decimals currency)))
        × (least_units currency ≤ k)
        × (k ≤ most_units currency))

module _ (parse : String → Option Decimal) (text : String) (n scale : ℕ) where
  abbrev whole : Decimal
  whole = record { mantissa = pos n; scale = scale }
