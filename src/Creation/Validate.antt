-- ===== src/Creation/Validate.antt =====
-- The validation of an amount: src/merchant/models/withdrawal.rs, `validate_amount_for_network`.
use zabypay_core.Prelude.{
  ℕ, ℤ, pos, ◌*◌, ◌^◌, String, true, false, none, some, ◌≡◌, ◌↔◌, arith, str_eq, leb_ℤ, ltb_ℤ, ◌≤ℤ◌,
  ◌||◌, if◌then◌else◌,
}
use zabypay_core.Errors.{validation_error}
use zabypay_core.Entities.{Balance}
use zabypay_core.Store.{World, err}
use zabypay_core.Creation.Amounts.{Library, Request, of_satoshis, decide_sums}

-- Why an amount is refused; the texts of the last two name the bound and the network.
pub data Refusal : Type 0 where
  invalid_format not_positive : Refusal
  below_minimum above_maximum : ℤ → String → Refusal

pub data Validated : Type 0 where
  valid : ℤ → Validated
  refused : Refusal → Validated

-- Whole coins, in units of 10⁻²⁸.
abbrev pub coins : ℕ → ℤ
coins n = pos (n * 10 ^ 28)

unfoldable pub min_amount : String → ℤ
min_amount network =
    if str_eq network "btc" || str_eq network "eth" || str_eq network "bnb"
    then of_satoshis 1
    else if str_eq network "sol"
    then of_satoshis 10
    else if str_eq network "usdt_erc20" || str_eq network "usdt_bep20"
    then of_satoshis 10000000
    else pos 0

unfoldable pub max_amount : String → ℤ
max_amount network =
    if str_eq network "btc"
    then coins 10
    else if str_eq network "eth"
    then coins 100
    else if str_eq network "bnb"
    then coins 1000
    else if str_eq network "sol"
    then coins 10000
    else if str_eq network "usdt_erc20" || str_eq network "usdt_bep20"
    then coins 100000
    else coins 1000000

unfoldable pub validate_amount_for_network : Library → Request → Validated
validate_amount_for_network library request =
    if str_eq request.amount "max" then valid (pos 0) else elim (library.parse request.amount) [
      | none ↦ refused invalid_format
      | some amount ↦
          if leb_ℤ amount (pos 0)
          then refused not_positive
          else if ltb_ℤ amount (min_amount request.network)
          then refused (below_minimum (min_amount request.network) request.network)
          else if ltb_ℤ (max_amount request.network) amount
          then refused (above_maximum (max_amount request.network) request.network)
          else valid amount
    ]

module _ (library : Library) (request : Request) where
  -- The request's amount is read as this number, positive and within the network's bounds.
  abbrev pub IsWithin : ℤ → Type 0
  IsWithin amount =
      (library.parse request.amount ≡ some amount)
      × (leb_ℤ amount (pos 0) ≡ false)
      × (min_amount request.network ≤ℤ amount)
      × (amount ≤ℤ max_amount request.network)

  -- For an amount other than "max", the validation gives a number exactly where the amount is read as
  -- that number and it is positive and within the bounds of the network.
  pub validate_iff :
      (amount : ℤ)
      → str_eq request.amount "max" ≡ false
      → (validate_amount_for_network library request ≡ valid amount) ↔ IsWithin amount
  unfolding validate_amount_for_network
  validate_iff amount word = (
    (λ h. ground arith),
    (λ h. let (read, positive, low, high) = h in ground (arith, read, positive, low, high)),
  )

  -- A request for "max" passes the validation, but where "max" is not read as a number, every balance
  -- leads to the refusal of the amount when the sums are decided.
  max_refused :
      (read : Balance) (s : World)
      → str_eq request.amount "max" ≡ true
      → library.parse request.amount ≡ none
      → (validate_amount_for_network library request ≡ valid (pos 0))
        × (decide_sums library request read s ≡ err (validation_error "Invalid amount") s)
  unfolding validate_amount_for_network decide_sums
  max_refused read s word unread = (ground arith, ground arith)
