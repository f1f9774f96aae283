-- ===== src/Creation/Decide.antt =====
-- Which sums a request leads to.
use zabypay_core.Prelude.{
  ℕ, ◌*◌, ◌/◌, ◌^◌, ℤ, pos, String, true, false, some, ◌≡◌, ◌↔◌, ◌⊎◌, inl, inr, refl, sym, ◌∙◌, ap,
  arith, int_laws, eq_of_parts, ◌+ℤ◌, ◌-ℤ◌, ◌≤ℤ◌, ◌<ℤ◌, leb, ltb_ℤ, -ℤ_parts, ltb_ℤ_of_le, ltb_ℤ→≤ℤ,
  str_eq, Bool-cases,
}
use zabypay_core.Entities.{Balance}
use zabypay_core.Store.{World, ok}
use zabypay_core.Creation.Amounts.{
  Library, Request, Sums, network_to_currency, calculate_network_fee, is_usd_withdrawal,
  is_adjusted, is_short, adjust, to_lamports, convert_amount, decide_sums,
}

-- A coin has 10²⁸ of the units, and 10⁹ lamports.
abbrev pub lamports : ℕ → ℤ
lamports n = pos (n * (10 ^ 28 / 10 ^ 9))

-- Less than 10,001 lamports, or 2⁶⁴ lamports or more.
abbrev pub IsSmall : ℤ → Type 0
IsSmall missing = (missing <ℤ lamports 10001) ⊎ (lamports (2 ^ 64) ≤ℤ missing)

-- What is available covers the amount and the fee; or the network is "sol", what is missing is small,
-- and something is left beside the fee.
abbrev pub IsCovered : Request → Balance → ℤ → ℤ → Type 0
IsCovered request read amount fee =
    (amount +ℤ fee ≤ℤ read.available_balance)
    ⊎ ((str_eq request.network "sol" ≡ true)
        × IsSmall (amount +ℤ fee -ℤ read.available_balance)
        × (fee <ℤ read.available_balance))

few_lamports : (d : ℤ) → leb (to_lamports d) 10000 ≡ true → IsSmall d
unfolding to_lamports
few_lamports d h = ground arith

small_is_few : (d : ℤ) → IsSmall d → leb (to_lamports d) 10000 ≡ true
unfolding to_lamports
small_is_few d (inl h) = ground arith
small_is_few d (inr h) = ground arith

left_beside : (a b : ℤ) → (ltb_ℤ (pos 0) (a -ℤ b) ≡ true) ↔ (b <ℤ a)
left_beside a b = ((λ h. ground (arith, -ℤ_parts a b)), (λ h. ground (arith, -ℤ_parts a b)))

sub_add : (a b : ℤ) → a -ℤ b +ℤ b ≡ a
sub_add a b = eq_of_parts _ _ (omega int_laws)

module _ (request : Request) (read : Balance) (amount fee : ℤ) where
  -- The sums of a Solana request that was cut down take all that is available.
  adjusted_takes_all :
      is_adjusted request read fee (amount +ℤ fee) ≡ true
      → (adjust request read amount amount fee).amount
          +ℤ (adjust request read amount amount fee).fee
        ≡ read.available_balance
  unfolding adjust
  adjusted_takes_all h = ground (arith, sub_add read.available_balance fee)

  kept_sums :
      is_adjusted request read fee (amount +ℤ fee) ≡ false
      → is_short read (adjust request read amount amount fee)
        ≡ ltb_ℤ read.available_balance (amount +ℤ fee)
  unfolding adjust is_short
  kept_sums h = ground arith

  adjusted_fits :
      is_adjusted request read fee (amount +ℤ fee) ≡ true
      → is_short read (adjust request read amount amount fee) ≡ false
  unfolding is_short
  adjusted_fits h =
      ap (ltb_ℤ read.available_balance) (adjusted_takes_all h)
      ∙ ltb_ℤ_of_le read.available_balance read.available_balance (omega arith)

  covered_passes :
      IsCovered request read amount fee
      → is_short read (adjust request read amount amount fee) ≡ false
  unfolding is_adjusted
  covered_passes (inl fits) =
      let enough = ltb_ℤ_of_le read.available_balance (amount +ℤ fee) fits in
      kept_sums (ground (arith, enough)) ∙ enough
  covered_passes (inr (sol, near, left)) =
      elim (Bool-cases (ltb_ℤ read.available_balance (amount +ℤ fee))) [
        | inl short ↦ adjusted_fits (
            ground (
              arith,
              sol,
              short,
              (left_beside read.available_balance fee).1 left,
              small_is_few (amount +ℤ fee -ℤ read.available_balance) near,
            ))
        | inr enough ↦ kept_sums (ground (arith, enough)) ∙ enough
      ]

  accepted-IsCovered :
      is_short read (adjust request read amount amount fee) ≡ false
      → IsCovered request read amount fee
  unfolding is_adjusted
  accepted-IsCovered h = elim (Bool-cases (is_adjusted request read fee (amount +ℤ fee))) [
    | inl cut ↦ inr (
      ground arith,
      few_lamports (amount +ℤ fee -ℤ read.available_balance) (ground arith),
      (left_beside read.available_balance fee).0 (ground arith),
    )
    | inr kept ↦ inl (ltb_ℤ→≤ℤ read.available_balance (amount +ℤ fee) (sym (kept_sums kept) ∙ h))
  ]

  -- For an amount that was not converted, the check of the balance passes exactly where the
  -- available balance covers the amount and the fee; or the network is "sol", the balance exceeds
  -- the fee, and what is missing is less than 10,001 lamports, or is 2⁶⁴ lamports or more. A
  -- lamport is 10⁻⁹ of a coin.
  pub accepted_iff :
      (is_short read (adjust request read amount amount fee) ≡ false)
      ↔ IsCovered request read amount fee
  accepted_iff = (accepted-IsCovered, covered_passes)

-- A request in dollars on another network than "sol" leads to sums whose amount is the number of
-- dollars, and whose net amount and needed sum are of the converted amount.
abbrev pub StoresDollars : Library → Request → Balance → World → ℤ → ℤ → ℤ → Type 0
StoresDollars library request read s dollars crypto fee =
    (sums : Sums) × (decide_sums library request read s ≡ ok sums s)
    × (sums.amount ≡ dollars)
    × (sums.net_amount ≡ crypto -ℤ fee)
    × (sums.needed ≡ crypto +ℤ fee)
    × (is_short read sums ≡ ltb_ℤ read.available_balance (dollars +ℤ fee))

-- Where the conversion of a request in dollars on another network than "sol" succeeds, the amount
-- that is stored, and that the balance is checked against, is the number of dollars taken as a
-- number of coins; the converted amount only reaches the net amount and the text of an error.
pub usd_request-StoresDollars :
    (library : Library) (request : Request) (read : Balance) (s : World) (dollars crypto fee : ℤ)
    (text : String)
    → is_usd_withdrawal request ≡ true
    → str_eq request.network "sol" ≡ false
    → library.parse request.amount ≡ some dollars
    → library.convert request.amount (network_to_currency request.network) request.environment
      ≡ inr text
    → library.parse text ≡ some crypto
    → calculate_network_fee request.network request.environment ≡ some fee
    → StoresDollars library request read s dollars crypto fee
unfolding decide_sums convert_amount adjust is_adjusted is_short
usd_request-StoresDollars library request read s dollars crypto fee text usd network parsed
      converted again priced =
    let kept : is_adjusted request read fee (crypto +ℤ fee) ≡ false = ground arith in
    (
      record { amount = dollars; fee = fee; net_amount = crypto -ℤ fee; needed = crypto +ℤ fee },
      ground (arith, kept),
      refl,
      refl,
      refl,
      refl,
    )
