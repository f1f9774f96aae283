-- ===== src/Quotes/Agree.antt =====
-- Whether the answers of `get_max_withdrawable_amount` and `estimate_fee` in
-- src/merchant/services/withdrawal_service.rs agree with each other.
use zabypay_core.Prelude.{
  ◌&&◌, ℤ, pos, String, Bool, true, false, some, List, [], ◌∷◌, ◌≡◌, ◌↔◌, ◌∙◌, ◌/◌, ◌^◌, ◌<ℤ◌, ◌⊎◌,
  inl, inr, arith, +ℤ_parts, -ℤ_parts, ◌+ℤ◌, ◌-ℤ◌, ◌≤ℤ◌, leb_ℤ, ltb_ℤ, lower, str_eq,
}
use zabypay_core.Prelude.Table.{find_first}
use zabypay_core.Errors.{AppError, validation_error}
use zabypay_core.Creation.Amounts.{calculate_network_fee}
use zabypay_core.Quotes.{
  Decimals, NetworkBalance, MaxWithdrawableRequest, FeeEstimateRequest, EvmPreview, min_ℤ, max_ℤ,
  matches_estimate, matches_max, rest_of, safety_buffer_of, transferable_of,
}
use zabypay_core.Quotes.Balances.{count}
use zabypay_core.Quotes.Estimate.{symbol_of, insufficient_text, estimate_from, estimate_with}
use zabypay_core.Quotes.Maximum.{max_response, max_from, max_with}

abbrev pub is_answered : {A : Type 0} → AppError ⊎ A → Bool
is_answered (inl e) = false
is_answered (inr x) = true

-- Where all is read, the estimate is made from the balance, the amount and the fee.
estimate_reads :
    (library : Decimals) (balances : List NetworkBalance) (request : FeeEstimateRequest)
    (b : NetworkBalance) (total amount fee : ℤ)
    → find_first (matches_estimate request.network) balances ≡ some b
    → library.parse b.available ≡ some total
    → library.parse request.amount ≡ some amount
    → calculate_network_fee request.network request.environment ≡ some fee
    → estimate_with library balances request ≡ estimate_from library request total amount fee
unfolding estimate_with
estimate_reads library balances request b total amount fee found has asked priced =
    rw (found, has, asked, priced)

-- The shares of a balance that bound the buffer, by the decimals' own product, and 0.000001.
abbrev pub thousandth : Decimals → ℤ → ℤ
thousandth library total = library.times total (pos (10 ^ 28 / 1000))

abbrev pub tenth : Decimals → ℤ → ℤ
tenth library total = library.times total (pos (10 ^ 28 / 10))

abbrev pub millionth : ℤ
millionth = pos (10 ^ 28 / 10 ^ 6)

-- The balance covers the sum and a buffer, which is the greater of a thousandth of the balance and
-- 0.000001, or a tenth of the balance where that is less.
abbrev pub CoversBuffered : Decimals → ℤ → ℤ → Type 0
CoversBuffered library total sum =
    ((sum +ℤ thousandth library total ≤ℤ total) × (sum +ℤ millionth ≤ℤ total))
    ⊎ (sum +ℤ tenth library total ≤ℤ total)

-- The balance does not exceed the fee and that buffer.
abbrev pub IsThin : Decimals → ℤ → ℤ → Type 0
IsThin library total fee =
    ((total ≤ℤ fee +ℤ thousandth library total) ⊎ (total ≤ℤ fee +ℤ millionth))
    × (total ≤ℤ fee +ℤ tenth library total)

module _ (sum total p m t : ℤ) where
  under_buffer :
      (sum +ℤ min_ℤ (max_ℤ p m) t ≤ℤ total)
      ↔ (((sum +ℤ p ≤ℤ total) × (sum +ℤ m ≤ℤ total)) ⊎ (sum +ℤ t ≤ℤ total))
  under_buffer = (
    (λ h. ground (arith, +ℤ_parts sum p, +ℤ_parts sum m, +ℤ_parts sum t)),
    (λ h. ground (arith, +ℤ_parts sum p, +ℤ_parts sum m, +ℤ_parts sum t)),
  )

  within_buffer :
      (total ≤ℤ sum +ℤ min_ℤ (max_ℤ p m) t)
      ↔ (((total ≤ℤ sum +ℤ p) ⊎ (total ≤ℤ sum +ℤ m)) × (total ≤ℤ sum +ℤ t))
  within_buffer = (
    (λ h. ground (arith, +ℤ_parts sum p, +ℤ_parts sum m, +ℤ_parts sum t)),
    (λ h. ground (arith, +ℤ_parts sum p, +ℤ_parts sum m, +ℤ_parts sum t)),
  )

module _ (library : Decimals) (total amount fee : ℤ) where
  abbrev buffer : ℤ
  buffer = min_ℤ (max_ℤ (thousandth library total) millionth) (tenth library total)

  -- The test of the estimate, by sums.
  passes_sums :
      (ltb_ℤ (transferable_of library total fee) amount
          && ltb_ℤ (pos 0) (transferable_of library total fee)
        ≡ false)
      ↔ ((amount +ℤ fee +ℤ buffer ≤ℤ total) ⊎ (total ≤ℤ fee +ℤ buffer))
  unfolding transferable_of safety_buffer_of
  passes_sums = (
    (λ h. ground (
      arith,
      +ℤ_parts amount fee,
      +ℤ_parts (amount +ℤ fee) buffer,
      +ℤ_parts fee buffer,
      -ℤ_parts total fee,
      -ℤ_parts (total -ℤ fee) buffer,
    )),
    (λ h. ground (
      arith,
      +ℤ_parts amount fee,
      +ℤ_parts (amount +ℤ fee) buffer,
      +ℤ_parts fee buffer,
      -ℤ_parts total fee,
      -ℤ_parts (total -ℤ fee) buffer,
    )),
  )

  passes_iff :
      (ltb_ℤ (transferable_of library total fee) amount
          && ltb_ℤ (pos 0) (transferable_of library total fee)
        ≡ false)
      ↔ (CoversBuffered library total (amount +ℤ fee) ⊎ IsThin library total fee)
  passes_iff =
      let covers =
        under_buffer (amount +ℤ fee) total (thousandth library total) millionth
          (tenth library total) in
      let thin =
        within_buffer fee total (thousandth library total) millionth (tenth library total) in
      (
        (λ h. elim (passes_sums.0 h) [ inl a ↦ inl (covers.0 a) | inr b ↦ inr (thin.0 b) ]),
        (λ h. passes_sums.1 (elim h [ inl a ↦ inl (covers.1 a) | inr b ↦ inr (thin.1 b) ])),
      )

-- Where an entry matches a request, its balance and the amount are read as numbers and the network
-- has a fee: the estimate answers exactly where the balance exceeds the fee and, besides, either
-- covers the amount, the fee and a safety buffer together, or does not even exceed the fee and the
-- buffer. The buffer is a thousandth of the balance, but at least 0.000001 and at most a tenth of
-- the balance, as the decimals round them.
pub estimate_iff :
    (library : Decimals) (balances : List NetworkBalance) (request : FeeEstimateRequest)
    (b : NetworkBalance) (total amount fee : ℤ)
    → find_first (matches_estimate request.network) balances ≡ some b
    → library.parse b.available ≡ some total
    → library.parse request.amount ≡ some amount
    → calculate_network_fee request.network request.environment ≡ some fee
    → (is_answered (estimate_with library balances request) ≡ true)
      ↔ ((fee <ℤ total) × (CoversBuffered library total (amount +ℤ fee) ⊎ IsThin library total fee))
unfolding estimate_from
estimate_iff library balances request b total amount fee found has asked priced =
    let reads = estimate_reads library balances request b total amount fee found has asked priced in
    let passes = passes_iff library total amount fee in
    (
      (λ h. (ground (arith, reads), passes.0 (ground (arith, reads)))),
      (λ h. let (above, fits) = h in ground (arith, above, passes.1 fits, reads)),
    )

-- Where all is read, the balance is positive and the network is not "eth", the maximum is what the
-- fee leaves of the balance.
max_reads :
    (library : Decimals) (evm : AppError ⊎ EvmPreview) (balances : List NetworkBalance)
    (request : MaxWithdrawableRequest) (b : NetworkBalance) (total fee : ℤ)
    → find_first (matches_max library request.network) balances ≡ some b
    → library.parse b.available ≡ some total
    → calculate_network_fee request.network request.environment ≡ some fee
    → leb_ℤ total (pos 0) ≡ false
    → str_eq (lower request.network) "eth" ≡ false
    → max_with library evm balances request
      ≡ inr (max_response library request b (count balances) total fee)
unfolding max_with max_from find_first
max_reads library evm [] request b total fee found has priced positive other = ground arith
max_reads library evm (c ∷ balances) request b total fee found has priced positive other =
    rw (found, has, priced, positive, other)

-- The request for an estimate of the amount, on the network and in the environment of another request.
abbrev pub estimate_request : MaxWithdrawableRequest → String → FeeEstimateRequest
estimate_request request amount = record {
  network = request.network;
  environment = request.environment;
  amount = amount;
}

-- What is left after the fee is more than what is transferable.
rest_exceeds :
    (library : Decimals) (total fee : ℤ)
    → ltb_ℤ (pos 0) (safety_buffer_of library total) ≡ true
    → ltb_ℤ (fee +ℤ safety_buffer_of library total) total ≡ true
    → (ltb_ℤ (transferable_of library total fee) (rest_of total fee) ≡ true)
      × (ltb_ℤ (pos 0) (transferable_of library total fee) ≡ true)
unfolding transferable_of rest_of
rest_exceeds library total fee buffered ample =
    let buffer = safety_buffer_of library total in
    ground (arith, +ℤ_parts fee buffer, -ℤ_parts total fee, -ℤ_parts (total -ℤ fee) buffer)

-- Where both look at the same entry, the network is not "eth", its balance is positive and above the
-- fee and the safety buffer together, the buffer is positive, and a decimal is read as it was
-- printed: the maximum that is answered is what the fee leaves of the balance, and an estimate for
-- that very amount is refused as more than is transferable.
pub max_then_estimate-Refused :
    (library : Decimals) (evm : AppError ⊎ EvmPreview) (balances : List NetworkBalance)
    (request : MaxWithdrawableRequest) (b : NetworkBalance) (total fee : ℤ)
    → find_first (matches_max library request.network) balances ≡ some b
    → find_first (matches_estimate request.network) balances ≡ some b
    → library.parse b.available ≡ some total
    → ((d : ℤ) → library.parse (library.print d) ≡ some d)
    → calculate_network_fee request.network request.environment ≡ some fee
    → leb_ℤ total (pos 0) ≡ false
    → str_eq (lower request.network) "eth" ≡ false
    → ltb_ℤ (pos 0) (safety_buffer_of library total) ≡ true
    → ltb_ℤ (fee +ℤ safety_buffer_of library total) total ≡ true
    → (max_with library evm balances request
        ≡ inr (max_response library request b (count balances) total fee))
      × (estimate_with library balances (
            estimate_request request
              (max_response library request b (count balances) total fee).max_withdrawable)
          ≡ inl (
              validation_error (
                insufficient_text library
                  (symbol_of library request.network)
                  (transferable_of library total fee)
                  (rest_of total fee))))
unfolding estimate_from
max_then_estimate-Refused library evm balances request b total fee found again has printed priced
      positive other buffered ample =
    (
      max_reads library evm balances request b total fee found has priced positive other,
      (let (exceeds, some_left) = rest_exceeds library total fee buffered ample in
          estimate_reads library balances
            (estimate_request request (library.print (rest_of total fee))) b total
            (rest_of total fee) fee again has (printed (rest_of total fee)) priced
          ∙ rw (exceeds, some_left)),
    )
