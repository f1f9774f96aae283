-- ===== src/Quotes/Tests.antt =====
-- A merchant with one SOL, who asks for the maximum and for an estimate.
use Prim.Native.Char.{code}
use Prim.Native.String.{char_at}
use zabypay_core.Prelude.{
  ℕ, zero, suc, ◌*◌, ◌/◌, ◌^◌, ℤ, pos, negsuc, pos_part, String, true, false, Option, none, some,
  [], ◌∷◌, ◌≡◌, refl, ap, ◌+ℤ◌, ◌↔◌, ◌⊎◌, ◌<ℤ◌, inl, inr, ◌==◌, ltb_ℤ, lower, str_eq, if◌then◌else◌,
}
use zabypay_core.Prelude.Table.{find_first}
use zabypay_core.Errors.{AppError, validation_error, internal_server_error}
use zabypay_core.Store.{world_of}
use zabypay_core.Samples.{flaky, market}
use zabypay_core.Creation.Amounts.{calculate_network_fee}
use zabypay_core.BalanceSync.Mild.{Mild}
use zabypay_core.Quotes.{
  Decimals, NetworkBalance, MaxWithdrawableRequest, EvmPreview, matches_estimate, matches_max,
  rest_of, safety_buffer_of, transferable_of,
}
use zabypay_core.Quotes.Balances.{count, names_of, extract_currency_and_network}
use zabypay_core.Quotes.Estimate.{symbol_of, insufficient_text, estimate_with}
use zabypay_core.Quotes.Maximum.{max_response, max_with}
use zabypay_core.Quotes.Answers.{estimate_fee, get_max_withdrawable_amount}
use zabypay_core.Quotes.Reads.{asking-Mild}
use zabypay_core.Quotes.Agree.{
  is_answered, CoversBuffered, IsThin, estimate_request, estimate_iff, max_then_estimate-Refused,
}

-- Tallies: a sign, and a stroke for each unit.
unfoldable tally : ℕ → String
tally zero = String.[]
tally (suc n) = String.◌∷◌ (char_at "x" 0) (tally n)

unfoldable strokes : String → ℕ
strokes String.[] = 0
strokes (String.◌∷◌ c s) = suc (strokes s)

strokes-tally : (n : ℕ) → strokes (tally n) ≡ n
unfolding strokes tally
strokes-tally zero = refl
strokes-tally (suc n) = ap suc (strokes-tally n)

abbrev print_tally : ℤ → String
print_tally (pos n) = String.◌∷◌ (char_at "+" 0) (tally n)
print_tally (negsuc n) = String.◌∷◌ (char_at "-" 0) (tally n)

abbrev parse_tally : String → Option ℤ
parse_tally String.[] = none
parse_tally (String.◌∷◌ c s) =
    if code c == 43 then some (pos (strokes s)) else some (negsuc (strokes s))

parse-print : (d : ℤ) → parse_tally (print_tally d) ≡ some d
parse-print (pos n) = ap (λ m. some (pos m)) (strokes-tally n)
parse-print (negsuc n) = ap (λ m. some (negsuc m)) (strokes-tally n)

abbrev tallies : Decimals
tallies = record {
  parse = parse_tally;
  print = print_tally;
  times = λ a b. pos (pos_part a * pos_part b / 10 ^ 28);
  upper = λ text. text;
}

abbrev one_sol : ℤ
one_sol = pos (10 ^ 28)

abbrev sol_fee : ℤ
sol_fee = pos (5000 * 10 ^ 19)

abbrev sol_entry : NetworkBalance
sol_entry = record {
  currency = "sol";
  network = "sol";
  symbol = "SOL";
  available = print_tally one_sol;
  pending = "0";
  total = "1";
  decimals = 18;
  updated_at = 0;
}

abbrev sol_request : MaxWithdrawableRequest
sol_request = record { network = "sol"; environment = "mainnet" }

abbrev no_preview : AppError ⊎ EvmPreview
no_preview = inl (internal_server_error "down")

max_finds : find_first (matches_max tallies "sol") (sol_entry ∷ []) ≡ some sol_entry
unfolding find_first matches_max lower
max_finds = refl

estimate_finds : find_first (matches_estimate "sol") (sol_entry ∷ []) ≡ some sol_entry
unfolding find_first matches_estimate lower
estimate_finds = refl

sol_priced : calculate_network_fee "sol" "mainnet" ≡ some sol_fee
unfolding calculate_network_fee
sol_priced = refl

-- The buffer is a thousandth.
sol_buffer : safety_buffer_of tallies one_sol ≡ pos (10 ^ 25)
unfolding safety_buffer_of
sol_buffer = refl

names_test :
    extract_currency_and_network "usdt_bnb_mainnet" "mainnet"
    ≡ record { currency = "usdt_bnb"; network = "usdt_bep20" }
unfolding extract_currency_and_network names_of lower
names_test = refl

asking-Mild_example :
    (Mild market (
      world_of (
        get_max_withdrawable_amount flaky tallies
          (λ n text. none)
          (λ s. no_preview)
          "m1"
          sol_request
          market)))
    × (Mild market (
        world_of (
          estimate_fee flaky tallies
            (λ n text. none)
            (λ s. no_preview)
            "m1"
            (estimate_request sol_request "1")
            market)))
asking-Mild_example =
    asking-Mild flaky tallies (λ n text. none) (λ s. no_preview) "m1" sol_request
      (estimate_request sol_request "1") market

has_room : ltb_ℤ (pos 0) (safety_buffer_of tallies one_sol) ≡ true
has_room = rw sol_buffer refl

is_ample : ltb_ℤ (sol_fee +ℤ safety_buffer_of tallies one_sol) one_sol ≡ true
unfolding ◌+ℤ◌
is_ample = rw sol_buffer refl

not_eth : str_eq (lower "sol") "eth" ≡ false
unfolding lower
not_eth = refl

max_then_estimate-Refused_example :
    (max_with tallies no_preview (sol_entry ∷ []) sol_request
      ≡ inr (max_response tallies sol_request sol_entry (count (sol_entry ∷ [])) one_sol sol_fee))
    × (estimate_with tallies (sol_entry ∷ []) (
          estimate_request sol_request
            (max_response tallies sol_request sol_entry
              (count (sol_entry ∷ []))
              one_sol
              sol_fee).max_withdrawable)
        ≡ inl (
            validation_error (
              insufficient_text tallies
                (symbol_of tallies "sol")
                (transferable_of tallies one_sol sol_fee)
                (rest_of one_sol sol_fee))))
max_then_estimate-Refused_example =
    max_then_estimate-Refused tallies no_preview (sol_entry ∷ []) sol_request sol_entry one_sol
      sol_fee max_finds estimate_finds (parse-print one_sol) parse-print sol_priced refl not_eth
      has_room is_ample

estimate_iff_example :
    (is_answered (
        estimate_with tallies (sol_entry ∷ []) (estimate_request sol_request (print_tally (pos 7))))
      ≡ true)
    ↔ ((sol_fee <ℤ one_sol)
        × (CoversBuffered tallies one_sol (pos 7 +ℤ sol_fee) ⊎ IsThin tallies one_sol sol_fee))
estimate_iff_example =
    estimate_iff tallies (sol_entry ∷ []) (estimate_request sol_request (print_tally (pos 7)))
      sol_entry one_sol (pos 7) sol_fee estimate_finds (parse-print one_sol) (parse-print (pos 7))
      sol_priced
