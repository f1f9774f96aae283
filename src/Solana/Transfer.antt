-- ===== src/Solana/Transfer.antt =====
-- How much a transfer sends.
use zabypay_core.Prelude.{
  subst, sym, ◌⊎◌, ℕ, ◌+◌, ◌^◌, ◌≤◌, ◌<◌, String, some, ◌≡◌, refl, arith, inl, inr, Bool-cases,
  Option-cases, ltb,
}
use zabypay_core.Errors.{AppError}
use zabypay_core.Solana.{
  Node, sent, add_u64, or_zero, actual_transfer_amount, send_checked,
  transfer_sol_with_confirmation, estimate_transfer_fee, execute_withdrawal,
}

-- What was sent is the amount and what the recipient lacked for the rent, up to 890,880 lamports,
-- and the sender had it and the fee.
abbrev pub TopsUp : Node → ℕ → ℕ → Type 0
TopsUp node amount x =
    (amount ≤ x)
    × (x ≤ amount + 890880)
    × (890880 ≤ or_zero node.recipient_balance + x)
    × ((balance fee : ℕ) × (node.sender_balance ≡ some balance)
        × (node.fee_for_message x ≡ some fee)
        × (x + fee ≤ balance))

actual_lem :
    (amount recipient : ℕ)
    → amount + 890880 < 2 ^ 64
    → (amount ≤ actual_transfer_amount amount recipient)
      × (actual_transfer_amount amount recipient ≤ amount + 890880)
      × (890880 ≤ recipient + actual_transfer_amount amount recipient)
unfolding actual_transfer_amount
actual_lem amount recipient small = (ground arith, ground arith, ground arith)

-- The fees of the node are below 2³² lamports.
abbrev pub IsCheap : Node → Type 0
IsCheap node = (y fee : ℕ) → node.fee_for_message y ≡ some fee → fee < 2 ^ 32

module _ (node : Node) (cheap : IsCheap node) (amount x : ℕ) (signature : String)
    (small : amount < 2 ^ 63) where
  checked_lem :
      (balance fee actual : ℕ)
      → fee < 2 ^ 32
      → actual ≤ amount + 890880
      → send_checked node balance actual fee ≡ sent x signature
      → (x ≡ actual) × (actual + fee ≤ balance)
  unfolding send_checked
  checked_lem balance fee actual low bound h =
      elim (Bool-cases (ltb balance (add_u64 actual fee))) [
        | inl short ↦ absurd (ground (arith, short))
        | inr enough ↦ elim (Option-cases (node.send_and_confirm actual)) [
          | inl lost ↦ absurd (ground (arith, enough, lost))
          | inr (text, done) ↦ (ground (arith, enough, done), ground (arith, enough))
        ]
      ]

  transfer_lem :
      transfer_sol_with_confirmation node amount ≡ sent x signature → TopsUp node amount x
  unfolding transfer_sol_with_confirmation
  transfer_lem h = elim (Option-cases node.sender_balance) [
    | inl gone ↦ absurd (ground (arith, gone))
    | inr (balance, has) ↦
        let actual = actual_transfer_amount amount (or_zero node.recipient_balance) in
        let (low, high, kept) = actual_lem amount (or_zero node.recipient_balance) (omega arith) in
        elim (Bool-cases node.is_address) [
          | inr bad ↦ absurd (ground (arith, has, bad))
          | inl read ↦ elim (Bool-cases node.has_blockhash) [
            | inr bad ↦ absurd (ground (arith, has, read, bad))
            | inl hash ↦ elim (Option-cases (node.fee_for_message actual)) [
              | inl bad ↦ absurd (ground (arith, has, read, hash, bad))
              | inr (fee, told) ↦
                  let (same, covered) =
                    checked_lem balance fee actual (cheap actual fee told) high
                      (ground (arith, has, read, hash, told)) in
                  subst (TopsUp node amount) (sym same)
                    (low, high, kept, (balance, fee, has, told, covered))
            ]
          ]
        ]
  ]

  execute_lem :
      (o : AppError ⊎ ℕ)
      → estimate_transfer_fee node amount ≡ o
      → execute_withdrawal node amount ≡ sent x signature
      → TopsUp node amount x
  unfolding execute_withdrawal
  execute_lem (inl e) estimated h = absurd (ground (arith, estimated))
  execute_lem (inr fee) estimated h = elim (Option-cases node.sender_balance) [
    | inl gone ↦ absurd (ground (arith, estimated, gone))
    | inr (balance, has) ↦ elim (Bool-cases (ltb (node.by_float balance) (add_u64 amount fee))) [
      | inl short ↦ absurd (ground (arith, estimated, has, short))
      | inr enough ↦ transfer_lem (ground (arith, estimated, has, enough))
    ]
  ]

-- Where fees are below 2³² and the amount is below 2⁶³ lamports: a withdrawal that is executed on
-- Solana sends at least its amount and at most 890,880 lamports more, so that the recipient has
-- that many afterwards, which the withdrawal's amount does not count; and the sender's balance
-- covers what was sent and its fee.
pub executed-TopsUp :
    (node : Node) (cheap : IsCheap node) (amount x : ℕ) (signature : String)
    → amount < 2 ^ 63
    → execute_withdrawal node amount ≡ sent x signature
    → TopsUp node amount x
executed-TopsUp node cheap amount x signature small h =
    execute_lem node cheap amount x signature small (estimate_transfer_fee node amount) refl h
