-- ===== src/Solana.antt =====
-- The transfer of a withdrawal on Solana: src/shared/service/solana_mainnet_withdrawal.rs. The
-- answers of the node, and the conversion of a decimal to lamports, which goes through a float, are
-- parameters; keys are left out.
pub mod Transfer
pub mod Tests
use zabypay_core.Prelude.{
  ℕ, ℤ, ◌+◌, ◌-◌, ◌%◌, ◌^◌, String, Bool, true, false, Option, none, some, ◌<>◌, ◌⊎◌, inl, inr,
  str_eq, ltb, if◌then◌else◌,
}
use zabypay_core.Errors.{
  AppError, validation_error, transaction_failed, insufficient_balance, internal_server_error,
}

-- The answers of a node about a sender and a recipient, none where it has no answer; `is_address`
-- says whether the recipient's address can be read, and `by_float` is a number of lamports that went
-- to a float number of SOL and back.
pub record Node : Type 0 where
  pub sender_balance : Option ℕ
  pub recipient_balance : Option ℕ
  pub is_address : Bool
  pub has_blockhash : Bool
  pub fee_for_message : ℕ → Option ℕ
  pub send_and_confirm : ℕ → Option String
  pub by_float : ℕ → ℕ

-- A transfer that the node has confirmed, with its lamports and its signature; or an error.
pub data Result : Type 0 where
  sent : ℕ → String → Result
  refused : AppError → Result

-- `get_rpc_url`, from the configuration in the database, the environment variable, or a list.
unfoldable pub get_rpc_url : Option String → Option String → String → AppError ⊎ String
get_rpc_url (some url) variable environment = inr url
get_rpc_url none (some url) environment = inr url
get_rpc_url none none environment =
    if str_eq environment "mainnet"
    then inr "https://api.mainnet-beta.solana.com"
    else if str_eq environment "testnet"
    then inr "https://api.testnet.solana.com"
    else if str_eq environment "devnet"
    then inr "https://api.devnet.solana.com"
    else inl (
        validation_error (
          "Unsupported Solana environment: " <> environment
          <> ". Please configure RPC URL in database or environment variables."))

abbrev pub rent_exemption_lamports : ℕ
rent_exemption_lamports = 890880

-- A sum of two `u64`, which wraps round in a release build.
abbrev pub add_u64 : ℕ → ℕ → ℕ
add_u64 a b = (a + b) % 2 ^ 64

-- `client.get_balance(&recipient_pubkey).unwrap_or(0)`
abbrev pub or_zero : Option ℕ → ℕ
or_zero none = 0
or_zero (some n) = n

-- What is sent: the amount, and what the recipient's account lacks for its rent.
unfoldable pub actual_transfer_amount : ℕ → ℕ → ℕ
actual_transfer_amount amount recipient =
    if ltb recipient rent_exemption_lamports
    then add_u64 amount (rent_exemption_lamports - recipient)
    else amount

abbrev pub node_failed : String → Result
node_failed e = refused (transaction_failed ("Transaction failed: " <> e))

-- The transfer once the fee is known; the texts of the node's errors are left out.
unfoldable pub send_checked : Node → ℕ → ℕ → ℕ → Result
send_checked node balance actual fee =
    if ltb balance (add_u64 actual fee)
    then node_failed "Insufficient funds"
    else elim (node.send_and_confirm actual) [
      | none ↦ node_failed ""
      | some signature ↦ sent actual signature
    ]

unfoldable pub transfer_sol_with_confirmation : Node → ℕ → Result
transfer_sol_with_confirmation node amount = elim node.sender_balance [
  | none ↦ node_failed ""
  | some balance ↦
      let actual = actual_transfer_amount amount (or_zero node.recipient_balance) in
      if node.is_address
      then (if node.has_blockhash
          then elim (node.fee_for_message actual) [
            | none ↦ node_failed ""
            | some fee ↦ send_checked node balance actual fee
          ]
          else node_failed "")
      else node_failed ""
]

-- `estimate_transfer_fee`
unfoldable pub estimate_transfer_fee : Node → ℕ → AppError ⊎ ℕ
estimate_transfer_fee node amount =
    if node.is_address
    then (if node.has_blockhash
        then elim (node.fee_for_message amount) [
          | none ↦ inl (internal_server_error "Failed to estimate fee: ")
          | some fee ↦ inr fee
        ]
        else inl (internal_server_error "Failed to estimate fee: "))
    else inl (validation_error "Invalid recipient address: ")

-- `execute_withdrawal` after the keys: the fee is estimated and the balance checked for the amount,
-- which is then transferred.
unfoldable pub execute_withdrawal : Node → ℕ → Result
execute_withdrawal node amount = elim (estimate_transfer_fee node amount) [
  | inl e ↦ refused e
  | inr fee ↦ elim node.sender_balance [
    | none ↦ refused (internal_server_error "Failed to get balance: ")
    | some balance ↦
        if ltb (node.by_float balance) (add_u64 amount fee)
        then refused (insufficient_balance "Insufficient balance")
        else transfer_sol_with_confirmation node amount
  ]
]
