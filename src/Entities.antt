-- ===== src/Entities.antt =====
-- The database rows of the withdrawal path: src/shared/entities/withdrawal_request.rs,
-- wallet_balance.rs, wallet_transaction.rs, wallet.rs, payment_request.rs and merchant.rs. A `Decimal` is an integer number of
-- 10⁻²⁸, the smallest unit that the type can hold; an `i32` is an integer; a time is a number of
-- seconds.
pub mod Views
use zabypay_core.Prelude.{ℕ, ℤ, pos, String, Bool, Option, none, some, ◌+ℤ◌}

pub record Withdrawal : Type 0 where
  pub id : String
  pub merchant_id : String
  pub wallet_id : String
  pub external_id : String
  pub idempotency_key : String
  pub environment : String
  pub network : String
  pub currency : String
  pub to_address : String
  pub amount : ℤ
  pub fee : Option ℤ
  pub net_amount : ℤ
  pub status : String
  pub tx_hash : Option String
  pub blockchain_confirmations : Option ℤ
  pub required_confirmations : ℤ
  pub metadata : Option String
  pub error_message : Option String
  pub created_at : ℕ
  pub processed_at : Option ℕ
  pub confirmed_at : Option ℕ
  pub updated_at : ℕ
  pub broadcast_at : Option ℕ
  pub failed_at : Option ℕ
  pub failure_reason : Option String
  pub finality_required : ℤ
  pub finality_reached_at : Option ℕ
  pub replaced_by_tx : Option String
  pub reorg_depth : ℤ
  pub lifecycle_state : String
  pub withdrawal_funds_state : String

pub record Balance : Type 0 where
  pub id : String
  pub wallet_id : String
  pub currency : String
  pub available_balance : ℤ
  pub pending_balance : ℤ
  pub total_balance : ℤ
  pub locked_balance : ℤ
  pub last_updated : ℕ
  pub created_at : ℕ

-- The columns of a wallet that are read here; its keys are left out.
pub record Wallet : Type 0 where
  pub id : String
  pub user_id : String
  pub address : String
  pub currency : String

-- The `metadata` column, a JSON text for display, is left out.
pub record WalletTransaction : Type 0 where
  pub id : String
  pub wallet_id : String
  pub transaction_type : String
  pub currency : String
  pub amount : ℤ
  pub fee : Option ℤ
  pub net_amount : ℤ
  pub balance_before : ℤ
  pub balance_after : ℤ
  pub tx_hash : Option String
  pub from_address : Option String
  pub to_address : Option String
  pub status : String
  pub description : Option String
  pub related_entity_type : Option String
  pub related_entity_id : Option String
  pub created_at : ℕ
  pub processed_at : Option ℕ

-- A request for a payment to a merchant; `metadata` is a JSON text.
pub record Payment : Type 0 where
  pub id : String
  pub merchant_id : String
  pub external_id : Option String
  pub amount : ℤ
  pub currency : String
  pub wallet_address : String
  pub status : String
  pub metadata : Option String
  pub payment_url : Option String
  pub expires_at : ℕ
  pub paid_at : Option ℕ
  pub created_at : ℕ
  pub updated_at : Option ℕ
  pub environment : String

-- The columns of a merchant that are read here.
pub record Merchant : Type 0 where
  pub id : String
  pub user_id : String

-- `withdrawal.fee.unwrap_or(Decimal::ZERO)`
abbrev pub fee_or_zero : Option ℤ → ℤ
fee_or_zero none = pos 0
fee_or_zero (some fee) = fee

-- `withdrawal.amount + fee`, the sum that a withdrawal takes out of its wallet.
abbrev pub total_of : Withdrawal → ℤ
total_of w = w.amount +ℤ fee_or_zero w.fee
