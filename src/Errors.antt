-- ===== src/Errors.antt =====
-- The application's error type and its texts: src/shared/utils/errors.rs.
use zabypay_core.Prelude.{String, ◌<>◌}

pub data AppError : Type 0 where
  database_error not_found conflict : String → AppError
  unauthorised : AppError
  unauthorized : String → AppError
  token_expired invalid_token : AppError
  validation_error invalid_input bad_request forbidden : String → AppError
  internal_server_error service_unavailable external_service_error : String → AppError
  db_connection_error bcrypt_error verification_failed email_send_error : AppError
  jwt_creation_error jwt_validation_error : String → AppError
  hashing_error : AppError
  insufficient_balance transaction_failed : String → AppError

-- `Display for AppError`, which `to_string()` uses.
unfoldable pub display : AppError → String
display (database_error msg) = "Database error: " <> msg
display (not_found msg) = "Not found: " <> msg
display (conflict msg) = "Conflict: " <> msg
display unauthorised = "Unauthorised"
display (unauthorized msg) = "Unauthorized: " <> msg
display token_expired = "Token expired"
display invalid_token = "Invalid token"
display (validation_error msg) = "Validation error: " <> msg
display (invalid_input msg) = "Invalid input: " <> msg
display (bad_request msg) = "Bad request: " <> msg
display (forbidden msg) = "Forbidden: " <> msg
display (internal_server_error msg) = "Internal server error: " <> msg
display (service_unavailable msg) = "Service unavailable: " <> msg
display (external_service_error msg) = "External service error: " <> msg
display db_connection_error = "Database connection error"
display bcrypt_error = "Bcrypt error"
display verification_failed = "Verification failed"
display email_send_error = "Email send error"
display (jwt_creation_error msg) = "JWT creation error: " <> msg
display (jwt_validation_error msg) = "JWT validation error: " <> msg
display hashing_error = "Hashing error"
display (insufficient_balance msg) = "Insufficient balance: " <> msg
display (transaction_failed msg) = "Transaction failed: " <> msg
