-- ===== src/Processor.antt =====
-- The withdrawal processor: src/shared/service/withdrawal_processor.rs. `Submit` sends a withdrawal
-- out, `Settle` closes the wallet's balance, `Watch` follows a transaction on its chain.
pub mod Submit
pub mod Settle
pub mod Watch
pub mod Atomic
pub mod Books
pub mod Close
pub mod Tests
pub mod Bounds
pub mod Solana
