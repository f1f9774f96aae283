-- ===== src/Lib.antt =====
-- A verification of the payments and the withdrawals of this payment gateway, a Rust service over
-- Postgres, Redis and Solana. Payments to a merchant are watched until they are paid, expire or
-- fail, and what was paid becomes the balances of the merchant's wallets. A merchant asks for a
-- withdrawal; its funds are locked in the wallet's balance, a transaction is sent on its network,
-- the transaction is followed until it is confirmed or given up, and the balance is closed.
--
-- The parts, with the code that each of them models (paths from the repository's root):
--   - Errors: the error type and its texts (src/shared/utils/errors.rs).
--   - States: the states of a withdrawal's lifecycle and of its funds
--     (src/shared/models/withdrawal_state.rs), with the parsing and the policy in its children.
--   - Entities: the rows of the tables (src/shared/entities: withdrawal_request.rs,
--     wallet_balance.rs, wallet_transaction.rs, wallet.rs, payment_request.rs, merchant.rs);
--     Entities/Views has their methods.
--   - Store: the database and the outside world, as the other parts call them.
--   - BalanceSync: the sync that sets the balances of a merchant's wallets from what was paid and
--     withdrawn (src/merchant/services/balance_sync_service.rs), run at the end of a withdrawal;
--     Totals has the sums by currency. It makes wallets with generate_wallet_with_key of
--     src/shared/service/wallet.rs.
--   - Payments: the monitor of payments, src/shared/service/payment_monitor.rs, whose handlers
--     expire, confirm and fail a payment; Jobs and Amounts have the other writers of a status and
--     the amounts, of src/merchant/services/payment_service.rs.
--   - Solana: the amounts and checks of a transfer on Solana,
--     src/shared/service/solana_mainnet_withdrawal.rs; the processor takes the result of one as an
--     answer of the environment.
--   - Creation: create_withdrawal of src/merchant/services/withdrawal_service.rs. Entry has the
--     checks and the choice of the wallet, Amounts decides the sums, reserve writes the row, the
--     lock and its record, and respond runs the processor; create_from_key is the function from
--     the check of the key on, for a wallet that is given.
--   - Quotes: what a merchant is told before a withdrawal, of the same file: Balances has
--     get_balances, Estimate and Maximum the decisions of estimate_fee and
--     get_max_withdrawable_amount, Answers these calls as a whole. The price service and
--     EvmMultiWalletService are parameters.
--   - Processor: src/shared/service/withdrawal_processor.rs. Submit sends a withdrawal out in a
--     database transaction, Settle closes the balance, Watch follows the transaction.
--   - Monitor: src/shared/service/withdrawal_monitor.rs, the cycle that confirms withdrawals, and
--     the handler of failed ones.
--   - Selection: the plan of several wallets for one sum, select_wallets_for_withdrawal of
--     src/merchant/services/multi_wallet_service.rs.
--   - MultiWallet: a withdrawal from several wallets at once, execute_multi_wallet_withdrawal of
--     the same file, on the processor.
--   - Estimator: src/shared/service/fee_estimator.rs, fees and confirmations by network.
--   - Limiter: src/shared/service/rate_limiter.rs.
--   - Webhook: src/shared/service/webhook_service.rs, the deliveries with their retries, on a log
--     of their own.
--   - Prelude: tests, integers, texts and tables that the parts share; Samples: the data of the
--     witnesses.
--
-- How the code is read:
--   - A function of the source has the name that it has there; what a function does between two
--     points of interest has a name of its own (submit, reserve, settle_balance, watch). A method
--     that reads and writes the database is a function from a world to an outcome, Result with the
--     world that is left, written with do blocks.
--   - A world holds the six tables as lists of rows, the number of calls made, the Solana
--     transfers that went out, the withdrawals whose confirmation was spawned or whose processing
--     was put off to a task, the seconds slept, and the events about payments. A query returns the
--     first row that passes its filter; an update through an ActiveModel sets the columns that
--     were Set in the row with that key, and fails where there is none.
--   - The environment answers what the program does not decide: the time, fresh identifiers,
--     whether a database call fails and with which text, the Solana service's hash or error, the
--     node's answer about a transaction, the address of a generated wallet, the transaction hash
--     in a JSON text, and the order in which a HashMap is walked. Each answer of a call depends on
--     the number of the call, so that any pattern of failures is covered. Of these, the generation
--     of keys and the signing of transfers are code of this repository that is not modelled.
--   - A database transaction that ends in an error restores the tables; what was sent to Solana
--     meanwhile stays sent.
--   - A Decimal is an integer number of 10^-28, its smallest unit, without the overflow at 96
--     bits; parsing one, converting dollars and the text of a shortage are parameters of Creation,
--     and so are the switch for USDT and the check of an address by the libraries of its chain;
--     Payments takes the answers of explorers and nodes, by the number of the call, and the texts
--     of metadata as parameters. A time is a number of seconds. Texts are compared without regard
--     to case as far as words of ASCII letters go; the currencies that the sync puts into lower
--     case are ASCII, and the LIKE patterns have no escapes.
--   - The loop over the node's answers runs on the number of attempts that are left, 59 after the
--     first, as the source's counter does, and so ends without fuel; the loop of a webhook's
--     attempts likewise, with 4 after the first. The 30 seconds that create_withdrawal gives the
--     processor are a parameter that says whether they ran out.
--   - Redis is a parameter of the limiter, with its commands on sorted sets as functions;
--     SortedSets states what the limiter relies on. The subtraction of the window from the time is
--     taken at times after the window's length, as times since 1970 are.
--
-- Not modelled: the HTTP layer, the JSON metadata of a row, logging, and the parts of the program
-- beside payments and withdrawals: the explorers and nodes that the monitors ask, pricing,
-- settlement, swaps, wallets and keys, authentication.
pub mod Prelude
pub mod Errors
pub mod States
pub mod Entities
pub mod Store
pub mod Samples
pub mod BalanceSync
pub mod Payments
pub mod Solana
pub mod Monitor
pub mod Processor
pub mod Creation
pub mod Quotes
pub mod Estimator
pub mod Limiter
pub mod Selection
pub mod MultiWallet
pub mod Webhook
