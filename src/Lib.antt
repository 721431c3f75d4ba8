-- ===== src/Lib.antt =====
-- HOWLOW is a lowest-unique-bid auction platform. This library models the services of its API, under
-- apps/api/src/modules, that decide about money, stock and winners: the wallet, the inventory, the
-- auction's life and the winner. Each service runs SQL statements in one transaction. A table is a list
-- of records, newest row first where the order of insertion matters; a statement is a function on lists
-- (`first_where` for a SELECT on a key, `update_where` for an UPDATE with its WHERE clause); and an
-- operation is a run `Tx S A`, which takes the tables to a result and the tables after it, or to an
-- error. An error stands for a rollback: the caller goes on with the tables that it had. Row locks
-- serialise the operations, so a history is a sequence of committed runs (the `Step` and `Reach` types).
--
-- The parts and the files.
--   Prelude, Prelude/Tables, Prelude/Tests, Prelude/Int: names of the standard library, lists as
--     tables, the booleans that tests give, and integers for signed amounts.
--   Shared, Errors: Currency (packages/shared/src/money.ts), and the errors of the modules.
--   Auth: hasAnyRole of auth/rbac.ts (the roles that loadRoles reads are an argument of the operations
--     of the other parts), and the accounts. Auth/Rows and Auth/Repository are auth/repository.ts,
--     Auth/Otp is auth/otp.ts with dispatchOtp and verifyOtp of auth/auth.service.ts, Auth/Sessions is
--     auth/session.service.ts, and Auth/Accounts, Registration, Login and Passwords are the rest of
--     auth/auth.service.ts. A call of this part can fail and leave rows behind, since some statements
--     run on a connection of their own while the caller's transaction is rolled back: Auth/Calls has
--     runs that keep the tables when they raise, and `Open`, a transaction with the tables that the
--     others see and those that it sees itself (`apart` and `inside` are a statement on its own
--     connection and one that is given the transaction). SHA-256, argon2 and the signing of access
--     tokens are the record `Crypto`; codes, tokens and ids that are drawn at random are arguments,
--     and so is what Redis counts for the limiter.
--   Money: the arithmetic of packages/shared/src/money.ts. Transaction: the loop of withTransaction, in
--     apps/api/src/db/transaction.ts, whose rounds are counted by fuel: one more than the retries that
--     are allowed is enough, and the theorem about it says so.
--   Wallet: wallet/walletRepository.ts is Wallet/Repository, wallet/ledger.ts is Wallet/Ledger
--     (applyMovement, which books a movement or replays one whose idempotency key is known),
--     wallet/walletService.ts is Wallet/Service (getWallet, credit, debit and refund as `move`, the
--     adjustments of staff, freeze and thaw), and wallet/reconciliation.ts is Wallet/Reconciliation.
--     The paging loop of reconcileAllWallets (Reconciliation/Sweep) is counted by fuel: one round more
--     than there are wallets is enough, and the theorem about it says so.
--     A balance is a BIGINT: `book` raises `out_of_range` at 2^63 where PostgreSQL does, and an entry
--     that the CHECKs of migrations/0006_wallet.sql and 0011_wallet.sql on its reference and its memo
--     refuse raises `check_violation` (`insert_entry`). Service/Keyed is about the entry under a key.
--   Catalog/Inventory: catalog/inventory.ts and its statements in catalog/catalogRepository.ts. The
--     CHECKs on the counts raise `check_violation`, and the partial unique index on held rows is the
--     ON CONFLICT test of `insert_reservation`.
--   Auctions: auctions/transitions.ts is Auctions/Transitions, with the diagram of its comment as a
--     relation in Transitions/Diagram; the UPDATE of auctions/auctionRepository.ts is in Auctions/Rows;
--     the ten handlers of auctions/lifecycle.ts are in Auctions/Lifecycle. What a handler announces
--     after the commit is the field `pending` of its result. `open_auction` calls the inventory in the
--     same transaction, and cancels the auction where no unit is available. Lifecycle/Moves describes a
--     move once for all handlers, Moves/Handlers and Moves/Holding are about each, Stocked and History draw what
--     follows for auctions and stock, and Schedule is about the calls of the scheduler.
--   Bidding: bidding/validation.ts is Bidding/Validation; bidding/bidRepository.ts is Bidding/Tables and
--     Bidding/Rows, bidding/idempotency.ts is Bidding/Idempotency, and bidding/bidService.ts is
--     Bidding/Service: `submit_bids` has the checks before the transaction, and `place_bids` the
--     transaction, which claims the key, and then runs over the tables of wallet, auctions, stock, bids
--     and participants. The hash of a request and the text of a count are arguments, since they are
--     calls of the platform; the answer of the rate limiter, the user's standing and the auction that
--     the public query finds are arguments too. `to_number` in Bidding/Validation is the rounding of
--     `Number` and of the addition of doubles, for the values below 2^64 that a ladder can have.
--   Orders: orders/orderService.ts and orders/orderRepository.ts, for the order of a won auction.
--   Results: results/lubCalculator.ts is Results/Lub, each clause of the query LUB_V1 and of the
--     statistics that are frozen with a result; results/checksum.ts is Results/Checksum, with
--     PostgreSQL's texts and digest as arguments; results/resultsRepository.ts is Results/Rows and
--     Results/Repository, with the CHECKs of migrations/0005_auctions.sql and 0014_results.sql.
--     results/resultService.ts is Results/Close (`decide`, one transaction over auctions, stock, bids,
--     results and orders), Results/Verify (verifyResult) and Results/Workflow (closeAuction: a run of
--     several transactions, each of which stays where a later one raises). results/refunds.ts is
--     Results/Refunds, a loop of transactions on the wallets. Results/Trust has the history of all
--     these services together: the lifecycle, the wallet, submissions, decisions and refunds.
--
-- Ids are uuids in the program, which are compared and ordered only, so they are numbers here; a new
-- row's id is an argument, and a theorem that needs it to be new says so. Instants are numbers, and the
-- clock is an argument. Texts are lists of numbers. Columns that are only displayed, created_at and
-- updated_at are left out. All other functions are structural recursions over rows.
--
-- Not modelled: drafts and products, mostly queries and text; the link of an account to Telegram, and
-- auth/tokens.ts and auth/password.ts, which call cryptographic libraries; requests on one code or
-- one session that overlap in time (a history is a sequence of calls); the view objects of results and orders; the publishing of a result's
-- events, of which `result_events` is the list; HTTP, Telegram, the worker's queues, the storage and the
-- web application, which are input and output around the services.
pub mod Prelude
pub mod Shared
pub mod Errors
pub mod Auth
pub mod Wallet
pub mod Catalog
pub mod Auctions
pub mod Bidding
pub mod Money
pub mod Transaction
pub mod Orders
pub mod Results
