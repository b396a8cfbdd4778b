-- ===== src/Lib.antt =====
-- The transaction service: transfers between accounts, their records, and the detection of fraud.
--
-- A GraphQL request passes the authentication and reaches the service of transactions, which reads
-- and updates accounts and records through two repositories, inside a MongoDB session, and keeps
-- the responses of requests with an idempotency key in a cache. The fraud detection analyses the
-- logs of transactions.
--
-- Parts:
-- - Shared: helpers. Shared/Int has whole numbers over the native naturals, Shared/Js the numbers of
--   JavaScript as the code tests them, Shared/Lists the searches and updates of lists.
-- - Driver: what the program calls, src/ having none of it. An async function is a tree of awaited
--   calls (Driver/Prog) with throw, try/catch and try/finally; Driver/Calls lists the calls to
--   MongoDB, the cache, the clock and uuid. Their documented behaviour is a relation between the
--   stored documents before, the answer, and the documents after (Driver/Documents): a failed call
--   leaves nothing or its whole effect behind. A driver that follows this contract is the parameter
--   of every theorem on runs. Driver/Memory is a concrete one with a schedule of failures, and
--   Driver/Triples derives what every run ensures. Driver/Interleaving has several requests at a
--   time, and what a program still owes to the sum of the balances, Driver/Budget how many calls it
--   makes, Driver/Release whether it ends a session that it has begun.
-- - Account: src/account/type/accounts.ts (Types, Schema) and src/account/account.repository.ts
--   (Repository). Account/Balances has sums and signs of balances, Account/Freezing and
--   Account/Lookups the effects of operations that follow one another. Account/Ledger is the
--   abstract view of the repository, a ledger that forgets the order of documents and the dates, and
--   Account/Refinement relates the two; Account/Outline is what of the accounts stays when only
--   balances change.
-- - Transaction: src/transaction/types/transaction.ts (Types, Schema),
--   src/transaction/dto/transfer-request.dto.ts (Dto),
--   src/transaction/repository/transaction.repository.ts (Repository) and
--   src/transaction/service/transaction.service.ts (Service). Service/Rules is the specification of
--   a transfer on the stored documents, Service/Guarantees what holds of the code, Concurrency what
--   holds of several transfers at a time: Concurrency/Owing and Many where no call fails,
--   Concurrency/Losses and Accounted where calls fail. Resolver is
--   src/transaction/resolver/transaction.resolver.ts, each query and mutation a definition named
--   with _query or _mutation. NestSchema is src/transaction/transaction.schema.ts, Validation
--   the classes of src/transaction/dto/create-transfer.dto.ts and
--   src/transaction/dto/history.query.ts.
-- - Fraud: src/fraud-detection/entity/transaction-log.interface.ts (Types),
--   src/fraud-detection/repository/transaction-log.repository.ts (Repository) and
--   src/fraud-detection/service/fraud-detection.service.ts (Service); Service/Rules says what the
--   three rules mean on the stored logs.
-- - Middleware: src/utils/middleware/auth.ts (Auth; Auth/Words has the words of a header,
--   Auth/Passing the requests that are let through),
--   src/utils/middleware/error-handler.ts (ErrorHandler) and src/utils/middleware/rate-limiter.ts
--   (RateLimiter).
-- - Graphql: src/schema.ts. Inputs and Outputs have its types, Answers the objects that the
--   resolvers return, by the names of their properties.
-- - Utils: src/utils/redis.ts (Redis), src/utils/database.ts (Database) and
--   src/utils/logger/logger.ts (Logger). The libraries' clients are parameters.
-- - Tests: runs at concrete inputs, and each theorem applied to one.
--
-- Function names are those of the source in snake_case: transfer is TransactionService.transfer,
-- update_balance is AccountRepository.updateBalance. A filter or update object is the test or the
-- change that it makes of a document. Steps of a long function are definitions of their own
-- (check_accounts, move_funds, finish), composed in the order of the code.
--
-- Bounds: amounts and balances are whole numbers of hundredths, so that rounding of binary
-- fractions and amounts with more than two decimals are outside the model. Dates are milliseconds.
-- Driver/Prog runs a request on its own, each call awaited before the next; Driver/Interleaving runs
-- two requests whose calls interleave by a list of turns, Driver/Interleaving/Pool any number of
-- them, and Driver/Interleaving/Settling and Losing follow what they owe where calls fail. There is
-- no fuel: no function of the source loops.
--
-- The unique index on accountNo is enforced by the driver, the others are not. Log lines are left
-- out, but for those that the logger's helpers and the middleware build.
--
-- Not modelled: the modules that wire the framework and the cache (src/main.ts, src/app.module.ts,
-- src/utils/cache.module.ts), the set-up of the collections (src/init.mongo.js,
-- src/fraud-detection/setup.ts), src/transaction/enum/transaction.enum.ts, which repeats the enums,
-- and src/idemotency/idemotency.repository.ts, which is a copy of the account repository. Of the
-- logger, pino itself; of the rate limiters, the counting of express-rate-limit.
pub mod Shared
pub mod Account
pub mod Transaction
pub mod Fraud
pub mod Driver
pub mod Middleware
pub mod Graphql
pub mod Utils
mod Tests
