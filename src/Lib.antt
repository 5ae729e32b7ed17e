-- ===== src/Lib.antt =====
-- Verification of the matching backend, a service that keeps the orders of a spot and futures
-- market in PostgreSQL and settles crossed pairs through an executor service on chain.
--
-- The program's parts, and how they interact. The API (internal/api) checks an order that its owner
-- has signed and stores it by `Repository.Create` (internal/orders/repository.go). The matcher
-- (internal/matching/engine.go) runs `tickInstrument` for every market: it reserves the best order of
-- each side by `AcquireMatchCandidate`, checks that the two cross, computes how much of them trades,
-- turns the fill into the units of the signed actions (internal/matching/trade_units.go), sends it to
-- the executor, and then fills both orders by `FinalizeMatchWithPrice` or releases them. Cancellations
-- and expiries come in between; each method of the repository is one transaction.
--
-- Which file models which part.
-- Base: shared names, Boolean tests on numbers, lists, results with do blocks, and the integers of
-- `math/big` over the native numbers.
-- Text: strings as lists of code points, `big.Int` in base ten and `encoding/hex`.
-- Json: JSON values and how a struct with text fields reads them; Json/Maps is `map[string]any`, decoded,
-- changed and encoded again, and Json/Column what a `jsonb` column keeps of an object.
-- Orders: the rows and the store. Orders/Entry is `Create`, `CancelByOwnerNonce`,
-- `FindActiveByOwnerNonce` and `GetOrderStatusSnapshot`; Orders/Book is `expireOrders`, `listBySide`,
-- `bestBySide`, `ListBook` and `BestBidAndAsk`; Orders/History is `ListTrades`, `GetMarketDiagnostics` and
-- (Orders/History/Stats) `GetTradeStats24h`; Orders/Matches is `AcquireMatchCandidate`,
-- `ReleaseMatch`, `MarkMatchFailed`, `FinalizeMatchWithPrice` and what they call; Orders/Backfill is
-- `BackfillLimitPriceTicks`, on rows of its own, which may lack ticks; Orders/Amounts is the
-- arithmetic of decimal texts. The files beside them hold the proofs: Orders/Effects and Orders/Fill
-- say what the operations do as four kinds of change, Orders/Validity and Orders/Closed are the
-- invariant, Orders/Settled, Orders/Settlement and Orders/Completion are the finalized match,
-- Orders/Acquired the reserved one, Orders/Reach and Orders/Foreign the store as a transition system.
-- Rational: the values of `math/big.Rat`. Pricing: internal/pricing/pricing.go, prices in decimals and
-- in ticks; Pricing/Variance is its variance.go. Instruments: the lookups of internal/instruments.
-- Float: what the program uses of `float64`. Oracle: internal/oracles/btcvar30, the variance oracle, whose
-- service publishes the last candle of the market data client, signed, into its history table.
-- Oracle/Signing is its signer, and Oracle/Backed, Oracle/Signed and Oracle/Refreshed hold its proofs. Funding: internal/funding, which reads
-- that oracle and the order book; Funding/Mark and Funding/Refreshed hold its proofs.
-- Api: internal/api/orders.go. Api/Intake is `toParams`, Api/Amounts the amounts in atomic units,
-- Api/Action the checks of the signed action, and Api/Spot the intents of the spot market
-- (internal/api/spot_contract.go). Api/Intake/Sound, Api/Action/Prefix and
-- Api/Action/Agreement hold the proofs. Api/Custody is internal/api/custody_guard.go, with
-- Api/Custody/Deposit and Api/Custody/Cache for what it admits and what it remembers. Api/Server is
-- internal/api/server.go: Api/Server/Create and Api/Server/Cancel are the handlers that change orders,
-- Api/Server/Trades those of trades, book and diagnostics, and Api/Server/Headers what the log names;
-- the file below each holds its proof.
-- Matching: Matching/Crossing is `crosses` and the amounts of a fill, Matching/TradeData the decoder of
-- the signed words, Matching/Units is `computeExecutionUnits`, and Matching/Engine is `tickInstrument`
-- with its deferred release. Matching/Executor is internal/matching/executor.go:
-- the request, and in Matching/Executor/Submit the call and the tick that makes it; below it,
-- Matching/Executor/Actions and Matching/Executor/Request say what is sent, Matching/Executor/Posted what
-- an executed tick has done, and Matching/Executor/Mismatch what becomes of an error of the client's own.
-- Service: the requests and the ticks of the whole program on one table.
-- Tests: a sample market, and the theorems at it.
--
-- State. A store is the rows of `active_orders` and `trade_fills` in the order of insertion, with the
-- sequence behind `trade_id`. A method of the repository is a function from a store to a result with
-- the store after its commit; on an error the store is as it was. Concurrency is the order of the
-- transactions: what other clients commit while a match is at the executor is a parameter of the tick.
--
-- Bounds and fuel. Numbers of `math/big` are integers without bound. The printer of decimals takes the
-- number itself as fuel, which is more than its digits. A signed word has 32 bytes, and its sign is the
-- two's complement written out. A client that reads the trades page by page needs one round more than
-- there are trades.
--
-- What is a parameter: how PostgreSQL stores, compares and adds texts in `numeric` columns, what a
-- `jsonb` column gives back, and when a
-- trade was recorded; the connections to the executor and to the chain's node, and the decoding of
-- their answers; `encoding/json`'s numbers; the clock, floating point, the hashes and the JSON that is
-- signed, the display of a variance price and its floating point range, the parser of `big.Rat`, and
-- whether the database answers.
--
-- What is not modelled: locks (`for update skip locked`), since transactions are taken one after the
-- other; retries and timeouts; logs; white space and letters beyond what addresses and numbers hold;
-- routing, and the fields of a market, an order or a trade that are only shown; the ticker loops,
-- which only call the modelled operations; the client of the market data service; configuration and
-- process start.
pub mod Base
pub mod Text
pub mod Json
pub mod Rational
pub mod Pricing
pub mod Instruments
pub mod Float
pub mod Oracle
pub mod Funding
pub mod Orders
pub mod Matching
pub mod Api
pub mod Service
pub mod Tests
