-- ===== src/Lib.antt =====
-- payd, a self-hosted payment processor for TRON (backend/internal).
--
-- A follower commits the blocks of the chain one by one to a SQLite store and rewinds them at a
-- reorganisation; in the transaction of a block the matcher attributes each decoded payment to the
-- order of its address. A confirmation pass promotes payments and orders at the solidified height,
-- a lifecycle tick expires orders, withdrawals go through a state machine that sends each at most
-- once, after the energy and the bandwidth it needs were found, rented, delegated or paid for,
-- and every change of interest is queued for consumers and delivered in order.
--
-- The store is modelled as a record of tables, each a list of rows in insertion order, and each
-- method of the store as a function from the database to a result with the database after it; an
-- error means that the transaction was rolled back. A method is one function, composed as the
-- source composes it.
--   Prelude      lists, options, results, the queries and updates of tables, integers
--   Decimal      internal/store/outbox.go (ParseUnits, FormatUnits) and big.Int texts in base 10
--   Schema       the rows: internal/store/migrations and the structs of internal/store
--   Recalc       internal/store/follower.go: recalculateOrderWithTransition, recalculateBalance
--   Events       internal/store/outbox.go: insertOutbox, enqueueOrderEvent, enqueueGlobalEvent
--   Pool         internal/store/orders.go: the address pool
--   Orders       internal/store/orders.go: orders and the attribution of payments by hand
--   Payments     internal/store/follower.go: UpsertPayment, AttributionOrder
--   Chain        internal/store/follower.go: CommitBlock, RewindChain, reorganisation suspicion
--   Matcher      internal/matcher/matcher.go: Match
--   Confirm      internal/store/confirm.go
--   Lifecycle    internal/store/lifecycle.go: ExpireOrders; internal/lifecycle/worker.go: tick10
--   Ipn          internal/store/outbox.go: ClaimIPN to ReplayDeadIPN; internal/ipn/dispatcher.go:
--                DispatchOne, fail, with the answer of the consumer as an argument
--   Follower     internal/follower/follower.go: Tick, processCandidate and what they call, with the
--                answers of the node and the clock as arguments
--   Withdrawals  internal/store/withdrawals.go; internal/store/store.go: payd_decimal_sum_within
--   Grants       internal/store/resources.go
--   Rental       internal/store/energy.go; internal/store/withdrawals.go: ReconcileWithdrawalEnergy
--   Engine       internal/withdraw/engine.go, with the answers of the node, the signer and the provider
--                of energy (the interface of internal/energy/provider.go) as arguments
--   Examples     a small store and the theorems at concrete inputs
--
-- Conventions. Identifiers, addresses, hashes, assets, notes and messages are only compared and are
-- numbers; amounts are the texts that the source stores. A time is a number of nanoseconds, and a
-- column of the store its whole seconds. An operation reads the clock once: where the source calls
-- time.Now beside a time it was given, both are the one argument. Identifiers that the source draws
-- at random or from a counter are the next of one counter, which is what makes them fresh. Heights,
-- depths and times are not negative; differences that the source takes on signed numbers are
-- written as sums. The order of the consumers of a global event, which in the source is that of a
-- map, is that of a list.
--
-- The engine works on a world: the store, its own fields, and the calls that commit something outside
-- (a broadcast, a prepaid purchase), in their order. An action is a function of the world to a result
-- and the world after it, which an error does not undo. What is outside answers by the number of the
-- call, so that no two answers need be the same; the signer signs and extracts the identifier in one
-- call. Answers are as the program has decoded them: JSON and protocol buffers are left out, and a
-- price is the number that big.Rat reads, none where it reads none or a negative one. Differences and
-- products of what the node answers stay within 64 bits where the source does not compute them as
-- big integers. Settings are constant during an action.
--
-- Loops over rows are recursion on lists. The walk along the parent links (Confirm) is bounded by
-- one more than the height of its start, and its theorem shows that the bound never ends it.
-- The search for a common ancestor (Follower) is recursion on the height, and the loop
-- of a poll has a bound: the height of the tip and two rounds are enough.
-- Derivation of addresses from the seed and the application of a block's payments are arguments.
--
-- Not modelled: transactions that interleave (SQLite runs writers one at a time), the workers'
-- polling loops, the decoding of blocks, prices and the wallet monitor, HTTP, JSON rendering, metrics,
-- reports, and the web dashboard.
pub mod Prelude
pub mod Decimal
pub mod Schema
pub mod Recalc
pub mod Events
pub mod Pool
pub mod Orders
pub mod Payments
pub mod Chain
pub mod Matcher
pub mod Confirm
pub mod Lifecycle
pub mod Ipn
pub mod Withdrawals
pub mod Follower
pub mod Grants
pub mod Rental
pub mod Engine
pub mod Examples
