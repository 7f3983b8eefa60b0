-- ===== src/Lib.antt =====
-- pump-poly-router: a router that takes Pump.fun tokens on Solana through Jupiter to USDC, over Circle's
-- CCTP bridge to Polygon, into a Polymarket position, and after the market has resolved back to the
-- user in SOL. This library models its core in an executable form and proves what makes it correct.
--
-- The parts and how they interact. `TradeRouter` (src/executor.rs) holds the configuration, the order
-- store, a count of consecutive failures and the volume of the current 24-hour window. `advance` takes
-- one order through the guards (circuit breaker, known id, terminal status, deadline), runs the step of
-- its stage, and stores the outcome; `run_once` and `run_loop` do this for every order under way. A step
-- calls the clients of the chains and services. The store (src/store.rs) keeps the orders by id and
-- writes a JSON snapshot after every change. The EVM wallet (src/evm/signer.rs) encodes, signs and sends
-- the Polygon transactions.
--
-- Which file models what:
--   Error                 src/error.rs: RouterError, its Display texts, Result. A panic is a third
--                         result, `panic`, since an unwinding step leaves the order as it is.
--   Types                 src/types.rs: OrderStatus, OrderIntent and their methods
--   Store                 src/store.rs: OrderStore; Store/Laws the map, Store/Restart the snapshot,
--                         Store/Views the map as a quotient, without an order of its entries
--   Config                src/config.rs: RouterConfig and the constants; Env is from_env, Env/Loaded what
--                         its result says of the environment, Env/Whitelist the list of markets
--   Evm/Rlp               src/evm/signer.rs: the RLP encoder; Evm/Rlp/Decode is a reader written from the
--                         Ethereum specification, Header and RoundTrip relate the two
--   Evm/Signer            src/evm/signer.rs: keys and sign_transaction; Signer/Rpc the JSON-RPC calls,
--                         send_transaction and wait_for_receipt; Signer/Signed what a signature covers
--   Evm/Signer/Sending    src/evm/signer.rs: concurrent calls of send_transaction, cut at their awaits;
--                         Alone relates one call to the method, Calls and Nonces are the invariant
--   Evm/Cctp              src/evm/signer.rs: cctp_message_hash, extract_nonce_from_cctp_message
--   Bridge/Attestation    src/bridge/attestation.rs: get_attestation, poll_until_complete; Polling when
--                         the polling ends
--   Bridge/Cctp           src/bridge/cctp.rs: the byte formats; Solana and Polygon the two clients, Events
--                         the readers of MessageSent. Calldata, Burn and Borsh read the formats back,
--                         Recipient compares the two encoders of an address
--   Polymarket/Order      src/polymarket/order.rs: in Client the order client, in Fills what its waiting
--                         ends with
--   Polymarket/Resolver   src/polymarket/resolver.rs: the decoding of a ConditionResolution log, and in
--                         Client the call; Payouts relates the decoder to the contract ABI
--   Polymarket/Settlement src/polymarket/settlement.rs: the calldata of redeemPositions, in Client the
--                         calls; Calldata reads the calldata back
--   Solana/Jupiter        src/solana/jupiter.rs: the quote, in Client the client; Swapped what a swap did
--   Solana/Spl            src/solana/spl.rs
--   Executor/State        src/executor.rs: the fields of TradeRouter, and the clients as a record
--   Executor/New          TradeRouter::new; `clients` fills that record with the modelled clients. The
--                         files of New/Calm say for each client when it cannot panic, Whole for all
--   Executor/Steps        the step_* methods and their helpers, one definition for each
--   Executor/Drive        step, advance, submit_intent, run_once, run_loop, maybe_reset_daily_volume
--   Executor/Pipeline     the stages in the order that the header of src/executor.rs documents
--   Executor/Fields       what a step does to the fields of the router
--   Executor/Transition   the abstract machine of one `advance`; Stages relates the tests of the code to
--                         its stages and its time, and Refines is the refinement
--   Executor/History      the orders over whole passes; Reach is reachability of statuses
--   Executor/Guards, Limits, Loop, Money, Panics
--                         whitelist and cap, the volume window, run_loop, amounts, panics
--   Example               examples/route_trade.rs: main, with its parameters and its loop; Ended what the
--                         end of the loop says of the order, SetUp and Finished the same of main
--   Text, Words, Effect   bytes of strings, machine words, actions on the outside world
--   Slices, Abi, Polling  slices of byte arrays, words of the contract ABI, loops with a deadline
--   External, Platform    what the foreign crates offer, as parameters
--   Tests                 concrete codecs, clients and orders, and the theorems applied to them
--
-- Conventions. `World` is the state of everything outside the process: chains, services, files, clock.
-- An action takes it and returns it beside a Result, also beside an error. A method that changes the
-- router returns the router too. Log output is left out. Integers wrap as in a release build: `u64`,
-- `u32`; `usize` has 64 bits. Strings are their UTF-8 bytes, and `trim` takes ASCII white space off. An
-- f64 is its bit pattern (the router computes with none), a Uuid its value, a text that is padded with
-- zeros is taken to be ASCII, a time its nanoseconds since the epoch (taken to be after it). An `Instant`
-- is its nanoseconds, and the clock names the last one: `Instant + Duration` panics where the sum is
-- behind it. `serde_json` does not read back every f64 that it writes (NaN comes back as null), so
-- Store/Restart takes the floats that it does read back as a predicate.
--
-- Fuel. `run_loop` and the loop of the example have no bound in the source and take fuel, one unit a
-- round; `running` says that the fuel is used up. `lower_hex`, `decimal` and the readers of RLP take as
-- much fuel as their input can need. `poll_until_complete` and `wait_for_fill` take one unit of fuel a request, and `none` says that
-- it is used up; `clients` gives `wait_for_fill` a unit for each second of its timeout and one more. The
-- attempts of `wait_for_receipt` are a count in the source.
--
-- Interleaving. The steps of the executor take `&mut self`, so they run one after another. The calls of
-- `send_transaction` on one wallet are the exception: they share the wallet's `send_lock`, and
-- Evm/Signer/Sending lets any number of them run in any order of their awaits.
--
-- Not modelled: the constructors that only keep their arguments and an HTTP client, the serde adaptors of
-- src/types.rs and its Display of an Outcome, which only the log prints, `OrderStore::get_mut`, src/lib.rs
-- and the module files, which only declare modules, and what the example prints. The foreign crates (HTTP,
-- JSON, the Solana SDK, the SDK of the exchange, cryptography) are parameters, and so is the process
-- environment.
pub mod Base
pub mod Text
pub mod Error
pub mod Words
pub mod External
pub mod Slices
pub mod Abi
pub mod Effect
pub mod Evm
pub mod Types
pub mod Store
pub mod Config
pub mod Platform
pub mod Polling
pub mod Bridge
pub mod Polymarket
pub mod Solana
pub mod Executor
pub mod Example
pub mod Tests
