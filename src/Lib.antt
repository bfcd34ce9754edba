-- ===== src/Lib.antt =====
-- galactic_trading_firm: the engine of an intraday equity trader, one instance for each ticker, which
-- the live trader and the backtest both drive, one tick at a time.
--
-- Parts, and where they are in the repository:
--   * Market, Scores, Action, Session: the data of crates/types/src (market.rs, scoring.rs,
--     tick_result.rs, action.rs, indicator.rs, config.rs). Indicators and actions are trait objects:
--     here records of their methods, so every theorem holds for any of them. A call under
--     catch_unwind returns `Caught`, and so does `diagnose`, whose panic `on_tick` does not catch: then
--     the tick unwinds, and with it the session's tick and the bar.
--   * Session/Clock: the "HH:MM" settings, SessionConfig::parse_hm_to_minutes and parse_hm of
--     crates/actions/src/entry/entry_window.rs.
--   * Engine/Position: PositionManager of crates/engine/src/position.rs.
--   * Engine/Outputs, Engine/Scoring: from indicator outputs to the composite score,
--     crates/indicators/src/aggregation.rs and crates/engine/src/scoring.rs.
--   * Engine/State, Gates, Exits, Entries, Tick, Deferred: TradingEngine of
--     crates/engine/src/tick_loop.rs. `on_tick` prepares the day, scores the market, marks the
--     position, and then either manages the position (clock, score, monitor stop, exit actions) or
--     seeks an entry (gates, entry actions, sizing, purchase). `Deferred` has what the host does
--     between ticks: resizing, forced opens and closes, and the three ways to undo.
--   * Engine/Aggregator: CandleAggregator of crates/engine/src/candle_aggregator.rs.
--   * Actions: the conditions, entry windows and reject gates of crates/actions/src/entry
--     (conditions.rs, entry_window.rs, entry_reject_gate.rs), and the stops and the session close
--     of crates/actions/src/exit and crates/actions/src/monitor. The text of a number with two
--     decimals is a parameter.
--     Sizing, Threshold, Exit/Timeout and Atr have the sizing actions, the score threshold, the hold
--     timeout and what rests on the average true range, with the crate ta as the parameter `Ta`.
--     Build is build_actions of crates/actions/src/lib.rs.
--   * Broker: crates/data_feed/src/broker.rs. Lookup and Wait have the fill wait, over `OrderApi`:
--     the calls of the REST interface, the sleep and the clocks as operations on a state of the
--     outside. Simulated has `SimulatedBroker`, and Trait the trait `Broker`.
--   * Live: LiveSession of crates/data_feed/src/live_session.rs, an engine with the entry data of its
--     position.
--   * Book: crates/data_feed/src/book.rs. A book holds a session for each ticker and a state of its
--     broker. Roster has the books that are hosted and their warm-up, Swap the configuration that
--     waits for flat tickers, Pending the exits that the broker has not confirmed, Reconcile and
--     Sightings what is done where broker and engine disagree, and Bar `on_bar`, which ticks a
--     session and settles its entry or exit with the broker, and the forced closes. The sink is the
--     replay log; `try_build_engine` is a field of the configuration.
--   * Examples: a small strategy, brokers and a book, on which the theorems are applied.
--
-- How the code is read. A method with `&mut self` returns the new state. An early return is a stage
-- that says whether the tick ended. A hash map is a list of pairs in iteration order. Logging,
-- notifications and texts that only go into them are left out. `f64` is a parameter with an instance
-- of `F64` (F64), whose laws are hypotheses: `IsOrdered` and `IsSigned` hold of IEEE 754 numbers with
-- NaN; `IsExact` are laws of a set of amounts on which a sum of two rounds nothing. `Decimal` shows
-- that all can be met. chrono is the parameter `Chrono` (Time), with the UTC clock fields as
-- `IsUtcClock`. The book's `u32` counters, clock settings, the sums of the hold timeout and what is
-- counted out for the broker's pauses wrap around, as in a release build; the count of candles in a
-- bar is not bounded. Loops are structural recursion on the list that they run over. The loop of the
-- fill wait has no such list: it has fuel, a unit a round, and a round that polls sleeps for
-- `poll_ms`, so one unit more than the polls that fit in `timeout_ms` is enough. A call of the broker
-- is one step: what runs between the awaits of one call is not interleaved with other calls on the
-- same book, which the code has behind `&mut self`.
--
-- Not modelled: the indicators, the configuration read from JSON, the Alpaca client, the session
-- clock and the builder of market states, the live trader's loop, the replay and its metrics, and
-- all that is network, files, database, terminal or web front end.
pub mod Prelude
pub mod F64
pub mod Time
pub mod Market
pub mod Scores
pub mod Action
pub mod Session
pub mod Engine
pub mod Actions
pub mod Broker
pub mod Live
pub mod Book
pub mod Examples
