-- ===== src/Lib.antt =====
-- ninjabot: a trading bot for crypto exchanges, with a simulated exchange for backtests.
--
-- The program. Candles come from an exchange or from CSV files (exchange/feed). A data feed hands
-- them to the simulated exchange (exchange/paperwallet), to the order controller
-- (order/controller.go) and to one strategy controller for each pair (strategy). A strategy places
-- orders through the order controller, which asks the exchange, stores the orders, watches their
-- status and keeps the open positions and the realized profits.
--
-- The files.
--   Prelude      names of the libraries, lists under native indices, integers, Go maps with string
--                keys as association lists (Prelude/Map); `none` stands for a panic.
--   Float        float64 as a parameter: a type with the operations that the source uses. Laws are
--                hypotheses (Float/Laws); the integers are an instance (Float/Integers).
--   Model        model/model.go and model/order.go: candles, Heikin-Ashi, orders, accounts.
--   Wallet       exchange/paperwallet/paperwallet.go and SplitAssetQuote of exchange/pairs.go.
--                Wallet/State has PaperWallet and its constructor, Wallet/Funds validateFunds and
--                updateAveragePrice, Wallet/Create the CreateOrder methods, Wallet/Fill OnCandle and
--                removeCompletedOrders, Wallet/Cancel Cancel, Wallet/Equity updateEquityValues,
--                Wallet/Drawdown MaxDrawdown. The other children are proofs.
--   OrderController
--                order/controller.go. Summary is the type `summary`, Position has Position.Update,
--                applyToPosition and RestorePositions, State the Controller, Trades updatePosition,
--                processTrade, updateOrders, Start and Stop, Requests the CreateOrder methods and
--                Cancel. The storage and the exchange are records of functions on their own states;
--                the calls of the notifier and of the order feed are a list of events. Exposure,
--                Restored, Results, Publications and Polling are proofs.
--   Queue        model/priorityqueue.go: the heap, with `Less` as a parameter. A loop has its rounds
--                as fuel, the length of the slice or the index it starts at, which is shown to be
--                enough. Order, Exchange, Sink, Down, Up, Operations, Removal and Candles are proofs.
--   Feed         exchange/feed/csvfeed.go from the read candles on: Timeframe has
--                isFirstCandlePeriod and isLastCandlePeriod, with str2duration as a parameter, Csv
--                resample, Limit, CandlesByPeriod and CandlesByLimit; Calendar, Resampled and Periods
--                are proofs.
--   Tools        Trailing is tools/trailing.go, Scheduler tools/scheduler.go.
--   Strategy     strategy/controller.go and Dataframe of model/model.go, in Controller; the strategy
--                is a parameter with a state of its own. Columns and Callbacks are proofs.
--   Strategies   strategy/strategies: Fibonacci has fibLegs, Pullback OnCandle of the Fibonacci strategy,
--                Dca dca.go, CrossEma emacross.go and turtle.go; Totality and Causality are proofs.
--   Bot          ninjabot.go: Exchange takes the wallet, or a panic of it, for the exchange of the
--                order controller, Candles has onCandle, processCandle and backtestCandles for a
--                bot with a paper wallet, Chronology is a proof.
--   Sessions     server/handler/signal_manager.go and session_stats.go. Manager has SignalManager and
--                what its methods do under the lock, Recovery RecoverStaleSessions, Threads
--                StartSession, ResumeSession, StopSession, launch and run as goroutines that take one
--                critical section or one call of the storage at a time; Balances, Wrapper, Stats,
--                Chart and Timeline are the other functions. Ownership, Eviction, Turns, Safety,
--                Exclusion, Progress, Recovered, Summary and Fetch are proofs. The storage and the
--                exchange are parameters, and buildBot succeeds or fails as the environment chooses.
--                The rounds of fetchSessionChartCandles are fuel, of which one for each nanosecond
--                of the chart is shown to be enough; a time.Duration wraps around as int64.
--   Backtest     the defaults and checks of HandleBacktest in server/handler/backtest.go, in Request;
--                Accepted is a proof.
--   Tests        sample data and the theorems at them.
--
-- Conventions. A method is a function from the state and its arguments to the new state and its
-- result. Times are seconds since the epoch as natural numbers, in Sessions nanoseconds since the
-- zero time of package time; ids are int64 counters that are far from their bound. The mutex of
-- the wallet makes a method atomic, so a run is a sequence of calls. The table of pairs.json and
-- AmountToLotSize of the binance client are parameters; the latter may panic. `range` over a map
-- goes through the list in its order, which Go leaves open. Logging, metrics of the process,
-- network clients, the rest of the web server, plots and storage drivers are not modelled.
pub mod Prelude
pub mod Float
pub mod Model
pub mod Wallet
pub mod OrderController
pub mod Queue
pub mod Feed
pub mod Tools
pub mod Strategy
pub mod Strategies
pub mod Bot
pub mod Sessions
pub mod Backtest
mod Tests
