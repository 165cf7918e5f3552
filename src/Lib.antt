-- ===== src/Lib.antt =====
-- HYDRA-ENGINE, an automatic trading engine in Python: order submission under a kill switch and daily
-- loss limits, a market data to signal pipeline, a backtest, and the services around them. This library
-- models its core logic and proves what makes it correct.
--
-- The parts, by the directories of the repository:
--   hydra/core        Core: the order queue (Core/OrderQueue, with the request of Core/Orders), the kill
--                     switch (Core/KillSwitch, with the traces of its calls in
--                     Core/KillSwitch/Trace), the risk engine (Core/RiskEngine), positions, gains and
--                     stored state (Core/PositionTracker, Core/PnlTracker, Core/StateManager)
--   hydra/strategy, hydra/regime, hydra/engine
--                     Strategy: indicators, detector, generator, sizing; EventKeys: the keys of the
--                     cold starts
--   hydra/indicator, hydra/data/storage/base.py
--                     Candle: the candle and the calculator
--   hydra/data        Storage: the two stores of candles (Storage/Sqlite, Storage/Postgres), what both
--                     guarantee (Storage/Contract) and what its readers get of it (Storage/Latest,
--                     Storage/Backtest), and the collector (Storage/Collector)
--   hydra/api, hydra/main.py
--                     Api: the guard and the table of the routes (Api/Guard, with their paths in
--                     Api/Paths), the handlers (Api/Control, Api/Stored, Api/Cached, Api/Health), the
--                     start and the end of the process (Api/Lifespan), a client (Api/Remote), and what
--                     is proved of them, by subject
--   hydra/cli         Cli: the wizard (Cli/Setup, with what it leaves in Cli/Stored, Cli/Connected,
--                     Cli/Launch and Cli/Keyed), the commands (Cli/Kill, Cli/Status, Cli/Market, Cli/Modules,
--                     Cli/Strategies, Cli/Trade), and two of them in a row (Cli/Operator)
--   hydra/indicator/engine.py, hydra/regime/engine.py, hydra/strategy/engine.py
--                     Engines: the event handlers and cold starts of the live engines, their loops over
--                     the messages (Engines/Messages), their start (Engines/StartUp), and the three of
--                     them interleaving (Engines/Live)
--   hydra/ml, hydra/supplemental
--                     Supplemental: the score of the news and the rounds of the pollers
--   hydra/exchange    Exchange: the crypto, KIS and Polymarket connectors and the factory; Core/Orders has
--                     the interface of the connectors
--   hydra/backtest    Backtest: broker, metrics and runner
--   hydra/resilience  Resilience: rate limiter and graceful shutdown
--   hydra/config      Config: markets, profiles and limits, the keys of the exchanges, and the settings of
--                     a process (Config/Settings)
--   hydra/agent       Agent: the state that the agent is told (Agent/State), how its answer is read
--                     (Agent/Answer), and what is done with it (Agent/Bridge)
--   hydra/notify      Notify/Telegram: the messages to the operator and the command of the bot
--   scripts/dr_watchdog.py
--                     Watchdog: the count of the failures, and the calls (Watchdog/Calls)
--
-- How the code is written here. A method that changes Redis or talks to an exchange takes the world and
-- returns it beside its result, errors included (Exec): what was written before an exception stays.
-- `submit` reads the cache, then the kill switch, takes the lock, asks the risk engine and calls the
-- connector, in that order; the kill switch writes the key that `submit` reads; the risk engine and the
-- kill switch read the same loss; the runner of the backtest feeds the calculator, the detector and the
-- generator to the broker. Names are those of the source.
--
-- What is a parameter. Redis is an interface with laws (Redis/Client), which an implementation in memory
-- fills (Redis/Memory). Floating point numbers are an interface (Float); where an order matters its
-- laws are an argument, which fixed point numbers fill (Float/Fixed). The SQL statements of the stores are
-- an interface with laws (Storage/Database), which a list of rows fills (Storage/Memory). The programs and
-- libraries behind the connectors, the router of FastAPI, the Telegram client, the agent, Fernet, pandas-ta,
-- the answers of the operator, the formats of numbers, the clock and `uuid4` are arguments. JSON text is the value that it encodes (Json).
--
-- Fuel. Only the waiting loop of the rate limiter needs fuel; it is shown when a fuel is enough, and that
-- none is where a request exceeds the capacity at a rate other than 0. At the rate 0 a wait ends in a
-- ZeroDivisionError. All other loops run over lists.
--
-- What may raise. The calls of the connectors raise as they like. The calls of Redis and the statements of
-- the stores are taken to come back, but in two places: the health check, where a moment says whether
-- Redis answers it, and the collector, where `Faults` says which `upsert` and which `publish` raises and
-- what such an `upsert` leaves.
--
-- Overlapping calls. `submit` gives way to other tasks only while it waits for the exchange;
-- Core/OrderQueue/Interleaving has the two runs of `submit` around that call as steps, among other steps
-- that leave the locks alone, and Core/OrderQueue/Expiry what happens when a lock expires in between.
--
-- The three engines wait at every call of Redis, so Engines/Live has what each does between two waits as a
-- step, among steps of the collector, lost connections and steps that leave the caches alone; the writing
-- of a signal and the submission of its order are one step.
--
-- Not modelled: the loops that connect again after a lost connection, but for the messages that this
-- loses; the endless loops of the pollers, which repeat a round that is modelled; the start of the bot;
-- logging and the benchmark script; retries and circuit breakers, which are one call each of a
-- library; that the asyncio client which the strategy engine gives its order queue in live mode does not
-- answer synchronous calls.
pub mod Base
pub mod Text
pub mod Dict
pub mod Float
pub mod Json
pub mod Redis
pub mod Exec
pub mod Core
pub mod Strategy
pub mod Candle
pub mod Cli
pub mod Backtest
pub mod EventKeys
pub mod Storage
pub mod Api
pub mod Notify
pub mod Agent
pub mod Exchange
pub mod Engines
pub mod Supplemental
pub mod Watchdog
pub mod Resilience
pub mod Config
pub mod Examples
