-- ===== src/Lib.antt =====
-- The opening-range trader: what its parts compute, and theorems about them.
--
-- The program watches a list of stocks through the first five minutes of the session, selects at
-- 09:35 those whose opening range and volume lie inside the filters, follows their trades, alerts a
-- buy when the price crosses its VWAP from below before the cutoff, and alerts a sale at the profit
-- target, at the stop, or at the forced exit. In historic mode it replays a day and writes a report.
--
-- Parts, and the files that model them (paths from the repository's root):
--   Config     internal/config/config.go: defaults, validation, Load (applyDefaults is
--              `apply_defaults`, validate is `validate`, Load is `load`).
--   Store      internal/store/store.go: the state that the engine writes and the server reads. Each
--              method, which holds the lock throughout, is one function from the store to the store.
--   Nato, Watchlist  internal/nato/nato.go, internal/watchlist/watchlist.go.
--   Speech     internal/openai/tts.go (`synthesize`, `rand_id`).
--   Rest       internal/engine/restshim.go: the loops over the bars of the REST client.
--   Engine     internal/engine/engine.go and the parts of internal/engine/historic.go that work on
--              the same store. Ticks has the closures that processTrade passes to UpsertTicker,
--              Trade processTrade itself (`process_trade`) with the alerts and the closes, Replay the
--              loops that feed it, Opening the minute bars, the selection and its correction over
--              REST, Tracking the history and the VWAP seed (buildTrackedStates), Requests what the REST
--              client is asked for, Dates the choice of the
--              day of a historic run, SoldOff the scan for tickers that fell (scanSoldOff). The other modules
--              of Engine hold proofs: Refine takes processTrade to one function of one ticker, Moves
--              makes that a state machine, and Decisions, CatchUp, Lifecycle, Vwap and Sound rest on
--              both; Tracked is about buildTrackedStates.
--   Report     buildHistoricReport of internal/engine/historic.go.
--   Session    Run of internal/engine/engine.go (`run`), RunHistoricForDate and runHistoricLiveToday of
--              internal/engine/historic.go (`run_historic_for_date`, `run_historic_live_today`) and NewWS
--              of internal/massive/massive.go, as the composition of the steps of Engine. `Feeds` holds
--              what the clients, the clock and the worker pools bring in. Holds lists the steps of a
--              session: what each of them keeps, the whole session keeps; Holds/Edits is about the
--              changes of the filters. Stable gives the steps what every change of a ticker, event and
--              setting keeps; Sound gives them the soundness of the
--              tickers. LiveEnd is about the last events of the live loop, SettledLive about the end of a
--              live session, Completes and Settled about the end of a replay, DayVwap about the VWAP
--              of a replayed day.
--   Server     internal/server/api.go, sse.go and http.go: the handlers of the state, the audio, the
--              filters and historic runs, the loop of historic runs as a step relation (`Step`), the
--              event pump, the hub with its clients (`hub_step`), the bars of the chart.
--   Main       cmd/orb/main.go: what is checked and set up for either mode (`start`); Served is what the
--              server of a started program does to the store, run after run.
--   Clock, Float, Base  time.Time, float64, and what the other files share.
--   Tests      a sample session, runs of the code, and the theorems at it.
--
-- How the code corresponds. A function of the source has the same name in small letters with
-- underscores; a struct is a record with the source's fields; an error is `err` or `some` of its
-- text. A struct that the source changes in place is passed in and returned. A guard that returns
-- early is the first branch of a test. The store is read where the source reads it: processTrade takes
-- the times of the session once, and openPosition and closePosition read the store's again.
--
-- Numbers. float64 is any type with the operations of `Float64`. Theorems that need facts of IEEE
-- 754 arithmetic name them in `IsIeee`, which `Fixed` shows can be met. A time is a natural
-- number of nanoseconds since year 1, so that the zero time is 0. An `int` is an integer; none of
-- the modelled code comes near its bounds. A map is a list of pairs in the order of insertion; Go
-- promises no order, and no theorem rests on one.
--
-- Loops go over lists and end with them; those that count days or digits count down a number that is
-- given, and the number of a decimal's digits is bounded by the number itself. The two loops that skip
-- over a weekend have seven rounds; where days of the week follow each other they need one
-- (`skip_saturdays` and `skip_sundays` of Engine/Calendar, and Server/ChartDays). The loop over the
-- batches of the watchlist has a round for each symbol, and a batch holds one symbol at least.
--
-- Concurrency. The lock of the store makes each method atomic, and one goroutine runs processTrade.
-- Results of worker pools come in an order that is a parameter (`arrivals`, `shuffle`). In a live
-- session the forced exit comes between two trades (`Live`); Engine/Race has the exit inside a
-- trade. The loop of historic runs interleaves with requests and with the ends of runs in any
-- order. `fault` of the store is set where the Go runtime would panic.
--
-- Parameters: the YAML and JSON decoders, the REST and WebSocket clients and the speech service are
-- third-party code; a model takes what they return. The random bytes of an audio id are given for
-- each text. strings.TrimSpace of the audio handler keeps a text without a space. strings.ToUpper
-- of the watchlist is any function. `Location` gives the civil time of a time zone.
--
-- Requests that change the runtime filters: a live session takes them before its selection (`early`
-- of `Feeds`), which reads the filters once, and in any place among its trades (`edited` of
-- `Live`); the server takes them between two historic runs (Main/Served). While a past day is
-- opened, replayed or scanned, or the run of today comes to its live trades, the model holds the
-- filters as they are, though the program would take a request there too: what is said of such a
-- run is said of one without such a request.
--
-- Not modelled: requests about the filters in those places of a historic run; the cancelled context
-- where it is tested inside a loop or at a timer (the end of a stream stands for it where a session
-- waits); the waits themselves, of which only the readings of the clock are left; HTTP, its
-- headers, static files and the ping of a new client; flags, signals, the log and the goroutines of
-- main; the constructors for the third-party clients but for NewWS; the web page.
pub mod Base
pub mod Float
pub mod Clock
pub mod Config
pub mod Store
pub mod Nato
pub mod Speech
pub mod Watchlist
pub mod Rest
pub mod Engine
pub mod Report
pub mod Session
pub mod Server
pub mod Main
mod Tests
