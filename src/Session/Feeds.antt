-- ===== src/Session/Feeds.antt =====
-- What a session is fed with from outside, and the loop over the live trades.
use market_hacker.Base.{map, ◌++◌, ℕ, String, Option, List, [], ◌∷◌, Result}
use market_hacker.Float.{Float64}
use market_hacker.Clock.{Time}
use market_hacker.Store.{RuntimeFilters, Times, Store, closed, set_phase, update_filters}
use market_hacker.Rest.{Fetched, Agg}
use market_hacker.Engine.{
  Engine, EquityAgg, EquityTrade, RestTrade, on_minute_agg, on_trade, on_eleven_am,
}
use market_hacker.Engine.Requests.{RestClient, minute_bars, list_trades}
use market_hacker.Session.Sockets.{Socket}

-- What reaches a session in its loop over the live trades, in the order in which it happens: a message
-- that is a trade, a request that changes the runtime filters by a function (`handleFilters`), the goroutine that closes the positions at the forced exit, the loop's notice that it has
-- ended, and an error or the end of the socket. `forced_exit` and a trade do not overlap here: the
-- goroutine takes the lock between the steps of `processTrade` (see Engine/Race).
pub data Live (F : Type 0) : Type 0 where
  trade : EquityTrade F → Live F
  edited : (RuntimeFilters F → Result (RuntimeFilters F)) → Live F
  forced_exit : Live F
  noticed : Live F
  socket_error : String → Live F
  socket_closed : Live F

pub record Feeds (F : Type 0) : Type 0 where
  -- the readings of time.Now() in a session, each under a number of its own, and the reading of
  -- ResetForHistoricRun
  pub now : ℕ → Time
  pub reset_now : Time
  -- the order of the results of the worker pools
  pub shuffle : ℕ → List String → List String
  -- strings.ToLower
  pub lower : String → String
  pub client : RestClient F
  -- the requests for other filters that come before the selection of a live session, in their order
  pub early : List (RuntimeFilters F → Result (RuntimeFilters F))
  -- the volume of the first five minutes of a symbol, so many days before the session's open
  pub volumes : Time → String → ℕ → Result (Option F)
  -- the socket for the aggregates, its messages, and the error that ended them
  pub agg_socket : Socket
  pub aggs : List (EquityAgg F)
  pub agg_error : Option String
  pub trade_socket : Socket
  pub live : List (Live F)

-- ListAggs and ListTrades of internal/engine/restshim.go, with the client of the session.
abbrev pub bars_of : {F : Type 0} → Feeds F → String → Time → Time → Fetched (Agg F)
bars_of feeds ticker start end_ny = minute_bars feeds.client ticker start end_ny

abbrev pub trades_of : {F : Type 0} → Feeds F → String → Time → Time → Fetched (RestTrade F)
trades_of feeds ticker start end_ny = list_trades feeds.client ticker start end_ny

-- the changes of the filters that a live session takes, among its events
abbrev pub all_edits : {F : Type 0} → Feeds F → List (Live F)
all_edits feeds = map edited feeds.early ++ feeds.live

-- How the loop over the live trades ends.
pub data Ending : Type 0 where
  session_over stopped : Ending
  failed : String → Ending

module _ {F : Type 0} ⦃d : Float64 F⦄ where
  unfoldable pub edit_all : List (RuntimeFilters F → Result (RuntimeFilters F)) → Store F → Store F
  edit_all [] s = s
  edit_all (fn ∷ fns) s = edit_all fns (update_filters fn s).0

module _ {F : Type 0} ⦃d : Float64 F⦄ (e : Engine F) where
  unfoldable pub collect_aggs : Times → List (EquityAgg F) → Store F → Store F
  collect_aggs w [] s = s
  collect_aggs w (a ∷ as') s = collect_aggs w as' (on_minute_agg e w a s)

  unfoldable pub live_loop : Times → List (Live F) → Store F → Store F × Ending
  live_loop w [] s = (s, stopped)
  live_loop w (trade m ∷ more) s =
      live_loop w more (on_trade e w m.symbol m.timestamp m.price m.size s)
  live_loop w (edited fn ∷ more) s = live_loop w more (update_filters fn s).0
  live_loop w (forced_exit ∷ more) s = live_loop w more (on_eleven_am e w.exit_ny s)
  live_loop w (noticed ∷ more) s = (set_phase closed s, session_over)
  live_loop w (socket_error m ∷ more) s = (s, failed m)
  live_loop w (socket_closed ∷ more) s = (s, stopped)
