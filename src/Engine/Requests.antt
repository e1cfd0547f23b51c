-- ===== src/Engine/Requests.antt =====
-- What the program asks the REST client for: `ListTrades` of internal/engine/restshim.go, the requests
-- of its loops over bars, and `ToMillis` and `ToNanos` of internal/massive/massive.go, which turn a
-- time into the same instant. The client is a parameter.
pub mod Ranges
use market_hacker.Base.{ℕ, String}
use market_hacker.Clock.{Time}
use market_hacker.Rest.{Fetched, Agg}
use market_hacker.Engine.Replay.{RestTrade}

pub data Timespan : Type 0 where
  minute_span : Timespan

-- models.ListAggsParams, as far as it is set
pub record ListAggsParams : Type 0 where
  pub ticker : String
  pub multiplier : ℕ
  pub timespan : Timespan
  pub from : Time
  pub to : Time

-- models.ListTradesParams, as far as it is set: the timestamps are at least `timestamp_gte` and less
-- than `timestamp_lt`, and a page holds `limit` trades.
pub record ListTradesParams : Type 0 where
  pub ticker : String
  pub timestamp_gte : Time
  pub timestamp_lt : Time
  pub limit : ℕ

-- the client, each of whose iterators is the list of its items and the error that ended it
pub record RestClient (F : Type 0) : Type 0 where
  pub list_aggs : ListAggsParams → Fetched (Agg F)
  pub list_trades : ListTradesParams → Fetched (RestTrade F)

abbrev pub to_millis : Time → Time
to_millis t = t

abbrev pub to_nanos : Time → Time
to_nanos t = t

module _ {F : Type 0} where
  abbrev pub minute_bars : RestClient F → String → Time → Time → Fetched (Agg F)
  minute_bars c ticker start end_ny = c.list_aggs (record {
    ticker = ticker;
    multiplier = 1;
    timespan = minute_span;
    from = to_millis start;
    to = to_millis end_ny;
  })

  unfoldable pub list_trades : RestClient F → String → Time → Time → Fetched (RestTrade F)
  list_trades c ticker start end_ny = c.list_trades (record {
    ticker = ticker;
    timestamp_gte = to_nanos start;
    timestamp_lt = to_nanos end_ny;
    limit = 50_000;
  })
