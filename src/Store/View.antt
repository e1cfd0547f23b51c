-- ===== src/Store/View.antt =====
-- `Snapshot` of store.go: the copy of the state that /api/state sends.
use market_hacker.Base.{ℕ, String, Bool, Option, List, map, if◌then◌else◌, length}
use market_hacker.Clock.{Time, Location, is_zero, clock_hms, date_iso, stamp, date_only}
use market_hacker.Store.Types.{
  Phase, Mode, realtime, historic, RuntimeFilters, HistoricReport, Event, TickerState, Store,
}

pub record PublicTicker (F : Type 0) : Type 0 where
  pub symbol : String
  pub open0930 : F
  pub open5m_vol : F
  pub open5m_range_pct : F
  pub prev10_avg_open5m : F
  pub open5m_today_pct : F
  pub saw_cross_in_window : Bool
  pub first_cross_time_ny : String
  pub first_cross_price : F
  pub vwap : F
  pub last_price : F
  pub minutes_after_open : F
  pub status : String
  pub entry_price : F
  pub take_profit_price : F
  pub stop_price : F

pub record Snapshot (F : Type 0) : Type 0 where
  pub now_ny : String
  pub mode : Mode
  pub phase : Phase
  pub watchlist_count : ℕ
  pub open_time_ny : String
  pub selection_time_ny : String
  pub vwap_cutoff_ny : String
  pub force_exit_ny : String
  pub tracked_count : ℕ
  pub tickers : List (PublicTicker F)
  pub filters : RuntimeFilters F
  pub events : List Event
  pub historic_report : Option (HistoricReport F)
  pub session_id : String
  pub historic_target_date_ny : String
  pub historic_resolved_date_ny : String
  pub historic_note : String
  pub historic_min_date_ny : String
  pub historic_max_date_ny : String

-- `if t.IsZero() { return "" }; return t.In(loc).Format("15:04:05")`
abbrev pub clock_or_empty : Location → Time → String
clock_or_empty loc t = if is_zero t then "" else clock_hms loc t

abbrev date_or_empty : Location → Time → String
date_or_empty loc t = if is_zero t then "" else date_iso loc t

-- The zero time is in UTC, whatever `loc` is.
abbrev session_stamp : Location → Time → String
session_stamp loc t = if is_zero t then "0001-01-01 00:00:00" else stamp loc t

abbrev historic_max : Mode → Location → Time → String
historic_max historic loc now = date_iso loc (date_only loc now)
historic_max realtime loc now = ""

module _ {F : Type 0} where
  public_ticker : Location → TickerState F → PublicTicker F
  public_ticker loc t = record {
    symbol = t.symbol;
    open0930 = t.open0930;
    open5m_vol = t.open5m_vol;
    open5m_range_pct = t.open5m_range_pct;
    prev10_avg_open5m = t.prev10_avg_open5m_vol;
    open5m_today_pct = t.open5m_today_pct;
    saw_cross_in_window = t.saw_cross_in_window;
    first_cross_time_ny = clock_or_empty loc t.first_cross_time;
    first_cross_price = t.first_cross_price;
    vwap = t.vwap;
    last_price = t.last_price;
    minutes_after_open = t.minutes_after_open;
    status = t.status;
    entry_price = t.entry_price;
    take_profit_price = t.take_profit_price;
    stop_price = t.stop_price;
  }

  unfoldable pub snapshot : Location → Time → Store F → Snapshot F
  unfolding public_ticker
  snapshot loc now s = record {
    now_ny = stamp loc now;
    mode = s.mode;
    phase = s.phase;
    watchlist_count = length s.watchlist;
    open_time_ny = session_stamp loc s.times.open_ny;
    selection_time_ny = session_stamp loc s.times.sel_ny;
    vwap_cutoff_ny = session_stamp loc s.times.cutoff_ny;
    force_exit_ny = session_stamp loc s.times.exit_ny;
    tracked_count = length s.tickers;
    tickers = map (λ p. public_ticker loc p.1) s.tickers;
    filters = s.filters;
    events = s.events;
    historic_report = s.historic_report;
    session_id = s.session_id;
    historic_target_date_ny = date_or_empty loc s.historic_target_date_ny;
    historic_resolved_date_ny = date_or_empty loc s.historic_resolved_date_ny;
    historic_note = s.historic_note;
    historic_min_date_ny = "";
    historic_max_date_ny = historic_max s.mode loc now;
  }
