-- ===== src/Tests/Sample.antt =====
-- One session of one day, with one ticker, over the fixed-point numbers.
use market_hacker.Base.{ℕ, ◌+◌, ◌*◌, ◌-◌, ◌/◌, ◌%◌, true, none, [], ◌∷◌, ℤ, pos}
use market_hacker.Float.Fixed.{Fixed, fixed_float, cents}
use market_hacker.Clock.{Time, Location, second, unix_epoch}
use market_hacker.Config.{Config}
use market_hacker.Store.{TickerState, RuntimeFilters, Times, Store, new_ticker, new}
use market_hacker.Engine.{Engine}

-- 2023-12-09, 00:00 UTC
abbrev pub midnight : Time
midnight = unix_epoch + 19_700 * 86_400 * second

abbrev pub at : ℕ → ℕ → Time
at hh mm = midnight + (hh * 3600 + mm * 60) * second

-- milliseconds since 1970
abbrev pub millis_at : ℕ → ℕ → ℤ
millis_at hh mm = pos ((19_700 * 86_400 + hh * 3600 + mm * 60) * 1000)

abbrev pub utc : Location
utc = record {
  civil = λ t. record {
    year = 2023;
    month = 12;
    day = 9;
    hour = t / second / 3600 % 24;
    min = t / second / 60 % 60;
    sec = t / second % 60;
  };
  date = λ c. midnight + (c.hour * 3600 + c.min * 60 + c.sec) * second;
  weekday = λ t. (t / second / 86_400 + 1) % 7;
  days_back = λ n t. t - n * 86_400 * second;
}

abbrev pub session : Times
session = record { open_ny = at 9 30; sel_ny = at 9 35; cutoff_ny = at 9 43; exit_ny = at 11 0 }

abbrev pub config : Config Fixed
config = record {
  server = record { host = "0.0.0.0"; port = pos 8097 };
  market = record {
    timezone = "America/New_York";
    open_time = "09:30:00";
    selection_time = "09:35:00";
    vwap_cross_cutoff = "09:43:00";
    force_exit_time = "11:00:00";
  };
  filters = record {
    open5m_range_pct_min = cents 7;
    open5m_range_pct_max = cents 20;
    open5m_vol_min = cents 10_000_000;
    open5m_vol_max = cents 50_000_000;
    open5m_today_pct_min = cents 50_000;
    open5m_today_pct_max = cents 150_000;
    entry_min_after_open = pos 5;
    entry_max_after_open = pos 12;
    entry_price_min = cents 1000;
    entry_price_max = cents 8000;
    sold_off_from_open_pct_min = cents 9;
    sold_off_open5m_range_pct_min = cents 1;
    sold_off_open5m_today_pct_min = cents 5000;
  };
  risk = record { take_profit_pct = cents 5; stop_loss_pct = cents 2 };
  history = record {
    open5m_lookback_sessions = pos 10;
    max_calendar_lookback = pos 20;
    max_workers = pos 6;
  };
  massive = record { feed = "realtime"; market = "stocks"; ws_batch_size = pos 200 };
  openai = record { tts_model = "tts-1"; voice = "alloy"; response_format = "mp3" };
  ui = record { max_events = pos 3 };
}

abbrev pub engine : Engine Fixed
engine = record { cfg = config; tts = none; loc = utc }

abbrev pub runtime_filters : RuntimeFilters Fixed
runtime_filters = record {
  open5m_range_pct_min = cents 7;
  open5m_range_pct_max = cents 20;
  open5m_vol_min = cents 10_000_000;
  open5m_vol_max = cents 50_000_000;
  open5m_today_pct_min = cents 50_000;
  open5m_today_pct_max = cents 150_000;
  entry_min_after_open = pos 5;
  entry_max_after_open = pos 12;
  entry_price_min = cents 1000;
  entry_price_max = cents 8000;
  sold_off_from_open_pct_min = cents 9;
  sold_off_open5m_range_pct_min = cents 1;
  sold_off_open5m_today_pct_min = cents 5000;
}

-- Selected, just below its VWAP of 10.00, with 1000 shares traded.
abbrev pub ready : TickerState Fixed
ready = record (new_ticker "AAPL") {
  open0930 = cents 1000;
  or_high = cents 1050;
  or_low = cents 950;
  open5m_vol = cents 20_000_000;
  open5m_range_pct = cents 10;
  open5m_today_pct = cents 80_000;
  cum_pv = cents 1_000_000;
  cum_v = cents 100_000;
  vwap = cents 1000;
  last_price = cents 990;
  status = "tracking";
}

-- The same ticker with a position from 10.00, a target of 10.50 and a stop of 9.80.
abbrev pub long : TickerState Fixed
long = record ready {
  has_position = true;
  entry_price = cents 1000;
  entry_time = at 9 36;
  take_profit_price = cents 1050;
  stop_price = cents 980;
  max_price_since_entry = cents 1000;
  min_price_since_entry = cents 1000;
  saw_cross_in_window = true;
}

abbrev pub store_with : TickerState Fixed → Store Fixed
store_with t = record (new config ("AAPL" ∷ "MSFT" ∷ []) (at 9 0)) {
  times = session;
  tickers = ("AAPL", t) ∷ [];
}
