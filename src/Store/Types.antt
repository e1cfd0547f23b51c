-- ===== src/Store/Types.antt =====
-- The data of internal/store/store.go, field by field.
use market_hacker.Base.{ℕ, String, Bool, Option, List, ℤ, Dict}
use market_hacker.Clock.{Time}
use market_hacker.Config.{Config}

pub data Phase : Type 0 where
  waiting_open collecting5m selecting0935 tracking_ticks closed : Phase

pub data Mode : Type 0 where
  realtime historic : Mode

pub record RuntimeFilters (F : Type 0) : Type 0 where
  pub open5m_range_pct_min : F
  pub open5m_range_pct_max : F
  pub open5m_vol_min : F
  pub open5m_vol_max : F
  pub open5m_today_pct_min : F
  pub open5m_today_pct_max : F
  pub entry_min_after_open : ℤ
  pub entry_max_after_open : ℤ
  pub entry_price_min : F
  pub entry_price_max : F
  pub sold_off_from_open_pct_min : F
  pub sold_off_open5m_range_pct_min : F
  pub sold_off_open5m_today_pct_min : F

pub record HistoricSummary (F : Type 0) : Type 0 where
  pub date_ny : String
  pub window_start_ny : String
  pub window_end_ny : String
  pub shares : ℕ
  pub candidates : ℕ
  pub trades_taken : ℕ
  pub no_entry : ℕ
  pub wins : ℕ
  pub losses : ℕ
  pub time_exits : ℕ
  pub win_rate : F
  pub net_pnl : F
  pub total_notional : F
  pub net_return_pct : F
  pub avg_return_pct : F
  pub avg_win_pct : F
  pub avg_loss_pct : F
  pub profit_factor : F
  pub best_trade_pct : F
  pub worst_trade_pct : F

pub record HistoricTrade (F : Type 0) : Type 0 where
  pub symbol : String
  pub entry_time_ny : String
  pub entry_price : F
  pub entry_minutes_after_open : F
  pub take_profit_price : F
  pub stop_price : F
  pub exit_time_ny : String
  pub exit_price : F
  pub exit_minutes_after_open : F
  pub exit_reason : String
  pub shares : ℕ
  pub realized_pnl_pct : F
  pub realized_pnl : F
  pub hold_price : F
  pub hold_pnl_pct : F
  pub hold_pnl : F
  pub mfe_price : F
  pub mfe_time_ny : String
  pub mfe_pnl_pct : F
  pub mfe_pnl : F
  pub mae_price : F
  pub mae_time_ny : String
  pub mae_pnl_pct : F
  pub mae_pnl : F

pub record HistoricNoEntry (F : Type 0) : Type 0 where
  pub symbol : String
  pub open5m_vol : F
  pub open5m_range_pct : F
  pub open5m_today_pct : F
  pub saw_cross_in_window : Bool
  pub first_cross_time_ny : String
  pub first_cross_price : F
  pub reason : String

pub record HistoricSoldOff (F : Type 0) : Type 0 where
  pub symbol : String
  pub open0930 : F
  pub low_price : F
  pub low_time_ny : String
  pub price_at_scan_time : F
  pub drop_pct : F
  pub open5m_vol : F
  pub open5m_range_pct : F
  pub open5m_today_pct : F

pub record HistoricReport (F : Type 0) : Type 0 where
  pub summary : HistoricSummary F
  pub trades : List (HistoricTrade F)
  pub no_entries : List (HistoricNoEntry F)
  pub sold_off : List (HistoricSoldOff F)

pub record Event : Type 0 where
  pub id : String
  pub time_ny : String
  pub type : String
  pub symbol : String
  pub message : String
  pub audio_id : String
  pub level : String

pub record TickerState (F : Type 0) : Type 0 where
  pub symbol : String
  -- open-5m metrics (09:30-09:34)
  pub open0930 : F
  pub open0930_estimated : Bool
  pub or_high : F
  pub or_low : F
  pub open5m_vol : F
  pub open5m_range_pct : F
  -- history metric at or after 09:35
  pub prev10_avg_open5m_vol : F
  pub open5m_today_pct : F
  -- tick tracking
  pub cum_pv : F
  pub cum_v : F
  pub vwap : F
  pub last_price : F
  pub last_trade : Time
  pub prev_price : F
  pub prev_vwap : F
  pub minutes_after_open : F
  -- trade lifecycle
  pub has_position : Bool
  pub entry_price : F
  pub entry_time : Time
  pub take_profit_price : F
  pub stop_price : F
  pub exited : Bool
  pub exit_reason : String
  -- entry and exit details for reporting
  pub entry_minutes_after_open : F
  pub exit_price : F
  pub exit_time : Time
  pub exit_minutes_after_open : F
  -- excursions since entry
  pub max_price_since_entry : F
  pub max_price_since_entry_time : Time
  pub min_price_since_entry : F
  pub min_price_since_entry_time : Time
  -- diagnostics for "selected but no entry"
  pub saw_cross_in_window : Bool
  pub first_cross_time : Time
  pub first_cross_price : F
  pub status : String

-- The four times of a session, which the source passes as four arguments.
pub record Times : Type 0 where
  pub open_ny : Time
  pub sel_ny : Time
  pub cutoff_ny : Time
  pub exit_ny : Time

pub record Store (F : Type 0) : Type 0 where
  pub cfg : Config F
  pub mode : Mode
  pub historic_report : Option (HistoricReport F)
  pub filters : RuntimeFilters F
  pub session_id : String
  pub historic_target_date_ny : Time
  pub historic_resolved_date_ny : Time
  pub historic_note : String
  pub phase : Phase
  pub watchlist : List String
  pub watchset : List String
  pub times : Times
  pub tickers : Dict (TickerState F)
  pub events : List Event
  pub audio : Dict (List ℕ)
  pub fault : Bool
