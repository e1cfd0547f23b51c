-- ===== src/Config.antt =====
-- internal/config/config.go: the configuration, its defaults and its validation.
-- The YAML file is read by a third-party package; `load` takes what that package returned.
pub mod Checks
use market_hacker.Base.{
  ℕ, suc, ◌≡◌, ◌||◌, String, Bool, Option, none, some, ℤ, pos, negsuc, ltb_ℤ, leb_ℤ, str_eq,
  if◌then◌else◌, Result, ok, err,
}
use market_hacker.Float.{Float64, not_pos, ratio}

pub record ServerConfig : Type 0 where
  pub host : String
  pub port : ℤ

pub record MarketConfig : Type 0 where
  pub timezone : String
  pub open_time : String
  pub selection_time : String
  pub vwap_cross_cutoff : String
  pub force_exit_time : String

pub record FiltersConfig (F : Type 0) : Type 0 where
  pub open5m_range_pct_min : F
  pub open5m_range_pct_max : F
  pub open5m_vol_min : F
  pub open5m_vol_max : F
  pub open5m_today_pct_min : F
  pub open5m_today_pct_max : F
  pub entry_min_after_open : ℤ
  pub entry_max_after_open : ℤ
  pub entry_price_min : F
  pub entry_price_max : F
  pub sold_off_from_open_pct_min : F
  pub sold_off_open5m_range_pct_min : F
  pub sold_off_open5m_today_pct_min : F

pub record RiskConfig (F : Type 0) : Type 0 where
  pub take_profit_pct : F
  pub stop_loss_pct : F

pub record HistoryConfig : Type 0 where
  pub open5m_lookback_sessions : ℤ
  pub max_calendar_lookback : ℤ
  pub max_workers : ℤ

pub record MassiveConfig : Type 0 where
  pub feed : String
  pub market : String
  pub ws_batch_size : ℤ

pub record OpenAiConfig : Type 0 where
  pub tts_model : String
  pub voice : String
  pub response_format : String

pub record UiConfig : Type 0 where
  pub max_events : ℤ

pub record Config (F : Type 0) : Type 0 where
  pub server : ServerConfig
  pub market : MarketConfig
  pub filters : FiltersConfig F
  pub risk : RiskConfig F
  pub history : HistoryConfig
  pub massive : MassiveConfig
  pub openai : OpenAiConfig
  pub ui : UiConfig

-- `if x == "" { x = v }`, `if n == 0 { n = v }`, `if n <= 0 { n = v }` and `if x <= 0 { x = v }`
unfoldable pub or_text : String → String → String
or_text v x = if str_eq x "" then v else x

unfoldable pub or_port : ℕ → ℤ → ℤ
or_port v (pos ℕ.zero) = pos v
or_port v (pos (suc n)) = pos (suc n)
or_port v (negsuc n) = negsuc n

unfoldable pub or_count : ℕ → ℤ → ℤ
or_count v n = if leb_ℤ n (pos 0) then pos v else n

module _ {F : Type 0} ⦃d : Float64 F⦄ where
  open d use {of_ℕ, lt, le}

  unfoldable pub or_float : F → F → F
  or_float v x = if not_pos x then v else x

  default_filters : FiltersConfig F → FiltersConfig F
  default_filters f = record f {
    sold_off_from_open_pct_min = or_float (ratio 20 100) f.sold_off_from_open_pct_min;
    sold_off_open5m_range_pct_min = or_float (ratio 1 100) f.sold_off_open5m_range_pct_min;
    sold_off_open5m_today_pct_min = or_float (of_ℕ 50) f.sold_off_open5m_today_pct_min;
  }

  unfoldable pub apply_defaults : Config F → Config F
  unfolding default_filters
  apply_defaults c = record {
    server = record { host = or_text "0.0.0.0" c.server.host; port = or_port 8097 c.server.port };
    market = record {
      timezone = or_text "America/New_York" c.market.timezone;
      open_time = or_text "09:30:00" c.market.open_time;
      selection_time = or_text "09:35:00" c.market.selection_time;
      vwap_cross_cutoff = or_text "09:43:00" c.market.vwap_cross_cutoff;
      force_exit_time = or_text "11:00:00" c.market.force_exit_time;
    };
    filters = default_filters c.filters;
    risk = record {
      take_profit_pct = or_float (ratio 5 100) c.risk.take_profit_pct;
      stop_loss_pct = or_float (ratio 2 100) c.risk.stop_loss_pct;
    };
    history = record {
      open5m_lookback_sessions = or_count 10 c.history.open5m_lookback_sessions;
      max_calendar_lookback = or_count 35 c.history.max_calendar_lookback;
      max_workers = or_count 6 c.history.max_workers;
    };
    massive = record {
      feed = or_text "realtime" c.massive.feed;
      market = or_text "stocks" c.massive.market;
      ws_batch_size = or_count 200 c.massive.ws_batch_size;
    };
    openai = record {
      tts_model = or_text "tts-1" c.openai.tts_model;
      voice = or_text "alloy" c.openai.voice;
      response_format = or_text "mp3" c.openai.response_format;
    };
    ui = record { max_events = or_count 250 c.ui.max_events };
  }

  -- `none` is a nil error.
  unfoldable pub validate_filters : FiltersConfig F → Option String
  validate_filters f =
      if not_pos f.open5m_range_pct_min
        || (not_pos f.open5m_range_pct_max || lt f.open5m_range_pct_max f.open5m_range_pct_min)
      then some "filters.open_5m_range_pct_min/max invalid"
      else if lt f.open5m_vol_max f.open5m_vol_min
      then some "filters.open_5m_vol_min/max invalid"
      else if ltb_ℤ f.entry_max_after_open f.entry_min_after_open
      then some "filters.entry_minutes_after_open_min/max invalid"
      else if lt f.entry_price_max f.entry_price_min
      then some "filters.entry_price_min/max invalid"
      else if not_pos f.sold_off_from_open_pct_min || le (of_ℕ 1) f.sold_off_from_open_pct_min
      then some "filters.sold_off_from_open_pct_min invalid (expected 0..1)"
      else if not_pos f.sold_off_open5m_range_pct_min || le (of_ℕ 1) f.sold_off_open5m_range_pct_min
      then some "filters.sold_off_open5m_range_pct_min invalid (expected 0..1)"
      else if not_pos f.sold_off_open5m_today_pct_min
      then some "filters.sold_off_open5m_today_pct_min invalid (>0)"
      else none

  unfoldable pub validate : Config F → Option String
  validate c =
      if leb_ℤ c.server.port (pos 0) || ltb_ℤ (pos 65_535) c.server.port
      then some "server.port must be 1..65535"
      else validate_filters c.filters

  unfoldable pub load : Result (Config F) → Result (Config F)
  load (err e) = err e
  load (ok c) = let c' = apply_defaults c in elim (validate c') [ none ↦ ok c' | some e ↦ err e ]
