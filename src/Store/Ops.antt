-- ===== src/Store/Ops.antt =====
-- The methods of `Store` in store.go, but for the filters and the snapshot.
use market_hacker.Base.{
  ℕ, ◌-◌, String, Bool, false, ◌||◌, Option, none, List, [], ◌∷◌, ◌++◌, map, ℤ, pos, ltb_ℤ, leb_ℤ,
  if◌then◌else◌, length, drop, Dict, contains, lookup, upsert,
}
use market_hacker.Float.{Float64}
use market_hacker.Clock.{Time, unix_epoch, decimal}
use market_hacker.Config.{Config}
use market_hacker.Store.Types.{
  Phase, waiting_open, Mode, realtime, HistoricReport, Event, TickerState, Times, Store,
}
use market_hacker.Store.Filters.{runtime_filters_from_config}

-- The cases of AddEvent: the list is full, and it drops its oldest event; or it grows. A full list
-- with no event in it, for a capacity of 0 or less, is an index out of range.
unfoldable pub push_event : ℤ → List Event → Event → List Event
push_event cap events ev =
    if leb_ℤ cap (pos (length events)) then drop 1 events ++ (ev ∷ []) else events ++ (ev ∷ [])

unfoldable pub push_faults : ℤ → List Event → Bool
push_faults cap [] = leb_ℤ cap (pos 0)
push_faults cap (_ ∷ _) = false

module _ {F : Type 0} where
  -- `now` is time.Now(). `make` with a negative capacity panics.
  abbrev pub new : Config F → List String → Time → Store F
  new cfg watchlist now = record {
    cfg = cfg;
    mode = realtime;
    historic_report = none;
    filters = runtime_filters_from_config cfg;
    session_id = decimal (now - unix_epoch);
    historic_target_date_ny = 0;
    historic_resolved_date_ny = 0;
    historic_note = "";
    phase = waiting_open;
    watchlist = watchlist;
    watchset = watchlist;
    times = record { open_ny = 0; sel_ny = 0; cutoff_ny = 0; exit_ny = 0 };
    tickers = [];
    events = [];
    audio = [];
    fault = ltb_ℤ cfg.ui.max_events (pos 0);
  }

  unfoldable pub set_mode : Mode → Store F → Store F
  set_mode m s = record s { mode = m }

  unfoldable pub set_historic_report : Option (HistoricReport F) → Store F → Store F
  set_historic_report r s = record s { historic_report = r }

  unfoldable pub reset_for_historic_run : Time → Time → String → Time → Store F → Store F
  reset_for_historic_run target resolved note now s = record s {
    session_id = decimal (now - unix_epoch);
    historic_target_date_ny = target;
    historic_resolved_date_ny = resolved;
    historic_note = note;
    historic_report = none;
    tickers = [];
    events = [];
    audio = [];
    fault = s.fault || ltb_ℤ s.cfg.ui.max_events (pos 0);
  }

  -- The map is read in the order of the list; Go promises no order.
  unfoldable pub ticker_states : Store F → List (TickerState F)
  ticker_states s = map (λ p. p.1) s.tickers

  unfoldable pub has_symbol : String → Store F → Bool
  has_symbol sym s = contains sym s.watchset

  unfoldable pub set_times : Times → Store F → Store F
  set_times w s = record s { times = w }

  unfoldable pub set_phase : Phase → Store F → Store F
  set_phase p s = record s { phase = p }

  unfoldable pub get_ticker : String → Store F → Option (TickerState F)
  get_ticker sym s = lookup sym s.tickers

  unfoldable pub set_tracked_tickers : Dict (TickerState F) → Store F → Store F
  set_tracked_tickers states s = record s { tickers = states }

  unfoldable pub store_audio : String → List ℕ → Store F → Store F
  store_audio id bytes s = record s { audio = upsert id bytes (λ _. bytes) s.audio }

  unfoldable pub get_audio : String → Store F → Option (List ℕ)
  get_audio id s = lookup id s.audio

  unfoldable pub add_event : Event → Store F → Store F
  unfolding push_event push_faults
  add_event ev s = record s {
    events = push_event s.cfg.ui.max_events s.events ev;
    fault = s.fault || push_faults s.cfg.ui.max_events s.events;
  }

module _ {F : Type 0} ⦃d : Float64 F⦄ where
  open d use {nought}

  -- `&TickerState{Symbol: sym, Status: "watching"}`
  abbrev pub new_ticker : String → TickerState F
  new_ticker sym = record {
    symbol = sym;
    open0930 = nought;
    open0930_estimated = false;
    or_high = nought;
    or_low = nought;
    open5m_vol = nought;
    open5m_range_pct = nought;
    prev10_avg_open5m_vol = nought;
    open5m_today_pct = nought;
    cum_pv = nought;
    cum_v = nought;
    vwap = nought;
    last_price = nought;
    last_trade = 0;
    prev_price = nought;
    prev_vwap = nought;
    minutes_after_open = nought;
    has_position = false;
    entry_price = nought;
    entry_time = 0;
    take_profit_price = nought;
    stop_price = nought;
    exited = false;
    exit_reason = "";
    entry_minutes_after_open = nought;
    exit_price = nought;
    exit_time = 0;
    exit_minutes_after_open = nought;
    max_price_since_entry = nought;
    max_price_since_entry_time = 0;
    min_price_since_entry = nought;
    min_price_since_entry_time = 0;
    saw_cross_in_window = false;
    first_cross_time = 0;
    first_cross_price = nought;
    status = "watching";
  }

  unfoldable pub upsert_ticker : String → (TickerState F → TickerState F) → Store F → Store F
  upsert_ticker sym fn s = record s { tickers = upsert sym (new_ticker sym) fn s.tickers }
