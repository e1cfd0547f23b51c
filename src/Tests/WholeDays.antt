-- ===== src/Tests/WholeDays.antt =====
-- A whole live day, and the replay of one, in which the one candidate is bought and sold.
use market_hacker.Base.{
  Result, ok, ◌≡◌, false, refl, ℕ, Option, none, some, List, [], ◌∷◌, ok, or_else, leb,
  if◌then◌else◌,
}
use market_hacker.Float.Fixed.{Fixed, fixed_float, cents}
use market_hacker.Clock.{Time}
use market_hacker.Session.Sound.Filters.{InForce}
use market_hacker.Engine.Requests.{list_trades}
use market_hacker.Store.{
  RuntimeFilters, update_filters, validate_runtime_filters, closed, TickerState, Store, new_ticker,
  new,
}
use market_hacker.Rest.{Agg}
use market_hacker.Engine.{EquityTrade, RestTrade}
use market_hacker.Session.Feeds.{
  edit_all, all_edits, edited, bars_of, Feeds, trade, forced_exit, noticed,
}
use market_hacker.Session.SettledLive.{run-Settled}
use market_hacker.Session.Settled.{Settled, run_historic-Settled}
use market_hacker.Session.Sound.{run-Sound}
use market_hacker.Engine.Sound.{Sound}
use market_hacker.Tests.Sample.{at, millis_at, utc, config, engine}
use market_hacker.Session.{
  new_ws, batches_from, batches, subscribe_each, open_aggs, open_trades, collect_aggs, live_loop,
  day_times, wait_for_open, report_ws_error, track, run_trades, run, scan_session, report_replay,
  replay_fetched, end_of_replay, replay_day, run_replay, is_live, run_resolved,
  run_historic_for_date,
}
use market_hacker.Store.{
  has_symbol, set_times, set_phase, get_ticker, set_tracked_tickers, add_event, upsert_ticker,
  set_historic_report, reset_for_historic_run,
}
use market_hacker.Engine.{
  emit, say, drops, accumulate, track_max, track_min, track_excursions, record_trade, crosses,
  detects, mark_cross, entry_refused, hits_profit, hits_stop, enter, leave, open_position,
  close_position, manage, decide, process_trade, on_trade, close_if_open, close_each, on_eleven_am,
  add_bar, on_minute_agg, open_filters, select_ticker, select_one, select_loop,
  select_candidates_at0935, valid_volume, sessions_loop, average, avg_prev_sessions_open5m_vol,
  seed_trade, seed_trades, seed_vwap_from_trades, history_result, shallow_states, apply_history,
  seed_states, put_back, build_tracked_states, trade_time_millis, fill_open, collect_one,
  collect_open5m_via_rest, replay_trade, replay, skip, step_back, first_day, max_attempts,
  resolve_loop, probe_loop, has_open5m_data, day_has_data, resolve_historic_session_date,
  scan_sold_off, eligible, snapshot_open5m_metrics, range_known, screened, screen,
}
use market_hacker.Clock.{
  minutes_between, pad2, clock_hm, scan_hms, at_time, date_only, same_day, min_time,
}
use market_hacker.Base.{lookup, upsert}
use market_hacker.Rest.{
  volume_loop, open5m_volume, open_bar, open_bars, open5m_metrics, min_low_and_last_close,
}

abbrev opening_bar : Agg Fixed
opening_bar = record {
  open_price = cents 1000;
  high = cents 1050;
  low = cents 950;
  close = cents 990;
  volume = cents 20_000_000;
}

abbrev later : Time → ℕ → RestTrade Fixed
later ts price = record {
  sip_timestamp = ts;
  participant_timestamp = 0;
  trf_timestamp = 0;
  price = cents price;
  size = cents 100_000;
}

abbrev pub tick : ℕ → ℕ → EquityTrade Fixed
tick min price = record {
  symbol = "AAPL";
  timestamp = millis_at 9 min;
  price = cents price;
  size = 100;
}

-- A request for a higher bound of the prices.
abbrev pub widen : RuntimeFilters Fixed → Result (RuntimeFilters Fixed)
widen f = ok (record f { entry_price_max = cents 100_000 })

abbrev pub live_day : Feeds Fixed
live_day = record {
  now = λ k. at 9 0;
  reset_now = at 9 0;
  shuffle = λ i xs. xs;
  lower = λ s. s;
  client = record {
    list_aggs = λ p. record { items = opening_bar ∷ []; error = none };
    list_trades =
        λ p. record { items = later (at 9 31) 1000 ∷ later (at 9 31) 990 ∷ []; error = none };
  };
  early = widen ∷ [];
  volumes = λ open_ny name back. ok (some (cents 2_500_000));
  agg_socket = record { create = none; subscribe = λ b. none; connect = none };
  aggs = record { symbol = "AAPL"; start_timestamp = millis_at 9 30; bar = opening_bar } ∷ [];
  agg_error = none;
  trade_socket = record { create = none; subscribe = λ b. none; connect = none };
  live =
      edited widen
      ∷ trade (tick 36 1020)
      ∷ trade (tick 40 1110)
      ∷ forced_exit
      ∷ trade (tick 50 1200)
      ∷ noticed
      ∷ [];
}

abbrev pub morning : Store Fixed
morning = new config ("AAPL" ∷ "MSFT" ∷ []) (at 9 0)

abbrev evening : Option (TickerState Fixed)
evening = get_ticker "AAPL" (run engine live_day morning).0

abbrev after_the_day : TickerState Fixed
after_the_day = or_else (new_ticker "") evening

is_there : evening ≡ some after_the_day
unfolding edit_all update_filters validate_runtime_filters list_trades new_ws batches_from batches
    subscribe_each open_aggs open_trades collect_aggs live_loop day_times wait_for_open
    report_ws_error track run_trades run has_symbol set_times set_phase get_ticker
    set_tracked_tickers add_event upsert_ticker emit say drops accumulate track_max track_min
    track_excursions record_trade crosses detects mark_cross entry_refused hits_profit hits_stop
    enter leave open_position close_position manage decide process_trade on_trade close_if_open
    close_each on_eleven_am add_bar on_minute_agg open_filters select_ticker select_one select_loop
    select_candidates_at0935 valid_volume sessions_loop average avg_prev_sessions_open5m_vol
    seed_trade seed_trades seed_vwap_from_trades history_result shallow_states apply_history
    seed_states put_back build_tracked_states trade_time_millis minutes_between pad2 clock_hm
    scan_hms at_time lookup upsert
is_there = refl

ends_well : (run engine live_day morning).1 ≡ none
unfolding edit_all update_filters validate_runtime_filters list_trades new_ws batches_from batches
    subscribe_each open_aggs open_trades collect_aggs live_loop day_times wait_for_open
    report_ws_error track run_trades run has_symbol set_times set_phase get_ticker
    set_tracked_tickers add_event upsert_ticker emit say drops accumulate track_max track_min
    track_excursions record_trade crosses detects mark_cross entry_refused hits_profit hits_stop
    enter leave open_position close_position manage decide process_trade on_trade close_if_open
    close_each on_eleven_am add_bar on_minute_agg open_filters select_ticker select_one select_loop
    select_candidates_at0935 valid_volume sessions_loop average avg_prev_sessions_open5m_vol
    seed_trade seed_trades seed_vwap_from_trades history_result shallow_states apply_history
    seed_states put_back build_tracked_states trade_time_millis minutes_between pad2 clock_hm
    scan_hms at_time lookup upsert
ends_well = refl

run-Settled_example :
    ((run engine live_day morning).0.phase ≡ closed)
    × ((f : RuntimeFilters Fixed) × InForce (all_edits live_day) morning.filters f
        × Settled engine f (day_times engine (at 9 0)) after_the_day)
unfolding day_times at_time scan_hms
run-Settled_example =
    run-Settled engine live_day "AAPL" morning after_the_day refl
      (record {
        early = edited widen ∷ trade (tick 36 1020) ∷ trade (tick 40 1110) ∷ [];
        late = trade (tick 50 1200) ∷ [];
        more = [];
        order = refl;
        are_running = (tt, (tt, (tt, tt)));
        are_late = (refl, tt);
      })
      refl ends_well is_there

run-Sound_example :
    (f : RuntimeFilters Fixed) × InForce (all_edits live_day) morning.filters f
    × Sound engine f (day_times engine (at 9 0)) after_the_day
run-Sound_example = run-Sound engine live_day morning "AAPL" after_the_day refl is_there

abbrev pub sold_at : Time → List (RestTrade Fixed)
sold_at from =
    if leb (at 9 35) from
    then later (at 9 36) 1020 ∷ later (at 9 40) 990 ∷ []
    else later (at 9 31) 1000 ∷ later (at 9 31) 990 ∷ []

abbrev pub past_day : Feeds Fixed
past_day = record live_day {
  now = λ k. at 12 0;
  client = record {
    list_aggs = λ p. record { items = opening_bar ∷ []; error = none };
    list_trades = λ p. record { items = sold_at p.timestamp_gte; error = none };
  };
}

abbrev replayed_day : Option (TickerState Fixed)
replayed_day = get_ticker "AAPL" (run_historic_for_date engine past_day (at 0 0) morning).0

abbrev after_the_replay : TickerState Fixed
after_the_replay = or_else (new_ticker "") replayed_day

is_replayed : replayed_day ≡ some after_the_replay
unfolding list_trades day_times track scan_session report_replay replay_fetched end_of_replay
    replay_day run_replay is_live run_resolved run_historic_for_date set_historic_report
    reset_for_historic_run set_times set_phase get_ticker set_tracked_tickers add_event
    upsert_ticker emit say drops accumulate track_max track_min track_excursions record_trade
    crosses detects mark_cross entry_refused hits_profit hits_stop enter leave open_position
    close_position manage decide process_trade close_if_open close_each on_eleven_am open_filters
    select_ticker select_one select_loop select_candidates_at0935 valid_volume sessions_loop average
    avg_prev_sessions_open5m_vol seed_trade seed_trades seed_vwap_from_trades history_result
    shallow_states apply_history seed_states put_back build_tracked_states trade_time_millis
    fill_open collect_one collect_open5m_via_rest replay_trade replay skip step_back first_day
    max_attempts resolve_loop probe_loop has_open5m_data day_has_data resolve_historic_session_date
    scan_sold_off eligible snapshot_open5m_metrics range_known screened screen minutes_between
    scan_hms at_time date_only same_day min_time volume_loop open5m_volume open_bar open_bars
    open5m_metrics min_low_and_last_close lookup upsert
is_replayed = refl

-- The day asked for is a Saturday.
abbrev friday : Time
friday = utc.days_back 1 (at 0 0)

resolved :
    resolve_historic_session_date engine
      (bars_of past_day)
      (date_only engine.loc (at 0 0))
      (at 12 0)
      morning
    ≡ ok (friday, "")
unfolding date_only skip step_back first_day max_attempts resolve_loop probe_loop has_open5m_data
    day_has_data resolve_historic_session_date at_time scan_hms same_day volume_loop open5m_volume
    open5m_metrics
resolved = refl

is_over : is_live engine (at 12 0) friday (day_times engine friday) ≡ false
unfolding is_live same_day day_times at_time scan_hms
is_over = refl

run_historic-Settled_example :
    Settled engine morning.filters (day_times engine friday) after_the_replay
run_historic-Settled_example =
    run_historic-Settled engine past_day (at 0 0) morning friday "" "AAPL" after_the_replay resolved
      is_over refl is_replayed
