-- ===== src/Tests/Whole.antt =====
-- Whole sessions of the sample day: a program that starts, the replay of the day after it is over, and
-- the scan at its end.
use mathlib.Core.List.{Perm, filter_map}
use mathlib.Core.List.Perm
use market_hacker.Base.{
  ◌≡◌, ℕ, refl, lookup, String, true, false, none, some, List, [], ◌∷◌, ok, map, keep_if, All,
  InOrder, Dict,
}
use market_hacker.Float.Fixed.{Fixed, fixed_float, cents, Fixed-IsIeee}
use market_hacker.Clock.{at_time, same_day, scan_hms}
use market_hacker.Config.{
  load, apply_defaults, validate, validate_filters, or_text, or_port, or_count, or_float,
}
use market_hacker.Store.{get_ticker}
use market_hacker.Rest.{Agg}
use market_hacker.Engine.{
  Open5mMetric, ScanAnswers, scan_sold_off, range_known, deeper, leave, manage, on_eleven_am,
  hits_profit,
}
use market_hacker.Engine.SoldOff.Passes.{Passes}
use market_hacker.Engine.SoldOff.Screening.{row_of}
use market_hacker.Engine.SoldOff.Exact.{scan_sold_off_exact}
use market_hacker.Engine.Race.{forced_exit_overwritten}
use market_hacker.Session.Feeds.{Feeds}
use market_hacker.Session.{day_times, run, replay_day, is_live, run_resolved}
use market_hacker.Session.Silent.{Silent}
use market_hacker.Session.Bounded.{Bounded}
use market_hacker.Session.Completes.{Reported, flat, replay_day_completes, replay_ends-Reported}
use market_hacker.Main.{Env, Started, start, check_env, launch}
use market_hacker.Main.Served.{Served, historic_day, filters_request, serve_all}
use market_hacker.Server.{post}
use market_hacker.Engine.{say}
use market_hacker.Main.Starts.{started_historic-Silent, started-Bounded}
use market_hacker.Tests.Sample.{at, session, utc, config, engine, ready, long, store_with}

-- A bar that opens at 10.00 and falls to 8.50.
abbrev falling : Agg Fixed
falling = record {
  open_price = cents 1000;
  high = cents 1010;
  low = cents 850;
  close = cents 900;
  volume = cents 20_000_000;
}

abbrev feeds : Feeds Fixed
feeds = record {
  now = λ k. at 12 0;
  reset_now = at 12 0;
  shuffle = λ i xs. xs;
  lower = λ s. s;
  client = record {
    list_aggs = λ p. record { items = falling ∷ falling ∷ []; error = none };
    list_trades = λ p. record { items = []; error = none };
  };
  early = [];
  volumes = λ open_ny name back. ok (some (cents 10_000_000));
  agg_socket = record { create = none; subscribe = λ b. none; connect = none };
  aggs = [];
  agg_error = none;
  trade_socket = record { create = none; subscribe = λ b. none; connect = none };
  live = [];
}

abbrev env : Env Fixed
env = record {
  historic_flag = true;
  config_file = ok config;
  watchlist = ok ("AAPL" ∷ "MSFT" ∷ []);
  openai_key = "key";
  massive_key = "key";
  speech = λ request. ok (record { status_code = 200; excerpt = ""; body = ok (1 ∷ []) });
  draw = λ text. 171 ∷ 7 ∷ [];
  location = λ name. utc;
  now = at 12 0;
}

abbrev program : Started Fixed
program = launch env config ("AAPL" ∷ "MSFT" ∷ [])

starts : start env ≡ ok program
unfolding start check_env load apply_defaults validate validate_filters or_text or_port or_count
    or_float
starts = refl

-- A run that is cancelled, a request for a lower bound of the prices, and another run.
abbrev two_runs : List (Served Fixed)
two_runs =
    historic_day feeds true (at 12 0) (at 0 0)
    ∷ filters_request (
        post (
          ok (record {
            open5m_range_pct_min = none;
            open5m_range_pct_max = none;
            open5m_vol_min = none;
            open5m_vol_max = none;
            open5m_today_pct_min = none;
            open5m_today_pct_max = none;
            entry_min_after_open = none;
            entry_max_after_open = none;
            entry_price_min = some (cents 100);
            entry_price_max = none;
            sold_off_from_open_pct_min = none;
            sold_off_open5m_range_pct_min = none;
            sold_off_open5m_today_pct_min = none;
          })))
    ∷ historic_day feeds false (at 12 0) (at 0 0)
    ∷ []

started_historic-Silent_example :
    (program.runs_engine ≡ false)
    × (program.queue ≡ some (at 12 0))
    × (say program.engine "Buy. alpha" program.store ≡ (program.store, ""))
    × Silent (serve_all program.engine program.engine.loc two_runs program.store)
started_historic-Silent_example =
    started_historic-Silent env program two_runs "Buy. alpha" program.store starts refl

started-Bounded_example :
    (limit : ℕ) × (Bounded limit (run program.engine feeds program.store).0
      × Bounded limit (serve_all program.engine program.engine.loc two_runs program.store))
started-Bounded_example = started-Bounded Fixed-IsIeee env program feeds two_runs starts

replay_day_completes_example :
    let s' =
      replay_day engine feeds (at 0 0) session (at 11 0) [] ("AAPL" ∷ []) (store_with long) in
    Reported engine s' × (flat engine (get_ticker "AAPL" s') ≡ true)
replay_day_completes_example =
    replay_day_completes engine feeds (at 0 0) session (at 11 0) [] ("AAPL" ∷ []) "AAPL"
      (store_with long) refl

is_over : is_live engine (at 12 0) (at 0 0) (day_times engine (at 0 0)) ≡ false
unfolding is_live same_day day_times at_time scan_hms
is_over = refl

replay_ends-Reported_example :
    let p = run_resolved engine feeds (at 0 0) "" (store_with ready) in
    (p.1 ≡ none) × Reported engine p.0
replay_ends-Reported_example =
    replay_ends-Reported engine feeds (at 0 0) "" (store_with ready) is_over

holds_position : get_ticker "AAPL" (store_with long) ≡ some long
unfolding get_ticker lookup
holds_position = refl

forced_exit_overwritten_example :
    let s' = on_eleven_am engine (at 11 0) (store_with long) in
    let left = leave (at 9 30) (at 11 0) "TIME_EXIT" (cents 990) long in
    (get_ticker "AAPL" s' ≡ some left)
    × (get_ticker "AAPL" (manage engine "AAPL" (at 10 59) (cents 1100) true long s')
        ≡ some (leave s'.times.open_ny (at 10 59) "PROFIT" (cents 1100) left))
unfolding hits_profit
forced_exit_overwritten_example =
    forced_exit_overwritten engine session "AAPL" (at 10 59) (cents 1100) long (store_with long)
      holds_position refl refl refl refl

abbrev three : List String
three = "AAPL" ∷ "MSFT" ∷ "NVDA" ∷ []

abbrev wide : Open5mMetric Fixed
wide = record {
  open0930 = cents 1000;
  or_high = cents 1050;
  or_low = cents 950;
  open5m_vol = cents 20_000_000;
  range_pct = cents 10;
}

abbrev answers : ScanAnswers Fixed
answers = record {
  bars = λ name. record { items = falling ∷ []; error = none };
  volumes = λ name back. ok (some (cents 10_000_000));
}

abbrev metrics : Dict (Open5mMetric Fixed)
metrics = ("MSFT", wide) ∷ ("AAPL", wide) ∷ []

scan_sold_off_exact_example :
    let rows =
      (scan_sold_off engine answers
        (λ i xs. xs)
        (λ i. at 11 0)
        (at 9 30)
        (at 10 30)
        metrics
        (store_with ready)).1 in
    Perm rows (
      filter_map
        (row_of engine (store_with ready).filters (at 9 30) metrics answers)
        (map (λ p. p.0) (keep_if (λ p. range_known (store_with ready).filters p.1) metrics)))
    × (All (Passes (store_with ready).filters) rows × InOrder deeper rows)
scan_sold_off_exact_example =
    scan_sold_off_exact Fixed-IsIeee engine answers (λ i xs. xs) (λ i xs. Perm.refl xs)
      (λ i. at 11 0) (at 9 30) (at 10 30) metrics (store_with ready) refl
