-- ===== src/Session/Realtime.antt =====
-- `Run` of internal/engine/engine.go. The runtime filters change in the loop over the live trades, by
-- the requests among its events, and before the selection, which reads them once.
use Prim.Native.String.{◌++◌}
use market_hacker.Base.{
  String, Option, none, some, List, map, if◌then◌else◌, length, Dict, sort_by, text_lt,
}
use market_hacker.Float.{Float64}
use market_hacker.Clock.{Time, at_time, before, clock_hms, decimal}
use market_hacker.Store.{
  TickerState, Times, Store, waiting_open, collecting5m, selecting0935, tracking_ticks, closed,
  set_times, set_phase, set_tracked_tickers,
}
use market_hacker.Rest.{is_empty}
use market_hacker.Engine.{Engine, emit, select_candidates_at0935, build_tracked_states}
use market_hacker.Session.Sockets.{open_aggs, open_trades}
use market_hacker.Session.Feeds.{
  edit_all, trades_of, Feeds, Ending, session_over, stopped, failed, collect_aggs, live_loop,
}

abbrev pub ending_error : Ending → Option String
ending_error session_over = none
ending_error stopped = none
ending_error (failed m) = some m

module _ {F : Type 0} ⦃d : Float64 F⦄ where
  -- the four times of a day
  unfoldable pub day_times : Engine F → Time → Times
  day_times e day = record {
    open_ny = at_time e.loc day e.cfg.market.open_time;
    sel_ny = at_time e.loc day e.cfg.market.selection_time;
    cutoff_ny = at_time e.loc day e.cfg.market.vwap_cross_cutoff;
    exit_ny = at_time e.loc day e.cfg.market.force_exit_time;
  }

  -- emit(t, "SYSTEM", "", msg, "", level)
  abbrev pub system : Engine F → Time → String → String → Store F → Store F
  system e t msg level s = emit e t "SYSTEM" "" msg "" level s

  -- the keys of the tracked tickers, sorted
  abbrev pub sorted_keys : Dict (TickerState F) → List String
  sorted_keys tracked = sort_by text_lt (map (λ p. p.0) tracked)

  unfoldable pub wait_for_open : Engine F → Time → String → Times → Store F → Store F
  wait_for_open e now msg w s =
      if before now w.open_ny
      then system e now (msg ++ clock_hms e.loc w.open_ny) "info" (set_phase waiting_open s)
      else s

  unfoldable pub report_ws_error : Engine F → Time → Option String → Store F → Store F
  report_ws_error e now none s = s
  report_ws_error e now (some m) s = system e now ("WS error: " ++ m) "warn" s

  -- From the candidates to the tracked tickers in the store.
  unfoldable pub track :
      Engine F → Feeds F → Time → Times → List String → Store F → Store F × Dict (TickerState F)
  track e feeds now w candidates s =
      let (s1, tracked) =
        build_tracked_states e (feeds.volumes w.open_ny)
          (λ sym. trades_of feeds sym w.open_ny w.sel_ny) now w candidates
          (feeds.shuffle 2 candidates) s in
      (set_phase tracking_ticks (set_tracked_tickers tracked s1), tracked)

  -- After the selection.
  unfoldable pub run_trades :
      Engine F → Feeds F → Times → List String → Store F → Store F × Option String
  run_trades e feeds w candidates s =
      let s1 =
        system e (feeds.now 4)
          ("09:35 selection: "
            ++ (decimal (length candidates)
                ++ " tickers matched opening filters (switching to trades)"))
          "info" s in
      let (s2, tracked) = track e feeds (feeds.now 5) w candidates s1 in
      elim (open_trades feeds.lower e.cfg.massive.feed (sorted_keys tracked) feeds.trade_socket) [
        | some m ↦ (s2, some m)
        | none ↦
            let s3 =
              system e (feeds.now 6) "Tracking tick data (trades) for filtered tickers..." "info"
                s2 in
            let (s4, ending) = live_loop e w feeds.live s3 in (s4, ending_error ending)
      ]

  -- The error is what `Run` returns. The requests for other filters that come before the selection are
  -- taken first, since nothing reads the filters earlier.
  unfoldable pub run : Engine F → Feeds F → Store F → Store F × Option String
  run e feeds s_before =
      let s = edit_all feeds.early s_before in
      let w = day_times e (feeds.now 0) in
      let s1 =
        system e (feeds.now 0)
          ("Loaded watchlist: " ++ (decimal (length s.watchlist) ++ " tickers")) "info"
          (set_times w s) in
      let s2 =
        set_phase collecting5m (wait_for_open e (feeds.now 0) "Waiting for market open at " w s1) in
      elim (open_aggs feeds.lower e.cfg.massive.feed e.cfg.massive.ws_batch_size s2.watchlist
        feeds.agg_socket) [
          | some m ↦ (s2, some m)
          | none ↦
              let s3 =
                system e (feeds.now 1) "Collecting 09:30-09:34 minute bars for open-5m metrics..."
                  "info" s2 in
              let s4 =
                report_ws_error e (feeds.now 2) feeds.agg_error (collect_aggs e w feeds.aggs s3) in
              let (candidates, s5) =
                select_candidates_at0935 e (feeds.now 3) (set_phase selecting0935 s4) in
              if is_empty candidates
              then (
                set_phase closed (
                    system e (feeds.now 4) "No tickers matched open_5m filters at 09:35." "info"
                      s5),
                none,
              )
              else run_trades e feeds w candidates s5
        ]
