-- ===== src/Session/Holds/Today.antt =====
-- What every change keeps, the live day and `RunHistoricForDate` keep.
use market_hacker.Base.{
  All, if_kept, option_kept, result_kept, ℕ, ◌+◌, String, false, Option, List, [], ◌∷◌, Dict,
}
use market_hacker.Float.{Float64}
use market_hacker.Clock.{Time, before, after, date_only}
use market_hacker.Store.{
  Times, Store, collecting5m, selecting0935, closed, set_phase, reset_for_historic_run,
}
use market_hacker.Rest.{Fetched, is_empty}
use market_hacker.Engine.{
  Engine, Open5mMetric, RestTrade, resolve_historic_session_date, snapshot_open5m_metrics,
  select_candidates_at0935, correct_candidates_open5m_via_rest,
}
use market_hacker.Session.Sockets.{open_aggs, open_trades}
use market_hacker.Session.Feeds.{bars_of, trades_of, Feeds, Ending, session_over, stopped, failed}
use market_hacker.Session.Realtime.{day_times}
use market_hacker.Session.Today.{
  catch_up, collect_today, end_today, track_today, nothing_today, select_today,
  run_historic_live_today, is_live, run_resolved, run_historic_for_date,
}
use market_hacker.Session.Holds.{Holds, replay_kept}
use market_hacker.Session.Holds.Edits.{EditKept}
use market_hacker.Session.Holds.Opening.{collect_aggs_kept, select_kept, collect_kept, correct_kept}
use market_hacker.Session.Holds.Realtime.{
  system_kept, live_loop_kept, wait_for_open_kept, report_ws_error_kept,
}
use market_hacker.Session.Holds.Replay.{report_live_kept, note_event_kept, run_replay_kept}

module _ {F : Type 0} ⦃d : Float64 F⦄ {e : Engine F} {W : Times → Type 0} {P : Store F → Type 0}
    (st : Holds e W P) where
  abbrev First : Store F × Option String → Type 0
  First p = P p.0

  catch_up_kept :
      (w : Times) (trades : String → Fetched (RestTrade F)) (syms : List String) (s : Store F)
      → W w
      → P s
      → P (catch_up e w trades syms s)
  unfolding catch_up
  catch_up_kept w trades [] s allowed h = h
  catch_up_kept w trades (name ∷ syms) s allowed h =
      catch_up_kept w trades syms _ allowed
        (replay_kept st w name false (trades name).items s allowed h)

  collect_today_kept :
      (feeds : Feeds F) (w : Times) (s : Store F) → P s → P (collect_today e feeds w s).0
  unfolding collect_today
  collect_today_kept feeds w s h =
      let h1 = st.phase collecting5m s h in
      let h2 = system_kept st (feeds.now 2) _ "info" _ h1 in
      if_kept First (before (feeds.now 2) w.sel_ny) _ _
        (option_kept First
          (open_aggs feeds.lower e.cfg.massive.feed e.cfg.massive.ws_batch_size _ feeds.agg_socket)
          _ _
          (report_ws_error_kept st (feeds.now 3) feeds.agg_error _
            (collect_aggs_kept st w feeds.aggs _ h2))
          (λ m. h2))
        (collect_kept st (λ sym. bars_of feeds sym w.open_ny w.sel_ny) (feeds.shuffle 0 _) _
          (system_kept st (feeds.now 2) _ "info" _ h1))

  end_today_kept :
      (feeds : Feeds F) (day : Time) (w : Times) (metrics : Dict (Open5mMetric F))
      (p : Store F × Ending)
      → P p.0
      → P (end_today e feeds day w metrics p).0
  unfolding end_today
  end_today_kept feeds day w metrics (s, stopped) h = h
  end_today_kept feeds day w metrics (s, failed m) h = h
  end_today_kept feeds day w metrics (s, session_over) h =
      system_kept st (feeds.now 12) _ "info" _
        (report_live_kept st feeds 10 day w w.exit_ny metrics s h)

  track_today_kept :
      (feeds : Feeds F) (day : Time) (w : Times) (metrics : Dict (Open5mMetric F))
      (candidates : List String) (s : Store F)
      → All (EditKept P) feeds.live
      → W w
      → P s
      → P (track_today e feeds day w metrics candidates s).0
  unfolding track_today
  track_today_kept feeds day w metrics candidates s edits allowed h =
      let h2 =
        st.tracked feeds (feeds.now 7) w candidates _ (system_kept st (feeds.now 6) _ "info" s h) in
      let h4 =
        if_kept P (after (feeds.now 8) w.sel_ny) _ _
          (catch_up_kept w (λ sym. trades_of feeds sym w.sel_ny (feeds.now 8)) _ _ allowed
            (system_kept st (feeds.now 8) _ "info" _ h2))
          h2 in
      option_kept First (open_trades feeds.lower e.cfg.massive.feed _ feeds.trade_socket) _ _
        (end_today_kept feeds day w metrics _ (
          live_loop_kept st w feeds.live _ edits allowed
            (system_kept st (feeds.now 9) _ "info" _ h4)))
        (λ m. h4)

  nothing_today_kept :
      (feeds : Feeds F) (k : ℕ) (msg : String) (day : Time) (w : Times)
      (metrics : Dict (Open5mMetric F)) (s : Store F)
      → P s
      → P (nothing_today e feeds k msg day w metrics s).0
  unfolding nothing_today
  nothing_today_kept feeds k msg day w metrics s h =
      report_live_kept st feeds (k + 1) day w (feeds.now k) metrics _
        (st.phase closed _ (system_kept st (feeds.now k) msg "info" s h))

  select_today_kept :
      (feeds : Feeds F) (day : Time) (w : Times) (s : Store F)
      → All (EditKept P) feeds.live
      → W w
      → P s
      → P (select_today e feeds day w s).0
  unfolding select_today
  select_today_kept feeds day w s edits allowed h =
      let bars = λ (sym : String). bars_of feeds sym w.open_ny w.sel_ny in
      let metrics = snapshot_open5m_metrics s.watchlist s in
      let chosen = select_candidates_at0935 e (feeds.now 4) (set_phase selecting0935 s) in
      let corrected = correct_candidates_open5m_via_rest bars (feeds.shuffle 1 chosen.0) chosen.1 in
      let h1 : P chosen.1 = select_kept st (feeds.now 4) _ (st.phase selecting0935 s h) in
      let h2 : P corrected.1 = correct_kept st bars (feeds.shuffle 1 chosen.0) _ h1 in
      if_kept First (is_empty chosen.0) _ _ (nothing_today_kept feeds 5 _ day w metrics _ h1) (
        if_kept First (is_empty corrected.0) _ _ (nothing_today_kept feeds 5 _ day w metrics _ h2)
          (track_today_kept feeds day w _ corrected.0 _ edits allowed h2))

  run_today_kept :
      (feeds : Feeds F) (day : Time) (w : Times) (s : Store F)
      → All (EditKept P) feeds.live
      → W w
      → P s
      → P (run_historic_live_today e feeds day w s).0
  unfolding run_historic_live_today
  run_today_kept feeds day w s edits allowed h =
      let h2 =
        collect_today_kept feeds w _
          (wait_for_open_kept st (feeds.now 1) "HISTORIC-LIVE: waiting for open at " w s h) in
      option_kept First (collect_today e feeds w _).1 _ _
        (select_today_kept feeds day w _ edits allowed h2) (λ m. h2)

  pub run_resolved_kept :
      (feeds : Feeds F) (day : Time) (note : String) (s : Store F)
      → All (EditKept P) feeds.live
      → W (day_times e day)
      → P s
      → P (run_resolved e feeds day note s).0
  unfolding run_resolved
  run_resolved_kept feeds day note s edits allowed h =
      let now = feeds.now 0 in
      let w = day_times e day in
      if_kept First (is_live e now day w) _ _
        (run_today_kept feeds day w _ edits allowed (
          system_kept st now _ "info" _ (
            note_event_kept st now note _
              (system_kept st now _ "info" _ (st.phase collecting5m _ (st.times w s h))))))
        (run_replay_kept st feeds day note w s allowed h)

  -- What the reset and every change keep, a historic run keeps, whichever way it goes.
  pub run_historic_kept :
      (feeds : Feeds F) (target_date : Time) (s : Store F)
      → All (EditKept P) feeds.live
      → ((day : Time) → W (day_times e day))
      → ((target day : Time) (note : String)
          → P (reset_for_historic_run target day note feeds.reset_now s))
      → P s
      → P (run_historic_for_date e feeds target_date s).0
  unfolding run_historic_for_date
  run_historic_kept feeds target_date s edits allowed reset h =
      result_kept First
        (resolve_historic_session_date e (bars_of feeds) (date_only e.loc target_date) (feeds.now 0)
          s)
        _ _
        (λ r.
          run_resolved_kept feeds r.0 r.1 _ edits (allowed r.0)
            (reset (date_only e.loc target_date) r.0 r.1))
        (λ m. system_kept st (feeds.now 0) _ "warn" _ (st.phase closed s h))
