-- ===== src/Session/Today.antt =====
-- `runHistoricLiveToday` and `RunHistoricForDate` of internal/engine/historic.go. The
-- runtime filters change in the loop over the live trades only.
use Prim.Native.String.{◌++◌}
use market_hacker.Base.{
  ℕ, ◌+◌, String, Bool, false, ◌&&◌, Option, none, some, List, [], ◌∷◌, if◌then◌else◌, length, Dict,
  ok, err,
}
use market_hacker.Float.{Float64}
use market_hacker.Clock.{Time, before, after, clock_hms, date_iso, decimal, date_only, same_day}
use market_hacker.Store.{
  Times, Store, collecting5m, selecting0935, closed, set_times, set_phase, reset_for_historic_run,
}
use market_hacker.Rest.{Fetched, is_empty}
use market_hacker.Engine.{
  Engine, RestTrade, Open5mMetric, select_candidates_at0935, collect_open5m_via_rest,
  correct_candidates_open5m_via_rest, snapshot_open5m_metrics, replay,
  resolve_historic_session_date,
}
use market_hacker.Session.Sockets.{open_aggs, open_trades}
use market_hacker.Session.Feeds.{
  bars_of, trades_of, Feeds, Ending, session_over, stopped, failed, collect_aggs, live_loop,
}
use market_hacker.Session.Realtime.{
  day_times, system, sorted_keys, wait_for_open, report_ws_error, track,
}
use market_hacker.Session.Historic.{report_live, note_event, run_replay}

module _ {F : Type 0} ⦃d : Float64 F⦄ where
  -- The trades between the selection and `now` of each tracked symbol, without actions. An error of
  -- the client is dropped.
  unfoldable pub catch_up :
      Engine F → Times → (String → Fetched (RestTrade F)) → List String → Store F → Store F
  catch_up e w trades [] s = s
  catch_up e w trades (sym ∷ syms) s =
      catch_up e w trades syms (replay e w sym false (trades sym).items s)

  -- Phase 1: the minute bars, over the socket or, after the selection time, over REST.
  unfoldable pub collect_today : Engine F → Feeds F → Times → Store F → Store F × Option String
  collect_today e feeds w s =
      let now = feeds.now 2 in
      let s1 = set_phase collecting5m s in
      let s2 =
        system e now "HISTORIC-LIVE: collecting minute bars via WebSocket until 09:35…" "info" s1 in
      let s3 =
        system e now
          "HISTORIC-LIVE: started after 09:35 — fetching 09:30–09:34 minute bars via REST…" "info"
          s1 in
      if before now w.sel_ny
      then elim (open_aggs feeds.lower e.cfg.massive.feed e.cfg.massive.ws_batch_size s2.watchlist
          feeds.agg_socket) [
            | some m ↦ (s2, some m)
            | none ↦ (
              report_ws_error e (feeds.now 3) feeds.agg_error (collect_aggs e w feeds.aggs s2),
              none,
            )
          ]
      else (
        collect_open5m_via_rest (λ sym. bars_of feeds sym w.open_ny w.sel_ny)
            (feeds.shuffle 0 s3.watchlist) s3,
        none,
      )

  -- What follows the loop over the live trades: only the forced exit leads to a report.
  unfoldable pub end_today :
      Engine F
      → Feeds F
      → Time
      → Times
      → Dict (Open5mMetric F)
      → Store F × Ending
      → Store F × Option String
  end_today e feeds day w metrics (s, stopped) = (s, none)
  end_today e feeds day w metrics (s, failed m) = (s, some m)
  end_today e feeds day w metrics (s, session_over) = (
    system e (feeds.now 12) "Historic report ready (see the web UI)." "info"
        (report_live e feeds 10 day w w.exit_ny metrics s),
    none,
  )

  -- After the correction.
  unfoldable pub track_today :
      Engine F
      → Feeds F
      → Time
      → Times
      → Dict (Open5mMetric F)
      → List String
      → Store F
      → Store F × Option String
  track_today e feeds day w metrics candidates s =
      let s1 =
        system e (feeds.now 6)
          ("09:35 selection: "
            ++ (decimal (length candidates) ++ " tickers matched (live tracking to 11:00)."))
          "info" s in
      let (s2, tracked) = track e feeds (feeds.now 7) w candidates s1 in
      let syms = sorted_keys tracked in
      let now = feeds.now 8 in
      let s3 =
        system e now
          ("Catch-up (no actions): replaying trades via REST ("
            ++ (clock_hms e.loc w.sel_ny
                ++ (" → "
                    ++ (clock_hms e.loc now
                        ++ (") for " ++ (decimal (length syms) ++ " tickers…"))))))
          "info" s2 in
      let s4 =
        if after now w.sel_ny
        then catch_up e w (λ sym. trades_of feeds sym w.sel_ny now) syms s3
        else s2 in
      elim (open_trades feeds.lower e.cfg.massive.feed syms feeds.trade_socket) [
        | some m ↦ (s4, some m)
        | none ↦ end_today e feeds day w metrics (
            live_loop e w feeds.live (
              system e (feeds.now 9)
                "HISTORIC-LIVE: tracking live trades (VWAP cross logic active)…" "info" s4))
      ]

  -- The day ends with no candidates, at the reading `k` of the clock.
  unfoldable pub nothing_today :
      Engine F
      → Feeds F
      → ℕ
      → String
      → Time
      → Times
      → Dict (Open5mMetric F)
      → Store F
      → Store F × Option String
  nothing_today e feeds k msg day w metrics s =
      let end_ny = feeds.now k in
      (
        report_live e feeds (k + 1) day w end_ny metrics
            (set_phase closed (system e end_ny msg "info" s)),
        none,
      )

  unfoldable pub select_today :
      Engine F → Feeds F → Time → Times → Store F → Store F × Option String
  select_today e feeds day w s =
      let metrics = snapshot_open5m_metrics s.watchlist s in
      let (candidates, s1) = select_candidates_at0935 e (feeds.now 4) (set_phase selecting0935 s) in
      let (corrected, s2) =
        correct_candidates_open5m_via_rest (λ sym. bars_of feeds sym w.open_ny w.sel_ny)
          (feeds.shuffle 1 candidates) s1 in
      if is_empty candidates
      then nothing_today e feeds 5 "No tickers matched open_5m filters at 09:35." day w metrics s1
      else if is_empty corrected
      then nothing_today e feeds 5 "After REST correction, no tickers matched open_5m filters." day
          w metrics s2
      else track_today e feeds day w (snapshot_open5m_metrics s2.watchlist s2) corrected s2

  unfoldable pub run_historic_live_today :
      Engine F → Feeds F → Time → Times → Store F → Store F × Option String
  run_historic_live_today e feeds day w s =
      let s1 = wait_for_open e (feeds.now 1) "HISTORIC-LIVE: waiting for open at " w s in
      let (s2, failure) = collect_today e feeds w s1 in
      elim failure [ some m ↦ (s2, some m) | none ↦ select_today e feeds day w s2 ]

  -- Is the session of the day still on?
  unfoldable pub is_live : Engine F → Time → Time → Times → Bool
  is_live e now day w = same_day e.loc day now && before now w.exit_ny

  unfoldable pub run_resolved :
      Engine F → Feeds F → Time → String → Store F → Store F × Option String
  run_resolved e feeds day note s =
      let now = feeds.now 0 in
      let w = day_times e day in
      let s1 =
        system e now
          ("HISTORIC-LIVE mode: "
            ++ (date_iso e.loc day ++ (" (live until " ++ (clock_hms e.loc w.exit_ny ++ ")."))))
          "info" (set_phase collecting5m (set_times w s)) in
      if is_live e now day w
      then run_historic_live_today e feeds day w
          (system e now "Audio alerts disabled in historic mode." "info" (note_event e now note s1))
      else (run_replay e feeds day note w s, none)

  -- `target_date` is the day asked for.
  unfoldable pub run_historic_for_date :
      Engine F → Feeds F → Time → Store F → Store F × Option String
  run_historic_for_date e feeds target_date s =
      let now = feeds.now 0 in
      let target = date_only e.loc target_date in
      elim (resolve_historic_session_date e (bars_of feeds) target now s) [
        | err m ↦ (
          system e now
              ("Historic date resolution failed for " ++ (date_iso e.loc target ++ (": " ++ m)))
              "warn" (set_phase closed s),
          some m,
        )
        | ok (day, note) ↦
            run_resolved e feeds day note (reset_for_historic_run target day note feeds.reset_now s)
      ]
