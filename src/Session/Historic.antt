-- ===== src/Session/Historic.antt =====
-- `RunHistoricForDate` and `runHistoricLiveToday` of internal/engine/historic.go. The
-- runtime filters stay as they are over the replay of a day: a request that changes them while it runs is
-- not modelled.
use Prim.Native.String.{◌++◌}
use market_hacker.Base.{
  ℕ, ◌+◌, String, true, not, ◌&&◌, Option, none, some, List, [], ◌∷◌, if◌then◌else◌, length, Dict,
  str_eq,
}
use market_hacker.Float.{Float64}
use market_hacker.Clock.{Time, at_time, before, clock_hms, date_iso, decimal, same_day, min_time}
use market_hacker.Store.{
  Times, Store, HistoricReport, HistoricSoldOff, collecting5m, selecting0935, closed, set_times,
  set_phase, set_historic_report,
}
use market_hacker.Rest.{Fetched, is_empty}
use market_hacker.Engine.{
  Engine, RestTrade, Open5mMetric, emit, select_candidates_at0935, collect_open5m_via_rest,
  snapshot_open5m_metrics, replay, on_eleven_am, close_all_open_positions_at, scan_sold_off,
}
use market_hacker.Report.{build_historic_report}
use market_hacker.Session.Feeds.{bars_of, trades_of, Feeds}
use market_hacker.Session.Realtime.{system, sorted_keys, track}

abbrev pub sold_off_scan_hms : String
sold_off_scan_hms = "10:30:00"

module _ {F : Type 0} ⦃d : Float64 F⦄ where
  -- The scan up to 10:30 or to `end_ny`, whichever is first. Its readings of the clock are those from
  -- `k` on, and its pools those from the pool 3 on.
  unfoldable pub scan_session :
      Engine F
      → Feeds F
      → ℕ
      → Time
      → Times
      → Time
      → Dict (Open5mMetric F)
      → Store F
      → Store F × List (HistoricSoldOff F)
  scan_session e feeds k day w end_ny metrics s =
      let scan_end = min_time (at_time e.loc day sold_off_scan_hms) end_ny in
      scan_sold_off e
        (record {
          bars = λ sym. bars_of feeds sym w.open_ny scan_end;
          volumes = feeds.volumes w.open_ny;
        })
        (λ i. feeds.shuffle (3 + i)) (λ i. feeds.now (k + i)) w.open_ny scan_end metrics s

  abbrev pub with_sold_off : HistoricReport F → List (HistoricSoldOff F) → Option (HistoricReport F)
  with_sold_off rep rows = some (record rep { sold_off = rows })

  -- the end of a replay: the report is built before the scan
  unfoldable pub report_replay :
      Engine F → Feeds F → ℕ → Time → Times → Time → Dict (Open5mMetric F) → Store F → Store F
  report_replay e feeds k day w end_ny metrics s =
      let rep = build_historic_report e day w end_ny s in
      let (s1, rows) = scan_session e feeds k day w end_ny metrics s in
      set_historic_report (with_sold_off rep rows) s1

  -- the end of a live day: the report is built after the scan
  unfoldable pub report_live :
      Engine F → Feeds F → ℕ → Time → Times → Time → Dict (Open5mMetric F) → Store F → Store F
  report_live e feeds k day w end_ny metrics s =
      let (s1, rows) = scan_session e feeds k day w end_ny metrics s in
      set_historic_report (with_sold_off (build_historic_report e day w end_ny s1) rows) s1

  -- The trades of each tracked symbol up to `end_ny`, with actions; an error is reported.
  unfoldable pub replay_fetched :
      Engine F → Time → Times → (String → Fetched (RestTrade F)) → List String → Store F → Store F
  replay_fetched e now w trades [] s = s
  replay_fetched e now w trades (sym ∷ syms) s =
      let s1 = replay e w sym true (trades sym).items s in
      replay_fetched e now w trades syms (elim (trades sym).error [
        | none ↦ s1
        | some m ↦ emit e now "SYSTEM" sym ("trade replay failed: " ++ m) "" "warn" s1
      ])

  unfoldable pub end_of_replay : Engine F → Times → Time → Store F → Store F
  end_of_replay e w end_ny s =
      if not (before end_ny w.exit_ny)
      then on_eleven_am e w.exit_ny s
      else close_all_open_positions_at e end_ny (
          system e end_ny
            ("Historic run ended early at "
              ++ (clock_hms e.loc end_ny ++ "; closing any open positions at last price."))
            "warn" s)

  -- After the selection of a replayed day.
  unfoldable pub replay_day :
      Engine F
      → Feeds F
      → Time
      → Times
      → Time
      → Dict (Open5mMetric F)
      → List String
      → Store F
      → Store F
  replay_day e feeds day w end_ny metrics candidates s =
      let s1 =
        system e (feeds.now 3)
          ("09:35 selection: "
            ++ (decimal (length candidates)
                ++ " tickers matched opening filters (REST replay continues)"))
          "info" s in
      let (s2, tracked) = track e feeds (feeds.now 4) w candidates s1 in
      let syms = sorted_keys tracked in
      let s3 =
        system e (feeds.now 5)
          ("Replaying trades via REST ("
            ++ (clock_hms e.loc w.sel_ny
                ++ (" → "
                    ++ (clock_hms e.loc end_ny
                        ++ (") for " ++ (decimal (length syms) ++ " tickers..."))))))
          "info" s2 in
      let s4 =
        replay_fetched e (feeds.now 6) (record w { exit_ny = end_ny })
          (λ sym. trades_of feeds sym w.sel_ny end_ny) syms s3 in
      let s5 = set_phase closed (end_of_replay e w end_ny s4) in
      system e (feeds.now 9) "Historic report ready (see the web UI)." "info"
        (report_replay e feeds 7 day w end_ny metrics s5)

  abbrev pub note_event : Engine F → Time → String → Store F → Store F
  note_event e now note s = if str_eq note "" then s else system e now note "info" s

  -- A day that is over, or is replayed as far as it went.
  unfoldable pub run_replay : Engine F → Feeds F → Time → String → Times → Store F → Store F
  run_replay e feeds day note w s =
      let now = feeds.now 0 in
      let end_ny = if same_day e.loc day now && before now w.exit_ny then now else w.exit_ny in
      let s1 =
        system e now
          ("HISTORIC mode: replaying "
            ++ (date_iso e.loc day
                ++ (" from "
                    ++ (clock_hms e.loc w.open_ny
                        ++ (" → "
                            ++ (clock_hms e.loc end_ny
                                ++ (" (force exit " ++ (clock_hms e.loc w.exit_ny ++ ")."))))))))
          "info" (set_phase collecting5m (set_times w s)) in
      let s2 =
        system e now "Audio alerts disabled in historic mode." "info" (note_event e now note s1) in
      let s3 =
        system e now "Fetching 09:30–09:34 minute bars via REST for open-5m metrics..." "info" s2 in
      let s4 =
        collect_open5m_via_rest (λ sym. bars_of feeds sym w.open_ny w.sel_ny)
          (feeds.shuffle 0 s3.watchlist) s3 in
      let metrics = snapshot_open5m_metrics s4.watchlist s4 in
      let (candidates, s5) =
        select_candidates_at0935 e (feeds.now 2) (set_phase selecting0935 s4) in
      if is_empty candidates
      then report_replay e feeds 4 day w end_ny metrics (
          set_phase closed
            (system e (feeds.now 3) "No tickers matched open_5m filters at 09:35." "info" s5))
      else replay_day e feeds day w end_ny metrics candidates s5
