-- ===== src/Session/Holds/Replay.antt =====
-- What every change keeps, the scan for sold-off tickers and the replay of a day keep.
use market_hacker.Base.{if_kept, option_kept, ℕ, String, true, not, List, [], ◌∷◌, Dict, str_eq}
use market_hacker.Float.{Float64}
use market_hacker.Clock.{Time, before}
use market_hacker.Store.{Times, Store, collecting5m, selecting0935, closed, set_phase}
use market_hacker.Rest.{Fetched, is_empty}
use market_hacker.Engine.{Engine, Open5mMetric, RestTrade}
use market_hacker.Session.Feeds.{bars_of, Feeds}
use market_hacker.Session.Historic.{
  report_replay, report_live, replay_fetched, end_of_replay, replay_day, note_event, run_replay,
}
use market_hacker.Session.Holds.{Holds, replay_kept}
use market_hacker.Session.Holds.Opening.{select_kept, collect_kept}
use market_hacker.Session.Holds.Realtime.{system_kept}
use market_hacker.Session.Holds.Scan.{scan_session_kept}

module _ {F : Type 0} ⦃d : Float64 F⦄ {e : Engine F} {W : Times → Type 0} {P : Store F → Type 0}
    (st : Holds e W P) where
  report_replay_kept :
      (feeds : Feeds F) (k : ℕ) (day : Time) (w : Times) (end_ny : Time)
      (metrics : Dict (Open5mMetric F)) (s : Store F)
      → P s
      → P (report_replay e feeds k day w end_ny metrics s)
  unfolding report_replay
  report_replay_kept feeds k day w end_ny metrics s h =
      st.report _ _ (scan_session_kept e st.quiet feeds k day w end_ny metrics s h)

  pub report_live_kept :
      (feeds : Feeds F) (k : ℕ) (day : Time) (w : Times) (end_ny : Time)
      (metrics : Dict (Open5mMetric F)) (s : Store F)
      → P s
      → P (report_live e feeds k day w end_ny metrics s)
  unfolding report_live
  report_live_kept feeds k day w end_ny metrics s h =
      st.report _ _ (scan_session_kept e st.quiet feeds k day w end_ny metrics s h)

  pub replay_fetched_kept :
      (now : Time) (w : Times) (trades : String → Fetched (RestTrade F)) (syms : List String)
      (s : Store F)
      → W w
      → P s
      → P (replay_fetched e now w trades syms s)
  unfolding replay_fetched
  replay_fetched_kept now w trades [] s ok h = h
  replay_fetched_kept now w trades (name ∷ syms) s ok h =
      let h1 = replay_kept st w name true (trades name).items s ok h in
      replay_fetched_kept now w trades syms _ ok
        (option_kept P (trades name).error _ _ h1 (λ m. st.quiet now "SYSTEM" name _ "warn" _ h1))

  end_of_replay_kept :
      (w : Times) (end_ny : Time) (s : Store F) → P s → P (end_of_replay e w end_ny s)
  unfolding end_of_replay
  end_of_replay_kept w end_ny s h =
      if_kept P (not (before end_ny w.exit_ny)) _ _ (st.eleven w.exit_ny s h)
        (st.close_all end_ny _ (system_kept st end_ny _ "warn" s h))

  replay_day_kept :
      (feeds : Feeds F) (day : Time) (w : Times) (end_ny : Time) (metrics : Dict (Open5mMetric F))
      (candidates : List String) (s : Store F)
      → W w
      → P s
      → P (replay_day e feeds day w end_ny metrics candidates s)
  unfolding replay_day
  replay_day_kept feeds day w end_ny metrics candidates s ok h =
      let h2 =
        st.tracked feeds (feeds.now 4) w candidates _ (system_kept st (feeds.now 3) _ "info" s h) in
      let h4 =
        replay_fetched_kept (feeds.now 6) (record w { exit_ny = end_ny }) _ _ _
          (st.ends w end_ny ok) (system_kept st (feeds.now 5) _ "info" _ h2) in
      system_kept st (feeds.now 9) _ "info" _ (
        report_replay_kept feeds 7 day w end_ny metrics _
          (st.phase closed _ (end_of_replay_kept w end_ny _ h4)))

  pub note_event_kept :
      (now : Time) (note : String) (s : Store F) → P s → P (note_event e now note s)
  note_event_kept now note s h =
      if_kept P (str_eq note "") _ _ h (system_kept st now note "info" s h)

  -- What holds after both ends of a replay, whether there are candidates or none, holds after it.
  pub run_replay_cases :
      (Q : Store F → Type 0) (feeds : Feeds F) (day : Time) (note : String) (w : Times)
      (s : Store F)
      → ((end_ny : Time) (metrics : Dict (Open5mMetric F)) (s5 : Store F)
          → P s5
          → Q (report_replay e feeds 4 day w end_ny metrics (set_phase closed s5)))
      → ((end_ny : Time) (metrics : Dict (Open5mMetric F)) (candidates : List String) (s5 : Store F)
          → P s5
          → Q (replay_day e feeds day w end_ny metrics candidates s5))
      → P s
      → Q (run_replay e feeds day note w s)
  unfolding run_replay
  run_replay_cases Q feeds day note w s nothing candidates h =
      let now = feeds.now 0 in
      let h3 = system_kept st now _ "info" _ (
        system_kept st now _ "info" _ (
          note_event_kept now note _
            (system_kept st now _ "info" _ (st.phase collecting5m _ (st.times w s h))))) in
      let h5 = select_kept st (feeds.now 2) _ (
        st.phase selecting0935 _ (
          collect_kept st (λ sym. bars_of feeds sym w.open_ny w.sel_ny) (feeds.shuffle 0 _) _
            h3)) in
      if_kept Q (is_empty _) _ _ (nothing _ _ _ (system_kept st (feeds.now 3) _ "info" _ h5))
        (candidates _ _ _ _ h5)

  pub run_replay_kept :
      (feeds : Feeds F) (day : Time) (note : String) (w : Times) (s : Store F)
      → W w
      → P s
      → P (run_replay e feeds day note w s)
  run_replay_kept feeds day note w s ok h =
      run_replay_cases P feeds day note w s
        (λ end_ny metrics s5 h5.
          report_replay_kept feeds 4 day w end_ny metrics _ (st.phase closed s5 h5))
        (λ end_ny metrics candidates s5 h5.
          replay_day_kept feeds day w end_ny metrics candidates s5 ok h5)
        h
