-- ===== src/Session/Completes.antt =====
-- How the replay of a day ends: its phase, its report and its positions.
use Prim.Native.String.{◌++◌}
use market_hacker.Base.{
  ◌≡◌, refl, ◌∙◌, sym, ap, inl, inr, ℕ, String, Bool, true, false, not, ◌&&◌, Option, none, some,
  List, arith, Dict, if_kept, contains, Option-cases,
}
use market_hacker.Float.{Float64}
use market_hacker.Clock.{Time, before, clock_hms}
use market_hacker.Store.{
  HistoricReport, TickerState, Times, Store, closed, get_ticker, set_phase, set_historic_report,
  add_event,
}
use market_hacker.Rest.{is_empty}
use market_hacker.Engine.{Engine, Open5mMetric, emit, leave}
use market_hacker.Engine.Closing
use market_hacker.Session.Feeds.{Feeds}
use market_hacker.Session.Realtime.{system, day_times}
use market_hacker.Session.Today.{is_live, run_resolved}
use market_hacker.Session.Historic.{report_replay, end_of_replay, replay_day, run_replay}
use market_hacker.Session.Holds.Scan.{scan_session_kept}
use market_hacker.Session.Holds.Realtime.{system_kept}
use market_hacker.Session.Stable.Tracking.{Stable-Holds}
use market_hacker.Session.Holds.Replay.{replay_fetched_kept}
use market_hacker.Session.Bounded.{settings-Stable}

module _ {F : Type 0} ⦃d : Float64 F⦄ (e : Engine F) where
  -- a position that was opened and not closed
  abbrev pub still_open : TickerState F → Bool
  still_open t = t.has_position && not t.exited

  -- An event without audio keeps the tickers and the phase.
  module _ (j : String) (v : Option (TickerState F)) where
    Ended : Store F → Type 0
    Ended s = (s.phase ≡ closed) × (get_ticker j s ≡ v)

    emit-Ended :
        (ts : Time) (typ sym msg level : String) (s : Store F)
        → Ended s
        → Ended (emit e ts typ sym msg "" level s)
    unfolding Ended emit add_event get_ticker
    emit-Ended ts typ sym msg level s h = h

    report_replay-Ended :
        (feeds : Feeds F) (k : ℕ) (day : Time) (w : Times) (end_ny : Time)
        (metrics : Dict (Open5mMetric F)) (s : Store F)
        → Ended s
        → Ended (report_replay e feeds k day w end_ny metrics s)
    unfolding Ended report_replay set_historic_report get_ticker
    report_replay-Ended feeds k day w end_ny metrics s h =
        scan_session_kept e emit-Ended feeds k day w end_ny metrics s h

  closed-flat :
      (open_ny ts : Time) (t : TickerState F) → still_open (Closing.closed e open_ny ts t) ≡ false
  unfolding Closing.closed leave
  closed-flat open_ny ts t = ground arith

  -- A close of every open position leaves none of a ticker open.
  pub close-flat :
      (j : String) (open_ny ts : Time) (s s' : Store F)
      → (get_ticker j s ≡ none → get_ticker j s' ≡ none)
      → ((t : TickerState F)
          → get_ticker j s ≡ some t
          → get_ticker j s' ≡ some (Closing.closed e open_ny ts t))
      → (t : TickerState F) → get_ticker j s' ≡ some t
      → still_open t ≡ false
  close-flat j open_ny ts s s' missing found t h = elim (Option-cases (get_ticker j s)) [
    | inl absent ↦ let gone = missing absent in cc
    | inr (t0, here) ↦ let now = found t0 here in let flat = closed-flat open_ny ts t0 in cc
  ]

  end_of_replay-flat :
      (w : Times) (end_ny : Time) (j : String) (s : Store F)
      → contains j s.watchlist ≡ true
      → (t : TickerState F) → get_ticker j (end_of_replay e w end_ny s) ≡ some t
      → still_open t ≡ false
  unfolding end_of_replay emit add_event
  end_of_replay-flat w end_ny j s listed =
      let Flat =
        λ (s' : Store F). (t : TickerState F) → get_ticker j s' ≡ some t → still_open t ≡ false in
      let s1 =
        system e end_ny
          ("Historic run ended early at "
            ++ (clock_hms e.loc end_ny ++ "; closing any open positions at last price."))
          "warn" s in
      if_kept Flat (not (before end_ny w.exit_ny)) _ _
        (close-flat j s.times.open_ny w.exit_ny s _ (Closing.on_eleven_am-missing e w.exit_ny j s)
          λ t h. rw (Closing.on_eleven_am_closes e w.exit_ny j s t h, listed))
        (close-flat j s1.times.open_ny end_ny s1 _ (Closing.close_all-missing e end_ny j s1)
          λ t h. rw (Closing.close_all_closes e end_ny j s1 t h, listed))

  abbrev pub Reported : Store F → Type 0
  Reported s = (s.phase ≡ closed) × ((rep : HistoricReport F) × (s.historic_report ≡ some rep))

  -- No position is open: there is no ticker, or it has none.
  abbrev pub flat : Option (TickerState F) → Bool
  flat none = true
  flat (some t) = not (still_open t)

  pub flat_of :
      (o : Option (TickerState F))
      → ((t : TickerState F) → o ≡ some t → still_open t ≡ false)
      → flat o ≡ true
  flat_of none h = refl
  flat_of (some t) h = let shut = h t refl in cc

  -- The end of a replay, from the last trade on.
  module _ (feeds : Feeds F) (day now : Time) (w : Times) (end_ny : Time)
      (metrics : Dict (Open5mMetric F)) (s : Store F) where
    ended : Store F
    ended = system e now "Historic report ready (see the web UI)." "info" (
        report_replay e feeds 7 day w end_ny metrics
          (set_phase closed (end_of_replay e w end_ny s)))

    end-Reported : Reported ended
    unfolding ended Ended report_replay set_historic_report set_phase emit add_event get_ticker
    end-Reported =
        let s1 = set_phase closed (end_of_replay e w end_ny s) in
        (
          (report_replay-Ended "" (get_ticker "" s1) feeds 7 day w end_ny metrics s1
              (refl, refl)).0,
          (_, refl),
        )

    end-flat : (j : String) → contains j s.watchlist ≡ true → flat (get_ticker j ended) ≡ true
    unfolding ended Ended report_replay set_historic_report set_phase emit add_event get_ticker
    end-flat j listed =
        let s1 = set_phase closed (end_of_replay e w end_ny s) in
        let kept =
          report_replay-Ended j (get_ticker j s1) feeds 7 day w end_ny metrics s1 (refl, refl) in
        ap flat kept.1 ∙ flat_of (get_ticker j s1) (end_of_replay-flat w end_ny j s listed)

  replay_day-Reported :
      (feeds : Feeds F) (day : Time) (w : Times) (end_ny : Time) (metrics : Dict (Open5mMetric F))
      (candidates : List String) (s : Store F)
      → Reported (replay_day e feeds day w end_ny metrics candidates s)
  unfolding replay_day ended
  replay_day-Reported feeds day w end_ny metrics candidates s =
      end-Reported feeds day (feeds.now 9) w end_ny metrics _

  -- Whatever the replay of a day comes upon, it ends with the phase closed, a report in the store, and
  -- no position of a ticker of the watchlist open.
  pub replay_day_completes :
      (feeds : Feeds F) (day : Time) (w : Times) (end_ny : Time) (metrics : Dict (Open5mMetric F))
      (candidates : List String) (j : String) (s : Store F)
      → contains j s.watchlist ≡ true
      → let s' = replay_day e feeds day w end_ny metrics candidates s in
        Reported s' × (flat (get_ticker j s') ≡ true)
  unfolding replay_day ended
  replay_day_completes feeds day w end_ny metrics candidates j s listed =
      let st = Stable-Holds (settings-Stable e s) in
      let h =
        replay_fetched_kept st (feeds.now 6) (record w { exit_ny = end_ny }) _ _ _ tt
          (system_kept st (feeds.now 5) _ "info" _ (
            st.tracked feeds (feeds.now 4) w candidates _
              (system_kept st (feeds.now 3) _ "info" s refl))) in
      (
        replay_day-Reported feeds day w end_ny metrics candidates s,
        end-flat feeds day (feeds.now 9) w end_ny metrics _ j
            (ap (λ q. contains j q.1.1.0) h ∙ listed),
      )

  report_replay-Reported :
      (feeds : Feeds F) (k : ℕ) (day : Time) (w : Times) (end_ny : Time)
      (metrics : Dict (Open5mMetric F)) (s : Store F)
      → s.phase ≡ closed
      → Reported (report_replay e feeds k day w end_ny metrics s)
  unfolding Ended report_replay set_historic_report get_ticker
  report_replay-Reported feeds k day w end_ny metrics s h = (
    (report_replay-Ended "" (get_ticker "" s) feeds k day w end_ny metrics s (h, refl)).0,
    (_, refl),
  )

  run_replay-Reported :
      (feeds : Feeds F) (day : Time) (note : String) (w : Times) (s : Store F)
      → Reported (run_replay e feeds day note w s)
  unfolding run_replay set_phase
  run_replay-Reported feeds day note w s =
      if_kept Reported (is_empty _) _ _ (report_replay-Reported feeds 4 day w _ _ _ refl)
        (replay_day-Reported feeds day w _ _ _ _)

  pub replay_ends-Reported :
      (feeds : Feeds F) (day : Time) (note : String) (s : Store F)
      → is_live e (feeds.now 0) day (day_times e day) ≡ false
      → let p = run_resolved e feeds day note s in (p.1 ≡ none) × Reported p.0
  unfolding run_resolved
  replay_ends-Reported feeds day note s over =
      rw over (refl, run_replay-Reported feeds day note (day_times e day) s)
