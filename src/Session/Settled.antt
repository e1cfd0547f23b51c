-- ===== src/Session/Settled.antt =====
-- How the replay of a past day leaves the tickers of the watchlist: never bought, or bought and sold.
use market_hacker.Base.{
  ◌≡◌, ◌⊎◌, refl, sym, ◌∙◌, ap, subst, inl, inr, String, Bool, true, false, some, ok, arith,
  if_kept, if◌then◌else◌, contains, Option-cases, lookup,
}
use market_hacker.Float.{Float64}
use market_hacker.Clock.{Time, date_only}
use market_hacker.Store.{
  RuntimeFilters, TickerState, Times, Store, closed, get_ticker, upsert_ticker, new_ticker,
  set_phase, set_times, set_historic_report, reset_for_historic_run, add_event,
}
use market_hacker.Engine.{Engine, emit, resolve_historic_session_date}
use market_hacker.Engine.Closing
use market_hacker.Engine.Moves.{SamePosition}
use market_hacker.Engine.Sound.{SameEntryTimes, Entered, Reason, Sound, never_bought, held, sold}
use market_hacker.Session.Feeds.{bars_of, Feeds}
use market_hacker.Session.Realtime.{day_times}
use market_hacker.Session.Today.{is_live, run_resolved, run_historic_for_date}
use market_hacker.Session.Bounded.{settings, settings-Stable}
use market_hacker.Session.Completes.{flat, replay_day_completes}
use market_hacker.Session.DayVwap.{report_replay-keeps}
use market_hacker.Session.Holds.{Holds}
use market_hacker.Session.Holds.Replay.{run_replay_cases, run_replay_kept}
use market_hacker.Session.Stable.Tracking.{Stable-Holds}
use market_hacker.Session.Sound.{SoundHere, Sound-Holds}
use market_hacker.Session.Sound.Tracked.{
  Every, upsert-Every, or_else-Every, track-Every, step-Every,
}

module _ {F : Type 0} where
  abbrev pub NeverBought : TickerState F → Type 0
  NeverBought t = (t.has_position ≡ false) × (t.exited ≡ false)

  same-NeverBought : (t t' : TickerState F) → SamePosition t t' → NeverBought t → NeverBought t'
  same-NeverBought t t' same h = (same.has_position ∙ h.0, same.exited ∙ h.1)

module _ {F : Type 0} ⦃d : Float64 F⦄ (e : Engine F) where
  closed-NeverBought :
      (open_ny ts : Time) (t : TickerState F)
      → NeverBought t
      → NeverBought (Closing.closed e open_ny ts t)
  unfolding Closing.closed
  closed-NeverBought open_ny ts t h = ground arith

  closed_if-NeverBought :
      (open_ny ts : Time) (listed : Bool) (t : TickerState F)
      → NeverBought t
      → NeverBought (if listed then Closing.closed e open_ny ts t else t)
  closed_if-NeverBought open_ny ts listed t h =
      if_kept NeverBought listed _ _ (closed-NeverBought open_ny ts t h) h

  module _ (s0 : Store F) where
    abbrev pub Fresh : Store F → Type 0
    Fresh s = (settings s ≡ settings s0) × Every NeverBought s.tickers

    -- Until the first trade, no ticker is bought.
    pub Fresh-Holds : Holds e (λ w. ⊥) Fresh
    unfolding emit add_event upsert_ticker set_phase set_times set_historic_report
    Fresh-Holds =
        let st = Stable-Holds (settings-Stable e s0) in
        record {
          quiet = λ ts typ name msg level s h. (st.quiet ts typ name msg level s h.0, h.1);
          phase = λ p s h. (st.phase p s h.0, h.1);
          times = λ v s h. (st.times v s h.0, h.1);
          report = λ r s h. (st.report r s h.0, h.1);
          neutral = λ name fn s same h. (
            st.neutral name fn s same h.0,
            upsert-Every NeverBought name _ fn s.tickers
                (same-NeverBought _ _ (same _)
                  (or_else-Every NeverBought name (new_ticker name) s.tickers (refl, refl) h.1))
                h.1,
          );
          tracked = λ feeds now v candidates s h. (
            st.tracked feeds now v candidates s h.0,
            track-Every NeverBought same-NeverBought e feeds now v candidates s h.1,
          );
          ends = λ v end_ny never. never;
          print = λ v name ts price size allow s never h. absurd never;
          eleven = λ ts s h. (
            st.eleven ts s h.0,
            step-Every NeverBought s _ (λ j. Closing.on_eleven_am-missing e ts j s)
                (λ j t here fresh. (
                  _,
                  Closing.on_eleven_am_closes e ts j s t here,
                  closed_if-NeverBought s.times.open_ny ts (contains j s.watchlist) t fresh,
                ))
                h.1,
          );
          close_all = λ ts s h. (
            st.close_all ts s h.0,
            step-Every NeverBought s _ (λ j. Closing.close_all-missing e ts j s)
                (λ j t here fresh. (
                  _,
                  Closing.close_all_closes e ts j s t here,
                  closed_if-NeverBought s.times.open_ny ts (contains j s.watchlist) t fresh,
                ))
                h.1,
          );
        }

  -- Never bought, or bought as `Entered` says and sold for a `Reason`.
  abbrev pub Settled : RuntimeFilters F → Times → TickerState F → Type 0
  Settled f w t = NeverBought t ⊎ (Entered e f w t × ((t.exited ≡ true) × Reason t))

  pub Sound-Settled :
      (f : RuntimeFilters F) (w : Times) (t : TickerState F)
      → Sound e f w t
      → flat e (some t) ≡ true
      → Settled f w t
  Sound-Settled f w t (never_bought no_position open_) shut = inl (no_position, open_)
  Sound-Settled f w t (held bought open_) shut = let long = bought.long in absurd (ground arith)
  Sound-Settled f w t (sold bought gone why) shut = inr (bought, (gone, why))

  pub Fresh-flat :
      (j : String) (s : Store F) → Every NeverBought s.tickers → flat e (get_ticker j s) ≡ true
  unfolding get_ticker
  Fresh-flat j s h = elim (Option-cases (get_ticker j s)) [
    | inl absent ↦ rw absent refl
    | inr (t, there) ↦ let fresh = h j t there in ap (flat e) there ∙ ground arith
  ]

  run_resolved-flat :
      (feeds : Feeds F) (day : Time) (note j : String) (s : Store F)
      → is_live e (feeds.now 0) day (day_times e day) ≡ false
      → Every NeverBought s.tickers
      → contains j s.watchlist ≡ true
      → flat e (get_ticker j (run_resolved e feeds day note s).0) ≡ true
  unfolding run_resolved
  run_resolved-flat feeds day note j s over fresh listed =
      let w = day_times e day in
      rw over (
        run_replay_cases (Fresh-Holds s) (λ s'. flat e (get_ticker j s') ≡ true) feeds day note w s
          (λ end_ny metrics s5 h5.
            ap (flat e) (report_replay-keeps e j feeds 4 day w end_ny metrics (set_phase closed s5))
            ∙ Fresh-flat j (set_phase closed s5) ((Fresh-Holds s).phase closed s5 h5).1)
          (λ end_ny metrics candidates s5 h5.
            (replay_day_completes e feeds day w end_ny metrics candidates j s5
              (ap (λ q. contains j q.1.1.0) h5.0 ∙ listed)).1)
          (refl, fresh))

  -- What the replay of a day bought, it bought under the filters of the start.
  replayed-Sound :
      (feeds : Feeds F) (day : Time) (note j : String) (t : TickerState F) (s : Store F)
      → let w = day_times e day in
        is_live e (feeds.now 0) day w ≡ false
        → SameEntryTimes w w
        → Every (SoundHere e (λ f. f ≡ s.filters) w) s.tickers
        → get_ticker j (run_resolved e feeds day note s).0 ≡ some t
        → SoundHere e (λ f. f ≡ s.filters) w t
  unfolding run_resolved get_ticker
  replayed-Sound feeds day note j t s over times start there =
      let w = day_times e day in
      (run_replay_kept (Sound-Holds e (λ f. f ≡ s.filters) w) feeds day note w s times
          (refl, start)).1
        j t (rw over at there)

  -- Where the search for the session of a historic run settles on a day whose session is not on any
  -- more, every ticker of the watchlist that the run leaves in the store was never bought, or it was
  -- bought as `Entered` says, by the times of that day and the runtime filters, and sold, at or above
  -- its target for PROFIT, at or below its stop for STOP, or for TIME_EXIT. None is still held. The
  -- filters are those of the start: the replay is taken to run without a change of them.
  pub run_historic-Settled :
      (feeds : Feeds F) (target_date : Time) (s : Store F) (day : Time) (note j : String)
      (t : TickerState F)
      → resolve_historic_session_date e
          (bars_of feeds)
          (date_only e.loc target_date)
          (feeds.now 0)
          s
        ≡ ok (day, note)
      → is_live e (feeds.now 0) day (day_times e day) ≡ false
      → contains j s.watchlist ≡ true
      → get_ticker j (run_historic_for_date e feeds target_date s).0 ≡ some t
      → Settled s.filters (day_times e day) t
  unfolding run_historic_for_date reset_for_historic_run lookup
  run_historic-Settled feeds target_date s day note j t found over listed there =
      let s1 = reset_for_historic_run (date_only e.loc target_date) day note feeds.reset_now s in
      let w = day_times e day in
      let times : SameEntryTimes w w = record { open_ny = refl; sel_ny = refl; cutoff_ny = refl } in
      let there1 : get_ticker j (run_resolved e feeds day note s1).0 ≡ some t =
        rw (found, run_historic_for_date) at there in
      let (f, unchanged, fine) =
        replayed-Sound feeds day note j t s1 over times (λ i u absent. absurd (cc)) there1 in
      Sound-Settled s.filters w t (subst (λ g. Sound e g w t) unchanged fine) (
        sym (ap (flat e) there1)
        ∙ run_resolved-flat feeds day note j s1 over (λ i u absent. absurd (cc)) listed)
