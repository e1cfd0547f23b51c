-- ===== src/Session/Sound.antt =====
-- Every ticker that a session leaves in the store is sound: never bought, held, or bought and sold.
pub mod Filters
pub mod Tracked
use market_hacker.Base.{
  map, List, ◌++◌, All, ◌≡◌, refl, sym, ◌∙◌, ap, subst, inl, inr, String, Bool, true, false, Option,
  none, some, [], ℤ, arith, if_kept, if◌then◌else◌, str_eq, str_eq_iff, Dict, lookup, Bool-cases,
  Option-cases, contains,
}
use mathlib.Core.Option.{some-injective}
use market_hacker.Float.{Float64}
use market_hacker.Clock.{Time, unix_milli}
use market_hacker.Store.{
  RuntimeFilters, TickerState, Times, Store, get_ticker, upsert_ticker, new_ticker,
  set_tracked_tickers, set_phase, set_times, set_historic_report, add_event,
}
use market_hacker.Engine.{Engine, emit, process_trade, on_eleven_am, close_all_open_positions_at}
use market_hacker.Engine.Closing
use market_hacker.Engine.Refine.{
  outcome, process_trade_refines, process_trade_frame, process_trade_untracked,
  process_trade_unnamed,
}
use market_hacker.Engine.Sound.{
  SameEntryTimes, Sound, never_bought, same-Sound, outcome-Sound, closed-Sound,
}
use mathlib.Core.List.{Memᴰ}
use mathlib.Core.List.Memᴰ
use market_hacker.Session.Feeds.{all_edits, edited, Live, Feeds}
use market_hacker.Session.Realtime.{track, day_times, run}
use market_hacker.Session.Holds.{Holds}
use market_hacker.Engine.Moves.{SamePosition}
use market_hacker.Session.Holds.Edits.{EditKept}
use market_hacker.Session.Sound.Filters.{InForce, at_start, edits-InForce}
use market_hacker.Session.Holds.Realtime.{run_kept}
use market_hacker.Session.Stable.Tracking.{Stable-Holds}
use market_hacker.Session.Bounded.{settings, settings-Stable}
use market_hacker.Session.Sound.Tracked.{
  Every, upsert-Every, or_else-Every, track-Every, step-Every,
}

module _ {F : Type 0} ⦃d : Float64 F⦄ (e : Engine F) (A : RuntimeFilters F → Type 0)
    (w : Times) where
  -- Sound under some filters that are among those of `A`.
  abbrev pub SoundHere : TickerState F → Type 0
  SoundHere t = (f : RuntimeFilters F) × A f × Sound e f w t

  same-SoundHere : (t t' : TickerState F) → SamePosition t t' → SoundHere t → SoundHere t'
  same-SoundHere t t' same (f, among, fine) = (f, among, same-Sound same fine)

  closed-SoundHere :
      (open_ny ts : Time) (t : TickerState F)
      → SoundHere t
      → SoundHere (Closing.closed e open_ny ts t)
  closed-SoundHere open_ny ts t (f, among, fine) = (f, among, closed-Sound open_ny ts t fine)

  outcome-SoundHere :
      {g : RuntimeFilters F} {w' : Times} (open_ny tr : Time) (price size : F) (allow : Bool)
      (t : TickerState F)
      → A g
      → SameEntryTimes w w'
      → SoundHere t
      → SoundHere (outcome e g open_ny w' tr price size allow t)
  outcome-SoundHere {g = g} open_ny tr price size allow t now times (f, among, fine) =
      elim (outcome-Sound {g = g} open_ny tr price size allow t times fine) [
        | inl as_before ↦ (f, among, as_before)
        | inr under_g ↦ (g, now, under_g)
      ]

  process_trade-found :
      (w' : Times) (name : String) (ts_millis : ℤ) (price size : F) (allow : Bool) (s : Store F)
      → A s.filters
      → SameEntryTimes w w'
      → (j : String) (t : TickerState F) → get_ticker j s ≡ some t
      → SoundHere t
      → (t' : TickerState F) × (get_ticker j (process_trade e w' name ts_millis price size allow s)
          ≡ some t')
        × SoundHere t'
  process_trade-found w' name ts_millis price size allow s now times j t here fine =
      elim (Bool-cases (str_eq name "")) [
        | inl unnamed ↦ (
          t,
          rw (process_trade_unnamed e w' name ts_millis price size allow s unnamed) here,
          fine,
        )
        | inr named ↦ elim (Bool-cases (str_eq name j)) [
          | inr other ↦ (
            t,
            process_trade_frame e w' name j ts_millis price size allow s
                  (λ same. ground (arith, str_eq_iff name j))
                ∙ here,
            fine,
          )
          | inl same ↦
              let eq = (str_eq_iff name j).0 same in
              (
                outcome e s.filters s.times.open_ny w' (unix_milli ts_millis) price size allow t,
                rw (← eq) (
                    process_trade_refines e w' name ts_millis price size allow s t named
                      (rw eq here)),
                outcome-SoundHere s.times.open_ny (unix_milli ts_millis) price size allow t now
                    times fine,
              )
        ]
      ]

  process_trade-missing :
      (w' : Times) (name : String) (ts_millis : ℤ) (price size : F) (allow : Bool) (s : Store F)
      (j : String)
      → get_ticker j s ≡ none
      → get_ticker j (process_trade e w' name ts_millis price size allow s) ≡ none
  process_trade-missing w' name ts_millis price size allow s j absent =
      elim (Bool-cases (str_eq name j)) [
        | inr other ↦
            process_trade_frame e w' name j ts_millis price size allow s
              (λ same. ground (arith, str_eq_iff name j))
            ∙ absent
        | inl same ↦
            let eq = (str_eq_iff name j).0 same in
            rw (process_trade_untracked e w' name ts_millis price size allow s (rw eq absent))
              absent
      ]

  abbrev pub Lasting : Store F → Type 0
  Lasting s = A s.filters × Every SoundHere s.tickers

  -- A step that leaves the settings as they are leaves the filters in force.
  same_filters : {C R : Type 0} {q q' : C × (RuntimeFilters F × R)} → q' ≡ q → A q.1.0 → A q'.1.0
  same_filters kept now = subst A (sym (ap (λ q. q.1.0) kept)) now

  pub Sound-Holds : Holds e (SameEntryTimes w) Lasting
  unfolding emit add_event upsert_ticker set_phase set_times set_historic_report
  Sound-Holds =
      let st = λ (s : Store F). Stable-Holds (settings-Stable e s) in
      record {
        quiet = λ ts typ name msg level s h.
            (same_filters ((st s).quiet ts typ name msg level s refl) h.0, h.1);
        phase = λ p s h. (same_filters ((st s).phase p s refl) h.0, h.1);
        times = λ v s h. (same_filters ((st s).times v s refl) h.0, h.1);
        report = λ r s h. (same_filters ((st s).report r s refl) h.0, h.1);
        neutral = λ name fn s same h. (
          same_filters ((st s).neutral name fn s same refl) h.0,
          upsert-Every SoundHere name _ fn s.tickers
              (same-SoundHere _ _ (same _) (
                or_else-Every SoundHere name (new_ticker name) s.tickers
                  (s.filters, h.0, never_bought refl refl) h.1))
              h.1,
        );
        tracked = λ feeds now v candidates s h. (
          same_filters ((st s).tracked feeds now v candidates s refl) h.0,
          track-Every SoundHere same-SoundHere e feeds now v candidates s h.1,
        );
        ends = λ v end_ny fine. record {
          open_ny = fine.open_ny;
          sel_ny = fine.sel_ny;
          cutoff_ny = fine.cutoff_ny;
        };
        print = λ v name ts price size allow s fine h. (
          same_filters ((st s).print v name ts price size allow s tt refl) h.0,
          step-Every SoundHere s _ (process_trade-missing v name ts price size allow s)
              (process_trade-found v name ts price size allow s h.0 fine) h.1,
        );
        eleven = λ ts s h. (
          same_filters ((st s).eleven ts s refl) h.0,
          step-Every SoundHere s _ (λ j. Closing.on_eleven_am-missing e ts j s)
              (λ j t here fine. (
                _,
                Closing.on_eleven_am_closes e ts j s t here,
                if_kept SoundHere (contains j s.watchlist) _ _
                    (closed-SoundHere s.times.open_ny ts t fine) fine,
              ))
              h.1,
        );
        close_all = λ ts s h. (
          same_filters ((st s).close_all ts s refl) h.0,
          step-Every SoundHere s _ (λ j. Closing.close_all-missing e ts j s)
              (λ j t here fine. (
                _,
                Closing.close_all_closes e ts j s t here,
                if_kept SoundHere (contains j s.watchlist) _ _
                    (closed-SoundHere s.times.open_ny ts t fine) fine,
              ))
              h.1,
        );
      }

module _ {F : Type 0} ⦃d : Float64 F⦄ (e : Engine F) (feeds : Feeds F) where
  -- Changes that are among the events `live` keep it.
  edits-Lasting :
      (live : List (Live F)) (f0 : RuntimeFilters F) (w : Times) (later : List (Live F))
      → ((l : Live F) → Memᴰ l later → Memᴰ l live)
      → All (EditKept (Lasting e (InForce live f0) w)) later
  edits-Lasting live f0 w later incl =
      edits-InForce live f0 (λ s. Every (SoundHere e (InForce live f0) w) s.tickers) (λ f s h. h)
        later incl

  -- Where a live session starts with no tickers in the store, every ticker that it leaves there is
  -- sound under filters that were in force, which are those of the start and what the changes in the
  -- session have made of them: it was never bought; or it is held, and was bought at
  -- or after the selection time, before the cutoff, inside the minutes after the open and at a price
  -- inside the bounds of those filters, with the target and the stop that the configuration asks for;
  -- or it was bought so and sold, at or above its target for PROFIT, at or below its stop for STOP, or
  -- for TIME_EXIT. The times are those of the day on which the session starts.
  pub run-Sound :
      (s : Store F) (j : String) (t : TickerState F)
      → s.tickers ≡ []
      → get_ticker j (run e feeds s).0 ≡ some t
      → (f : RuntimeFilters F) × InForce (all_edits feeds) s.filters f
        × Sound e f (day_times e (feeds.now 0)) t
  unfolding get_ticker lookup
  run-Sound s j t fresh there =
      let w = day_times e (feeds.now 0) in
      let times : SameEntryTimes w w = record { open_ny = refl; sel_ny = refl; cutoff_ny = refl } in
      let A = InForce (all_edits feeds) s.filters in
      (run_kept (Sound-Holds e A w) feeds s
          (edits-Lasting (all_edits feeds) s.filters w (map edited feeds.early)
            (λ l m. Memᴰ.append_left feeds.live m))
          (edits-Lasting (all_edits feeds) s.filters w feeds.live
            (λ l m. Memᴰ.append_right (map edited feeds.early) m))
          times
          (at_start, subst (Every (SoundHere e A w)) (sym fresh) λ j t none_there. absurd (cc))).1
        j t there
