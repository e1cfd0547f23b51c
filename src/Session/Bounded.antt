-- ===== src/Session/Bounded.antt =====
-- The settings of the store and the length of its list of events, over a whole session.
use market_hacker.Base.{
  map, ◌≡◌, refl, ℕ, suc, ◌≤◌, ◌∷◌, String, false, List, [], pos, ltb_ℤ, length, length-append,
  arith, if_kept, option_kept, result_kept, not,
}
use market_hacker.Float.{Float64}
use market_hacker.Clock.{Time}
use market_hacker.Config.{Config}
use market_hacker.Store.{
  Event, Mode, RuntimeFilters, Store, upsert_ticker, set_phase, set_times, set_tracked_tickers,
  set_historic_report, reset_for_historic_run, add_event, push_event, push_faults, store_audio,
}
use market_hacker.Speech.{enabled, synthesize}
use market_hacker.Engine.{Engine, emit, say}
use market_hacker.Session.Feeds.{edited, Feeds}
use market_hacker.Session.Realtime.{run}
use market_hacker.Session.Today.{run_historic_for_date}
use market_hacker.Session.Stable.{Stable}
use market_hacker.Session.Stable.Tracking.{Stable-Holds}
use market_hacker.Session.Holds.Edits.{edits_kept}
use market_hacker.Session.Holds.Realtime.{run_kept}
use market_hacker.Session.Holds.Today.{run_historic_kept}

length-push_event :
    (limit : ℕ) (evs : List Event) (ev : Event)
    → length evs ≤ suc limit
    → length (push_event (pos (suc limit)) evs ev) ≤ suc limit
unfolding push_event
length-push_event limit [] ev h = ground arith
length-push_event limit (x ∷ evs) ev h =
    ground (arith, length-append evs (ev ∷ []), length-append (x ∷ evs) (ev ∷ []))

push_faults_never : (limit : ℕ) (evs : List Event) → push_faults (pos (suc limit)) evs ≡ false
unfolding push_faults
push_faults_never limit [] = ground arith
push_faults_never limit (_ ∷ _) = refl

limit_not_negative : (limit : ℕ) → ltb_ℤ (pos (suc limit)) (pos 0) ≡ false
limit_not_negative limit = ground arith

module _ {F : Type 0} where
  -- what no step but a change of the filters changes
  abbrev pub settings :
      Store F → Config F × (RuntimeFilters F × (List String × (List String × Mode)))
  settings s = (s.cfg, (s.filters, (s.watchlist, (s.watchset, s.mode))))

  -- The list of events is within the limit, and no step has panicked.
  unfoldable pub Bounded : ℕ → Store F → Type 0
  Bounded limit s =
      (s.cfg.ui.max_events ≡ pos (suc limit)) × ((length s.events ≤ suc limit) × (s.fault ≡ false))

  pub add_event-Bounded :
      (limit : ℕ) (ev : Event) (s : Store F) → Bounded limit s → Bounded limit (add_event ev s)
  unfolding add_event Bounded
  add_event-Bounded limit ev s (lim, (len, ok)) = (
    lim,
    (
      rw lim (length-push_event limit s.events ev len),
      rw (lim, ok, push_faults_never limit s.events),
    ),
  )

  say-Bounded :
      (e : Engine F) (text : String) (limit : ℕ) (s : Store F)
      → Bounded limit s
      → Bounded limit (say e text s).0
  unfolding say store_audio Bounded
  say-Bounded e text limit s h =
      let kept = λ (p : Store F × String). Bounded limit p.0 in
      option_kept kept e.tts _ _ h λ c.
        if_kept kept (not (enabled c)) _ _ h
          (result_kept kept (synthesize c text) _ _ (λ r. h) λ m. h)

  say-settings :
      (e : Engine F) (text : String) (s : Store F) → settings (say e text s).0 ≡ settings s
  unfolding say store_audio
  say-settings e text s =
      let kept = λ (p : Store F × String). settings p.0 ≡ settings s in
      option_kept kept e.tts _ _ refl λ c.
        if_kept kept (not (enabled c)) _ _ refl
          (result_kept kept (synthesize c text) _ _ (λ r. refl) λ m. refl)

module _ {F : Type 0} ⦃d : Float64 F⦄ where
  Bounded-Stable : (e : Engine F) (limit : ℕ) → Stable e (Bounded limit)
  unfolding emit upsert_ticker set_phase set_times set_tracked_tickers set_historic_report Bounded
  Bounded-Stable e limit = record {
    ticker = λ sym fn s h. h;
    alert =
        λ ts typ sym msg level text s h. add_event-Bounded limit _ _ (say-Bounded e text limit s h);
    quiet = λ ts typ sym msg level s h. add_event-Bounded limit _ s h;
    phase = λ p s h. h;
    times = λ w s h. h;
    tracked = λ m s h. h;
    report = λ r s h. h;
  }

  pub settings-Stable : (e : Engine F) (s0 : Store F) → Stable e (λ s. settings s ≡ settings s0)
  unfolding emit add_event upsert_ticker set_phase set_times set_tracked_tickers set_historic_report
  settings-Stable e s0 = record {
    ticker = λ sym fn s h. h;
    alert = λ ts typ sym msg level text s h. rw (say-settings e text s, h);
    quiet = λ ts typ sym msg level s h. h;
    phase = λ p s h. h;
    times = λ w s h. h;
    tracked = λ m s h. h;
    report = λ r s h. h;
  }

  pub session-Bounded :
      (e : Engine F) (feeds : Feeds F) (target_date : Time) (limit : ℕ) (s : Store F)
      → Bounded limit s
      → Bounded limit (run e feeds s).0
        × Bounded limit (run_historic_for_date e feeds target_date s).0
  unfolding Bounded reset_for_historic_run
  session-Bounded e feeds target_date limit s h =
      let st = Stable-Holds (Bounded-Stable e limit) in
      let edits = edits_kept (Bounded limit) (λ f s h. h) feeds.live in
      (
        run_kept st feeds s (edits_kept (Bounded limit) (λ f s h. h) (map edited feeds.early)) edits
            tt h,
        run_historic_kept st feeds target_date s edits (λ day. tt)
            (λ target day note. (h.0, (ground arith, rw (h.0, h.1.1, limit_not_negative limit)))) h,
      )
