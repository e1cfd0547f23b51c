-- ===== src/Session/SettledLive.antt =====
-- How a live session that comes to its end leaves the tickers of the watchlist.
use market_hacker.Base.{
  map, ◌≡◌, refl, sym, ◌∙◌, ap, subst, String, true, Option, none, some, List, [], ◌∷◌, ◌++◌, arith,
  All, option_kept, contains, lookup,
}
use market_hacker.Float.{Float64}
use market_hacker.Store.{RuntimeFilters, TickerState, Times, Store, closed, get_ticker, set_phase}
use market_hacker.Engine.{Engine}
use market_hacker.Session.Sockets.{open_trades}
use market_hacker.Session.Holds.Edits.{edit_all_kept, edits_kept}
use market_hacker.Session.Feeds.{
  all_edits, edit_all, edited, Feeds, Live, forced_exit, noticed, live_loop,
}
use market_hacker.Session.Realtime.{day_times, run_trades, run, sorted_keys, track, ending_error}
use market_hacker.Session.Completes.{flat}
use market_hacker.Session.LiveEnd.{Running, RunningLate, live_session_ends_flat}
use market_hacker.Session.Holds.Realtime.{system_kept, run_cases}
use market_hacker.Session.Sound.Tracked.{Every}
use market_hacker.Session.Settled.{
  NeverBought, Fresh, Fresh-Holds, Fresh-flat, Settled, Sound-Settled,
}
use market_hacker.Session.Sound.{run-Sound}
use market_hacker.Session.Sound.Filters.{InForce}

module _ {F : Type 0} ⦃d : Float64 F⦄ where
  -- The loop gets trades, the forced exit, then trades that come at the cutoff or later, and the notice,
  -- with changes of the filters in between.
  pub record EndsInTime (e : Engine F) (w : Times) (live : List (Live F)) : Type 0 where
    pub early : List (Live F)
    pub late : List (Live F)
    pub more : List (Live F)
    pub order : live ≡ early ++ (forced_exit ∷ (late ++ (noticed ∷ more)))
    pub are_running : All (Running e w) early
    pub are_late : All (RunningLate e w) late

  module _ (e : Engine F) (feeds : Feeds F) (j : String) (s0 : Store F)
      (listed : contains j s0.watchlist ≡ true) where
    -- What a session without an error comes to.
    abbrev Done : Store F × Option String → Type 0
    Done p = p.1 ≡ none → (p.0.phase ≡ closed) × (flat e (get_ticker j p.0) ≡ true)

    nothing_bought :
        (s5 : Store F)
        → Every NeverBought s5.tickers
        → ((set_phase closed s5).phase ≡ closed)
          × (flat e (get_ticker j (set_phase closed s5)) ≡ true)
    unfolding set_phase
    nothing_bought s5 h = (refl, Fresh-flat e j (record s5 { phase = closed }) h)

    failed-Done : (m : String) (s : Store F) → Done (s, some m)
    failed-Done m s bad = absurd (ground arith)

    live_loop-Done :
        (w : Times) (s : Store F)
        → EndsInTime e w feeds.live
        → Fresh e s0 s
        → let p = live_loop e w feeds.live s in Done (p.0, ending_error p.1)
    live_loop-Done w s ends h fine =
        let listed' : contains j s.watchlist ≡ true = ap (λ q. contains j q.1.1.0) h.0 ∙ listed in
        subst
          (λ l.
            ((live_loop e w l s).0.phase ≡ closed)
            × (flat e (get_ticker j (live_loop e w l s).0) ≡ true))
          (sym ends.order)
          (live_session_ends_flat e w ends.early ends.late ends.more j s listed' ends.are_running
            ends.are_late).1

    run_trades-Done :
        (w : Times) (candidates : List String) (s : Store F)
        → EndsInTime e w feeds.live
        → Fresh e s0 s
        → Done (run_trades e feeds w candidates s)
    unfolding run_trades
    run_trades-Done w candidates s ends h =
        let st = Fresh-Holds e s0 in
        let h2 =
          st.tracked feeds (feeds.now 5) w candidates _
            (system_kept st (feeds.now 4) _ "info" s h) in
        option_kept Done
          (open_trades feeds.lower e.cfg.massive.feed
            (sorted_keys (track e feeds (feeds.now 5) w candidates _).1) feeds.trade_socket)
          _ _ (live_loop-Done w _ ends (system_kept st (feeds.now 6) _ "info" _ h2))
          (λ m. failed-Done m _)

    run-Done :
        (s : Store F)
        → EndsInTime e (day_times e (feeds.now 0)) feeds.live
        → Fresh e s0 (edit_all feeds.early s)
        → Done (run e feeds s)
    run-Done s ends h =
        let st = Fresh-Holds e s0 in
        run_cases st Done feeds s (λ m s2 h2. failed-Done m s2)
          (λ s5 h5 fine. nothing_bought s5 h5.1)
          (λ candidates s5 h5. run_trades-Done (day_times e (feeds.now 0)) candidates s5 ends h5) h

  -- Where a live session starts with no tickers in the store, gets trades, the forced exit, then trades
  -- that come at the cutoff or later, and the notice, with changes of the filters in between, and ends
  -- without an error, it leaves the phase closed, and every ticker of the watchlist that it leaves in
  -- the store was never bought, or it was bought as `Entered` says, by the times of the day and runtime
  -- filters that were in force, and sold, at or above its target for PROFIT, at or below
  -- its stop for STOP, or for TIME_EXIT. None is still held.
  pub run-Settled :
      (e : Engine F) (feeds : Feeds F) (j : String) (s : Store F) (t : TickerState F)
      → s.tickers ≡ []
      → EndsInTime e (day_times e (feeds.now 0)) feeds.live
      → contains j s.watchlist ≡ true
      → (run e feeds s).1 ≡ none
      → get_ticker j (run e feeds s).0 ≡ some t
      → ((run e feeds s).0.phase ≡ closed)
        × ((f : RuntimeFilters F) × InForce (all_edits feeds) s.filters f
            × Settled e f (day_times e (feeds.now 0)) t)
  unfolding lookup
  run-Settled e feeds j s t fresh ends listed fine there =
      let s1 = edit_all feeds.early s in
      let (fresh1, listed1) =
        edit_all_kept (λ s'. (s'.tickers ≡ []) × (contains j s'.watchlist ≡ true)) feeds.early s
          (edits_kept _ (λ f s' h. h) (map edited feeds.early)) (fresh, listed) in
      let start : Fresh e s1 s1 =
        (refl, subst (Every NeverBought) (sym fresh1) (λ i u absent. absurd (cc))) in
      let done = run-Done e feeds j s1 listed1 s ends start fine in
      let (f, in_force, fine) = run-Sound e feeds s j t fresh there in
      (
        done.0,
        (
          f,
          in_force,
          Sound-Settled e f (day_times e (feeds.now 0)) t fine (sym (ap (flat e) there) ∙ done.1),
        ),
      )
