-- ===== src/Session/Holds/Realtime.antt =====
-- What every change keeps, `Run` of internal/engine/engine.go keeps.
use market_hacker.Base.{map, All, if_kept, option_kept, String, Option, none, some, List, [], ◌∷◌}
use market_hacker.Float.{Float64}
use market_hacker.Clock.{Time, before}
use market_hacker.Store.{Times, Store, waiting_open, collecting5m, selecting0935, closed, set_phase}
use market_hacker.Rest.{is_empty}
use market_hacker.Engine.{Engine}
use market_hacker.Session.Sockets.{open_aggs, open_trades}
use market_hacker.Session.Feeds.{
  edit_all, Live, trade, edited, forced_exit, noticed, socket_error, socket_closed, Feeds,
  live_loop,
}
use market_hacker.Session.Realtime.{
  day_times, system, sorted_keys, wait_for_open, report_ws_error, track, run_trades, run,
}
use market_hacker.Session.Holds.{Holds, on_trade_kept}
use market_hacker.Session.Holds.Edits.{EditKept, edit_all_kept}
use market_hacker.Session.Holds.Opening.{collect_aggs_kept, select_kept}

module _ {F : Type 0} ⦃d : Float64 F⦄ {e : Engine F} {W : Times → Type 0} {P : Store F → Type 0}
    (st : Holds e W P) where
  pub system_kept : (t : Time) (msg level : String) (s : Store F) → P s → P (system e t msg level s)
  system_kept t msg level s h = st.quiet t "SYSTEM" "" msg level s h

  pub live_loop_kept :
      (w : Times) (live : List (Live F)) (s : Store F)
      → All (EditKept P) live
      → W w
      → P s
      → P (live_loop e w live s).0
  unfolding live_loop
  live_loop_kept w [] s edits allowed h = h
  live_loop_kept w (trade m ∷ more) s (_, edits) allowed h =
      live_loop_kept w more _ edits allowed
        (on_trade_kept st w m.symbol m.timestamp m.price m.size s allowed h)
  live_loop_kept w (edited fn ∷ more) s (kept, edits) allowed h =
      live_loop_kept w more _ edits allowed (kept s h)
  live_loop_kept w (forced_exit ∷ more) s (_, edits) allowed h =
      live_loop_kept w more _ edits allowed (st.eleven w.exit_ny s h)
  live_loop_kept w (noticed ∷ more) s edits allowed h = st.phase closed s h
  live_loop_kept w (socket_error m ∷ more) s edits allowed h = h
  live_loop_kept w (socket_closed ∷ more) s edits allowed h = h

  pub wait_for_open_kept :
      (now : Time) (msg : String) (w : Times) (s : Store F) → P s → P (wait_for_open e now msg w s)
  unfolding wait_for_open
  wait_for_open_kept now msg w s h =
      if_kept P (before now w.open_ny) _ _ (system_kept now _ "info" _ (st.phase waiting_open s h))
        h

  pub report_ws_error_kept :
      (now : Time) (m : Option String) (s : Store F) → P s → P (report_ws_error e now m s)
  unfolding report_ws_error
  report_ws_error_kept now none s h = h
  report_ws_error_kept now (some m) s h = system_kept now _ "warn" s h

  abbrev First : Store F × Option String → Type 0
  First p = P p.0

  run_trades_kept :
      (feeds : Feeds F) (w : Times) (candidates : List String) (s : Store F)
      → All (EditKept P) feeds.live
      → W w
      → P s
      → P (run_trades e feeds w candidates s).0
  unfolding run_trades
  run_trades_kept feeds w candidates s edits allowed h =
      let h2 =
        st.tracked feeds (feeds.now 5) w candidates _ (system_kept (feeds.now 4) _ "info" s h) in
      option_kept First
        (open_trades feeds.lower e.cfg.massive.feed
          (sorted_keys (track e feeds (feeds.now 5) w candidates _).1) feeds.trade_socket)
        _ _ (live_loop_kept w feeds.live _ edits allowed (system_kept (feeds.now 6) _ "info" _ h2))
        (λ m. h2)

  -- What holds after each of the ways in which a session goes on, holds after it.
  pub run_cases :
      (Q : Store F × Option String → Type 0) (feeds : Feeds F) (s : Store F)
      → ((m : String) (s2 : Store F) → P s2 → Q (s2, some m))
      → ((s5 : Store F) → P s5 → Q (set_phase closed s5, none))
      → ((candidates : List String) (s5 : Store F)
          → P s5
          → Q (run_trades e feeds (day_times e (feeds.now 0)) candidates s5))
      → P (edit_all feeds.early s)
      → Q (run e feeds s)
  unfolding run
  run_cases Q feeds s failure nothing candidates h =
      let w = day_times e (feeds.now 0) in
      let h2 = st.phase collecting5m _ (
        wait_for_open_kept (feeds.now 0) "Waiting for market open at " w _
          (system_kept (feeds.now 0) _ "info" _ (st.times w (edit_all feeds.early s) h))) in
      let h5 = select_kept st (feeds.now 3) _ (
        st.phase selecting0935 _ (
          report_ws_error_kept (feeds.now 2) feeds.agg_error _
            (collect_aggs_kept st w feeds.aggs _ (system_kept (feeds.now 1) _ "info" _ h2)))) in
      option_kept Q
        (open_aggs feeds.lower e.cfg.massive.feed e.cfg.massive.ws_batch_size _ feeds.agg_socket) _
        _
        (if_kept Q (is_empty _) _ _ (nothing _ (system_kept (feeds.now 4) _ "info" _ h5))
          (candidates _ _ h5))
        (λ m. failure m _ h2)

  pub run_kept :
      (feeds : Feeds F) (s : Store F)
      → All (EditKept P) (map edited feeds.early)
      → All (EditKept P) feeds.live
      → W (day_times e (feeds.now 0))
      → P s
      → P (run e feeds s).0
  run_kept feeds s first edits allowed h =
      run_cases First feeds s (λ m s2 h2. h2) (λ s5 h5. st.phase closed s5 h5)
        (λ candidates s5 h5. run_trades_kept feeds _ candidates s5 edits allowed h5)
        (edit_all_kept P feeds.early s first h)
