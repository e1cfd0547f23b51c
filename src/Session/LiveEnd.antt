-- ===== src/Session/LiveEnd.antt =====
-- How the loop over the live trades ends: the forced exit, the trades that come after it and before
-- the loop notices it, and the notice.
use market_hacker.Base.{
  ◌≡◌, refl, ◌∙◌, ap, inl, inr, String, true, false, some, List, [], ◌∷◌, ◌++◌, arith, All, str_eq,
  str_eq_iff, contains, Bool-cases, Option-cases, ◌||◌,
}
use market_hacker.Float.{Float64}
use market_hacker.Clock.{Time, unix_milli, before}
use market_hacker.Store.{RuntimeFilters, TickerState, Times, Store, closed, get_ticker, set_phase}
use market_hacker.Engine.{
  Engine, EquityTrade, on_trade, on_eleven_am, drops, record_trade, detects, entry_refused, leave,
}
use market_hacker.Engine.Closing
use market_hacker.Engine.Refine.{
  outcome, process_trade_refines, process_trade_frame, process_trade_untracked,
  process_trade_unnamed,
}
use market_hacker.Engine.Moves.{
  record_trade-SamePosition, Move, stays, enters, leaves, outcome-moves,
}
use market_hacker.Engine.Decisions.{process_trade_opens, process_trade_buys_soundly}
use market_hacker.Session.Feeds.{
  Live, trade, edited, forced_exit, noticed, socket_error, socket_closed, live_loop, session_over,
}
use market_hacker.Session.Bounded.{settings-Stable}
use market_hacker.Session.Completes.{still_open, flat, flat_of, close-flat}
use market_hacker.Session.Holds.{on_trade_kept}
use market_hacker.Session.Holds.Edits.{update_filters_kept}
use market_hacker.Session.Stable.Tracking.{Stable-Holds}

module _ {F : Type 0} ⦃d : Float64 F⦄ (e : Engine F) (w : Times) where
  open d use {of_ℕ}

  -- A trade that comes at the cutoff or later opens no position.
  abbrev pub Late : EquityTrade F → Type 0
  Late m = before (unix_milli m.timestamp) w.cutoff_ny ≡ false

  -- A trade or a change of the filters.
  abbrev pub Running : Live F → Type 0
  Running (trade m) = Unit
  Running (edited fn) = Unit
  Running forced_exit = ⊥
  Running noticed = ⊥
  Running (socket_error m) = ⊥
  Running socket_closed = ⊥

  -- A change of the filters, or a trade that comes at the cutoff or later.
  abbrev pub RunningLate : Live F → Type 0
  RunningLate (trade m) = Late m
  RunningLate (edited fn) = Unit
  RunningLate forced_exit = ⊥
  RunningLate noticed = ⊥
  RunningLate (socket_error m) = ⊥
  RunningLate socket_closed = ⊥

  Move-flat :
      (m : EquityTrade F) {f : RuntimeFilters F} {open_ny : Time} {t t' : TickerState F}
      → Late m
      → Move e f open_ny w (unix_milli m.timestamp) m.price true t t'
      → still_open e t ≡ false
      → still_open e t' ≡ false
  unfolding leave
  Move-flat m late (stays same) shut = ground arith
  Move-flat m late (enters same e' allowed no_position open_ cross adm) shut =
      absurd (ground (arith, adm.before_cutoff))
  Move-flat m late (leaves reason same e' allowed long open_ why) shut = rw e' (ground arith)

  outcome-flat :
      (m : EquityTrade F) (size : F) (s : Store F) (t : TickerState F)
      → Late m
      → still_open e t ≡ false
      → still_open e
          (outcome e s.filters s.times.open_ny w (unix_milli m.timestamp) m.price size true t)
        ≡ false
  outcome-flat m size s t late shut =
      let tr = unix_milli m.timestamp in
      let same = record_trade-SamePosition w.open_ny tr m.price size t in
      elim (outcome-moves e s.filters s.times.open_ny w tr m.price size true t) [
        | inl (_, same) ↦ rw same shut
        | inr (_, move) ↦ Move-flat m late move (ground arith)
      ]

  flat_from_shut : (t : TickerState F) → still_open e t ≡ false → flat e (some t) ≡ true
  flat_from_shut t h = ground arith

  flat_held :
      (t : TickerState F) → t.has_position ≡ true → t.exited ≡ false → flat e (some t) ≡ false
  flat_held t long open_ = ground arith

  flat_shut : (t : TickerState F) → flat e (some t) ≡ true → still_open e t ≡ false
  flat_shut t h = ground arith

  on_trade-flat_self :
      (m : EquityTrade F) (s : Store F)
      → Late m
      → flat e (get_ticker m.symbol s) ≡ true
      → flat e (get_ticker m.symbol (on_trade e w m.symbol m.timestamp m.price m.size s)) ≡ true
  unfolding on_trade
  on_trade-flat_self m s late shut = elim (Bool-cases (str_eq m.symbol "")) [
    | inl unnamed ↦
        rw (process_trade_unnamed e w m.symbol m.timestamp m.price (of_ℕ m.size) true s unnamed)
          shut
    | inr named ↦ elim (Option-cases (get_ticker m.symbol s)) [
      | inl absent ↦
          rw (process_trade_untracked e w m.symbol m.timestamp m.price (of_ℕ m.size) true s absent)
            shut
      | inr (t, here) ↦
          ap (flat e) (
            process_trade_refines e w m.symbol m.timestamp m.price (of_ℕ m.size) true s t named
              here)
          ∙ flat_from_shut
              (outcome e s.filters s.times.open_ny w (unix_milli m.timestamp) m.price (of_ℕ m.size)
                true t)
              (outcome-flat m (of_ℕ m.size) s t late (flat_shut t (rw here at shut)))
    ]
  ]

  on_trade-flat :
      (m : EquityTrade F) (j : String) (s : Store F)
      → Late m
      → flat e (get_ticker j s) ≡ true
      → flat e (get_ticker j (on_trade e w m.symbol m.timestamp m.price m.size s)) ≡ true
  unfolding on_trade
  on_trade-flat m j s late shut = elim (Bool-cases (str_eq m.symbol j)) [
    | inr other ↦
        ap (flat e) (
          process_trade_frame e w m.symbol j m.timestamp m.price (of_ℕ m.size) true s
            (λ same. ground (arith, str_eq_iff m.symbol j)))
        ∙ shut
    | inl same ↦
        let eq = (str_eq_iff m.symbol j).0 same in
        rw (← eq) (on_trade-flat_self m s late (rw eq shut))
  ]

  on_eleven_am-flat :
      (ts : Time) (j : String) (s : Store F)
      → contains j s.watchlist ≡ true
      → flat e (get_ticker j (on_eleven_am e ts s)) ≡ true
  on_eleven_am-flat ts j s listed = flat_of e _ (
      close-flat e j s.times.open_ny ts s _ (Closing.on_eleven_am-missing e ts j s)
        λ t h. rw (Closing.on_eleven_am_closes e ts j s t h, listed))

  -- What the loop makes of the events after the forced exit.
  live_loop-flat :
      (late more : List (Live F)) (j : String) (s : Store F)
      → All RunningLate late
      → flat e (get_ticker j s) ≡ true
      → let p = live_loop e w (late ++ (noticed ∷ more)) s in
        (p.1 ≡ session_over) × ((p.0.phase ≡ closed) × (flat e (get_ticker j p.0) ≡ true))
  unfolding live_loop set_phase get_ticker
  live_loop-flat [] more j s h shut = (refl, (refl, shut))
  live_loop-flat (trade m ∷ late) more j s (h, hs) shut =
      live_loop-flat late more j _ hs (on_trade-flat m j s h shut)
  live_loop-flat (edited fn ∷ late) more j s (_, hs) shut =
      live_loop-flat late more j _ hs (
        update_filters_kept (λ s'. flat e (get_ticker j s') ≡ true) fn s (λ f made valid. shut)
          shut)
  live_loop-flat (forced_exit ∷ late) more j s h shut = absurd h.0
  live_loop-flat (noticed ∷ late) more j s h shut = absurd h.0
  live_loop-flat (socket_error m ∷ late) more j s h shut = absurd h.0
  live_loop-flat (socket_closed ∷ late) more j s h shut = absurd h.0

  -- Where the loop over the live trades gets trades, the forced exit, then trades that come at the
  -- cutoff or later, and then the notice, with changes of the filters in between, it ends with the session over and the phase closed, and no
  -- ticker of the watchlist has an open position.
  pub live_session_ends_flat :
      (early late more : List (Live F)) (j : String) (s : Store F)
      → contains j s.watchlist ≡ true
      → All Running early
      → All RunningLate late
      → let p = live_loop e w (early ++ (forced_exit ∷ (late ++ (noticed ∷ more)))) s in
        (p.1 ≡ session_over) × ((p.0.phase ≡ closed) × (flat e (get_ticker j p.0) ≡ true))
  unfolding live_loop
  live_session_ends_flat [] late more j s listed running h =
      live_loop-flat late more j _ h (on_eleven_am-flat w.exit_ny j s listed)
  live_session_ends_flat (trade m ∷ early) late more j s listed running h =
      let kept =
        on_trade_kept (Stable-Holds (settings-Stable e s)) w m.symbol m.timestamp m.price m.size s
          tt refl in
      live_session_ends_flat early late more j _ (ap (λ q. contains j q.1.1.0) kept ∙ listed)
        running.1 h
  live_session_ends_flat (edited fn ∷ early) late more j s listed running h =
      live_session_ends_flat early late more j _
        (update_filters_kept (λ s'. contains j s'.watchlist ≡ true) fn s (λ f made valid. listed)
          listed)
        running.1 h
  live_session_ends_flat (forced_exit ∷ early) late more j s listed running h = absurd running.0
  live_session_ends_flat (noticed ∷ early) late more j s listed running h = absurd running.0
  live_session_ends_flat (socket_error m ∷ early) late more j s listed running h = absurd running.0
  live_session_ends_flat (socket_closed ∷ early) late more j s listed running h = absurd running.0

  -- A ticker without a position is not touched by the forced exit.
  on_eleven_am-untouched :
      (ts : Time) (j : String) (s : Store F) (t : TickerState F)
      → get_ticker j s ≡ some t
      → t.has_position ≡ false
      → get_ticker j (on_eleven_am e ts s) ≡ some t
  unfolding Closing.closed
  on_eleven_am-untouched ts j s t here no_position =
      Closing.on_eleven_am_closes e ts j s t here ∙ ground arith

  -- Where a trade that passes the guards and the entry checks, on a ticker without a position that was
  -- not closed and for which a cross was seen before or is seen now, is read after the forced exit and
  -- before the notice, the loop ends with the phase closed and the position of that trade open.
  pub trade_after_exit_stays_open :
      (m : EquityTrade F) (more : List (Live F)) (s : Store F) (t : TickerState F)
      → str_eq m.symbol "" ≡ false
      → get_ticker m.symbol s ≡ some t
      → drops w (unix_milli m.timestamp) m.price (of_ℕ m.size) ≡ false
      → t.has_position ≡ false
      → t.exited ≡ false
      → let t1 = record_trade w.open_ny (unix_milli m.timestamp) m.price (of_ℕ m.size) t in
        entry_refused s.filters w (unix_milli m.timestamp) m.price t1 ≡ false
        → (t1.saw_cross_in_window || detects w (unix_milli m.timestamp) m.price t1) ≡ true
        → let p = live_loop e w (forced_exit ∷ (trade m ∷ (noticed ∷ more))) s in
          (p.0.phase ≡ closed) × (flat e (get_ticker m.symbol p.0) ≡ false)
  unfolding live_loop set_phase get_ticker on_trade
  trade_after_exit_stays_open m more s t named here kept no_position open_ admitted cross =
      let tr = unix_milli m.timestamp in
      let s1 = on_eleven_am e w.exit_ny s in
      let same_filters =
        ap (λ q. q.1.0) ((Stable-Holds (settings-Stable e s)).eleven w.exit_ny s refl) in
      let here1 = on_eleven_am-untouched w.exit_ny m.symbol s t here no_position in
      let (t', there, long, _) =
        process_trade_opens e w m.symbol m.timestamp m.price (of_ℕ m.size) s1 t named here1 kept
          no_position open_ (rw same_filters admitted) cross in
      let bought =
        process_trade_buys_soundly e w m.symbol m.timestamp m.price (of_ℕ m.size) true s1 t t' named
          here1 there no_position long in
      (refl, ap (flat e) there ∙ flat_held t' long bought.still_open)
