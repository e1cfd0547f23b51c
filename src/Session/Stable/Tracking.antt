-- ===== src/Session/Stable/Tracking.antt =====
-- The tracking, for what every change of a ticker keeps.
use market_hacker.Base.{
  option_kept, result_kept, ℕ, String, Option, List, [], ◌∷◌, Dict, lookup, Result,
}
use market_hacker.Float.{Float64}
use market_hacker.Clock.{Time}
use market_hacker.Store.{TickerState, Times, Store, tracking_ticks}
use market_hacker.Rest.{Fetched}
use market_hacker.Engine.{
  Engine, RestTrade, history_result, apply_history, seed_states, seed_vwap_from_trades, put_back,
  build_tracked_states,
}
use market_hacker.Session.Feeds.{trades_of, Feeds}
use market_hacker.Session.Realtime.{track}
use market_hacker.Session.Holds.{Holds}
use market_hacker.Session.Stable.{Stable, process_trade_kept, on_eleven_am_kept, close_all_kept}

module _ {F : Type 0} ⦃d : Float64 F⦄ {e : Engine F} {P : Store F → Type 0} (st : Stable e P) where
  apply_history_kept :
      (fetch : String → ℕ → Result (Option F)) (now : Time) (arrivals : List String)
      (p : Store F × Dict (TickerState F))
      → P p.0
      → P (apply_history e fetch now arrivals p).0
  unfolding apply_history
  apply_history_kept fetch now [] p h = h
  apply_history_kept fetch now (name ∷ arrivals) (s, tracked) h =
      apply_history_kept fetch now arrivals _ (
        result_kept (λ (q : Store F × Dict (TickerState F)). P q.0) (history_result e fetch name s)
          _ _ (λ a. h) (λ m. st.quiet now "SYSTEM" name _ "warn" s h))

  seed_states_kept :
      (trades : String → Fetched (RestTrade F)) (now : Time) (w : Times) (syms : List String)
      (p : Store F × Dict (TickerState F))
      → P p.0
      → P (seed_states e trades now w syms p).0
  unfolding seed_states
  seed_states_kept trades now w [] p h = h
  seed_states_kept trades now w (name ∷ syms) (s, tracked) h =
      seed_states_kept trades now w syms _ (
        option_kept (λ (q : Store F × Dict (TickerState F)). P q.0) (lookup name tracked) _ _ h
          (λ t.
            option_kept P (seed_vwap_from_trades w.open_ny (trades name) t).1 _ _ h
              (λ m. st.quiet now "SYSTEM" name _ "warn" s h)))

  put_back_kept : (tracked : Dict (TickerState F)) (s : Store F) → P s → P (put_back tracked s)
  unfolding put_back
  put_back_kept [] s h = h
  put_back_kept ((name, t) ∷ tracked) s h = put_back_kept tracked _ (st.ticker name _ s h)

  pub track_kept :
      (feeds : Feeds F) (now : Time) (w : Times) (candidates : List String) (s : Store F)
      → P s
      → P (track e feeds now w candidates s).0
  unfolding track build_tracked_states
  track_kept feeds now w candidates s h = st.phase tracking_ticks _ (
      st.tracked _ _ (
        put_back_kept _ _ (
          seed_states_kept (λ sym. trades_of feeds sym w.open_ny w.sel_ny) now w candidates _
            (apply_history_kept (feeds.volumes w.open_ny) now (feeds.shuffle 2 candidates) _ h))))

  pub Stable-Holds : Holds e (λ w. Unit) P
  Stable-Holds = record {
    quiet = st.quiet;
    phase = st.phase;
    times = st.times;
    report = st.report;
    neutral = λ name fn s same h. st.ticker name fn s h;
    tracked = track_kept;
    ends = λ w end_ny ok. tt;
    print =
        λ w name ts price size allow s ok h. process_trade_kept st w name ts price size allow s h;
    eleven = on_eleven_am_kept st;
    close_all = close_all_kept st;
  }
