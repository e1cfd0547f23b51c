-- ===== src/Session/DayVwap.antt =====
-- The VWAP of a ticker over the replay of a whole day: the seed, the replay and the close in one.
mod Sums
mod OneTicker
pub mod AllTrades
use Prim.Native.String.{◌++◌ as glue}
use market_hacker.Base.{
  ◌≡◌, refl, sym, subst, ◌∙◌, ap, inl, inr, ℕ, String, Bool, true, false, not, ◌&&◌, ◌||◌, Option,
  none, some, List, [], ◌∷◌, ◌++◌, arith, All, if_kept, option_kept, if◌then◌else◌, str_eq,
  str_eq_iff, Dict, lookup, contains, text_lt, sort_by, Bool-cases, Option-cases, Result, ok, err,
}
use mathlib.Core.Option
use market_hacker.Float.{Float64, IsIeee}
use market_hacker.Clock.{Time, before, clock_hms}
use market_hacker.Store.{
  TickerState, Times, Store, get_ticker, set_phase, set_tracked_tickers, set_historic_report,
  add_event,
}
use market_hacker.Rest.{Fetched}
use market_hacker.Engine.{
  Engine, RestTrade, Open5mMetric, emit, replay_trade, replay, trade_time_millis, is_zero_ℤ,
  build_tracked_states, seed_trades, seed_vwap_from_trades, leave, history_result,
}
use market_hacker.Engine.Refine.{process_trade_frame}
use market_hacker.Engine.Closing
use market_hacker.Engine.Vwap.{Averages, Averages-trans, seeded, seed_trades-Averages}
use market_hacker.Engine.Vwap.Replays.{SameSums, replayed, replay-Averages}
use market_hacker.Engine.Tracked.{told, tracked_ticker, with_history, build_tracked_states_exact}
use market_hacker.Engine.Tracked.Maps.{once, tracking}
use market_hacker.Engine.Tracked.Keys.{
  keys, once-sort_by, contains-sort_by, once-build_tracked_states, contains-build_tracked_states,
}
use market_hacker.Session.Feeds.{trades_of, Feeds}
use market_hacker.Session.Realtime.{track, system, sorted_keys}
use market_hacker.Session.Historic.{report_replay, end_of_replay, replay_fetched, replay_day}
use market_hacker.Session.Holds.Scan.{scan_session_kept}
use market_hacker.Session.DayVwap.Sums.{
  Averages-after, Averages-before, told-SameSums, seed_vwap-SameSums, closed-SameSums,
}
use market_hacker.Session.DayVwap.OneTicker.{replay_fetched-Averages}

module _ {F : Type 0} ⦃d : Float64 F⦄ where
  open d use {nought, le}

  module _ (e : Engine F) (j : String) where
    closed_if :
        (open_ny ts : Time) (listed : Bool) (t : TickerState F)
        → SameSums t (if listed then Closing.closed e open_ny ts t else t)
    closed_if open_ny ts listed t =
        if_kept (SameSums t) listed _ _ (closed-SameSums e open_ny ts t)
          (record { volume = refl; value = refl; average = refl })

    -- What comes after the last trade.
    end_of_replay-SameSums :
        (w : Times) (end_ny : Time) (s : Store F) (t : TickerState F)
        → get_ticker j s ≡ some t
        → (t' : TickerState F) × (get_ticker j (end_of_replay e w end_ny s) ≡ some t')
          × SameSums t t'
    unfolding end_of_replay emit add_event get_ticker
    end_of_replay-SameSums w end_ny s t here =
        let Kept =
          λ (s' : Store F). (t' : TickerState F) × (get_ticker j s' ≡ some t') × SameSums t t' in
        let s1 =
          system e end_ny
            (glue "Historic run ended early at "
              (glue (clock_hms e.loc end_ny) "; closing any open positions at last price."))
            "warn" s in
        if_kept Kept (not (before end_ny w.exit_ny)) _ _
          (
            _,
            Closing.on_eleven_am_closes e w.exit_ny j s t here,
            closed_if s.times.open_ny w.exit_ny (contains j s.watchlist) t,
          )
          (
            _,
            Closing.close_all_closes e end_ny j s1 t here,
            closed_if s1.times.open_ny end_ny (contains j s1.watchlist) t,
          )

    pub report_replay-keeps :
        (feeds : Feeds F) (k : ℕ) (day : Time) (w : Times) (end_ny : Time)
        (metrics : Dict (Open5mMetric F)) (s : Store F)
        → get_ticker j (report_replay e feeds k day w end_ny metrics s) ≡ get_ticker j s
    unfolding report_replay set_historic_report get_ticker emit add_event
    report_replay-keeps feeds k day w end_ny metrics s =
        scan_session_kept e {P = λ s'. get_ticker j s' ≡ get_ticker j s}
          (λ ts typ name msg level s' h. h) feeds k day w end_ny metrics s refl

    module _ (ieee : IsIeee F) where
      track-Averages :
          (feeds : Feeds F) (now : Time) (w : Times) (candidates : List String) (s : Store F)
          (t : TickerState F)
          → once candidates ≡ true
          → ((name : String)
              → contains name (feeds.shuffle 2 candidates) ≡ contains name candidates)
          → contains j candidates ≡ true
          → get_ticker j s ≡ some t
          → All (λ tr. le tr.size tr.size ≡ true) (trades_of feeds j w.open_ny w.sel_ny).items
          → le nought t.cum_v ≡ true
          → (t' : TickerState F) × (get_ticker j (track e feeds now w candidates s).0 ≡ some t')
            × Averages (seeded (trades_of feeds j w.open_ny w.sel_ny).items) t t'
      unfolding track set_phase set_tracked_tickers get_ticker
      track-Averages feeds now w candidates s t distinct all_answer listed here numbers nonneg =
          let trades = λ (name : String). trades_of feeds name w.open_ny w.sel_ny in
          let start = told e (feeds.volumes w.open_ny) trades now w j s (tracking t) in
          let before = told-SameSums e (history_result e (feeds.volumes w.open_ny) j s) t in
          let exact =
            build_tracked_states_exact e (feeds.volumes w.open_ny) trades now w j candidates
              (feeds.shuffle 2 candidates) s distinct all_answer in
          (
            tracked_ticker e (feeds.volumes w.open_ny) trades now w j s t,
            exact ∙ rw (listed, here) refl,
            Averages-before before (
                Averages-after
                  (seed_trades-Averages ieee w.open_ny (trades j).items start numbers
                    (rw before.volume nonneg))
                  (seed_vwap-SameSums w.open_ny (trades j) start)),
          )

      -- Each candidate that the store holds is tracked once.
      once-track :
          (feeds : Feeds F) (now : Time) (w : Times) (candidates : List String) (s : Store F)
          → once candidates ≡ true
          → once (sorted_keys (track e feeds now w candidates s).1) ≡ true
      unfolding track
      once-track feeds now w candidates s distinct =
          once-sort_by text_lt (keys (track e feeds now w candidates s).1)
          ∙ once-build_tracked_states e (feeds.volumes w.open_ny)
              (λ name. trades_of feeds name w.open_ny w.sel_ny) now w candidates
              (feeds.shuffle 2 candidates) s distinct

      contains-track :
          (feeds : Feeds F) (now : Time) (w : Times) (candidates : List String) (s : Store F)
          (t : TickerState F)
          → contains j candidates ≡ true
          → get_ticker j s ≡ some t
          → contains j (sorted_keys (track e feeds now w candidates s).1) ≡ true
      unfolding track
      contains-track feeds now w candidates s t listed here =
          contains-sort_by text_lt j _
          ∙ (contains-build_tracked_states e (feeds.volumes w.open_ny)
                (λ name. trades_of feeds name w.open_ny w.sel_ny) now w candidates
                (feeds.shuffle 2 candidates) s j t here
              ∙ listed)

      -- Over the replay of a day, a candidate that the store holds, with no NaN among its sizes and a
      -- volume that is not negative, where no candidate stands twice and the workers answer for all of
      -- them: its VWAP at the end is the quotient of the value and the volume of all its trades from
      -- the open to the selection that the seed counts and of those from the selection to the end that
      -- the replay counts, each of them once, and of what was there before; or the old one where none
      -- counts. What was bought and sold, and the other tickers, make no difference.
      pub replay_day-Averages :
          (feeds : Feeds F) (day : Time) (w : Times) (end_ny : Time)
          (metrics : Dict (Open5mMetric F)) (candidates : List String) (s : Store F)
          (t : TickerState F)
          → str_eq j "" ≡ false
          → once candidates ≡ true
          → ((name : String)
              → contains name (feeds.shuffle 2 candidates) ≡ contains name candidates)
          → contains j candidates ≡ true
          → get_ticker j s ≡ some t
          → All (λ tr. le tr.size tr.size ≡ true) (trades_of feeds j w.open_ny w.sel_ny).items
          → All (λ tr. le tr.size tr.size ≡ true) (trades_of feeds j w.sel_ny end_ny).items
          → le nought t.cum_v ≡ true
          → let before = (trades_of feeds j w.open_ny w.sel_ny).items in
            let after = (trades_of feeds j w.sel_ny end_ny).items in
            (t' : TickerState F) × (get_ticker j
                (replay_day e feeds day w end_ny metrics candidates s)
              ≡ some t')
            × Averages (seeded before ++ replayed (record w { exit_ny = end_ny }) after) t t'
      unfolding replay_day emit add_event set_phase set_tracked_tickers get_ticker
      replay_day-Averages feeds day w end_ny metrics candidates s t named distinct all_answer listed
            here numbers numbers' nonneg =
          let (t1, h1, a1) =
            track-Averages feeds (feeds.now 4) w candidates _ t distinct all_answer listed here
              numbers nonneg in
          let (t2, h2, a2) =
            replay_fetched-Averages e j ieee (feeds.now 6) (record w { exit_ny = end_ny })
              (λ name. trades_of feeds name w.sel_ny end_ny) _ _ t1 named
              (once-track feeds (feeds.now 4) w candidates _ distinct)
              (contains-track feeds (feeds.now 4) w candidates _ t listed here) h1 numbers'
              a1.not_negative in
          let (t3, h3, same) = end_of_replay-SameSums w end_ny _ t2 h2 in
          (
            t3,
            report_replay-keeps feeds 7 day w end_ny metrics _ ∙ h3,
            Averages-after (Averages-trans a1 a2) same,
          )
