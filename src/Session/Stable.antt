-- ===== src/Session/Stable.antt =====
-- What every change of a ticker, every event and every setting keeps, each step of a session keeps.
pub mod Tracking
use market_hacker.Base.{
  if_kept, option_kept, result_kept, ◌≡◌, ℕ, ◌+◌, String, Bool, true, false, not, ◌&&◌, ◌||◌,
  Option, none, some, List, [], ◌∷◌, arith, if◌then◌else◌, ℤ, str_eq, Dict, lookup, Bool-cases,
  Option-cases, inl, inr, Result, ok, err,
}
use market_hacker.Float.{Float64, not_pos}
use market_hacker.Clock.{Time, unix_milli, before}
use market_hacker.Store.{
  Phase, HistoricReport, RuntimeFilters, TickerState, Times, Store, get_ticker, upsert_ticker,
  set_phase, set_times, set_tracked_tickers, set_historic_report,
}
use market_hacker.Rest.{Fetched, Agg, open5m_metrics}
use market_hacker.Engine.{
  Engine, EquityAgg, RestTrade, emit, say, open_position, close_position, manage, decide,
  process_trade, on_trade, close_if_open, close_each, on_eleven_am, close_all_open_positions_at,
  replay_trade, replay, on_minute_agg, select_one, select_loop, select_candidates_at0935,
  collect_one, collect_open5m_via_rest, correct_one, correct_loop,
  correct_candidates_open5m_via_rest, apply_history, seed_states, put_back, build_tracked_states,
  trade_time_millis, is_zero_ℤ, drops, detects, mark_cross, record_trade, entry_refused,
  hits_profit, hits_stop,
}

module _ {F : Type 0} ⦃d : Float64 F⦄ where
  -- The changes: a ticker, an event with what was said, an event without audio, and four settings.
  pub record Stable (e : Engine F) (P : Store F → Type 0) : Type 0 where
    pub ticker :
        (sym : String) (fn : TickerState F → TickerState F) (s : Store F)
        → P s
        → P (upsert_ticker sym fn s)
    pub alert :
        (ts : Time) (typ sym msg level text : String) (s : Store F)
        → P s
        → P (emit e ts typ sym msg (say e text s).1 level (say e text s).0)
    pub quiet :
        (ts : Time) (typ sym msg level : String) (s : Store F)
        → P s
        → P (emit e ts typ sym msg "" level s)
    pub phase : (p : Phase) (s : Store F) → P s → P (set_phase p s)
    pub times : (w : Times) (s : Store F) → P s → P (set_times w s)
    pub tracked : (m : Dict (TickerState F)) (s : Store F) → P s → P (set_tracked_tickers m s)
    pub report : (r : Option (HistoricReport F)) (s : Store F) → P s → P (set_historic_report r s)

  module _ {e : Engine F} {P : Store F → Type 0} (st : Stable e P) where
    open_position_kept :
        (ts : Time) (sym : String) (p : F) (s : Store F) → P s → P (open_position e ts sym p s)
    unfolding open_position
    open_position_kept ts sym p s h = st.alert ts "BUY" sym _ "signal" _ _ (st.ticker sym _ s h)

    close_position_kept :
        (ts : Time) (sym reason text : String) (p : F) (s : Store F)
        → P s
        → P (close_position e ts sym reason text p s)
    unfolding close_position
    close_position_kept ts sym reason text p s h =
        st.alert ts reason sym text "signal" text _ (st.ticker sym _ s h)

    manage_kept :
        (sym : String) (tr : Time) (p : F) (allow : Bool) (t : TickerState F) (s : Store F)
        → P s
        → P (manage e sym tr p allow t s)
    unfolding manage
    manage_kept sym tr p allow t s h =
        if_kept P (allow && (t.has_position && not t.exited)) _ _
          (if_kept P (hits_profit p t) _ _ (close_position_kept tr sym "PROFIT" _ p s h)
            (if_kept P (hits_stop p t) _ _ (close_position_kept tr sym "STOP" _ p s h) h))
          h

    decide_kept :
        (w : Times) (sym : String) (tr : Time) (p : F) (allow : Bool) (t : TickerState F)
        (s : Store F)
        → P s
        → P (decide e w sym tr p allow t s)
    unfolding decide
    decide_kept w sym tr p allow t s h =
        let s1 = if detects w tr p t then upsert_ticker sym (mark_cross tr p) s else s in
        let h1 : P s1 = if_kept P (detects w tr p t) _ _ (st.ticker sym _ s h) h in
        let m = manage_kept sym tr p allow t s1 h1 in
        if_kept P (allow && (not t.has_position && not t.exited)) _ _
          (if_kept P (entry_refused s.filters w tr p t) _ _ h1 (
            if_kept P (t.saw_cross_in_window || detects w tr p t) _ _
              (open_position_kept tr sym p s1 h1) m))
          m

    pub process_trade_kept :
        (w : Times) (sym : String) (ts_millis : ℤ) (price size : F) (allow : Bool) (s : Store F)
        → P s
        → P (process_trade e w sym ts_millis price size allow s)
    unfolding process_trade
    process_trade_kept w sym ts_millis price size allow s h =
        let tr = unix_milli ts_millis in
        let s1 = upsert_ticker sym (record_trade w.open_ny tr price size) s in
        let h1 = st.ticker sym (record_trade w.open_ny tr price size) s h in
        if_kept P (str_eq sym "") _ _ h (
          option_kept P (get_ticker sym s) _ _ h λ _. if_kept P (drops w tr price size) _ _ h (
            option_kept P (get_ticker sym s1) _ _ h1 λ t. decide_kept w sym tr price allow t s1 h1))

    close_if_open_kept :
        (ts : Time) (text sym : String) (s : Store F) → P s → P (close_if_open e ts text sym s)
    unfolding close_if_open
    close_if_open_kept ts text sym s h = option_kept P (get_ticker sym s) _ _ h λ t.
        if_kept P (t.has_position && not t.exited) _ _
          (close_position_kept ts sym "TIME_EXIT" _ _ s h) h

    close_each_kept :
        (ts : Time) (text : String) (syms : List String) (s : Store F)
        → P s
        → P (close_each e ts text syms s)
    unfolding close_each
    close_each_kept ts text [] s h = h
    close_each_kept ts text (sym ∷ syms) s h =
        close_each_kept ts text syms _ (close_if_open_kept ts text sym s h)

    pub on_eleven_am_kept : (ts : Time) (s : Store F) → P s → P (on_eleven_am e ts s)
    unfolding on_eleven_am
    on_eleven_am_kept ts s h = close_each_kept ts _ _ _ (st.alert ts "11AM" "" _ "info" _ s h)

    pub close_all_kept : (ts : Time) (s : Store F) → P s → P (close_all_open_positions_at e ts s)
    unfolding close_all_open_positions_at
    close_all_kept ts s h = close_each_kept ts _ _ s h
