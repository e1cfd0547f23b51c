-- ===== src/Session/Holds/Opening.antt =====
-- The opening bars and the selection.
use market_hacker.Base.{
  arith, if_kept, ◌≡◌, refl, inl, inr, String, Bool, not, ◌||◌, Option, none, some, List, [], ◌∷◌,
  str_eq, Option-cases, Result, ok, err, text_lt,
}
use market_hacker.Float.{Float64}
use market_hacker.Clock.{Time, unix_milli, before, clock_hm}
use market_hacker.Store.{RuntimeFilters, TickerState, Times, Store, has_symbol, get_ticker}
use market_hacker.Rest.{Fetched, Agg, OpenBars, open5m_metrics}
use market_hacker.Engine.{
  Engine, EquityAgg, on_minute_agg, add_bar, select_one, select_loop, select_ticker,
  select_candidates_at0935, range_pct, open_known, open_filters, collect_one,
  collect_open5m_via_rest, metrics_known, fill_open, correct_open, correct_one, correct_loop,
  correct_candidates_open5m_via_rest,
}
use market_hacker.Engine.Moves.{SamePosition}
use market_hacker.Session.Feeds.{collect_aggs}
use market_hacker.Session.Holds.{Holds}

-- The opening metrics are no part of a position.
module _ {F : Type 0} ⦃d : Float64 F⦄ where
  add_bar-SamePosition :
      (hhmm : String) (a : Agg F) (t : TickerState F) → SamePosition t (add_bar hhmm a t)
  unfolding add_bar
  add_bar-SamePosition hhmm a t = ground arith

  select_ticker-SamePosition : (rng : F) (t : TickerState F) → SamePosition t (select_ticker rng t)
  unfolding select_ticker
  select_ticker-SamePosition rng t = ground arith

  fill_open-SamePosition : (r : OpenBars F) (t : TickerState F) → SamePosition t (fill_open r t)
  unfolding fill_open
  fill_open-SamePosition r t = ground arith

  correct_open-SamePosition :
      (rng : F) (r : OpenBars F) (t : TickerState F) → SamePosition t (correct_open rng r t)
  unfolding correct_open
  correct_open-SamePosition rng r t = ground arith

module _ {F : Type 0} ⦃d : Float64 F⦄ {e : Engine F} {W : Times → Type 0} {P : Store F → Type 0}
    (st : Holds e W P) where
  on_minute_agg_kept : (w : Times) (a : EquityAgg F) (s : Store F) → P s → P (on_minute_agg e w a s)
  unfolding on_minute_agg
  on_minute_agg_kept w a s h =
      let start = unix_milli a.start_timestamp in
      let hhmm = clock_hm e.loc start in
      if_kept P (str_eq a.symbol "" || not (has_symbol a.symbol s)) _ _ h (
        if_kept P (before start w.open_ny || not (before start w.sel_ny)) _ _ h (
          if_kept P (text_lt hhmm "09:30" || text_lt "09:34" hhmm) _ _ h
            (st.neutral a.symbol (add_bar hhmm a.bar) s (add_bar-SamePosition hhmm a.bar) h)))

  pub collect_aggs_kept :
      (w : Times) (as' : List (EquityAgg F)) (s : Store F) → P s → P (collect_aggs e w as' s)
  unfolding collect_aggs
  collect_aggs_kept w [] s h = h
  collect_aggs_kept w (a ∷ as') s h = collect_aggs_kept w as' _ (on_minute_agg_kept w a s h)

  select_one_kept :
      (f : RuntimeFilters F) (sym : String) (s : Store F) → P s → P (select_one f sym s).1
  unfolding select_one
  select_one_kept f name s h = elim (Option-cases (get_ticker name s)) [
    | inl missing ↦ rw (missing, select_one) h
    | inr (t, found) ↦
        rw (found, select_one)
          (if_kept (λ (p : Bool × Store F). P p.1) (not (open_known t)) _ _ h
            (if_kept (λ (p : Bool × Store F). P p.1)
              (open_filters f (range_pct t.open0930 t.or_high t.or_low) t.open5m_vol) _ _
              (st.neutral name _ s (select_ticker-SamePosition _) h) h))
  ]

  select_loop_kept :
      (f : RuntimeFilters F) (wl : List String) (s : Store F) → P s → P (select_loop f wl s).1
  unfolding select_loop
  select_loop_kept f [] s h = h
  select_loop_kept f (name ∷ wl) s h = select_loop_kept f wl _ (select_one_kept f name s h)

  pub select_kept : (now : Time) (s : Store F) → P s → P (select_candidates_at0935 e now s).1
  unfolding select_candidates_at0935
  select_kept now s h = select_loop_kept _ _ _ (st.quiet now "SYSTEM" "" _ "info" s h)

  collect_one_kept :
      (bars : String → Fetched (Agg F)) (sym : String) (s : Store F)
      → P s
      → P (collect_one bars sym s)
  unfolding collect_one
  collect_one_kept bars name s h = go (open5m_metrics (bars name)) refl
    where
      go :
          (r : Result (Option (OpenBars F)))
          → open5m_metrics (bars name) ≡ r
          → P (collect_one bars name s)
      go (err m) q = rw (q, collect_one) h
      go (ok none) q = rw (q, collect_one) h
      go (ok (some r)) q =
          rw (q, collect_one)
            (if_kept P (metrics_known r) _ _
              (st.neutral name (fill_open r) s (fill_open-SamePosition r) h) h)

  pub collect_kept :
      (bars : String → Fetched (Agg F)) (arrivals : List String) (s : Store F)
      → P s
      → P (collect_open5m_via_rest bars arrivals s)
  unfolding collect_open5m_via_rest
  collect_kept bars [] s h = h
  collect_kept bars (name ∷ arrivals) s h =
      collect_kept bars arrivals _ (collect_one_kept bars name s h)

  correct_one_kept :
      (f : RuntimeFilters F) (bars : String → Fetched (Agg F)) (sym : String) (s : Store F)
      → P s
      → P (correct_one f bars sym s).1
  unfolding correct_one
  correct_one_kept f bars name s h = go (open5m_metrics (bars name)) refl
    where
      go :
          (r : Result (Option (OpenBars F)))
          → open5m_metrics (bars name) ≡ r
          → P (correct_one f bars name s).1
      go (err m) q = rw (q, correct_one) h
      go (ok none) q = rw (q, correct_one) h
      go (ok (some r)) q =
          rw (q, correct_one)
            (if_kept (λ (p : Bool × Store F). P p.1) (metrics_known r) _ _
              (st.neutral name (correct_open _ r) s (correct_open-SamePosition _ r) h) h)

  correct_loop_kept :
      (f : RuntimeFilters F) (bars : String → Fetched (Agg F)) (arrivals : List String)
      (s : Store F)
      → P s
      → P (correct_loop f bars arrivals s).1
  unfolding correct_loop
  correct_loop_kept f bars [] s h = h
  correct_loop_kept f bars (name ∷ arrivals) s h =
      correct_loop_kept f bars arrivals _ (correct_one_kept f bars name s h)

  pub correct_kept :
      (bars : String → Fetched (Agg F)) (arrivals : List String) (s : Store F)
      → P s
      → P (correct_candidates_open5m_via_rest bars arrivals s).1
  unfolding correct_candidates_open5m_via_rest
  correct_kept bars arrivals s h = correct_loop_kept s.filters bars arrivals s h
