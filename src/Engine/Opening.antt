-- ===== src/Engine/Opening.antt =====
-- The opening range: `onMinuteAgg` and `selectCandidatesAt0935` of engine.go, and
-- `collectOpen5mViaREST`, `correctCandidatesOpen5mViaREST` and `snapshotOpen5mMetricsForWatchlist` of
-- historic.go. The worker pools fetch one result for each ticker; `arrivals` is the order in which
-- the results come.
use market_hacker.Base.{
  String, Bool, true, false, not, ◌&&◌, ◌||◌, Option, none, some, List, [], ◌∷◌, ℤ, str_eq,
  if◌then◌else◌, ok, err, Dict, sort_by, text_lt,
}
use market_hacker.Float.{Float64, not_pos}
use market_hacker.Clock.{Time, unix_milli, before, clock_hm}
use market_hacker.Store.{
  RuntimeFilters, TickerState, Times, Store, get_ticker, upsert_ticker, has_symbol,
}
use market_hacker.Rest.{Fetched, Agg, OpenBars, open5m_metrics}
use market_hacker.Engine.Types.{Engine}
use market_hacker.Engine.Alerts.{emit}

-- massive.EquityAgg, as far as it is read
pub record EquityAgg (F : Type 0) : Type 0 where
  pub symbol : String
  pub start_timestamp : ℤ
  pub bar : Agg F

pub record Open5mMetric (F : Type 0) : Type 0 where
  pub open0930 : F
  pub or_high : F
  pub or_low : F
  pub open5m_vol : F
  pub range_pct : F

module _ {F : Type 0} ⦃d : Float64 F⦄ where
  open d use {nought, add, sub, div, lt, le, eq}

  -- the closure of `onMinuteAgg`
  unfoldable pub add_bar : String → Agg F → TickerState F → TickerState F
  add_bar hhmm a t =
      let t' =
        if eq t.open0930 nought
        then record t {
          open0930 = a.open_price;
          or_high = a.high;
          or_low = a.low;
          open0930_estimated = not (str_eq hhmm "09:30");
        }
        else record t {
          or_high = if lt t.or_high a.high then a.high else t.or_high;
          or_low = if eq t.or_low nought || lt a.low t.or_low then a.low else t.or_low;
        } in
      record t' { open5m_vol = add t.open5m_vol a.volume }

  unfoldable pub on_minute_agg : Engine F → Times → EquityAgg F → Store F → Store F
  on_minute_agg e w agg s =
      let start = unix_milli agg.start_timestamp in
      let hhmm = clock_hm e.loc start in
      if str_eq agg.symbol "" || not (has_symbol agg.symbol s)
      then s
      else if before start w.open_ny || not (before start w.sel_ny)
      then s
      else if text_lt hhmm "09:30" || text_lt "09:34" hhmm
      then s
      else upsert_ticker agg.symbol (add_bar hhmm agg.bar) s

  abbrev pub range_pct : F → F → F → F
  range_pct o hi lo = div (sub hi lo) o

  abbrev pub open_known : TickerState F → Bool
  open_known t = not (not_pos t.open0930 || (not_pos t.or_high || not_pos t.or_low))

  -- the two ranges that the opening metrics must lie in, as the selection tests them
  unfoldable pub open_filters : RuntimeFilters F → F → F → Bool
  open_filters f rng vol =
      le f.open5m_range_pct_min rng
      && (le rng f.open5m_range_pct_max && (le f.open5m_vol_min vol && le vol f.open5m_vol_max))

  unfoldable pub select_ticker : F → TickerState F → TickerState F
  select_ticker rng t = record t { open5m_range_pct = rng; status = "selected" }

  -- The body of the loop of `selectCandidatesAt0935`: is the symbol taken, and the changed store.
  unfoldable pub select_one : RuntimeFilters F → String → Store F → Bool × Store F
  select_one f sym s = elim (get_ticker sym s) [
    | none ↦ (false, s)
    | some t ↦
        let rng = range_pct t.open0930 t.or_high t.or_low in
        if not (open_known t)
        then (false, s)
        else if open_filters f rng t.open5m_vol
        then (true, upsert_ticker sym (select_ticker rng) s)
        else (false, s)
  ]

  unfoldable pub select_loop : RuntimeFilters F → List String → Store F → List String × Store F
  unfolding select_one
  select_loop f [] s = ([], s)
  select_loop f (sym ∷ wl) s =
      let (taken, s1) = select_one f sym s in
      let (rest, s2) = select_loop f wl s1 in (if taken then sym ∷ rest else rest, s2)

  -- `now` is time.Now().
  unfoldable pub select_candidates_at0935 : Engine F → Time → Store F → List String × Store F
  select_candidates_at0935 e now s =
      let f = s.filters in
      let s1 =
        emit e now "SYSTEM" "" "Computing open_5m_range_pct + open_5m_vol and filtering..." ""
          "info" s in
      let (taken, s2) = select_loop f s1.watchlist s1 in (sort_by text_lt taken, s2)

  abbrev pub metrics_known : OpenBars F → Bool
  metrics_known r = not (not_pos r.open0930 || (not_pos r.or_high || not_pos r.or_low))

  unfoldable pub fill_open : OpenBars F → TickerState F → TickerState F
  fill_open r t = record t {
    open0930 = r.open0930;
    or_high = r.or_high;
    or_low = r.or_low;
    open5m_vol = r.vol;
  }

  -- The body of the loop over the results of `collectOpen5mViaREST`. The bars of a symbol are
  -- `bars sym`.
  unfoldable pub collect_one : (String → Fetched (Agg F)) → String → Store F → Store F
  collect_one bars sym s = elim (open5m_metrics (bars sym)) [
    | err _ ↦ s
    | ok none ↦ s
    | ok (some r) ↦ if metrics_known r then upsert_ticker sym (fill_open r) s else s
  ]

  unfoldable pub collect_open5m_via_rest :
      (String → Fetched (Agg F)) → List String → Store F → Store F
  collect_open5m_via_rest bars [] s = s
  collect_open5m_via_rest bars (sym ∷ arrivals) s =
      collect_open5m_via_rest bars arrivals (collect_one bars sym s)

  unfoldable pub correct_open : F → OpenBars F → TickerState F → TickerState F
  correct_open rng r t = record t {
    open0930 = r.open0930;
    open0930_estimated = false;
    or_high = r.or_high;
    or_low = r.or_low;
    open5m_vol = r.vol;
    open5m_range_pct = rng;
  }

  unfoldable pub correct_one :
      RuntimeFilters F → (String → Fetched (Agg F)) → String → Store F → Bool × Store F
  correct_one f bars sym s = elim (open5m_metrics (bars sym)) [
    | err _ ↦ (false, s)
    | ok none ↦ (false, s)
    | ok (some r) ↦
        let rng = range_pct r.open0930 r.or_high r.or_low in
        if metrics_known r
        then (open_filters f rng r.vol, upsert_ticker sym (correct_open rng r) s)
        else (false, s)
  ]

  unfoldable pub correct_loop :
      RuntimeFilters F → (String → Fetched (Agg F)) → List String → Store F → List String × Store F
  unfolding correct_one
  correct_loop f bars [] s = ([], s)
  correct_loop f bars (sym ∷ arrivals) s =
      let (kept, s1) = correct_one f bars sym s in
      let (rest, s2) = correct_loop f bars arrivals s1 in (if kept then sym ∷ rest else rest, s2)

  -- No candidates: nothing is fetched. `arrivals` holds the candidates in the order of the results.
  unfoldable pub correct_candidates_open5m_via_rest :
      (String → Fetched (Agg F)) → List String → Store F → List String × Store F
  correct_candidates_open5m_via_rest bars arrivals s =
      let (kept, s') = correct_loop s.filters bars arrivals s in (sort_by text_lt kept, s')

  unfoldable pub metric : TickerState F → Option (Open5mMetric F)
  metric t =
      if not (open_known t) || not_pos t.open5m_vol
      then none
      else some (record {
        open0930 = t.open0930;
        or_high = t.or_high;
        or_low = t.or_low;
        open5m_vol = t.open5m_vol;
        range_pct = range_pct t.open0930 t.or_high t.or_low;
      })

  unfoldable pub snapshot_open5m_metrics : List String → Store F → Dict (Open5mMetric F)
  unfolding metric
  snapshot_open5m_metrics [] s = []
  snapshot_open5m_metrics (sym ∷ wl) s =
      let rest = snapshot_open5m_metrics wl s in
      elim (get_ticker sym s) [
        | none ↦ rest
        | some t ↦ elim (metric t) [ none ↦ rest | some m ↦ (sym, m) ∷ rest ]
      ]
