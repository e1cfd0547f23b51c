-- ===== src/Engine/SoldOff.antt =====
-- `scanSoldOff` of internal/engine/historic.go: the tickers that fell far below their open. Each of
-- the two worker pools gives one result for each symbol, in an order of its own: `shuffle i` puts the
-- symbols in the order of the results of the pool `i`. A cancelled context, which ends the scan
-- early, is not modelled.
mod Rows
pub mod Screening
pub mod Passes
pub mod Exact
use Prim.Native.String.{◌++◌}
use mathlib.Core.List.{filter_map}
use market_hacker.Base.{
  text_lt, ℕ, ◌+◌, String, Bool, true, false, not, ◌&&◌, ◌||◌, Option, none, some, List, [], ◌∷◌,
  map, if◌then◌else◌, length, Dict, lookup, keep_if, sort_by, Result, ok, err,
}
use market_hacker.Float.{Float64, not_pos}
use market_hacker.Clock.{Time, minute, before, clock_hms, decimal}
use market_hacker.Store.{RuntimeFilters, HistoricSoldOff, Store}
use market_hacker.Rest.{Fetched, Agg, LowBars, is_empty, min_low_and_last_close}
use market_hacker.Engine.Types.{Engine}
use market_hacker.Engine.Alerts.{emit}
use market_hacker.Engine.Opening.{Open5mMetric}
use market_hacker.Engine.Tracking.{avg_prev_sessions_open5m_vol}

pub record Pre (F : Type 0) : Type 0 where
  pub sym : String
  pub m : Open5mMetric F
  pub low : F
  pub low_time : Time
  pub last : F
  pub drop : F

-- The answers of the REST client: the minute bars from the open to the end of the scan, and the
-- volume of the first five minutes of an earlier day.
pub record ScanAnswers (F : Type 0) : Type 0 where
  pub bars : String → Fetched (Agg F)
  pub volumes : String → ℕ → Result (Option F)

module _ {F : Type 0} ⦃d : Float64 F⦄ where
  open d use {nought, of_ℕ, sub, mul, div, lt, eq}

  -- stage 0
  unfoldable pub range_known : RuntimeFilters F → Open5mMetric F → Bool
  range_known f m =
      not (not_pos m.open0930 || not_pos m.open5m_vol)
      && not (lt m.range_pct f.sold_off_open5m_range_pct_min)

  unfoldable pub eligible : RuntimeFilters F → Dict (Open5mMetric F) → List String
  eligible f metrics = sort_by text_lt (map (λ p. p.0) (keep_if (λ p. range_known f p.1) metrics))

  -- stage 1, for one result: a symbol that fell far enough
  unfoldable pub screen :
      RuntimeFilters F → Time → Dict (Open5mMetric F) → ScanAnswers F → String → Option (Pre F)
  screen f open_ny metrics answers sym = elim (min_low_and_last_close open_ny (answers.bars sym)) [
    | err _ ↦ none
    | ok none ↦ none
    | ok (some r) ↦ elim (lookup sym metrics) [
      | none ↦ none
      | some m ↦
          let drop = div (sub m.open0930 r.min_low) m.open0930 in
          if not_pos m.open0930 || not_pos r.min_low
          then none
          else if lt drop f.sold_off_from_open_pct_min
          then none
          else some (record {
            sym = sym;
            m = m;
            low = r.min_low;
            low_time = r.min_low_time;
            last = r.last_close;
            drop = drop;
          })
    ]
  ]

  -- preBySym
  unfoldable pub screened :
      RuntimeFilters F → Time → Dict (Open5mMetric F) → ScanAnswers F → List String → Dict (Pre F)
  screened f open_ny metrics answers [] = []
  screened f open_ny metrics answers (sym ∷ arrivals) =
      let rest = screened f open_ny metrics answers arrivals in
      elim (screen f open_ny metrics answers sym) [ none ↦ rest | some p ↦ (sym, p) ∷ rest ]

  -- stage 2, for one result
  unfoldable pub sold_off_row :
      Engine F → RuntimeFilters F → ScanAnswers F → String → Pre F → Option (HistoricSoldOff F)
  sold_off_row e f answers sym p =
      elim (avg_prev_sessions_open5m_vol (answers.volumes sym)
        e.cfg.history.open5m_lookback_sessions e.cfg.history.max_calendar_lookback) [
          | err _ ↦ none
          | ok avg ↦
              let pct = if not_pos avg then nought else mul (div p.m.open5m_vol avg) (of_ℕ 100) in
              if lt pct f.sold_off_open5m_today_pct_min
              then none
              else some (record {
                symbol = p.sym;
                open0930 = p.m.open0930;
                low_price = p.low;
                low_time_ny = clock_hms e.loc p.low_time;
                price_at_scan_time = p.last;
                drop_pct = p.drop;
                open5m_vol = p.m.open5m_vol;
                open5m_range_pct = p.m.range_pct;
                open5m_today_pct = pct;
              })
        ]

  -- A symbol that is not in the map gives no row.
  unfoldable pub row_in :
      Engine F
      → RuntimeFilters F
      → ScanAnswers F
      → Dict (Pre F)
      → String
      → Option (HistoricSoldOff F)
  row_in e f answers pres sym = elim (lookup sym pres) [
    | none ↦ none
    | some p ↦ sold_off_row e f answers sym p
  ]

  -- the order of the rows: the deepest drop first, then by symbol
  unfoldable pub deeper : HistoricSoldOff F → HistoricSoldOff F → Bool
  deeper a b =
      if eq a.drop_pct b.drop_pct then text_lt a.symbol b.symbol else lt b.drop_pct a.drop_pct

  -- `now` gives the readings of time.Now(), in their order.
  unfoldable pub scan_sold_off :
      Engine F
      → ScanAnswers F
      → (ℕ → List String → List String)
      → (ℕ → Time)
      → Time
      → Time
      → Dict (Open5mMetric F)
      → Store F
      → Store F × List (HistoricSoldOff F)
  scan_sold_off e answers shuffle now open_ny scan_end metrics s =
      let f = s.filters in
      let syms = eligible f metrics in
      let say =
        λ (i : ℕ) (msg : String) (st : Store F). emit e (now i) "SYSTEM" "" msg "" "info" st in
      let s1 =
        say 0
          ("Sold-off scan: checking "
            ++ (decimal (length syms)
                ++ (" tickers (09:30 → " ++ (clock_hms e.loc scan_end ++ ")…"))))
          s in
      let pres = screened f open_ny metrics answers (shuffle 0 syms) in
      let pre_syms = sort_by text_lt (map (λ q. q.0) pres) in
      let out = sort_by deeper (filter_map (row_in e f answers pres) (shuffle 1 pre_syms)) in
      if before scan_end (open_ny + minute)
      then (s, [])
      else if is_empty syms
      then (s, [])
      else if is_empty pres
      then (say 1 "Sold-off scan: 0 tickers matched the drop + Open5m Range% filters." s1, [])
      else (say 1 ("Sold-off scan: " ++ (decimal (length out) ++ " tickers matched.")) s1, out)
