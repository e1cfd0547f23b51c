-- ===== src/Server/ChartTimes.antt =====
-- The times of the bars of a chart.
use market_hacker.Base.{
  inl, inr, ℕ, suc, ◌+◌, ◌-◌, ◌*◌, ◌≤◌, String, Option, none, some, List, [], ◌∷◌, ℤ, pos, ◌≤ℤ◌,
  ◌<ℤ◌, ◌+ℤ◌, arith, All, All-mono, if_kept, Option-cases, option_kept, str_eq,
}
use market_hacker.Float.{Float64}
use market_hacker.Clock.{Time, Location, minute, at_time, date_only}
use market_hacker.Rest.{Fetched, Agg}
use market_hacker.Server.Chart.{
  unix, ChartBar, ChartAnswer, http_error, answer_json, bad_bar, chart_bars, list_bars, prev_bar,
  placed, chart_day, handle_chart_bars, ChartQuery,
}
use market_hacker.Config.{Config}

unix_later : (a b : Time) → a + minute ≤ b → unix a <ℤ unix b
unfolding unix
unix_later a b h = ground arith

unix_ordered : (a b : Time) → a ≤ b → unix a ≤ℤ unix b
unfolding unix
unix_ordered a b h = ground arith

-- The bar before the open is put a minute before it.
unix_minute :
    (open_ny : Time) → minute ≤ open_ny → unix open_ny ≤ℤ unix (open_ny - minute) +ℤ pos 60
unfolding unix
unix_minute open_ny h = ground arith

module _ {F : Type 0} where
  -- Each bar is earlier than all that follow it.
  abbrev pub InTime : List (ChartBar F) → Type 0
  InTime [] = Unit
  InTime (b ∷ bs) = All (λ c. b.time <ℤ c.time) bs × InTime bs

  abbrev From : ℤ → List (ChartBar F) → Type 0
  From t bs = All (λ b. t ≤ℤ b.time) bs

  From-earlier : (t u : ℤ) (bs : List (ChartBar F)) → t ≤ℤ u → From u bs → From t bs
  From-earlier t u bs h = All-mono (λ b k. ground arith) bs

  -- What a client of the chart can rely on: the bars of an answer are in time, and none is more than a
  -- minute before the open.
  abbrev pub Timed : ChartAnswer F → Type 0
  Timed (http_error status msg) = Unit
  Timed (answer_json status r) = InTime r.bars × All (λ b. r.open_unix ≤ℤ b.time +ℤ pos 60) r.bars

module _ {F : Type 0} ⦃d : Float64 F⦄ where
  chart_bars-From :
      (start : Time) (idx : ℕ) (items : List (Agg F))
      → From (unix (start + idx * minute)) (chart_bars start idx items)
        × InTime (chart_bars start idx items)
  unfolding chart_bars
  chart_bars-From start idx [] = (tt, tt)
  chart_bars-From start idx (a ∷ items) =
      let (lower, later) = chart_bars-From start (suc idx) items in
      let P = λ (bs : List (ChartBar F)). From (unix (start + idx * minute)) bs × InTime bs in
      let step = unix_later (start + idx * minute) (start + suc idx * minute) (omega arith) in
      let lower' =
        From-earlier (unix (start + idx * minute)) (unix (start + suc idx * minute)) _
          (ground arith) lower in
      if_kept P (bad_bar a) _ _ (lower', later)
        ((omega arith, lower'), (All-mono (λ c k. ground arith) _ lower, later))

  today-From :
      (open_ny : Time) (items : List (Agg F))
      → From (unix open_ny) (chart_bars open_ny 0 items) × InTime (chart_bars open_ny 0 items)
  today-From open_ny items =
      let (lower, later) = chart_bars-From open_ny 0 items in
      (
        From-earlier (unix open_ny) (unix (open_ny + 0 * minute)) _
            (unix_ordered open_ny (open_ny + 0 * minute) (omega arith)) lower,
        later,
      )

  placed-Timed :
      (open_ny : Time) (prev : Option (Time × ChartBar F)) (items : List (Agg F))
      → minute ≤ open_ny
      → let bs = placed open_ny prev (chart_bars open_ny 0 items) in
        InTime bs × All (λ b. unix open_ny ≤ℤ b.time +ℤ pos 60) bs
  placed-Timed open_ny none items h =
      let (lower, later) = today-From open_ny items in
      (later, All-mono (λ b k. ground arith) _ lower)
  placed-Timed open_ny (some (day, b)) items h =
      let (lower, later) = today-From open_ny items in
      let before' = unix_later (open_ny - minute) open_ny (omega arith) in
      (
        (All-mono (λ c k. ground arith) _ lower, later),
        (unix_minute open_ny h, All-mono (λ c k. ground arith) _ lower),
      )

  chart_day-Timed :
      (cfg : Config F) (loc : Location) (bars : Time → Time → Fetched (Agg F)) (symbol : String)
      (day : Time)
      → minute ≤ at_time loc day cfg.market.open_time
      → Timed (chart_day cfg loc bars symbol day)
  unfolding chart_day list_bars
  chart_day-Timed cfg loc bars symbol day h =
      let open_ny = at_time loc day cfg.market.open_time in
      let it = bars open_ny (at_time loc day cfg.market.force_exit_time) in
      elim (Option-cases it.error) [
        | inl fine ↦
            rw (chart_day, fine)
              (placed-Timed open_ny (prev_bar loc bars 15 (loc.days_back 1 day)) it.items h)
        | inr (m, failed) ↦ rw (chart_day, failed) (tt, tt)
      ]

  -- Whatever the request and the answers of the REST client, the bars that the handler answers with
  -- are in the order of their times, and none is more than a minute before the open, where the open of
  -- a day is at least a minute after the zero time.
  pub handle_chart_bars-Timed :
      (cfg : Config F) (loc : Location) (parse : String → Option Time)
      (bars : String → Time → Time → Fetched (Agg F)) (key : String) (now : Time) (q : ChartQuery)
      → ((day : Time) → minute ≤ at_time loc day cfg.market.open_time)
      → Timed (handle_chart_bars cfg loc parse bars key now q)
  unfolding handle_chart_bars
  handle_chart_bars-Timed cfg loc parse bars key now q opens =
      let show = λ (day : Time).
        if_kept Timed (str_eq key "") _
          (chart_day cfg loc (bars q.symbol) q.symbol (date_only loc day)) tt
          (chart_day-Timed cfg loc (bars q.symbol) q.symbol (date_only loc day)
            (opens (date_only loc day))) in
      if_kept Timed q.is_get _ _
        (if_kept Timed (str_eq q.symbol "") _ _ tt (
          if_kept Timed (str_eq q.date "") _ _ (show now)
            (option_kept Timed (parse q.date) _ _ tt show)))
        tt
