-- ===== src/Engine/Dates.antt =====
-- `resolveHistoricSessionDate` and `hasOpen5mData` of internal/engine/historic.go: which day a
-- historic run shows. A cancelled context is not modelled. The loops that skip a weekend end after
-- one round; `skip_rounds` allows a week of them.
use Prim.Native.String.{◌++◌}
use market_hacker.Base.{
  ℕ, zero, suc, String, Bool, true, false, ◌&&◌, Option, none, some, List, [], ◌∷◌, ℤ, pos,
  pos_part, ◌+ℤ◌, ltb_ℤ, if◌then◌else◌, ◌==◌, take, Result, ok, err,
}
use market_hacker.Float.{Float64}
use market_hacker.Clock.{Time, Location, at_time, date_only, same_day, after, date_iso, decimal}
use market_hacker.Store.{Store}
use market_hacker.Rest.{Fetched, Agg, OpenBars, open5m_metrics}
use market_hacker.Engine.Types.{Engine}

abbrev pub saturday : ℕ
saturday = 6

abbrev pub sunday : ℕ
sunday = 0

abbrev pub skip_rounds : ℕ
skip_rounds = 7

-- `for d.Weekday() == day { d = d.AddDate(0, 0, -n) }`
unfoldable pub skip : Location → ℕ → ℕ → ℕ → Time → Time
skip loc day n zero d = d
skip loc day n (suc rounds) d =
    let rest = skip loc day n rounds (loc.days_back n d) in if loc.weekday d == day then rest else d

-- "step back and skip weekends"
unfoldable pub step_back : Location → Time → Time
step_back loc d =
    skip loc sunday 2 skip_rounds (skip loc saturday 1 skip_rounds (loc.days_back 1 d))

unfoldable pub first_day : Location → Time → Time
first_day loc d =
    if loc.weekday d == saturday
    then loc.days_back 1 d
    else if loc.weekday d == sunday
    then loc.days_back 2 d
    else d

unfoldable pub max_attempts : ℤ → ℕ
max_attempts lookback = let n = lookback +ℤ pos 15 in if ltb_ℤ n (pos 10) then 10 else pos_part n

abbrev pub date_note : Location → Time → Time → String
date_note loc target day =
    if same_day loc day target
    then ""
    else "Requested "
      ++ (date_iso loc target
          ++ ("; market closed / no data — showing " ++ (date_iso loc day ++ ".")))

-- The loop, with the attempts that are left.
unfoldable pub resolve_loop :
    Location → (Time → Result Bool) → Time → String → ℕ → Time → Result (Time × String)
resolve_loop loc has target failure zero day = err failure
resolve_loop loc has target failure (suc left) day =
    let rest = resolve_loop loc has target failure left (step_back loc day) in
    elim (has day) [
      | err m ↦ err m
      | ok true ↦ ok (day, date_note loc target day)
      | ok false ↦ rest
    ]

module _ {F : Type 0} ⦃d : Float64 F⦄ where
  open d use {nought, lt}

  abbrev pub has_metrics : OpenBars F → Bool
  has_metrics r =
      lt nought r.open0930 && (lt nought r.or_high && (lt nought r.or_low && lt nought r.vol))

  -- `last` is lastErr, `saw` is sawNonErr.
  unfoldable pub probe_loop :
      (String → Fetched (Agg F)) → List String → Option String → Bool → Result Bool
  probe_loop bars [] last saw =
      if saw then ok false else elim last [ none ↦ ok false | some m ↦ err m ]
  probe_loop bars (sym ∷ wl) last saw =
      let next = probe_loop bars wl last true in
      elim (open5m_metrics (bars sym)) [
        | err m ↦ probe_loop bars wl (some m) saw
        | ok none ↦ next
        | ok (some r) ↦ if has_metrics r then ok true else next
      ]

  -- `bars` gives the bars of a symbol between two times.
  unfoldable pub has_open5m_data :
      (String → Time → Time → Fetched (Agg F)) → Time → Time → Store F → Result Bool
  unfolding probe_loop
  has_open5m_data bars open_ny sel_ny s = elim s.watchlist [
    | [] ↦ err "watchlist is empty"
    | w ∷ wl ↦ probe_loop (λ sym. bars sym open_ny sel_ny) (take 8 (w ∷ wl)) none false
  ]

  -- Has the session of the day `day` data?
  unfoldable pub day_has_data :
      Engine F → (String → Time → Time → Fetched (Agg F)) → Store F → Time → Result Bool
  day_has_data e bars s day =
      has_open5m_data bars (at_time e.loc day e.cfg.market.open_time)
        (at_time e.loc day e.cfg.market.selection_time) s

  unfoldable pub resolve_historic_session_date :
      Engine F
      → (String → Time → Time → Fetched (Agg F))
      → Time
      → Time
      → Store F
      → Result (Time × String)
  unfolding resolve_loop day_has_data
  resolve_historic_session_date e bars target_day as_of s =
      let target = date_only e.loc target_day in
      let today = date_only e.loc as_of in
      let attempts = max_attempts e.cfg.history.max_calendar_lookback in
      if after target today
      then err ("date is in the future (max " ++ (date_iso e.loc today ++ ")"))
      else resolve_loop e.loc (day_has_data e bars s) target
          ("no market session data found within "
            ++ (decimal attempts ++ (" days of " ++ date_iso e.loc target)))
          attempts (first_day e.loc target)
