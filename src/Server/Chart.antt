-- ===== src/Server/Chart.antt =====
-- `handleChartBars` of internal/server/http.go with its helper `listBars` and the types of its answer.
-- The bars that the REST client lists are a parameter, as are the parser of a date and the
-- environment variable; a deadline of the request shows as an error of the client.
use Prim.Native.String.{◌++◌}
use market_hacker.Base.{
  ℕ, zero, suc, ◌+◌, ◌-◌, ◌*◌, ◌/◌, String, Bool, ◌||◌, Option, none, some, List, [], ◌∷◌, ℤ, sub_ℕ,
  if◌then◌else◌, Result, ok, err, str_eq,
}
use market_hacker.Float.{Float64, not_pos}
use market_hacker.Clock.{Time, Location, second, minute, unix_epoch, at_time, date_only, date_iso}
use market_hacker.Config.{Config}
use market_hacker.Rest.{Fetched, Agg}
use market_hacker.Engine.{saturday, sunday, skip_rounds, skip}

-- `Unix()`: whole seconds since 1970
unfoldable pub unix : Time → ℤ
unix t = sub_ℕ (t / second) (unix_epoch / second)

pub record ChartBar (F : Type 0) : Type 0 where
  pub time : ℤ
  pub open_price : F
  pub high : F
  pub low : F
  pub close : F
  pub volume : F

pub record ChartBarsResp (F : Type 0) : Type 0 where
  pub ok' : Bool
  pub symbol : String
  pub date_ny : String
  pub timezone : String
  pub open_unix : ℤ
  pub exit_unix : ℤ
  pub prev_close_date_ny : String
  pub bars : List (ChartBar F)
  pub error : String

-- What the handler writes: an error of HTTP with its status, or the answer in JSON with its status.
pub data ChartAnswer (F : Type 0) : Type 0 where
  http_error : ℕ → String → ChartAnswer F
  answer_json : ℕ → ChartBarsResp F → ChartAnswer F

-- The query, trimmed, the symbol in capitals.
pub record ChartQuery : Type 0 where
  pub is_get : Bool
  pub symbol : String
  pub date : String

abbrev pub last_of {ℓ} : {A : Type ℓ} → A → List A → A
last_of a [] = a
last_of a (b ∷ bs) = last_of b bs

-- "skip weekends quickly"
unfoldable pub skip_weekend : Location → Time → Time
skip_weekend loc d' = skip loc sunday 1 skip_rounds (skip loc saturday 1 skip_rounds d')

abbrev pub close_start : Location → Time → Time
close_start loc d' = loc.date (record (loc.civil d') { hour = 15; min = 59; sec = 0 })

module _ {F : Type 0} ⦃d : Float64 F⦄ where
  -- "clearly-bad bars"
  abbrev pub bad_bar : Agg F → Bool
  bad_bar a = not_pos a.open_price || (not_pos a.high || (not_pos a.low || not_pos a.close))

  -- The loop over the items: a bar that is skipped still counts.
  unfoldable pub chart_bars : Time → ℕ → List (Agg F) → List (ChartBar F)
  chart_bars start idx [] = []
  chart_bars start idx (a ∷ items) =
      let rest = chart_bars start (suc idx) items in
      if bad_bar a
      then rest
      else record {
        time = unix (start + idx * minute);
        open_price = a.open_price;
        high = a.high;
        low = a.low;
        close = a.close;
        volume = a.volume;
      }
        ∷ rest

  -- `listBars`, on what the client lists
  unfoldable pub list_bars : Time → Fetched (Agg F) → Result (List (ChartBar F))
  unfolding chart_bars
  list_bars start it = elim it.error [ some m ↦ err m | none ↦ ok (chart_bars start 0 it.items) ]

  -- The search for the last bar of an earlier session, with the tries that are left: the day and the
  -- bar. `bars` gives the bars of the symbol between two times.
  unfoldable pub prev_bar :
      Location → (Time → Time → Fetched (Agg F)) → ℕ → Time → Option (Time × ChartBar F)
  unfolding list_bars skip_weekend
  prev_bar loc bars zero d' = none
  prev_bar loc bars (suc tries) d' =
      let day = skip_weekend loc d' in
      let start = close_start loc day in
      let next = prev_bar loc bars tries (loc.days_back 1 day) in
      elim (list_bars start (bars start (start + minute))) [
        | err _ ↦ next
        | ok [] ↦ next
        | ok (b ∷ bs) ↦ some (day, last_of b bs)
      ]

  abbrev pub placed : Time → Option (Time × ChartBar F) → List (ChartBar F) → List (ChartBar F)
  placed open_ny none today = today
  placed open_ny (some (_, b)) today = record b { time = unix (open_ny - minute) } ∷ today

  abbrev pub prev_date : Location → Option (Time × ChartBar F) → String
  prev_date loc none = ""
  prev_date loc (some (day, _)) = date_iso loc day

  -- The bars of a symbol on the day `day`.
  unfoldable pub chart_day :
      Config F → Location → (Time → Time → Fetched (Agg F)) → String → Time → ChartAnswer F
  unfolding list_bars unix
  chart_day cfg loc bars symbol day =
      let open_ny = at_time loc day cfg.market.open_time in
      let exit_ny = at_time loc day cfg.market.force_exit_time in
      let prev = prev_bar loc bars 15 (loc.days_back 1 day) in
      elim (list_bars open_ny (bars open_ny exit_ny)) [
        | err m ↦ answer_json 502 (record {
          ok' = Bool.false;
          symbol = symbol;
          date_ny = date_iso loc day;
          timezone = cfg.market.timezone;
          open_unix = unix open_ny;
          exit_unix = unix exit_ny;
          prev_close_date_ny = "";
          bars = [];
          error = "failed to fetch bars: " ++ m;
        })
        | ok today ↦ answer_json 200 (record {
          ok' = Bool.true;
          symbol = symbol;
          date_ny = date_iso loc day;
          timezone = cfg.market.timezone;
          open_unix = unix open_ny;
          exit_unix = unix exit_ny;
          prev_close_date_ny = prev_date loc prev;
          bars = placed open_ny prev today;
          error = "";
        })
      ]

  -- `parse` is time.ParseInLocation, `key` the environment variable MASSIVE_API_KEY.
  unfoldable pub handle_chart_bars :
      Config F
      → Location
      → (String → Option Time)
      → (String → Time → Time → Fetched (Agg F))
      → String
      → Time
      → ChartQuery
      → ChartAnswer F
  unfolding chart_day
  handle_chart_bars cfg loc parse bars key now q =
      let show = λ (day : Time).
        if str_eq key ""
        then http_error 500 "MASSIVE_API_KEY is missing on server"
        else chart_day cfg loc (bars q.symbol) q.symbol (date_only loc day) in
      if q.is_get
      then if str_eq q.symbol ""
        then http_error 400 "missing symbol"
        else if str_eq q.date ""
        then show now
        else elim (parse q.date) [
          | none ↦ http_error 400 "invalid date (use YYYY-MM-DD)"
          | some day ↦ show day
        ]
      else http_error 405 "method not allowed"
