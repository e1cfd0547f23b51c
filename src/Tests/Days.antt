-- ===== src/Tests/Days.antt =====
-- The choice of the day of a historic run, on a calendar of 2023.
use market_hacker.Base.{
  ◌≡◌, ◌≤◌, ◌+◌, ◌-◌, ◌*◌, ◌/◌, ◌%◌, refl, ℕ, zero, suc, String, true, false, [], ◌∷◌, none, arith,
  leb, ok, if◌then◌else◌,
}
use market_hacker.Float.Fixed.{Fixed, fixed_float, cents}
use market_hacker.Clock.{Time, Location, second, date_only, after, same_day, date_iso}
use market_hacker.Rest.{Fetched, Agg, open5m_metrics}
use market_hacker.Engine.{
  Engine, day_has_data, resolve_historic_session_date, resolve_loop, has_open5m_data, probe_loop,
  step_back, first_day, max_attempts, date_note,
}
use market_hacker.Engine.Calendar.{IsCalendar, Workday, days_tried}
use market_hacker.Engine.Resolve.{
  FirstWithData, candidates_for, resolve_finds_latest, resolve_finds_first,
}
use market_hacker.Tests.Sample.{at, midnight, utc, engine, ready, store_with}

abbrev one_day : ℕ
one_day = 86_400 * second

-- The dates are those of December 2023, of which the 9th is a Saturday. Before the first days it goes on with the days of the last week, so that the days of the week
-- follow each other without an end.
abbrev pub calendar : Location
calendar = record utc {
  civil = λ t. record {
    year = 2023;
    month = 12;
    day = t / one_day + 9 - midnight / one_day;
    hour = t / second / 3600 % 24;
    min = t / second / 60 % 60;
    sec = t / second % 60;
  };
  date =
      λ c. midnight + c.day * one_day - 9 * one_day + (c.hour * 3600 + c.min * 60 + c.sec) * second;
  weekday = λ t. (t / one_day + 1) % 7;
  days_back = λ n t. if leb (n * one_day) t then t - n * one_day else t + (7 - n) * one_day;
}

abbrev week_of : ℕ → ℕ
week_of t = (t / one_day + 1) % 7

back_lem :
    (n t : ℕ)
    → n ≤ 2
    → week_of (if leb (n * one_day) t then t - n * one_day else t + (7 - n) * one_day)
      ≡ (week_of t + (7 - n)) % 7
back_lem zero t h = ground arith
back_lem (suc zero) t h = ground arith
back_lem (suc (suc zero)) t h = ground arith
back_lem (suc (suc (suc n))) t h = absurd (omega arith)

pub calendar-IsCalendar : IsCalendar calendar
calendar-IsCalendar = record { seven = λ t. ground arith; back = back_lem }

abbrev there : Engine Fixed
there = record engine { loc = calendar }

abbrev minute_bar : Agg Fixed
minute_bar = record {
  open_price = cents 1000;
  high = cents 1100;
  low = cents 950;
  close = cents 1050;
  volume = cents 500;
}

abbrev bars : String → Time → Time → Fetched (Agg Fixed)
bars sym from to = record { items = minute_bar ∷ []; error = none }

abbrev friday : Time
friday = midnight - one_day

abbrev note : String
note = "Requested 2023-12-09; market closed / no data — showing 2023-12-08."

settles :
    resolve_historic_session_date there bars (at 12 0) (at 15 0) (store_with ready)
    ≡ ok (friday, note)
unfolding resolve_historic_session_date resolve_loop day_has_data has_open5m_data probe_loop
    first_day max_attempts date_only open5m_metrics same_day date_iso
settles = refl

resolve_finds_latest_example :
    Workday calendar friday
    × FirstWithData
        (day_has_data there bars (store_with ready))
        (candidates_for there (at 12 0))
        friday
    × (after (date_only calendar (at 12 0)) (date_only calendar (at 15 0)) ≡ false)
    × (note ≡ date_note calendar (date_only calendar (at 12 0)) friday)
resolve_finds_latest_example =
    resolve_finds_latest there bars (at 12 0) (at 15 0) friday note (store_with ready)
      calendar-IsCalendar settles

has_friday : day_has_data there bars (store_with ready) friday ≡ ok true
unfolding day_has_data has_open5m_data probe_loop open5m_metrics
has_friday = refl

tries_friday :
    candidates_for there (at 12 0) ≡ friday ∷ days_tried calendar (step_back calendar friday) 34
unfolding days_tried first_day date_only max_attempts
tries_friday = refl

not_future : after (date_only calendar (at 12 0)) (date_only calendar (at 15 0)) ≡ false
unfolding date_only
not_future = refl

resolve_finds_first_example :
    resolve_historic_session_date there bars (at 12 0) (at 15 0) (store_with ready)
    ≡ ok (friday, date_note calendar (date_only calendar (at 12 0)) friday)
resolve_finds_first_example =
    resolve_finds_first there bars (at 12 0) (at 15 0) friday (store_with ready) not_future
      (record {
        before = [];
        after_it = days_tried calendar (step_back calendar friday) 34;
        split = tries_friday;
        empty_before = tt;
        has_data = has_friday;
      })
