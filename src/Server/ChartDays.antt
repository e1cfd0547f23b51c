-- ===== src/Server/ChartDays.antt =====
-- The days on which the chart looks for the last bar of an earlier session.
use market_hacker.Base.{◌≡◌, ℕ, suc, ◌==◌, arith, if◌then◌else◌}
use market_hacker.Clock.{Time, Location}
use market_hacker.Engine.{saturday, sunday, skip}
use market_hacker.Engine.Calendar.{IsCalendar}
use market_hacker.Server.Chart.{skip_weekend}

module _ {loc : Location} (calendar : IsCalendar loc) where
  skip_saturdays_once :
      (d : Time) (rounds : ℕ)
      → skip loc saturday 1 (suc (suc rounds)) d
        ≡ (if loc.weekday d == saturday then loc.days_back 1 d else d)
  unfolding skip
  skip_saturdays_once d rounds = let one = calendar.back 1 d (omega arith) in ground arith

  skip_sundays_once :
      (d : Time) (rounds : ℕ)
      → skip loc sunday 1 (suc (suc rounds)) d
        ≡ (if loc.weekday d == sunday then loc.days_back 1 d else d)
  unfolding skip
  skip_sundays_once d rounds = let one = calendar.back 1 d (omega arith) in ground arith

  -- A workday stays, and a Saturday becomes the Friday before it; but a Sunday becomes the Saturday
  -- before it, which is no workday.
  pub skip_weekend_days :
      (d : Time)
      → loc.weekday (skip_weekend loc d) ≡ (
          if loc.weekday d == saturday
          then 5
          else if loc.weekday d == sunday
          then saturday
          else loc.weekday d)
  unfolding skip_weekend
  skip_weekend_days d =
      let d1 = if loc.weekday d == saturday then loc.days_back 1 d else d in
      let one = calendar.back 1 d (omega arith) in
      let again = calendar.back 1 d1 (omega arith) in
      rw (skip_saturdays_once d 5, skip_sundays_once d1 5) (ground arith)
