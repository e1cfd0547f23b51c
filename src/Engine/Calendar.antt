-- ===== src/Engine/Calendar.antt =====
-- The days that `resolveHistoricSessionDate` tries are workdays.
use market_hacker.Base.{
  ◌≡◌, ◌+◌, ◌-◌, ◌%◌, ◌≤◌, ◌<◌, ℕ, zero, suc, false, ◌||◌, List, [], ◌∷◌, ◌==◌, arith,
  if◌then◌else◌, All,
}
use market_hacker.Clock.{Time, Location}
use market_hacker.Engine.Dates.{saturday, sunday, skip, step_back, first_day}

-- What a calendar does with the days of the week.
pub record IsCalendar (loc : Location) : Type 0 where
  pub seven : (t : Time) → loc.weekday t < 7
  pub back :
      (n : ℕ) (t : Time) → n ≤ 2 → loc.weekday (loc.days_back n t) ≡ (loc.weekday t + (7 - n)) % 7

abbrev pub Workday : Location → Time → Type 0
Workday loc t = (loc.weekday t == saturday || loc.weekday t == sunday) ≡ false

module _ {loc : Location} (calendar : IsCalendar loc) where
  pub first_day-Workday : (d : Time) → Workday loc (first_day loc d)
  unfolding first_day
  first_day-Workday d =
      let one = calendar.back 1 d (omega arith) in
      let two = calendar.back 2 d (omega arith) in let week = calendar.seven d in ground arith

  -- The loops run one round at most.
  skip_saturdays :
      (d : Time) (rounds : ℕ)
      → skip loc saturday 1 (suc (suc rounds)) d
        ≡ (if loc.weekday d == saturday then loc.days_back 1 d else d)
  unfolding skip
  skip_saturdays d rounds = let one = calendar.back 1 d (omega arith) in ground arith

  skip_sundays :
      (d : Time) (rounds : ℕ)
      → skip loc sunday 2 (suc (suc rounds)) d
        ≡ (if loc.weekday d == sunday then loc.days_back 2 d else d)
  unfolding skip
  skip_sundays d rounds = let two = calendar.back 2 d (omega arith) in ground arith

  not_saturday :
      (d : Time)
      → (loc.weekday (if loc.weekday d == saturday then loc.days_back 1 d else d) == saturday)
        ≡ false
  not_saturday d = let one = calendar.back 1 d (omega arith) in ground arith

  not_sunday :
      (d : Time)
      → (loc.weekday d == saturday) ≡ false
      → Workday loc (if loc.weekday d == sunday then loc.days_back 2 d else d)
  not_sunday d h = let two = calendar.back 2 d (omega arith) in ground arith

  step_back-Workday : (d : Time) → Workday loc (step_back loc d)
  unfolding step_back
  step_back-Workday d =
      let d1 = loc.days_back 1 d in
      let d2 = if loc.weekday d1 == saturday then loc.days_back 1 d1 else d1 in
      rw (skip_saturdays d1 5) (rw (skip_sundays d2 5) (not_sunday d2 (not_saturday d1)))

-- The days that the loop looks at, one after the other.
unfoldable pub days_tried : Location → Time → ℕ → List Time
days_tried loc day zero = []
days_tried loc day (suc left) = day ∷ days_tried loc (step_back loc day) left

pub days_tried-Workday :
    {loc : Location} (calendar : IsCalendar loc) (day : Time) (left : ℕ)
    → Workday loc day
    → All (Workday loc) (days_tried loc day left)
unfolding days_tried
days_tried-Workday calendar day zero h = tt
days_tried-Workday {loc} calendar day (suc left) h =
    (h, days_tried-Workday calendar (step_back loc day) left (step_back-Workday calendar day))
