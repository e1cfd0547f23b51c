-- ===== src/Clock.antt =====
-- time.Time and time.Duration of Go's library, as far as the program uses them, and the helpers
-- `atTime` (internal/engine/engine.go), `atTimeInLoc` (internal/server/http.go), `dateOnlyInLoc`,
-- `sameDayInLoc` and `minTime` (internal/engine/historic.go).
-- A time is a count of nanoseconds since 0001-01-01 00:00 UTC, so that 0 is Go's zero time. The time
-- zone database is a parameter, `Location`. `Sub` does not saturate: the times lie in one session.
use market_hacker.Base.{
  ℕ, zero, suc, ◌+◌, ◌-◌, ◌*◌, ◌/◌, ◌%◌, String, Bool, true, false, ◌&&◌, ℤ, pos, negsuc, sub_ℕ,
  ltb, leb, Option, none, some, ◌==◌, if◌then◌else◌,
}
use Prim.Native.Char.{code}
use Prim.Native.String.{◌++◌}
use market_hacker.Float.{Float64, of_ℤ}

abbrev pub Time : Type 0
Time = ℕ

abbrev pub second : ℕ
second = 1_000_000_000

abbrev pub minute : ℕ
minute = 60 * second

abbrev pub unix_epoch : Time
unix_epoch = 62_135_596_800 * second

abbrev pub before : Time → Time → Bool
before a b = ltb a b

abbrev pub after : Time → Time → Bool
after a b = ltb b a

abbrev pub is_zero : Time → Bool
is_zero t = t == 0

-- A count of milliseconds from before the year 1 gives the zero time.
abbrev pub unix_milli : ℤ → Time
unix_milli (pos n) = unix_epoch + n * 1_000_000
unix_milli (negsuc n) = unix_epoch - suc n * 1_000_000

abbrev pub to_unix_milli : Time → ℤ
to_unix_milli t = sub_ℕ (t / 1_000_000) (unix_epoch / 1_000_000)

unfoldable pub min_time : Time → Time → Time
min_time a b = if is_zero a then b else if is_zero b then a else if before a b then a else b

-- Duration.Seconds, which truncates towards zero, over 60.0
module _ {F : Type 0} ⦃d : Float64 F⦄ where
  open d use {of_ℕ, add, div}

  seconds : ℤ → F
  seconds (pos n) = add (of_ℕ (n / second)) (div (of_ℕ (n % second)) (of_ℕ second))
  seconds (negsuc n) =
      add (of_ℤ (sub_ℕ 0 (suc n / second))) (div (of_ℤ (sub_ℕ 0 (suc n % second))) (of_ℕ second))

  -- `b.Sub(a).Seconds() / 60.0`
  unfoldable pub minutes_between : Time → Time → F
  unfolding seconds
  minutes_between a b = div (seconds (sub_ℕ b a)) (of_ℕ 60)

pub record Civil : Type 0 where
  pub year : ℕ
  pub month : ℕ
  pub day : ℕ
  pub hour : ℕ
  pub min : ℕ
  pub sec : ℕ

-- *time.Location: `civil` is what `In(loc)` shows, `date` is `time.Date(..., 0, loc)`.
-- `weekday` counts from Sunday, as time.Weekday does.
pub record Location : Type 0 where
  pub civil : Time → Civil
  pub date : Civil → Time
  pub weekday : Time → ℕ
  -- `AddDate(0, 0, -n)`
  pub days_back : ℕ → Time → Time

digit : ℕ → String
digit zero = "0"
digit (suc zero) = "1"
digit (suc (suc zero)) = "2"
digit (suc (suc (suc zero))) = "3"
digit (suc (suc (suc (suc zero)))) = "4"
digit (suc (suc (suc (suc (suc zero))))) = "5"
digit (suc (suc (suc (suc (suc (suc zero)))))) = "6"
digit (suc (suc (suc (suc (suc (suc (suc zero))))))) = "7"
digit (suc (suc (suc (suc (suc (suc (suc (suc zero)))))))) = "8"
digit _ = "9"

decimal_from : ℕ → ℕ → String → String
decimal_from zero n rest = rest
decimal_from (suc fuel) n rest =
    let more = decimal_from fuel (n / 10) (digit (n % 10) ++ rest) in
    if n / 10 == 0 then digit (n % 10) ++ rest else more

-- `%d` of a number that is not negative. It has no more digits than it has units.
unfoldable pub decimal : ℕ → String
unfolding decimal_from digit
decimal n = decimal_from (suc n) n ""

unfoldable pub pad2 : ℕ → String
unfolding digit
pad2 n = digit (n / 10 % 10) ++ digit (n % 10)

-- Format("15:04:05"), Format("15:04") and Format("2006-01-02")
unfoldable pub clock_hms : Location → Time → String
unfolding pad2
clock_hms loc t = let c = loc.civil t in pad2 c.hour ++ (":" ++ (pad2 c.min ++ (":" ++ pad2 c.sec)))

unfoldable pub clock_hm : Location → Time → String
unfolding pad2
clock_hm loc t = let c = loc.civil t in pad2 c.hour ++ (":" ++ pad2 c.min)

unfoldable pub date_iso : Location → Time → String
unfolding pad2
date_iso loc t =
    let c = loc.civil t in
    pad2 (c.year / 100) ++ (pad2 (c.year % 100) ++ ("-" ++ (pad2 c.month ++ ("-" ++ pad2 c.day))))

unfoldable pub stamp : Location → Time → String
unfolding date_iso clock_hms
stamp loc t = date_iso loc t ++ (" " ++ clock_hms loc t)

is_digit : ℕ → Bool
is_digit c = leb b'0' c && leb c b'9'

-- fmt.Sscanf with "%d:%d:%d": the three numbers, each 0 from the first that does not parse on.
-- A sign, which no configuration of the program uses, counts as a character that does not parse.
number : String → ℕ → Bool → Option (ℕ × String)
unfolding is_digit
number String.[] n seen = if seen then some (n, String.[]) else none
number (String.◌∷◌ c s) n seen =
    let rest = number s (n * 10 + (code c - b'0')) true in
    if is_digit (code c) then rest else if seen then some (n, String.◌∷◌ c s) else none

colon : String → Option String
colon String.[] = none
colon (String.◌∷◌ c s) = if code c == b':' then some s else none

unfoldable pub scan_hms : String → ℕ × ℕ × ℕ
unfolding number colon
scan_hms s = elim (number s 0 false) [
  | none ↦ (0, 0, 0)
  | some (hh, r) ↦ elim (colon r) [
    | none ↦ (hh, 0, 0)
    | some r' ↦ elim (number r' 0 false) [
      | none ↦ (hh, 0, 0)
      | some (mm, q) ↦ elim (colon q) [
        | none ↦ (hh, mm, 0)
        | some q' ↦ elim (number q' 0 false) [ none ↦ (hh, mm, 0) | some (ss, _) ↦ (hh, mm, ss) ]
      ]
    ]
  ]
]

-- `atTime` and `atTimeInLoc`: the hour of `hms` on the day that `loc` shows at `now`.
unfoldable pub at_time : Location → Time → String → Time
at_time loc now hms =
    let (hh, mm, ss) = scan_hms hms in
    loc.date (record (loc.civil now) { hour = hh; min = mm; sec = ss })

unfoldable pub date_only : Location → Time → Time
date_only loc t = loc.date (record (loc.civil t) { hour = 0; min = 0; sec = 0 })

unfoldable pub same_day : Location → Time → Time → Bool
same_day loc a b =
    let x = loc.civil a in
    let y = loc.civil b in (x.year == y.year) && ((x.month == y.month) && (x.day == y.day))

-- `%d` of UnixNano. The times that the program prints lie between 1678 and 2262, where UnixNano
-- does not overflow.
unfoldable pub unix_nano : Time → String
unfolding decimal
unix_nano t = if ltb t unix_epoch then "-" ++ decimal (unix_epoch - t) else decimal (t - unix_epoch)
