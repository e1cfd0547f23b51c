-- ===== src/Tests/Web.antt =====
-- The chart and the hub of the server, at concrete inputs.
use market_hacker.Base.{refl, ◌≡◌, ◌≤◌, ℕ, true, none, some, List, [], ◌∷◌, arith}
use market_hacker.Float.Fixed.{Fixed, fixed_float, cents}
use market_hacker.Clock.{Time, minute, at_time, scan_hms}
use market_hacker.Server.{
  ChartQuery, handle_chart_bars, HubEvent, joins, leaves, reads, sends, hub_steps, register, Client,
}
use market_hacker.Server.ChartTimes.{Timed, handle_chart_bars-Timed}
use market_hacker.Server.HubOrder.{Received, find, hub_serves}
use market_hacker.Rest.{Agg}
use market_hacker.Tests.Sample.{at, utc, config}

-- What follows when the client 1 has joined: it reads once, and another one comes and goes.
abbrev visit : List (HubEvent ℕ)
visit = sends 7 ∷ joins 2 ∷ sends 8 ∷ reads 1 ∷ leaves 2 ∷ sends 9 ∷ []

hub_serves_example :
    (c : Client ℕ) × ((find 1 (hub_steps visit (register 1 [])) ≡ some c)
      × Received (7 ∷ 8 ∷ 9 ∷ []) c)
hub_serves_example = hub_serves 1 visit [] refl

abbrev one_bar : Agg Fixed
one_bar = record {
  open_price = cents 1000;
  high = cents 1010;
  low = cents 990;
  close = cents 1000;
  volume = cents 100;
}

abbrev query : ChartQuery
query = record { is_get = true; symbol = "AAPL"; date = "2023-12-09" }

opens_late : (day : Time) → minute ≤ at_time utc day "09:30:00"
unfolding at_time scan_hms
opens_late day = omega arith

handle_chart_bars-Timed_example : Timed (
    handle_chart_bars config utc
      (λ date. some (at 0 0))
      (λ name from to. record { items = one_bar ∷ one_bar ∷ []; error = none })
      "key"
      (at 12 0)
      query)
handle_chart_bars-Timed_example =
    handle_chart_bars-Timed config utc (λ date. some (at 0 0))
      (λ name from to. record { items = one_bar ∷ one_bar ∷ []; error = none }) "key" (at 12 0)
      query opens_late
