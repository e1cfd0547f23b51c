-- ===== src/Session/DayVwap/AllTrades.antt =====
-- The seed and the replay of a day ask for ranges of trades that meet.
use mathlib.Core.List.{Perm}
use market_hacker.Base.{
  ◌≤◌, ◌≡◌, String, Bool, true, false, some, List, [], ◌∷◌, ◌++◌, All, keep_if, if_kept, str_eq,
  Dict, contains,
}
use market_hacker.Float.{Float64, IsIeee}
use market_hacker.Clock.{Time}
use market_hacker.Store.{TickerState, Times, Store, get_ticker}
use market_hacker.Engine.{Engine, RestTrade, Open5mMetric}
use market_hacker.Engine.Requests.Ranges.{in_range, Answers, answered, ranges_meet}
use market_hacker.Engine.Vwap.{Averages, seeded}
use market_hacker.Engine.Vwap.Replays.{replayed}
use market_hacker.Engine.Tracked.Maps.{once}
use market_hacker.Session.Feeds.{trades_of, Feeds}
use market_hacker.Session.Historic.{replay_day}
use market_hacker.Session.DayVwap.{replay_day-Averages}

module _ {F : Type 0} ⦃d : Float64 F⦄ (e : Engine F) (j : String) (ieee : IsIeee F) where
  open d use {nought, le}

  abbrev pub Number : RestTrade F → Type 0
  Number tr = le tr.size tr.size ≡ true

  keep_if-Number :
      (p : RestTrade F → Bool) (trs : List (RestTrade F))
      → All Number trs
      → All Number (keep_if p trs)
  keep_if-Number p [] h = tt
  keep_if-Number p (tr ∷ trs) (h, hs) =
      let rest = keep_if-Number p trs hs in if_kept (All Number) (p tr) _ _ (h, rest) rest

  trades-Number :
      (feeds : Feeds F) (all : List (RestTrade F)) (start end_ny : Time)
      → Answers feeds.client j all
      → All Number all
      → All Number (trades_of feeds j start end_ny).items
  trades-Number feeds all start end_ny answers numbers =
      rw (answered feeds.client j all start end_ny answers)
        (keep_if-Number (in_range start end_ny) all numbers)

  -- Over the replay of a day, for a candidate that the store holds, where no candidate stands twice and
  -- the workers answer for all of them, where the service answers each request for the candidate with
  -- those of a list of trades that the request asks for, with no NaN among their sizes, and the times
  -- are in order: the seed is given some of the trades and the replay others, which are together
  -- exactly the trades from the open to the end, each of them once, and its VWAP at the end is the
  -- quotient of the value and the volume of those that count and of what was there before; or the old
  -- one where none counts.
  pub replay_day_counts_once :
      (feeds : Feeds F) (day : Time) (w : Times) (end_ny : Time) (metrics : Dict (Open5mMetric F))
      (candidates : List String) (s : Store F) (t : TickerState F) (all : List (RestTrade F))
      → str_eq j "" ≡ false
      → once candidates ≡ true
      → ((name : String) → contains name (feeds.shuffle 2 candidates) ≡ contains name candidates)
      → contains j candidates ≡ true
      → get_ticker j s ≡ some t
      → Answers feeds.client j all
      → All Number all
      → w.open_ny ≤ w.sel_ny
      → w.sel_ny ≤ end_ny
      → le nought t.cum_v ≡ true
      → (before : List (RestTrade F)) × (after : List (RestTrade F)) × Perm
          (before ++ after)
          (keep_if (in_range w.open_ny end_ny) all)
        × (t' : TickerState F) × (get_ticker j
              (replay_day e feeds day w end_ny metrics candidates s)
            ≡ some t')
        × Averages (seeded before ++ replayed (record w { exit_ny = end_ny }) after) t t'
  replay_day_counts_once feeds day w end_ny metrics candidates s t all named distinct all_answer
        listed here answers numbers early late nonneg =
      let (t', there, averages) =
        replay_day-Averages e j ieee feeds day w end_ny metrics candidates s t named distinct
          all_answer listed here (trades-Number feeds all w.open_ny w.sel_ny answers numbers)
          (trades-Number feeds all w.sel_ny end_ny answers numbers) nonneg in
      (
        (trades_of feeds j w.open_ny w.sel_ny).items,
        (trades_of feeds j w.sel_ny end_ny).items,
        rw
            (
              answered feeds.client j all w.open_ny w.sel_ny answers,
              answered feeds.client j all w.sel_ny end_ny answers,
            )
            (ranges_meet all w.open_ny w.sel_ny end_ny early late),
        t',
        there,
        averages,
      )
