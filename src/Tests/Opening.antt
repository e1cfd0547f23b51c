-- ===== src/Tests/Opening.antt =====
-- The theorems about the watchlist, the bars, the selection and the VWAP, at small inputs.
use market_hacker.Base.{
  ◌≡◌, ◌≢◌, ◌⊎◌, refl, String, true, false, not, ◌||◌, Option, none, some, List, [], ◌∷◌, ℕ, zero,
  suc, pos, ok, err, Result, All, map, keep_if, take, lookup,
}
use mathlib.Core.List.{Perm}
use market_hacker.Float.Fixed.{Fixed, fixed_float, cents, Fixed-IsIeee}
use market_hacker.Store.{TickerState, get_ticker}
use market_hacker.Rest.{Fetched, Agg, LowBars, min_low_and_last_close, low_bars, low_bar}
use market_hacker.Rest.Lows.{Lowest, min_low_and_last_close-Lowest}
use market_hacker.Nato.{map_upper}
use market_hacker.Watchlist.{Symbol, load, clean, is_blank, seen_in}
use market_hacker.Watchlist.Distinct.{distinct, Listed, load_lists_each_once}
use market_hacker.Engine.{
  RestTrade, replay, select_candidates_at0935, average, avg_prev_sessions_open5m_vol,
}
use market_hacker.Engine.Sessions.{valid_days, avg_prev_sessions_recent}
use market_hacker.Engine.Selection.{qualifies_in, select_candidates_exact}
use market_hacker.Engine.Vwap.{Averages}
use market_hacker.Engine.Vwap.Replays.{replayed, replay-Averages}
use market_hacker.Tests.Sample.{at, session, engine, ready, long, store_with}

abbrev bar : ℕ → Agg Fixed
bar low = record {
  open_price = cents 1000;
  high = cents 1100;
  low = cents low;
  close = cents 1050;
  volume = cents 500;
}

abbrev bars : Fetched (Agg Fixed)
bars = record { items = bar 980 ∷ bar 0 ∷ bar 950 ∷ bar 970 ∷ []; error = none }

abbrev lows : LowBars Fixed
lows = record { min_low = cents 950; min_low_time = at 9 37; last_close = cents 1050 }

finds_lows : min_low_and_last_close (at 9 35) bars ≡ ok (some lows)
unfolding min_low_and_last_close low_bars low_bar
finds_lows = refl

min_low_and_last_close-Lowest_example : Lowest (at 9 35) bars.items lows
min_low_and_last_close-Lowest_example =
    min_low_and_last_close-Lowest Fixed-IsIeee (at 9 35) bars lows
      (refl, (refl, (refl, (refl, tt)))) finds_lows

abbrev file : List Symbol
file = (b' ' ∷ b'a' ∷ []) ∷ (b'B' ∷ []) ∷ [] ∷ (b'A' ∷ []) ∷ []

load_lists_each_once_example :
    (ws : List Symbol) × (load map_upper (ok file) ≡ ok ws)
    × (distinct ws ≡ true)
    × All (λ s. is_blank s ≡ false) ws
    × All (Listed map_upper ws) file
    × ((not (seen_in ws (b'C' ∷ [])) || seen_in (map (clean map_upper) file) (b'C' ∷ [])) ≡ true)
load_lists_each_once_example = load_lists_each_once map_upper file (b'C' ∷ [])

select_candidates_exact_example :
    Perm
      (select_candidates_at0935 engine (at 9 35) (store_with ready)).0
      (keep_if (qualifies_in (store_with ready).filters (store_with ready)) ("AAPL" ∷ "MSFT" ∷ []))
select_candidates_exact_example = select_candidates_exact engine (at 9 35) (store_with ready)

abbrev volumes : ℕ → Result (Option Fixed)
volumes zero = ok none
volumes (suc zero) = ok (some (cents 1000))
volumes (suc (suc zero)) = err "timeout"
volumes (suc (suc (suc _))) = ok none

avg_prev_sessions_recent_example :
    let vols = take 3 (valid_days volumes 1 5) in
    ((vols ≡ []) × ((m : String) × (avg_prev_sessions_open5m_vol volumes (pos 3) (pos 5) ≡ err m)))
    ⊎ ((vols ≢ []) × (avg_prev_sessions_open5m_vol volumes (pos 3) (pos 5) ≡ ok (average vols)))
avg_prev_sessions_recent_example = avg_prev_sessions_recent volumes 3 5

abbrev early : List (RestTrade Fixed)
early =
    record {
      sip_timestamp = at 9 31;
      participant_timestamp = 0;
      trf_timestamp = 0;
      price = cents 1000;
      size = cents 10_000;
    }
    ∷ record {
      sip_timestamp = at 9 32;
      participant_timestamp = 0;
      trf_timestamp = 0;
      price = cents 1020;
      size = cents 10_000;
    }
    ∷ []

still_holds_ready : get_ticker "AAPL" (store_with ready) ≡ some ready
unfolding get_ticker lookup
still_holds_ready = refl

replay-Averages_example :
    (t' : TickerState Fixed) × (get_ticker "AAPL"
        (replay engine session "AAPL" true early (store_with ready))
      ≡ some t')
    × Averages (replayed session early) ready t'
replay-Averages_example =
    replay-Averages Fixed-IsIeee engine session "AAPL" true early (store_with ready) ready refl
      still_holds_ready (refl, (refl, tt)) refl

still_holds_long : get_ticker "AAPL" (store_with long) ≡ some long
unfolding get_ticker lookup
still_holds_long = refl
