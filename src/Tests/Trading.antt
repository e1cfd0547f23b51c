-- ===== src/Tests/Trading.antt =====
-- The theorems about trades, at the sample session.
use market_hacker.Base.{◌≡◌, refl, true, some, List, [], ◌∷◌, lookup}
use market_hacker.Float.Fixed.{Fixed, fixed_float, cents}
use market_hacker.Clock.{unix_milli, minutes_between}
use market_hacker.Store.{TickerState, Store, get_ticker}
use market_hacker.Engine.{
  process_trade, drops, record_trade, hits_profit, hits_stop, entry_refused, detects, crosses,
  accumulate, track_excursions, enter, leave, EquityTrade, RestTrade, feed, on_eleven_am, track_max,
  track_min,
}
use market_hacker.Engine.Refine.{outcome, settle, managed, process_trade_refines}
use market_hacker.Engine.Decisions.{
  Bought, Sold, process_trade_buys_soundly, process_trade_sells_soundly, process_trade_closes,
  process_trade_opens,
}
use market_hacker.Engine.Lifecycle.{Later, feed_progress}
use market_hacker.Engine.Closing.{closed, on_eleven_am_closes}
use market_hacker.Tests.Sample.{at, millis_at, session, engine, ready, long, store_with}

abbrev flat_store : Store Fixed
flat_store = store_with ready

abbrev long_store : Store Fixed
long_store = store_with long

abbrev bought : TickerState Fixed
bought =
    outcome engine flat_store.filters (at 9 30) session (unix_milli (millis_at 9 36)) (cents 1050)
      (cents 10_000) true ready

abbrev sold : TickerState Fixed
sold =
    outcome engine long_store.filters (at 9 30) session (unix_milli (millis_at 9 40)) (cents 1060)
      (cents 10_000) true long

holds_ready : get_ticker "AAPL" flat_store ≡ some ready
unfolding get_ticker lookup
holds_ready = refl

holds_long : get_ticker "AAPL" long_store ≡ some long
unfolding get_ticker lookup
holds_long = refl

is_bought : bought.has_position ≡ true
unfolding outcome settle drops entry_refused detects crosses record_trade accumulate
    track_excursions minutes_between enter
is_bought = refl

is_sold : sold.exited ≡ true
unfolding outcome settle managed drops detects crosses record_trade accumulate track_excursions
    minutes_between leave hits_profit track_max track_min
is_sold = refl

process_trade_refines_example :
    get_ticker "AAPL" (
      process_trade engine session "AAPL"
        (millis_at 9 36)
        (cents 1050)
        (cents 10_000)
        true
        flat_store)
    ≡ some bought
process_trade_refines_example =
    process_trade_refines engine session "AAPL" (millis_at 9 36) (cents 1050) (cents 10_000) true
      flat_store ready refl holds_ready

process_trade_buys_soundly_example :
    Bought engine flat_store session
      (unix_milli (millis_at 9 36))
      (cents 1050)
      (cents 10_000)
      true
      ready
      bought
process_trade_buys_soundly_example =
    process_trade_buys_soundly engine session "AAPL" (millis_at 9 36) (cents 1050) (cents 10_000)
      true flat_store ready bought refl holds_ready process_trade_refines_example refl is_bought

process_trade_sells_soundly_example :
    Sold engine (cents 1060) (unix_milli (millis_at 9 40)) true long sold
process_trade_sells_soundly_example =
    process_trade_sells_soundly engine session "AAPL" (millis_at 9 40) (cents 1060) (cents 10_000)
      true long_store long sold refl holds_long
      (process_trade_refines engine session "AAPL" (millis_at 9 40) (cents 1060) (cents 10_000) true
        long_store long refl holds_long)
      refl is_sold

process_trade_opens_example :
    (t' : TickerState Fixed) × (get_ticker "AAPL" (
        process_trade engine session "AAPL"
          (millis_at 9 36)
          (cents 1050)
          (cents 10_000)
          true
          flat_store)
      ≡ some t')
    × (t'.has_position ≡ true)
    × (t'.entry_price ≡ cents 1050)
unfolding drops entry_refused record_trade accumulate track_excursions minutes_between detects
    crosses
process_trade_opens_example =
    process_trade_opens engine session "AAPL" (millis_at 9 36) (cents 1050) (cents 10_000)
      flat_store ready refl holds_ready refl refl refl refl refl

process_trade_closes_example :
    get_ticker "AAPL" (
      process_trade engine session "AAPL"
        (millis_at 9 40)
        (cents 970)
        (cents 10_000)
        true
        long_store)
    ≡ some (
        leave
          (at 9 30)
          (unix_milli (millis_at 9 40))
          "STOP"
          (cents 970)
          (record_trade (at 9 30) (unix_milli (millis_at 9 40)) (cents 970) (cents 10_000) long))
unfolding drops hits_profit hits_stop
process_trade_closes_example =
    process_trade_closes engine session "AAPL" (millis_at 9 40) (cents 970) (cents 10_000)
      long_store long refl holds_long refl refl refl refl

abbrev messages : List (EquityTrade Fixed)
messages =
    record { symbol = "AAPL"; timestamp = millis_at 9 36; price = cents 1050; size = 100 }
    ∷ record { symbol = "AAPL"; timestamp = millis_at 9 38; price = cents 1200; size = 100 }
    ∷ []

abbrev rest_trades : List (RestTrade Fixed)
rest_trades =
    record {
      sip_timestamp = at 9 36;
      participant_timestamp = 0;
      trf_timestamp = 0;
      price = cents 1050;
      size = cents 10_000;
    }
    ∷ []

feed_progress_example :
    (t' : TickerState Fixed) × (get_ticker "AAPL" (feed engine session messages long_store)
      ≡ some t')
    × Later long t'
feed_progress_example = feed_progress engine session messages long_store "AAPL" long holds_long

on_eleven_am_closes_example :
    get_ticker "AAPL" (on_eleven_am engine (at 11 0) long_store)
    ≡ some (closed engine (at 9 30) (at 11 0) long)
on_eleven_am_closes_example = on_eleven_am_closes engine (at 11 0) "AAPL" long_store long holds_long
