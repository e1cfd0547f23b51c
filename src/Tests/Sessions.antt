-- ===== src/Tests/Sessions.antt =====
-- The theorems about the tracking, the end of a live session, a day's VWAP and the audio, at small
-- inputs.
use Prim.Native.String.{◌++◌ as glue}
use mathlib.Core.Option
use mathlib.Core.List.{Perm}
use market_hacker.Base.{
  ◌≡◌, List, none, refl, String, false, some, [], ◌∷◌, ◌++◌, keep_if, ok, contains, lookup, arith,
}
use market_hacker.Float.Fixed.{Fixed, fixed_float, Fixed-IsIeee}
use market_hacker.Clock.{minutes_between}
use market_hacker.Session.Feeds.{Feeds, trades_of}
use market_hacker.Store.{Event, add_event, TickerState, Store, get_ticker, new_ticker, closed}
use market_hacker.Engine.{
  RestTrade, track_excursions, drops, record_trade, accumulate, entry_refused, detects, crosses,
  build_tracked_states, say, emit,
}
use market_hacker.Session.Feeds.{trade, forced_exit, noticed, live_loop}
use market_hacker.Session.{replay_day}
use market_hacker.Session.LiveEnd.{trade_after_exit_stays_open}
use market_hacker.Session.Completes.{flat}
use market_hacker.Speech.{TtsClient, new_tts_client, synthesize, enabled, hex, text_at}
use market_hacker.Server.{handle_audio, get_method, head_method, audio_bytes, audio_head}
use market_hacker.Server.Audio.Served.{announced_audio_served}
use market_hacker.Engine.Requests.{RestClient, list_trades}
use market_hacker.Engine.Requests.Ranges.{in_range}
use market_hacker.Engine.Tracked.{tracked_ticker, build_tracked_states_exact}
use market_hacker.Session.DayVwap.{replay_day-Averages}
use market_hacker.Session.DayVwap.AllTrades.{replay_day_counts_once}
use market_hacker.Engine.Vwap.{Averages, seeded}
use market_hacker.Engine.Vwap.Replays.{replayed}
use market_hacker.Tests.Sample.{at, session, engine, ready, store_with}
use market_hacker.Tests.WholeDays.{tick, past_day, sold_at, morning}

trade_after_exit_stays_open_example :
    let p =
      live_loop engine session
        (forced_exit ∷ trade (tick 36 1020) ∷ noticed ∷ [])
        (store_with ready) in
    (p.0.phase ≡ closed) × (flat engine (get_ticker "AAPL" p.0) ≡ false)
unfolding drops record_trade accumulate track_excursions minutes_between entry_refused detects
    crosses get_ticker lookup
trade_after_exit_stays_open_example =
    trade_after_exit_stays_open engine session (tick 36 1020) [] (store_with ready) ready refl refl
      refl refl refl refl refl

-- Two candidates that answer in the other order, and a ticker that is none.
abbrev two_tickers : Store Fixed
two_tickers = record (store_with ready) {
  tickers = ("AAPL", ready) ∷ ("MSFT", new_ticker "MSFT") ∷ ("NVDA", new_ticker "NVDA") ∷ [];
}

same_names :
    (name : String) → contains name ("MSFT" ∷ "AAPL" ∷ []) ≡ contains name ("AAPL" ∷ "MSFT" ∷ [])
same_names name = ground arith

build_tracked_states_exact_example :
    let trades = λ (name : String). trades_of past_day name (at 9 30) (at 9 35) in
    lookup "AAPL"
      (build_tracked_states engine
        (past_day.volumes (at 9 30))
        trades
        (at 9 35)
        session
        ("AAPL" ∷ "MSFT" ∷ [])
        ("MSFT" ∷ "AAPL" ∷ [])
        two_tickers).1
    ≡ Option.map
        (tracked_ticker engine
          (past_day.volumes (at 9 30))
          trades
          (at 9 35)
          session
          "AAPL"
          two_tickers)
        (get_ticker "AAPL" two_tickers)
build_tracked_states_exact_example =
    build_tracked_states_exact engine (past_day.volumes (at 9 30))
      (λ name. trades_of past_day name (at 9 30) (at 9 35)) (at 9 35) session "AAPL"
      ("AAPL" ∷ "MSFT" ∷ []) ("MSFT" ∷ "AAPL" ∷ []) two_tickers refl same_names

replay_day-Averages_example :
    (t' : TickerState Fixed) × (get_ticker "AAPL" (
        replay_day engine past_day (at 0 0) session (at 11 0) [] ("AAPL" ∷ "MSFT" ∷ []) two_tickers)
      ≡ some t')
    × Averages (seeded (sold_at (at 9 30)) ++ replayed session (sold_at (at 9 35))) ready t'
unfolding list_trades get_ticker lookup
replay_day-Averages_example =
    replay_day-Averages engine "AAPL" Fixed-IsIeee past_day (at 0 0) session (at 11 0) []
      ("AAPL" ∷ "MSFT" ∷ []) two_tickers ready refl refl (λ name. refl) refl refl (refl, (refl, tt))
      (refl, (refl, tt)) refl

abbrev all_trades : List (RestTrade Fixed)
all_trades = sold_at (at 9 30) ++ sold_at (at 9 35)

abbrev client : RestClient Fixed
client = record {
  list_aggs = λ p. record { items = []; error = none };
  list_trades = λ p. record {
    items = keep_if (in_range p.timestamp_gte p.timestamp_lt) all_trades;
    error = none;
  };
}

abbrev served_day : Feeds Fixed
served_day = record past_day { client = client }

replay_day_counts_once_example :
    (before : List (RestTrade Fixed)) × (after : List (RestTrade Fixed)) × Perm
      (before ++ after)
      (keep_if (in_range (at 9 30) (at 11 0)) all_trades)
    × (t' : TickerState Fixed) × (get_ticker "AAPL" (
          replay_day engine served_day
            (at 0 0)
            session
            (at 11 0)
            []
            ("AAPL" ∷ "MSFT" ∷ [])
            two_tickers)
        ≡ some t')
    × Averages (seeded before ++ replayed session after) ready t'
unfolding get_ticker lookup
replay_day_counts_once_example =
    replay_day_counts_once engine "AAPL" Fixed-IsIeee served_day (at 0 0) session (at 11 0) []
      ("AAPL" ∷ "MSFT" ∷ []) two_tickers ready all_trades refl refl (λ name. refl) refl refl
      (λ p named. refl) (refl, (refl, (refl, (refl, tt)))) (omega arith) (omega arith) refl

abbrev speaker : TtsClient
speaker =
    new_tts_client "key" "tts-1" "alloy" "mp3"
      (λ request. ok (record { status_code = 200; excerpt = ""; body = ok (1 ∷ 2 ∷ []) }))
      (λ text. 171 ∷ 7 ∷ [])

speaks : synthesize speaker "Buy. alpha" ≡ ok ("ab07", 1 ∷ 2 ∷ [])
unfolding synthesize hex text_at
speaks = refl

announced_audio_served_example :
    let e = record engine { tts = some speaker } in
    let (s1, audio) = say e "Buy. alpha" morning in
    let s2 = emit e (at 9 36) "BUY" "A" "BUY A (alpha)" audio "signal" s1 in
    (ev : Event) × (s2 ≡ add_event ev s1)
    × (ev.symbol ≡ "A")
    × (ev.message ≡ "BUY A (alpha)")
    × (let path = glue "/api/audio/" (glue ev.audio_id ".mp3") in
        (handle_audio (λ t. t) get_method path s2 ≡ audio_bytes (1 ∷ 2 ∷ []))
        × (handle_audio (λ t. t) head_method path s2 ≡ audio_head))
unfolding enabled
announced_audio_served_example =
    announced_audio_served (record engine { tts = some speaker }) (λ t. t) (λ t seen. refl) speaker
      (at 9 36) "BUY" "A" "BUY A (alpha)" "signal" "Buy. alpha" "ab07" 1 (2 ∷ []) morning refl refl
      speaks
