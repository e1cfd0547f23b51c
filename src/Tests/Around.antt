-- ===== src/Tests/Around.antt =====
-- The theorems about the configuration, the store, the report and the server, at the sample session.
use market_hacker.Base.{
  ◌+◌, ◌≤◌, ◌≡◌, ◌↔◌, ◌⊎◌, refl, String, true, false, none, some, List, [], ◌∷◌, Result, ok, length,
  map, keep_if, not,
}
use mathlib.Core.List.{Perm}
use market_hacker.Float.Fixed.{Fixed, fixed_float, cents, Fixed-IsIeee}
use market_hacker.Config.{
  load, apply_defaults, validate, validate_filters, or_text, or_port, or_count, or_float,
}
use market_hacker.Config.Checks.{IsLoaded, load-IsLoaded}
use market_hacker.Store.{
  RuntimeFilters, Event, Store, ticker_states, update_filters, runtime_filters_from_config,
  validate_runtime_filters,
}
use market_hacker.Store.Ring.{add_events, add_events_keeps_newest}
use market_hacker.Store.Update.{update_filters_atomic, runtime_validation_is_stricter}
use market_hacker.Report.{build_historic_report, historic_trade, historic_no_entry}
use market_hacker.Report.Counts.{bought, report_accounts}
use market_hacker.Nato.{parts}
use market_hacker.Nato.Decode.{letters, known, letters-parts}
use market_hacker.Server.{
  RunLoop, Reach, here, next, request, start, queue_historic_run, PumpState, pump_tick,
}
use market_hacker.Server.OneRun.{initial, alive, one_run_at_a_time}
use market_hacker.Server.Delivery.{pump_stalls_when_full, pump_sends_new}
use market_hacker.Tests.Sample.{at, utc, session, config, engine, long, store_with}

is_accepted : load (ok config) ≡ ok config
unfolding load apply_defaults validate validate_filters or_text or_port or_count or_float
is_accepted = refl

load-IsLoaded_example : IsLoaded config
load-IsLoaded_example = load-IsLoaded Fixed-IsIeee (ok config) config is_accepted

abbrev numbered : String → Event
numbered n = record {
  id = n;
  time_ny = "09:36:00";
  type = "SYSTEM";
  symbol = "";
  message = n;
  audio_id = "";
  level = "info";
}

abbrev four : List Event
four = numbered "1" ∷ numbered "2" ∷ numbered "3" ∷ numbered "4" ∷ []

add_events_keeps_newest_example :
    (add_events four (store_with long)).events ≡ numbered "2" ∷ numbered "3" ∷ numbered "4" ∷ []
add_events_keeps_newest_example = add_events_keeps_newest 2 four (store_with long) refl refl

abbrev raised : RuntimeFilters Fixed → Result (RuntimeFilters Fixed)
raised f = ok (record f { entry_price_max = cents 9000 })

update_filters_atomic_example :
    let r = update_filters raised (store_with long) in
    ((r.2 ≡ none)
      × (raised (store_with long).filters ≡ ok r.1)
      × (validate_runtime_filters r.1 ≡ none)
      × (r.0 ≡ record (store_with long) { filters = r.1 }))
    ⊎ (((m : String) × (r.2 ≡ some m))
        × (r.0 ≡ store_with long)
        × (r.1 ≡ (store_with long).filters))
update_filters_atomic_example = update_filters_atomic raised (store_with long)

runtime_validation_is_stricter_example :
    (validate_runtime_filters (runtime_filters_from_config config) ≡ none)
    ↔ ((validate_filters config.filters ≡ none) × (false ≡ false))
runtime_validation_is_stricter_example = runtime_validation_is_stricter config

report_accounts_example :
    let s = store_with long in
    let r = build_historic_report engine (at 0 0) session (at 11 0) s in
    Perm r.trades (map (historic_trade utc (at 11 0)) (keep_if bought (ticker_states s)))
    × Perm r.no_entries (
        map
          (historic_no_entry utc s.filters session)
          (keep_if (λ t. not (bought t)) (ticker_states s)))
    × (length r.trades + length r.no_entries ≡ length (ticker_states s))
    × (r.summary.candidates ≡ length (ticker_states s))
    × (r.summary.trades_taken ≡ length r.trades)
    × (r.summary.no_entry ≡ length r.no_entries)
    × (r.summary.wins + r.summary.losses ≡ r.summary.trades_taken)
    × (r.summary.time_exits ≤ r.summary.trades_taken)
report_accounts_example = report_accounts engine (at 0 0) session (at 11 0) (store_with long)

abbrev asked : RunLoop
asked = record initial { queue = some (at 0 0) }

abbrev started : RunLoop
started = record initial {
  running = true;
  runs = record { day = at 0 0; cancelled = false; done = false } ∷ [];
}

reaches_started : Reach initial started
unfolding queue_historic_run
reaches_started =
    next {m = asked} (next {m = initial} here (request initial (at 0 0)))
      (start asked (at 0 0) refl refl refl refl refl)

one_run_at_a_time_example : alive started.runs ≤ 1
one_run_at_a_time_example = one_run_at_a_time reaches_started

abbrev full_store : Store Fixed
full_store = record (store_with long) {
  session_id = "1";
  events = numbered "1" ∷ numbered "2" ∷ numbered "3" ∷ [];
}

abbrev caught_up : PumpState
caught_up = record { last_session = "1"; last_len = 3 }

pump_stalls_when_full_example :
    pump_tick (add_events (numbered "4" ∷ []) full_store) caught_up ≡ ([], caught_up)
pump_stalls_when_full_example =
    pump_stalls_when_full 2 (numbered "4" ∷ []) full_store caught_up refl refl refl refl

pump_sends_new_example :
    (pump_tick full_store (record { last_session = "1"; last_len = 1 })).0
    ≡ numbered "2" ∷ numbered "3" ∷ []
pump_sends_new_example =
    pump_sends_new full_store (record { last_session = "1"; last_len = 1 }) (numbered "1" ∷ [])
      (numbered "2" ∷ numbered "3" ∷ []) refl refl refl

letters-parts_example : letters (parts (b'B' ∷ b'-' ∷ b'9' ∷ [])) ≡ known (b'B' ∷ b'-' ∷ b'9' ∷ [])
letters-parts_example = letters-parts (b'B' ∷ b'-' ∷ b'9' ∷ [])
