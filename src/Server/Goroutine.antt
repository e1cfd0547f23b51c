-- ===== src/Server/Goroutine.antt =====
-- The goroutine that `historicRunLoop` of internal/server/api.go starts for a day.
use Prim.Native.String.{◌++◌}
use market_hacker.Base.{Bool, String, none, some, if◌then◌else◌}
use market_hacker.Float.{Float64}
use market_hacker.Clock.{Time, Location, date_only, clock_hms, unix_nano}
use market_hacker.Store.{Event, Store, add_event}
use market_hacker.Engine.{Engine}
use market_hacker.Session.Feeds.{Feeds}
use market_hacker.Session.{run_historic_for_date}

-- The event for a run that failed.
unfoldable pub failure_event : Location → Time → String → Event
failure_event loc now m = record {
  id = unix_nano now ++ "-SYSTEM-historic";
  time_ny = clock_hms loc now;
  type = "SYSTEM";
  symbol = "";
  message = "Historic run failed: " ++ m;
  audio_id = "";
  level = "warn";
}

-- `cancelled` is whether the run's context is done when the run has failed.
unfoldable pub historic_run :
    {F : Type 0} ⦃d : Float64 F⦄
    → Engine F
    → Location
    → Feeds F
    → Bool
    → Time
    → Time
    → Store F
    → Store F
unfolding failure_event
historic_run e loc feeds cancelled now day s =
    let (s1, failure) = run_historic_for_date e feeds (date_only loc day) s in
    elim failure [
      | none ↦ s1
      | some m ↦ if cancelled then s1 else add_event (failure_event loc now m) s1
    ]
