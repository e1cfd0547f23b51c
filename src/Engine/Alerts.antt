-- ===== src/Engine/Alerts.antt =====
-- `emit` and `say` of engine.go.
use Prim.Native.String.{◌++◌}
use market_hacker.Base.{String, none, some, not, if◌then◌else◌, ok, err}
use market_hacker.Clock.{Time, clock_hms, unix_nano}
use market_hacker.Store.{Event, Store, add_event, store_audio}
use market_hacker.Speech.{enabled, synthesize}
use market_hacker.Engine.Types.{Engine}

module _ {F : Type 0} where
  unfoldable pub event : Engine F → Time → String → String → String → String → String → Event
  event e ts typ sym msg audio_id level = record {
    id = unix_nano ts ++ ("-" ++ (typ ++ ("-" ++ sym)));
    time_ny = clock_hms e.loc ts;
    type = typ;
    symbol = sym;
    message = msg;
    audio_id = audio_id;
    level = level;
  }

  unfoldable pub emit :
      Engine F → Time → String → String → String → String → String → Store F → Store F
  emit e ts typ sym msg audio_id level s = add_event (event e ts typ sym msg audio_id level) s

  -- Returns the audio id, which is empty where there is no audio.
  unfoldable pub say : Engine F → String → Store F → Store F × String
  say e text s = elim e.tts [
    | none ↦ (s, "")
    | some c ↦ if not (enabled c) then (s, "") else elim (synthesize c text) [
      | err _ ↦ (s, "")
      | ok (id, bytes) ↦ (store_audio id bytes s, id)
    ]
  ]
