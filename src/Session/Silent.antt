-- ===== src/Session/Silent.antt =====
-- Sessions without text to speech, which is how cmd/orb starts historic mode.
use market_hacker.Base.{
  ◌≡◌, refl, String, none, List, [], ◌∷◌, All, All-append, ℤ, leb_ℤ, pos, length, drop, if_kept,
}
use market_hacker.Float.{Float64}
use market_hacker.Clock.{Time}
use market_hacker.Store.{
  Event, Store, upsert_ticker, set_phase, set_times, set_tracked_tickers, set_historic_report,
  reset_for_historic_run, add_event, push_event,
}
use market_hacker.Engine.{Engine, emit, event, say}
use market_hacker.Session.Feeds.{Feeds}
use market_hacker.Session.Today.{run_historic_for_date}
use market_hacker.Session.Stable.{Stable}
use market_hacker.Session.Stable.Tracking.{Stable-Holds}
use market_hacker.Session.Holds.Edits.{edits_kept}
use market_hacker.Session.Holds.Today.{run_historic_kept}

abbrev WithoutAudio : Event → Type 0
WithoutAudio ev = ev.audio_id ≡ ""

All-drop1 : (evs : List Event) → All WithoutAudio evs → All WithoutAudio (drop 1 evs)
All-drop1 [] h = h
All-drop1 (ev ∷ evs) h = h.1

push_event-WithoutAudio :
    (cap : ℤ) (evs : List Event) (ev : Event)
    → All WithoutAudio evs
    → WithoutAudio ev
    → All WithoutAudio (push_event cap evs ev)
unfolding push_event
push_event-WithoutAudio cap evs ev h k =
    if_kept (All WithoutAudio) (leb_ℤ cap (pos (length evs))) _ _
      (All-append _ (drop 1 evs) _ (All-drop1 evs h) (k, tt)) (All-append _ evs _ h (k, tt))

module _ {F : Type 0} where
  unfoldable pub Silent : Store F → Type 0
  Silent s = (s.audio ≡ []) × All WithoutAudio s.events

  pub add_event-Silent :
      (ev : Event) (s : Store F) → ev.audio_id ≡ "" → Silent s → Silent (add_event ev s)
  unfolding add_event Silent
  add_event-Silent ev s mute h =
      (h.0, push_event-WithoutAudio s.cfg.ui.max_events s.events ev h.1 mute)

  emit-Silent :
      (e : Engine F) (ts : Time) (typ sym msg level : String) (s : Store F)
      → Silent s
      → Silent (emit e ts typ sym msg "" level s)
  unfolding emit event
  emit-Silent e ts typ sym msg level s h =
      add_event-Silent (event e ts typ sym msg "" level) s refl h

  pub say_mute :
      (e : Engine F) (text : String) (s : Store F) → e.tts ≡ none → say e text s ≡ (s, "")
  unfolding say
  say_mute e text s mute = rw mute

module _ {F : Type 0} ⦃d : Float64 F⦄ where
  Silent-Stable : (e : Engine F) → e.tts ≡ none → Stable e Silent
  unfolding upsert_ticker set_phase set_times set_tracked_tickers set_historic_report Silent
  Silent-Stable e mute = record {
    ticker = λ sym fn s h. h;
    alert = λ ts typ sym msg level text s h.
        rw (say_mute e text s mute) (emit-Silent e ts typ sym msg level s h);
    quiet = λ ts typ sym msg level s h. emit-Silent e ts typ sym msg level s h;
    phase = λ p s h. h;
    times = λ w s h. h;
    tracked = λ m s h. h;
    report = λ r s h. h;
  }

  pub run_historic-Silent :
      (e : Engine F) (feeds : Feeds F) (target_date : Time) (s : Store F)
      → e.tts ≡ none
      → Silent s
      → Silent (run_historic_for_date e feeds target_date s).0
  unfolding Silent reset_for_historic_run
  run_historic-Silent e feeds target_date s mute h =
      run_historic_kept (Stable-Holds (Silent-Stable e mute)) feeds target_date s
        (edits_kept Silent (λ f s h. h) feeds.live) (λ day. tt) (λ target day note. (refl, tt)) h
