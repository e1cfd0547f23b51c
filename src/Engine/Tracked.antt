-- ===== src/Engine/Tracked.antt =====
-- What `buildTrackedStates` makes of the candidates: of each one the same, whatever the order in which
-- the workers answer.
pub mod Maps
pub mod Keys
use Prim.Native.String.{◌++◌ as glue}
use market_hacker.Base.{
  ◌≡◌, refl, sym, ◌∙◌, ap, inl, inr, ℕ, String, Bool, true, false, not, ◌&&◌, ◌||◌, Option, none,
  some, List, [], ◌∷◌, arith, if◌then◌else◌, str_eq, str_eq_iff, Dict, lookup, upsert, contains,
  lookup-upsert, or_else, Bool-cases, Option-cases, Result, ok, err,
}
use mathlib.Core.Option
use market_hacker.Float.{Float64}
use market_hacker.Clock.{Time}
use market_hacker.Store.{TickerState, Times, Store, get_ticker, add_event}
use market_hacker.Rest.{Fetched}
use market_hacker.Engine.Types.{Engine}
use market_hacker.Engine.Alerts.{emit}
use market_hacker.Engine.Replay.{RestTrade}
use market_hacker.Engine.Tracking.{
  seed_vwap_from_trades, history_result, set_history, adjust, shallow_states, apply_history,
  seed_states, build_tracked_states,
}
use market_hacker.Engine.Tracked.Maps.{
  once, when, when_unset, when_again, when_idle, when_once, tracking, lookup-upsert_there,
  lookup-adjust, lookup-shallow_states,
}

module _ {F : Type 0} ⦃d : Float64 F⦄ (e : Engine F) where
  -- a ticker with the answer of its worker in it
  abbrev pub with_history : Result (F × F) → TickerState F → TickerState F
  with_history (err m) t = t
  with_history (ok (avg, pct)) t = set_history avg pct t

  with_history-again :
      (r : Result (F × F)) (t : TickerState F)
      → with_history r (with_history r t) ≡ with_history r t
  with_history-again (err m) t = refl
  with_history-again (ok (avg, pct)) t = refl

  module _ (fetch : String → ℕ → Result (Option F)) (trades : String → Fetched (RestTrade F))
      (now : Time) (w : Times) (j : String) where
    abbrev pub told : Store F → TickerState F → TickerState F
    told s t = with_history (history_result e fetch j s) t

    abbrev pub seeded_with : TickerState F → TickerState F
    seeded_with t = (seed_vwap_from_trades w.open_ny (trades j) t).0

    -- What is tracked of a ticker that the store holds.
    abbrev pub tracked_ticker : Store F → TickerState F → TickerState F
    tracked_ticker s t = seeded_with (told s (tracking t))

    history_result-emit :
        (ts : Time) (typ sym msg level : String) (s : Store F)
        → history_result e fetch j (emit e ts typ sym msg "" level s) ≡ history_result e fetch j s
    unfolding history_result emit add_event get_ticker
    history_result-emit ts typ sym msg level s = refl

    -- One answer, of a failure or of the two numbers.
    failed-told :
        (name problem : String) (s : Store F) (o : Option (TickerState F))
        → history_result e fetch name s ≡ err problem
        → o ≡ when (str_eq name j) (told s) o
    failed-told name problem s o q = elim (Bool-cases (str_eq name j)) [
      | inr other ↦ rw other (sym (when_unset (told s) o))
      | inl same ↦
          let eq = (str_eq_iff name j).0 same in
          sym (when_idle (str_eq name j) (told s) o (λ t. rw (rw eq at q) refl))
    ]

    answered-told :
        (name : String) (avg pct : F) (s : Store F) (m : Dict (TickerState F))
        → history_result e fetch name s ≡ ok (avg, pct)
        → lookup j (adjust name (set_history avg pct) m)
          ≡ when (str_eq name j) (told s) (lookup j m)
    answered-told name avg pct s m q =
        lookup-adjust j name (set_history avg pct) m ∙ elim (Bool-cases (str_eq name j)) [
          | inr other ↦ rw other refl
          | inl same ↦
              let eq = (str_eq_iff name j).0 same in
              ap (λ r. when (str_eq name j) (with_history r) (lookup j m)) (sym (rw eq at q))
        ]

    lookup-apply_history :
        (arrivals : List String) (s : Store F) (m : Dict (TickerState F))
        → lookup j (apply_history e fetch now arrivals (s, m)).1
          ≡ when (contains j arrivals) (told s) (lookup j m)
    unfolding apply_history
    lookup-apply_history [] s m = sym (when_unset (told s) (lookup j m))
    lookup-apply_history (name ∷ arrivals) s m =
        go (lookup-apply_history arrivals) (history_result e fetch name s) refl
      where
        rest :
            (m' : Dict (TickerState F))
            → lookup j m' ≡ when (str_eq name j) (told s) (lookup j m)
            → when (contains j arrivals) (told s) (lookup j m')
              ≡ when (contains j (name ∷ arrivals)) (told s) (lookup j m)
        rest m' h =
            ap (when (contains j arrivals) (told s)) h
            ∙ when_again (str_eq name j) (contains j arrivals) (told s) (lookup j m)
                (with_history-again (history_result e fetch j s))

        go :
            ((s : Store F) (m : Dict (TickerState F))
              → lookup j (apply_history e fetch now arrivals (s, m)).1
                ≡ when (contains j arrivals) (told s) (lookup j m))
            → (r : Result (F × F)) → history_result e fetch name s ≡ r
            → lookup j (apply_history e fetch now (name ∷ arrivals) (s, m)).1
              ≡ when (contains j (name ∷ arrivals)) (told s) (lookup j m)
        go onward (err problem) q =
            let msg = glue "History calc failed: " problem in
            let same_told : told (emit e now "SYSTEM" name msg "" "warn" s) ≡ told s =
              ap with_history (history_result-emit now "SYSTEM" name msg "warn" s) in
            rw (q, apply_history)
              (onward (emit e now "SYSTEM" name msg "" "warn" s) m
                ∙ ap (λ f. when (contains j arrivals) f (lookup j m)) same_told
                ∙ rest m (failed-told name problem s (lookup j m) q))
        go onward (ok (avg, pct)) q =
            rw (q, apply_history) (onward s _ ∙ rest _ (answered-told name avg pct s m q))

    -- One seeding.
    seeded-once :
        (name : String) (m : Dict (TickerState F)) (t : TickerState F)
        → lookup name m ≡ some t
        → lookup j (upsert name t (λ x. (seed_vwap_from_trades w.open_ny (trades name) t).0) m)
          ≡ when (str_eq name j) seeded_with (lookup j m)
    seeded-once name m t there =
        lookup-upsert_there j name (λ x. (seed_vwap_from_trades w.open_ny (trades name) t).0) m t
          there
        ∙ elim (Bool-cases (str_eq name j)) [
          | inr other ↦ rw other (
              when_unset (λ x. (seed_vwap_from_trades w.open_ny (trades name) t).0) (lookup j m)
              ∙ sym (when_unset seeded_with (lookup j m)))
          | inl same ↦ let eq = (str_eq_iff name j).0 same in rw (same, eq, rw eq at there) refl
        ]

    absent-unseeded :
        (name : String) (m : Dict (TickerState F))
        → lookup name m ≡ none
        → lookup j m ≡ when (str_eq name j) seeded_with (lookup j m)
    absent-unseeded name m absent = elim (Bool-cases (str_eq name j)) [
      | inr other ↦ rw other (sym (when_unset seeded_with (lookup j m)))
      | inl same ↦ let eq = (str_eq_iff name j).0 same in rw (rw eq at absent) refl
    ]

    first-elsewhere :
        (name : String) (syms : List String)
        → once (name ∷ syms) ≡ true
        → (str_eq name j && contains j syms) ≡ false
    first-elsewhere name syms h = elim (Bool-cases (str_eq name j)) [
      | inr other ↦ rw other refl
      | inl same ↦
          let eq = (str_eq_iff name j).0 same in
          let h' : once (j ∷ syms) ≡ true = rw (← eq) h in rw same (ground arith)
    ]

    lookup-seed_states :
        (syms : List String) (s : Store F) (m : Dict (TickerState F))
        → once syms ≡ true
        → lookup j (seed_states e trades now w syms (s, m)).1
          ≡ when (contains j syms) seeded_with (lookup j m)
    unfolding seed_states
    lookup-seed_states [] s m h = sym (when_unset seeded_with (lookup j m))
    lookup-seed_states (name ∷ syms) s m h =
        let last =
          when_once (str_eq name j) (contains j syms) seeded_with (lookup j m)
            (first-elsewhere name syms h) in
        elim (Option-cases (lookup name m)) [
          | inl absent ↦
              rw (absent, seed_states)
                (lookup-seed_states syms s m (ground arith)
                  ∙ ap (when (contains j syms) seeded_with) (absent-unseeded name m absent)
                  ∙ last)
          | inr (t, there) ↦
              rw (there, seed_states)
                (lookup-seed_states syms _ _ (ground arith)
                  ∙ ap (when (contains j syms) seeded_with) (seeded-once name m t there)
                  ∙ last)
        ]

    all_steps :
        (listed : Bool) (s : Store F) (o : Option (TickerState F))
        → when listed seeded_with
            (when listed (told s) (if listed then Option.map tracking o else none))
          ≡ (if listed then Option.map (tracked_ticker s) o else none)
    all_steps false s o = refl
    all_steps true s none = refl
    all_steps true s (some t) = refl

    -- Where no candidate stands twice and the workers answer for the candidates and for no others, in
    -- whatever order, exactly those candidates are tracked that the store holds, each as the store holds
    -- it, with the answer of its own worker, if there is one, and seeded with its own trades.
    pub build_tracked_states_exact :
        (candidates arrivals : List String) (s : Store F)
        → once candidates ≡ true
        → ((name : String) → contains name arrivals ≡ contains name candidates)
        → lookup j (build_tracked_states e fetch trades now w candidates arrivals s).1
          ≡ (if contains j candidates then Option.map (tracked_ticker s) (get_ticker j s) else none)
    unfolding build_tracked_states
    build_tracked_states_exact candidates arrivals s distinct same =
        lookup-seed_states candidates _ _ distinct
        ∙ ap (when (contains j candidates) seeded_with) (
            lookup-apply_history arrivals s (shallow_states candidates s)
            ∙ rw (same j)
                (ap (when (contains j candidates) (told s)) (lookup-shallow_states j candidates s)))
        ∙ all_steps (contains j candidates) s (get_ticker j s)
