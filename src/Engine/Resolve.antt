-- ===== src/Engine/Resolve.antt =====
-- Which day `resolveHistoricSessionDate` settles on.
use market_hacker.Base.{
  ◌≡◌, ◌⊎◌, ◌∙◌, refl, sym, ap, subst, inl, inr, ℕ, zero, suc, String, Bool, true, false, List, [],
  ◌∷◌, ◌++◌, arith, if◌then◌else◌, All, Result, ok, err,
}
use market_hacker.Float.{Float64}
use market_hacker.Clock.{Time, Location, date_only, after}
use market_hacker.Store.{Store}
use market_hacker.Rest.{Fetched, Agg}
use market_hacker.Engine.Types.{Engine}
use market_hacker.Engine.Calendar.{
  IsCalendar, Workday, first_day-Workday, days_tried, days_tried-Workday,
}
use market_hacker.Engine.Dates.{
  step_back, first_day, max_attempts, day_has_data, resolve_loop, resolve_historic_session_date,
  date_note,
}

-- `day` is the first of the days that has data, and no error came before it.
pub record FirstWithData (has : Time → Result Bool) (days : List Time) (day : Time) : Type 0 where
  pub before : List Time
  pub after_it : List Time
  pub split : days ≡ before ++ (day ∷ after_it)
  pub empty_before : All (λ x. has x ≡ ok false) before
  pub has_data : has day ≡ ok true

All-at {ℓ κ} :
    {A : Type ℓ} (P : A → Type κ) (before : List A) (x : A) (rest : List A)
    → All P (before ++ (x ∷ rest))
    → P x
All-at P [] x rest (p, ps) = p
All-at P (y ∷ before) x rest (p, ps) = All-at P before x rest ps

answer_cases : (r : Result Bool) → ((m : String) × (r ≡ err m)) ⊎ ((r ≡ ok true) ⊎ (r ≡ ok false))
answer_cases (err m) = inl (m, refl)
answer_cases (ok true) = inr (inl refl)
answer_cases (ok false) = inr (inr refl)

if_ok {ℓ} :
    {A : Type ℓ} (c : Bool) (m : String) (r : Result A) (a : A)
    → ◌≡◌ {A = Result A} (if c then err m else r) (ok a)
    → (c ≡ false) × ◌≡◌ {A = Result A} r (ok a)
if_ok true m r a h = absurd (ground arith)
if_ok false m r a h = (refl, h)

module _ (loc : Location) (has : Time → Result Bool) (target : Time) (failure : String) where
  loop_empty : (start : Time) → resolve_loop loc has target failure zero start ≡ err failure
  unfolding resolve_loop
  loop_empty start = refl

  loop_fails :
      (left : ℕ) (start : Time) (m : String)
      → has start ≡ err m
      → resolve_loop loc has target failure (suc left) start ≡ err m
  unfolding resolve_loop
  loop_fails left start m e = rw (e, resolve_loop) refl

  loop_stops :
      (left : ℕ) (start : Time)
      → has start ≡ ok true
      → resolve_loop loc has target failure (suc left) start
        ≡ ok (start, date_note loc target start)
  unfolding resolve_loop
  loop_stops left start e = rw (e, resolve_loop) refl

  loop_goes :
      (left : ℕ) (start : Time)
      → has start ≡ ok false
      → resolve_loop loc has target failure (suc left) start
        ≡ resolve_loop loc has target failure left (step_back loc start)
  unfolding resolve_loop
  loop_goes left start e = rw (e, resolve_loop) refl

  resolve_loop-found :
      (left : ℕ) (start day : Time) (note : String)
      → resolve_loop loc has target failure left start ≡ ok (day, note)
      → FirstWithData has (days_tried loc start left) day × (note ≡ date_note loc target day)
  unfolding days_tried
  resolve_loop-found zero start day note h = absurd (ground (arith, loop_empty start))
  resolve_loop-found (suc left) start day note h = elim (answer_cases (has start)) [
    | inl (m, e) ↦ absurd (ground (arith, loop_fails left start m e))
    | inr (inl e) ↦
        let same : (start ≡ day) × (date_note loc target start ≡ note) =
          ground (arith, loop_stops left start e) in
        (
          record {
            before = [];
            after_it = days_tried loc (step_back loc start) left;
            split = ap (λ x. x ∷ days_tried loc (step_back loc start) left) same.0;
            empty_before = tt;
            has_data = ap has (sym same.0) ∙ e;
          },
          sym same.1 ∙ ap (date_note loc target) same.0,
        )
    | inr (inr e) ↦
        let (found, noted) =
          resolve_loop-found left (step_back loc start) day note
            (sym (loop_goes left start e) ∙ h) in
        (
          record {
            before = start ∷ found.before;
            after_it = found.after_it;
            split = ap (◌∷◌ start) found.split;
            empty_before = (e, found.empty_before);
            has_data = found.has_data;
          },
          noted,
        )
  ]

  resolve_loop-finds :
      (left : ℕ) (start day : Time) (before rest : List Time)
      → days_tried loc start left ≡ before ++ (day ∷ rest)
      → All (λ x. has x ≡ ok false) before
      → has day ≡ ok true
      → resolve_loop loc has target failure left start ≡ ok (day, date_note loc target day)
  unfolding days_tried
  resolve_loop-finds zero start day [] rest split empty full = absurd (ground arith)
  resolve_loop-finds zero start day (b ∷ before) rest split empty full = absurd (ground arith)
  resolve_loop-finds (suc left) start day [] rest split empty full =
      let same : start ≡ day = cc in rw (← same) (loop_stops left start (ap has same ∙ full))
  resolve_loop-finds (suc left) start day (b ∷ before) rest split (none, empty) full =
      let same : start ≡ b = cc in
      let tail : days_tried loc (step_back loc start) left ≡ before ++ (day ∷ rest) = cc in
      loop_goes left start (ap has same ∙ none)
      ∙ resolve_loop-finds left (step_back loc start) day before rest tail empty full

module _ {F : Type 0} ⦃d : Float64 F⦄ where
  abbrev pub candidates_for : Engine F → Time → List Time
  candidates_for e target_day =
      days_tried e.loc (first_day e.loc (date_only e.loc target_day))
        (max_attempts e.cfg.history.max_calendar_lookback)

  -- Where the time zone's days of the week follow each other, a day that is settled on is none of a
  -- weekend, its session has data, and no session of the days tried before it has; the day asked for
  -- is not in the future, and the note names both days just where they differ.
  pub resolve_finds_latest :
      (e : Engine F) (bars : String → Time → Time → Fetched (Agg F)) (target_day as_of day : Time)
      (note : String) (s : Store F)
      → IsCalendar e.loc
      → resolve_historic_session_date e bars target_day as_of s ≡ ok (day, note)
      → Workday e.loc day
        × FirstWithData (day_has_data e bars s) (candidates_for e target_day) day
        × (after (date_only e.loc target_day) (date_only e.loc as_of) ≡ false)
        × (note ≡ date_note e.loc (date_only e.loc target_day) day)
  unfolding resolve_historic_session_date
  resolve_finds_latest e bars target_day as_of day note s calendar h =
      let target = date_only e.loc target_day in
      let start = first_day e.loc target in
      let attempts = max_attempts e.cfg.history.max_calendar_lookback in
      let (past, loop) = if_ok _ _ _ _ h in
      let (found, noted) =
        resolve_loop-found e.loc (day_has_data e bars s) target _ attempts start day note loop in
      let workdays =
        days_tried-Workday calendar start attempts (first_day-Workday calendar target) in
      (
        All-at (Workday e.loc) found.before day found.after_it
            (subst (All (Workday e.loc)) found.split workdays),
        found,
        past,
        noted,
      )

  -- Conversely, where the day asked for is not in the future and one of the days tried has data, with
  -- no data and no error on those before it, that day is the one that is settled on.
  pub resolve_finds_first :
      (e : Engine F) (bars : String → Time → Time → Fetched (Agg F)) (target_day as_of day : Time)
      (s : Store F)
      → after (date_only e.loc target_day) (date_only e.loc as_of) ≡ false
      → FirstWithData (day_has_data e bars s) (candidates_for e target_day) day
      → resolve_historic_session_date e bars target_day as_of s
        ≡ ok (day, date_note e.loc (date_only e.loc target_day) day)
  unfolding resolve_historic_session_date
  resolve_finds_first e bars target_day as_of day s past found =
      rw (past, resolve_historic_session_date)
        (resolve_loop-finds e.loc (day_has_data e bars s) (date_only e.loc target_day) _
          (max_attempts e.cfg.history.max_calendar_lookback)
          (first_day e.loc (date_only e.loc target_day)) day found.before found.after_it found.split
          found.empty_before found.has_data)
