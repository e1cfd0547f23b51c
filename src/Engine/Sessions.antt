-- ===== src/Engine/Sessions.antt =====
-- Which earlier sessions `avgPrevSessionsOpen5mVol` averages over.
use market_hacker.Base.{
  ℕ, zero, suc, ◌≤◌, ◌≡◌, ◌≢◌, ◌∙◌, refl, sym, ap, String, ◌⊎◌, Option, none, some, List, [], ◌∷◌,
  ◌++◌, pos, arith, ltb_ℤ, length, take, length-append, Result, ok, err, Bool-cases, inl, inr,
}
use Prim.Native.String.{◌++◌ as glue}
use mathlib.Core.List.{append_assoc, append-nil}
use market_hacker.Float.{Float64}
use market_hacker.Engine.Tracking.{
  int_text, valid_volume, sessions_loop, average, avg_prev_sessions_open5m_vol,
}

take-append_left {ℓ} :
    {A : Type ℓ} (xs ys : List A) → ◌≡◌ {A = List A} (take (length xs) (xs ++ ys)) xs
take-append_left [] ys = refl
take-append_left (x ∷ xs) ys = ap (◌∷◌ x) (take-append_left xs ys)

take_all {ℓ} : {A : Type ℓ} (n : ℕ) (xs : List A) → length xs ≤ n → ◌≡◌ {A = List A} (take n xs) xs
take_all zero [] h = refl
take_all zero (x ∷ xs) h = absurd (omega arith)
take_all (suc n) [] h = refl
take_all (suc n) (x ∷ xs) h = ap (◌∷◌ x) (take_all n xs (omega arith))

module _ {F : Type 0} ⦃d : Float64 F⦄ where
  -- The volumes of the `left` days from the day `back` days before on, the most recent first, without
  -- the days that gave an error, no bars, or no positive volume.
  pub valid_days : (ℕ → Result (Option F)) → ℕ → ℕ → List F
  valid_days fetch back zero = []
  valid_days fetch back (suc left) = valid_volume (fetch back) ++ valid_days fetch (suc back) left

  length-valid_volume : (r : Result (Option F)) → length (valid_volume r) ≤ 1
  unfolding valid_volume
  length-valid_volume (err m) = omega arith
  length-valid_volume (ok none) = omega arith
  length-valid_volume (ok (some v)) = ground arith

  sessions_loop-take :
      (fetch : ℕ → Result (Option F)) (needed back left : ℕ) (vols : List F)
      → length vols ≤ needed
      → sessions_loop fetch (pos needed) back left vols
        ≡ take needed (vols ++ valid_days fetch back left)
  unfolding sessions_loop valid_days
  sessions_loop-take fetch needed back zero vols h =
      sym (rw (append-nil vols) (take_all needed vols h))
  sessions_loop-take fetch needed back (suc left) vols h =
      elim (Bool-cases (ltb_ℤ (pos (length vols)) (pos needed))) [
        | inl wanted ↦
            let more : length (vols ++ valid_volume (fetch back)) ≤ needed = ground (
              arith,
              length-append vols (valid_volume (fetch back)),
              length-valid_volume (fetch back),
            ) in
            rw wanted (
              sessions_loop-take fetch needed (suc back) left (vols ++ valid_volume (fetch back))
                more
              ∙ ap (take needed) (
                  append_assoc vols (valid_volume (fetch back)) (valid_days fetch (suc back) left)))
        | inr enough ↦
            let full : length vols ≡ needed = ground arith in
            rw enough (
              rw (← full) (
                sym (
                  take-append_left vols
                    (valid_volume (fetch back) ++ valid_days fetch (suc back) left))))
      ]

  -- The result is the average of the most recent valid sessions within the lookback, as many as are
  -- needed or as there are, and an error when there is none.
  pub avg_prev_sessions_recent :
      (fetch : ℕ → Result (Option F)) (needed lookback : ℕ)
      → let vols = take needed (valid_days fetch 1 lookback) in
        ((vols ≡ [])
          × ((m : String) × (avg_prev_sessions_open5m_vol fetch (pos needed) (pos lookback)
                ≡ err m)))
        ⊎ ((vols ≢ [])
            × (avg_prev_sessions_open5m_vol fetch (pos needed) (pos lookback) ≡ ok (average vols)))
  unfolding avg_prev_sessions_open5m_vol
  avg_prev_sessions_recent fetch needed lookback =
      go (take needed (valid_days fetch 1 lookback)) refl
    where
      loop_lem :
          sessions_loop fetch (pos needed) 1 lookback [] ≡ take needed (valid_days fetch 1 lookback)
      loop_lem = sessions_loop-take fetch needed 1 lookback [] (omega arith)

      go :
          (vols : List F)
          → take needed (valid_days fetch 1 lookback) ≡ vols
          → ((vols ≡ [])
              × ((m : String) × (avg_prev_sessions_open5m_vol fetch (pos needed) (pos lookback)
                    ≡ err m)))
            ⊎ ((vols ≢ [])
                × (avg_prev_sessions_open5m_vol fetch (pos needed) (pos lookback)
                    ≡ ok (average vols)))
      go [] e = inl (
        refl,
        (
          glue "no prior sessions found in lookback=" (glue (int_text (pos lookback)) " days"),
          rw (loop_lem ∙ e, avg_prev_sessions_open5m_vol) refl,
        ),
      )
      go (v ∷ vs) e = inr (
        (λ none_left. absurd (ground arith)),
        rw (loop_lem ∙ e, avg_prev_sessions_open5m_vol) refl,
      )
