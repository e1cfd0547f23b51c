-- ===== src/Engine/SoldOff/Screening.antt =====
-- The two stages of the scan, one symbol after the other.
use mathlib.Core.List.{filter_map}
use market_hacker.Base.{
  ◌≡◌, ◌∙◌, refl, sym, ap, inl, inr, String, Option, none, some, List, [], ◌∷◌, map, arith,
  if◌then◌else◌, str_eq, str_eq_iff, contains, All, All-mono, Dict, lookup, Bool-cases,
  Option-cases,
}
use market_hacker.Float.{Float64}
use market_hacker.Clock.{Time}
use market_hacker.Store.{RuntimeFilters, HistoricSoldOff}
use market_hacker.Engine.Types.{Engine}
use market_hacker.Engine.Opening.{Open5mMetric}
use market_hacker.Engine.SoldOff.{Pre, ScanAnswers, screen, screened, sold_off_row, row_in}
use market_hacker.Engine.SoldOff.Rows.{
  filter_map_step, filter_map_skip, filter_map_nil, contains-All,
}

module _ {F : Type 0} ⦃d : Float64 F⦄ where
  open d use {nought, lt, eq}

  -- What the scan says of one symbol: its row, if it fell far enough and opened with enough volume.
  pub row_of :
      Engine F
      → RuntimeFilters F
      → Time
      → Dict (Open5mMetric F)
      → ScanAnswers F
      → String
      → Option (HistoricSoldOff F)
  row_of e f open_ny metrics answers sym = elim (screen f open_ny metrics answers sym) [
    | none ↦ none
    | some p ↦ sold_off_row e f answers sym p
  ]

  module _ (e : Engine F) (f : RuntimeFilters F) (open_ny : Time) (metrics : Dict (Open5mMetric F))
      (answers : ScanAnswers F) where
    skipped :
        (name x : String) (arrivals : List String)
        → screen f open_ny metrics answers x ≡ none
        → (if contains name arrivals then screen f open_ny metrics answers name else none)
          ≡ (if contains name (x ∷ arrivals) then screen f open_ny metrics answers name else none)
    skipped name x arrivals empty = elim (Bool-cases (str_eq x name)) [
      | inr other ↦ rw other refl
      | inl same ↦
          let eq = (str_eq_iff x name).0 same in
          let gone : screen f open_ny metrics answers name ≡ none =
            ap (screen f open_ny metrics answers) (sym eq) ∙ empty in
          rw (same, gone) (ground arith)
    ]

    taken :
        (name x : String) (arrivals : List String) (p : Pre F)
        → screen f open_ny metrics answers x ≡ some p
        → lookup name (screened f open_ny metrics answers arrivals)
          ≡ (if contains name arrivals then screen f open_ny metrics answers name else none)
        → lookup name ((x, p) ∷ screened f open_ny metrics answers arrivals)
          ≡ (if contains name (x ∷ arrivals) then screen f open_ny metrics answers name else none)
    unfolding lookup
    taken name x arrivals p found ih = elim (Bool-cases (str_eq x name)) [
      | inr other ↦ rw (other, lookup) ih
      | inl same ↦
          rw same
            (sym (ap (screen f open_ny metrics answers) (sym ((str_eq_iff x name).0 same)) ∙ found))
    ]

    pub lookup-screened :
        (sym : String) (arrivals : List String)
        → lookup sym (screened f open_ny metrics answers arrivals)
          ≡ (if contains sym arrivals then screen f open_ny metrics answers sym else none)
    unfolding screened lookup
    lookup-screened name [] = refl
    lookup-screened name (x ∷ arrivals) = elim (Option-cases (screen f open_ny metrics answers x)) [
      | inl empty ↦
          rw (empty, screened) (lookup-screened name arrivals ∙ skipped name x arrivals empty)
      | inr (p, found) ↦
          rw (found, screened) (taken name x arrivals p found (lookup-screened name arrivals))
    ]

    pub screened-agrees :
        (arrivals : List String)
        → All
            (λ x.
              lookup x (screened f open_ny metrics answers arrivals)
              ≡ screen f open_ny metrics answers x)
            arrivals
    screened-agrees arrivals =
        All-mono (λ x h. lookup-screened x arrivals ∙ rw h refl) arrivals (contains-All arrivals)

    pub rows-screened :
        (pres : Dict (Pre F)) (arrivals : List String)
        → All (λ x. lookup x pres ≡ screen f open_ny metrics answers x) arrivals
        → filter_map
            (row_in e f answers pres)
            (map (λ q. q.0) (screened f open_ny metrics answers arrivals))
          ≡ filter_map (row_of e f open_ny metrics answers) arrivals
    unfolding screened row_in row_of
    rows-screened pres [] h =
        filter_map_nil (row_in e f answers pres) (row_of e f open_ny metrics answers)
    rows-screened pres (x ∷ arrivals) (h, hs) =
        elim (Option-cases (screen f open_ny metrics answers x)) [
          | inl empty ↦
              rw (empty, screened)
                (rows-screened pres arrivals hs
                  ∙ sym (
                      filter_map_skip (row_of e f open_ny metrics answers) x arrivals
                        (rw (empty, row_of) refl)))
          | inr (p, found) ↦
              rw (found, screened)
                (filter_map_step (row_in e f answers pres) (row_of e f open_ny metrics answers) x
                  (map (λ q. q.0) (screened f open_ny metrics answers arrivals)) arrivals
                  (rw (h ∙ found, row_in) (rw (found, row_of) refl))
                  (rows-screened pres arrivals hs))
        ]
