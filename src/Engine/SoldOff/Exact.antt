-- ===== src/Engine/SoldOff/Exact.antt =====
-- What the scan finds, whatever the order in which the workers answer.
use mathlib.Core.List.{Perm, filter_map}
use mathlib.Core.List.Perm
use market_hacker.Base.{
  ◌≡◌, ◌∙◌, refl, sym, ap, subst, inl, inr, ℕ, ◌+◌, String, true, false, none, some, List, [], map,
  arith, if◌then◌else◌, contains, All, Dict, lookup, keep_if, sort_by, sort_by-perm, InOrder,
  sort_by-InOrder, text_lt, text_lt_asymm, Bool-cases,
}
use market_hacker.Float.{Float64, IsIeee}
use market_hacker.Clock.{Time, minute, before}
use market_hacker.Store.{RuntimeFilters, HistoricSoldOff, Store}
use market_hacker.Rest.{is_empty}
use market_hacker.Engine.Types.{Engine}
use market_hacker.Engine.Opening.{Open5mMetric}
use market_hacker.Engine.SoldOff.{
  Pre, ScanAnswers, range_known, eligible, screen, screened, row_in, deeper, scan_sold_off,
}
use market_hacker.Engine.SoldOff.Passes.{
  Passes, Screened, screen-Screened, row-Passes, All-sort_by, All-filter_map,
}
use market_hacker.Engine.SoldOff.Rows.{filter_map_of_nil, nil_of_is_empty}
use market_hacker.Engine.SoldOff.Screening.{row_of, lookup-screened, screened-agrees, rows-screened}

module _ {F : Type 0} ⦃d : Float64 F⦄ where
  open d use {nought, lt, eq}

  module _ (e : Engine F) (f : RuntimeFilters F) (open_ny : Time) (metrics : Dict (Open5mMetric F))
      (answers : ScanAnswers F) where
    lookup-Screened :
        (arrivals : List String) (name : String) (p : Pre F)
        → lookup name (screened f open_ny metrics answers arrivals) ≡ some p
        → Screened f p
    lookup-Screened arrivals name p found =
        let whence = sym (lookup-screened e f open_ny metrics answers name arrivals) ∙ found in
        elim (Bool-cases (contains name arrivals)) [
          | inl here ↦ screen-Screened f open_ny metrics answers name p (
              subst (λ b. (if b then screen f open_ny metrics answers name else none) ≡ some p) here
                whence)
          | inr gone ↦
              let nothing : none ≡ some p =
                subst (λ b. (if b then screen f open_ny metrics answers name else none) ≡ some p)
                  gone whence in
              absurd (ground arith)
        ]

    row_in-Passes :
        (arrivals : List String) (name : String) (r : HistoricSoldOff F)
        → row_in e f answers (screened f open_ny metrics answers arrivals) name ≡ some r
        → Passes f r
    unfolding row_in
    row_in-Passes arrivals name r h =
        row-Passes e f answers name (lookup name (screened f open_ny metrics answers arrivals)) r
          (lookup-Screened arrivals name) h

    -- The rows for the symbols that passed the first stage, in any order of both pools.
    rows_perm :
        (shuffle : ℕ → List String → List String)
        → ((i : ℕ) (xs : List String) → Perm (shuffle i xs) xs)
        → let pres = screened f open_ny metrics answers (shuffle 0 (eligible f metrics)) in
          Perm
            (filter_map
              (row_in e f answers pres)
              (shuffle 1 (sort_by text_lt (map (λ q. q.0) pres))))
            (filter_map
              (row_of e f open_ny metrics answers)
              (map (λ p. p.0) (keep_if (λ p. range_known f p.1) metrics)))
    unfolding eligible
    rows_perm shuffle fair =
        let arrivals = shuffle 0 (eligible f metrics) in
        let pres = screened f open_ny metrics answers arrivals in
        let names = map (λ q. q.0) pres in
        Perm.trans
          (Perm.filter_map (row_in e f answers pres)
            (Perm.trans (fair 1 (sort_by text_lt names)) (sort_by-perm text_lt names)))
          (subst
            (λ rows. Perm rows (
              filter_map (row_of e f open_ny metrics answers)
                (map (λ p. p.0) (keep_if (λ p. range_known f p.1) metrics))))
            (sym (
              rows-screened e f open_ny metrics answers pres arrivals
                (screened-agrees e f open_ny metrics answers arrivals)))
            (Perm.filter_map (row_of e f open_ny metrics answers)
              (Perm.trans (fair 0 (eligible f metrics)) (sort_by-perm text_lt _))))

    module _ (shuffle : ℕ → List String → List String)
        (fair : (i : ℕ) (xs : List String) → Perm (shuffle i xs) xs) where
      -- the rows, before they are sorted
      found_rows : List (HistoricSoldOff F)
      found_rows =
          let pres = screened f open_ny metrics answers (shuffle 0 (eligible f metrics)) in
          filter_map (row_in e f answers pres) (shuffle 1 (sort_by text_lt (map (λ q. q.0) pres)))

      found_perm : Perm found_rows (
          filter_map
            (row_of e f open_ny metrics answers)
            (map (λ p. p.0) (keep_if (λ p. range_known f p.1) metrics)))
      unfolding found_rows
      found_perm = rows_perm shuffle fair

      found_rows-Passes : All (Passes f) found_rows
      unfolding found_rows
      found_rows-Passes =
          All-filter_map (Passes f)
            (row_in e f answers
              (screened f open_ny metrics answers (shuffle 0 (eligible f metrics))))
            (row_in-Passes (shuffle 0 (eligible f metrics))) _

      nothing_found :
          screened f open_ny metrics answers (shuffle 0 (eligible f metrics)) ≡ [] → found_rows ≡ []
      unfolding found_rows
      nothing_found none_there =
          let pres = screened f open_ny metrics answers (shuffle 0 (eligible f metrics)) in
          let names : sort_by text_lt (map (λ q. q.0) pres) ≡ [] =
            ap (λ ps. sort_by text_lt (map (λ q. q.0) ps)) none_there in
          let order = Perm.eq-nil (subst (Perm _) names (fair 1 _)) in
          ap (filter_map (row_in e f answers pres)) order
          ∙ filter_map_of_nil (row_in e f answers pres)

      none_screened :
          eligible f metrics ≡ []
          → screened f open_ny metrics answers (shuffle 0 (eligible f metrics)) ≡ []
      unfolding screened
      none_screened none_there =
          ap (screened f open_ny metrics answers)
            (Perm.eq-nil (subst (Perm _) none_there (fair 0 _)))

  scan-found_rows :
      (e : Engine F) (answers : ScanAnswers F) (shuffle : ℕ → List String → List String)
      (fair : (i : ℕ) (xs : List String) → Perm (shuffle i xs) xs) (now : ℕ → Time)
      (open_ny scan_end : Time) (metrics : Dict (Open5mMetric F)) (s : Store F)
      → before scan_end (open_ny + minute) ≡ false
      → (scan_sold_off e answers shuffle now open_ny scan_end metrics s).1
        ≡ sort_by deeper (found_rows e s.filters open_ny metrics answers shuffle fair)
  unfolding scan_sold_off found_rows
  scan-found_rows e answers shuffle fair now open_ny scan_end metrics s late =
      let f = s.filters in
      let pres = screened f open_ny metrics answers (shuffle 0 (eligible f metrics)) in
      elim (Bool-cases (is_empty (eligible f metrics))) [
        | inl none_there ↦
            let empty =
              none_screened e f open_ny metrics answers shuffle fair
                (nil_of_is_empty _ none_there) in
            rw (late, none_there)
              (ap (sort_by deeper)
                (sym (nothing_found e f open_ny metrics answers shuffle fair empty)))
        | inr some_there ↦ elim (Bool-cases (is_empty pres)) [
          | inl none_left ↦
              let empty = nil_of_is_empty pres none_left in
              rw (late, some_there, none_left)
                (ap (sort_by deeper)
                  (sym (nothing_found e f open_ny metrics answers shuffle fair empty)))
          | inr some_left ↦ rw (late, some_there, some_left) refl
        ]
      ]

  deeper_asymm : IsIeee F → (a b : HistoricSoldOff F) → deeper a b ≡ true → deeper b a ≡ false
  unfolding deeper
  deeper_asymm ieee a b h = ground (
    arith,
    ieee.eq_comm a.drop_pct b.drop_pct,
    text_lt_asymm a.symbol b.symbol,
    ieee.le_of_lt b.drop_pct a.drop_pct,
    ieee.not_le_of_lt a.drop_pct b.drop_pct,
  )

  -- Where the scan reaches a minute past the open, and each pool gives one result for each symbol, in
  -- whatever order, the rows are those that the two stages give for exactly the symbols whose opening
  -- metrics are known and wide enough; each row has a positive open and low, its drop is that from the
  -- open to the low and reaches the filter's, and its volume against earlier sessions reaches the
  -- filter's; and the rows are in order, the deepest drop first and equal drops by symbol.
  pub scan_sold_off_exact :
      IsIeee F
      → (e : Engine F) (answers : ScanAnswers F) (shuffle : ℕ → List String → List String)
      → ((i : ℕ) (xs : List String) → Perm (shuffle i xs) xs)
      → (now : ℕ → Time) (open_ny scan_end : Time) (metrics : Dict (Open5mMetric F)) (s : Store F)
      → before scan_end (open_ny + minute) ≡ false
      → let rows = (scan_sold_off e answers shuffle now open_ny scan_end metrics s).1 in
        Perm rows (
          filter_map
            (row_of e s.filters open_ny metrics answers)
            (map (λ p. p.0) (keep_if (λ p. range_known s.filters p.1) metrics)))
        × (All (Passes s.filters) rows × InOrder deeper rows)
  scan_sold_off_exact ieee e answers shuffle fair now open_ny scan_end metrics s late =
      let found = found_rows e s.filters open_ny metrics answers shuffle fair in
      let all = scan-found_rows e answers shuffle fair now open_ny scan_end metrics s late in
      (
        Perm.trans (subst (λ rows. Perm rows found) (sym all) (sort_by-perm deeper found))
            (found_perm e s.filters open_ny metrics answers shuffle fair),
        (
          subst (All (Passes s.filters)) (sym all) (
              All-sort_by (Passes s.filters) deeper found
                (found_rows-Passes e s.filters open_ny metrics answers shuffle fair)),
          subst (InOrder deeper) (sym all) (sort_by-InOrder deeper (deeper_asymm ieee) found),
        ),
      )
