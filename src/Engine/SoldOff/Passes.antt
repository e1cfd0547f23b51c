-- ===== src/Engine/SoldOff/Passes.antt =====
-- What every row of the scan has passed.
use mathlib.Core.List.{filter_map}
use market_hacker.Base.{
  ◌≡◌, refl, inl, inr, Bool, String, false, Option, none, some, List, [], ◌∷◌, arith, if_kept, All,
  Dict, insert_by, sort_by, Option-cases,
}
use market_hacker.Float.{Float64, not_pos}
use market_hacker.Clock.{Time}
use market_hacker.Store.{RuntimeFilters, HistoricSoldOff}
use market_hacker.Engine.Types.{Engine}
use market_hacker.Engine.Opening.{Open5mMetric}
use market_hacker.Engine.SoldOff.{Pre, ScanAnswers, screen, sold_off_row}

module _ {A : Type 0} (P : A → Type 0) (less : A → A → Bool) where
  All-insert_by : (x : A) (xs : List A) → P x → All P xs → All P (insert_by less x xs)
  All-insert_by x [] p h = (p, h)
  All-insert_by x (y ∷ ys) p h =
      if_kept (All P) (less y x) (y ∷ insert_by less x ys) (x ∷ (y ∷ ys))
        (h.0, All-insert_by x ys p h.1) (p, h)

  pub All-sort_by : (xs : List A) → All P xs → All P (sort_by less xs)
  All-sort_by [] h = h
  All-sort_by (x ∷ xs) h = All-insert_by x (sort_by less xs) h.0 (All-sort_by xs h.1)

pub All-filter_map :
    {A B : Type 0} (P : B → Type 0) (f : A → Option B)
    → ((a : A) (b : B) → f a ≡ some b → P b)
    → (xs : List A) → All P (filter_map f xs)
unfolding filter_map
All-filter_map P f h [] = tt
All-filter_map P f h (x ∷ xs) = elim (Option-cases (f x)) [
  | inl empty ↦ rw (empty, filter_map) (All-filter_map P f h xs)
  | inr (b, found) ↦ rw (found, filter_map) (h x b found, All-filter_map P f h xs)
]

module _ {F : Type 0} ⦃d : Float64 F⦄ where
  open d use {nought, of_ℕ, sub, mul, div, lt}

  -- The row fell at least as far below its open as the filter asks for, and its volume is at least the
  -- share of earlier sessions that the filter asks for.
  pub record Passes (f : RuntimeFilters F) (r : HistoricSoldOff F) : Type 0 where
    pub opened : not_pos r.open0930 ≡ false
    pub had_low : not_pos r.low_price ≡ false
    pub drop : r.drop_pct ≡ div (sub r.open0930 r.low_price) r.open0930
    pub fell : lt r.drop_pct f.sold_off_from_open_pct_min ≡ false
    pub traded : lt r.open5m_today_pct f.sold_off_open5m_today_pct_min ≡ false

  pub record Screened (f : RuntimeFilters F) (p : Pre F) : Type 0 where
    pub opened : not_pos p.m.open0930 ≡ false
    pub had_low : not_pos p.low ≡ false
    pub drop : p.drop ≡ div (sub p.m.open0930 p.low) p.m.open0930
    pub fell : lt p.drop f.sold_off_from_open_pct_min ≡ false

  pub screen-Screened :
      (f : RuntimeFilters F) (open_ny : Time) (metrics : Dict (Open5mMetric F))
      (answers : ScanAnswers F) (name : String) (p : Pre F)
      → screen f open_ny metrics answers name ≡ some p
      → Screened f p
  unfolding screen
  screen-Screened f open_ny metrics answers name p h = record {
    opened = ground arith;
    had_low = ground arith;
    drop = ground arith;
    fell = ground arith;
  }

  sold_off_row-Passes :
      (e : Engine F) (f : RuntimeFilters F) (answers : ScanAnswers F) (name : String) (p : Pre F)
      (r : HistoricSoldOff F)
      → Screened f p
      → sold_off_row e f answers name p ≡ some r
      → Passes f r
  unfolding sold_off_row
  sold_off_row-Passes e f answers name p r s h =
      let o = s.opened in
      let l = s.had_low in
      let dr = s.drop in
      let fe = s.fell in
      record {
        opened = ground arith;
        had_low = ground arith;
        drop = ground arith;
        fell = ground arith;
        traded = ground arith;
      }

  pub row-Passes :
      (e : Engine F) (f : RuntimeFilters F) (answers : ScanAnswers F) (name : String)
      (o : Option (Pre F)) (r : HistoricSoldOff F)
      → ((p : Pre F) → o ≡ some p → Screened f p)
      → (elim o [ none ↦ none | some p ↦ sold_off_row e f answers name p ]) ≡ some r
      → Passes f r
  row-Passes e f answers name none r s h = absurd (ground arith)
  row-Passes e f answers name (some p) r s h = sold_off_row-Passes e f answers name p r (s p refl) h
