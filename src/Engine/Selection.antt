-- ===== src/Engine/Selection.antt =====
-- What the 09:35 selection picks.
use market_hacker.Base.{
  text_lt, ◌≡◌, ◌∙◌, refl, sym, ap, String, Bool, false, ◌&&◌, Option, none, some, List, [], ◌∷◌,
  arith, str_eq, str_eq_iff, keep_if, keep_if_ext, sort_by-perm, Bool-cases, Option-cases, inl, inr,
  subst,
}
use mathlib.Core.List.{Perm}
use mathlib.Core.List.Perm
use market_hacker.Float.{Float64}
use market_hacker.Clock.{Time}
use market_hacker.Store.{RuntimeFilters, TickerState, Store, get_ticker, upsert_ticker, add_event}
use market_hacker.Store.Tickers.{get_ticker-upsert_ticker_self, get_ticker-upsert_ticker_ne}
use market_hacker.Engine.Types.{Engine}
use market_hacker.Engine.Alerts.{emit}
use market_hacker.Engine.Opening.{
  range_pct, open_known, open_filters, select_ticker, select_one, select_loop,
  select_candidates_at0935,
}

module _ {F : Type 0} ⦃d : Float64 F⦄ where
  -- A ticker with a known opening range whose range and volume lie inside the filters.
  pub qualifies : RuntimeFilters F → Option (TickerState F) → Bool
  qualifies f none = false
  qualifies f (some t) =
      open_known t && open_filters f (range_pct t.open0930 t.or_high t.or_low) t.open5m_vol

  abbrev pub qualifies_in : RuntimeFilters F → Store F → String → Bool
  qualifies_in f s sym = qualifies f (get_ticker sym s)

  select_one-qualifies :
      (f : RuntimeFilters F) (sym : String) (s : Store F)
      → (select_one f sym s).0 ≡ qualifies_in f s sym
  unfolding select_one qualifies
  select_one-qualifies f name s = elim (Option-cases (get_ticker name s)) [
    | inl missing ↦ rw (missing, select_one, qualifies)
    | inr (t, found) ↦ rw (found, select_one, qualifies) (ground arith)
  ]

  selected_keeps :
      (g : RuntimeFilters F) (name j : String) (s : Store F) (t : TickerState F)
      → get_ticker name s ≡ some t
      → (rng : F) → qualifies_in g (upsert_ticker name (select_ticker rng) s) j ≡ qualifies_in g s j
  unfolding select_ticker qualifies
  selected_keeps g name j s t found rng = elim (Bool-cases (str_eq name j)) [
    | inl same ↦
        let same_name : name ≡ j = (str_eq_iff name j).0 same in
        rw (← same_name) (
          ap (qualifies g) (get_ticker-upsert_ticker_self name (select_ticker rng) s t found)
          ∙ sym (ap (qualifies g) found))
    | inr differs ↦ ap (qualifies g) (
        get_ticker-upsert_ticker_ne name j (select_ticker rng) s
          (λ same. absurd (ground (arith, (str_eq_iff name j).1 same))))
  ]

  select_one_keeps :
      (f g : RuntimeFilters F) (sym j : String) (s : Store F)
      → qualifies_in g (select_one f sym s).1 j ≡ qualifies_in g s j
  unfolding select_one
  select_one_keeps f g name j s = elim (Option-cases (get_ticker name s)) [
    | inl missing ↦ rw (missing, select_one)
    | inr (t, found) ↦
        let rng = range_pct t.open0930 t.or_high t.or_low in
        let keeps = selected_keeps g name j s t found rng in
        rw (found, select_one) (ground (arith, keeps))
  ]

  select_loop-keep_if :
      (f : RuntimeFilters F) (wl : List String) (s : Store F)
      → (select_loop f wl s).0 ≡ keep_if (qualifies_in f s) wl
  unfolding select_loop
  select_loop-keep_if f [] s = refl
  select_loop-keep_if f (name ∷ wl) s =
      let same =
        keep_if_ext (qualifies_in f (select_one f name s).1) (qualifies_in f s)
          (λ j. select_one_keeps f f name j s) wl in
      rw (select_loop-keep_if f wl (select_one f name s).1, same, select_one-qualifies f name s)

  -- Whatever the order of the watchlist and of what the loop has marked so far, the 09:35 selection
  -- returns exactly the symbols of the watchlist, as often as they stand there, whose opening range
  -- is known and whose range and volume lie inside the filters of the store it started from.
  pub select_candidates_exact :
      (e : Engine F) (now : Time) (s : Store F)
      → Perm (select_candidates_at0935 e now s).0 (keep_if (qualifies_in s.filters s) s.watchlist)
  unfolding select_candidates_at0935 emit add_event get_ticker
  select_candidates_exact e now s =
      Perm.trans (sort_by-perm text_lt _)
        (subst (Perm _) (select_loop-keep_if s.filters s.watchlist _) (Perm.refl _))
