-- ===== src/Session/Holds/Edits.antt =====
-- What a change of the runtime filters keeps, while the loop over the live trades runs.
use market_hacker.Base.{
  ◌≡◌, refl, inl, inr, Option-cases, Result, ok, err, All, map, List, [], ◌∷◌, none,
}
use market_hacker.Float.{Float64}
use market_hacker.Store.{RuntimeFilters, Store, update_filters, validate_runtime_filters}
use market_hacker.Session.Feeds.{
  edit_all, Live, trade, edited, forced_exit, noticed, socket_error, socket_closed,
}

module _ {F : Type 0} ⦃d : Float64 F⦄ where
  -- A change is made, or the store stays as it is.
  pub update_filters_kept :
      (P : Store F → Type 0) (fn : RuntimeFilters F → Result (RuntimeFilters F)) (s : Store F)
      → ((f : RuntimeFilters F)
          → fn s.filters ≡ ok f
          → validate_runtime_filters f ≡ none
          → P (record s { filters = f }))
      → P s
      → P (update_filters fn s).0
  unfolding update_filters
  update_filters_kept P fn s made h = go (fn s.filters) refl
    where
      go : (r : Result (RuntimeFilters F)) → fn s.filters ≡ r → P (update_filters fn s).0
      go (err m) eq = rw (eq, update_filters) h
      go (ok f) eq = elim (Option-cases (validate_runtime_filters f)) [
        | inl valid ↦ rw (eq, update_filters) (rw (valid, update_filters) (made f eq valid))
        | inr (m, invalid) ↦ rw (eq, update_filters) (rw (invalid, update_filters) h)
      ]

  -- A change of the filters keeps `P`.
  abbrev pub EditKept : (Store F → Type 0) → Live F → Type 0
  EditKept P (trade m) = Unit
  EditKept P (edited fn) = (s : Store F) → P s → P (update_filters fn s).0
  EditKept P forced_exit = Unit
  EditKept P noticed = Unit
  EditKept P (socket_error m) = Unit
  EditKept P socket_closed = Unit

  pub edit_all_kept :
      (P : Store F → Type 0) (fns : List (RuntimeFilters F → Result (RuntimeFilters F)))
      (s : Store F)
      → All (EditKept P) (map edited fns)
      → P s
      → P (edit_all fns s)
  unfolding edit_all
  edit_all_kept P [] s edits h = h
  edit_all_kept P (fn ∷ fns) s (edit, edits) h = edit_all_kept P fns _ edits (edit s h)

  -- What does not look at the filters, every change of them keeps.
  pub edits_kept :
      (P : Store F → Type 0)
      → ((f : RuntimeFilters F) (s : Store F) → P s → P (record s { filters = f }))
      → (live : List (Live F)) → All (EditKept P) live
  edits_kept P blind [] = tt
  edits_kept P blind (trade m ∷ live) = (tt, edits_kept P blind live)
  edits_kept P blind (edited fn ∷ live) =
      (λ s h. update_filters_kept P fn s (λ f made valid. blind f s h) h, edits_kept P blind live)
  edits_kept P blind (forced_exit ∷ live) = (tt, edits_kept P blind live)
  edits_kept P blind (noticed ∷ live) = (tt, edits_kept P blind live)
  edits_kept P blind (socket_error m ∷ live) = (tt, edits_kept P blind live)
  edits_kept P blind (socket_closed ∷ live) = (tt, edits_kept P blind live)
