-- ===== src/Store/Update.antt =====
-- What `UpdateFilters` promises, and how the runtime filters relate to the loaded configuration.
use market_hacker.Base.{
  ◌≡◌, ◌↔◌, ◌⊎◌, inl, inr, refl, String, false, none, some, arith, Result, ok, err, Option-cases,
}
use market_hacker.Float.{Float64}
use market_hacker.Config.{Config, validate_filters}
use market_hacker.Store.Types.{RuntimeFilters, Store}
use market_hacker.Store.Filters.{
  runtime_filters_from_config, validate_runtime_filters, update_filters,
}

module _ {F : Type 0} ⦃d : Float64 F⦄ where
  open d use {of_ℕ, lt, le}

  -- `UpdateFilters` either returns no error, and then the store holds the returned filters, which are
  -- the patched ones and are valid, with nothing else changed; or it returns an error with the current
  -- filters, and the store is unchanged.
  pub update_filters_atomic :
      (fn : RuntimeFilters F → Result (RuntimeFilters F)) (s : Store F)
      → let r = update_filters fn s in
        ((r.2 ≡ none)
          × (fn s.filters ≡ ok r.1)
          × (validate_runtime_filters r.1 ≡ none)
          × (r.0 ≡ record s { filters = r.1 }))
        ⊎ (((m : String) × (r.2 ≡ some m)) × (r.0 ≡ s) × (r.1 ≡ s.filters))
  unfolding update_filters
  update_filters_atomic fn s = go (fn s.filters) refl
    where
      go :
          (patched : Result (RuntimeFilters F))
          → fn s.filters ≡ patched
          → let r = update_filters fn s in
            ((r.2 ≡ none)
              × (fn s.filters ≡ ok r.1)
              × (validate_runtime_filters r.1 ≡ none)
              × (r.0 ≡ record s { filters = r.1 }))
            ⊎ (((m : String) × (r.2 ≡ some m)) × (r.0 ≡ s) × (r.1 ≡ s.filters))
      go (err m) h = rw (h, update_filters) (inr ((m, refl), refl, refl))
      go (ok next) h = elim (Option-cases (validate_runtime_filters next)) [
        | inl valid ↦
            rw (h, update_filters) (rw (valid, update_filters) (inl (refl, refl, valid, refl)))
        | inr (m, invalid) ↦
            rw (h, update_filters) (rw (invalid, update_filters) (inr ((m, refl), refl, refl)))
      ]

  -- The configuration's filters pass the runtime validation exactly when they passed the
  -- configuration's own and, besides, the bounds of today's percentage are in order, which the
  -- configuration's validation does not look at.
  pub runtime_validation_is_stricter :
      (c : Config F)
      → (validate_runtime_filters (runtime_filters_from_config c) ≡ none) ↔ (
          (validate_filters c.filters ≡ none)
          × (lt c.filters.open5m_today_pct_max c.filters.open5m_today_pct_min ≡ false))
  unfolding validate_runtime_filters validate_filters
  runtime_validation_is_stricter c = (λ h. (ground arith, ground arith), λ h. ground arith)
