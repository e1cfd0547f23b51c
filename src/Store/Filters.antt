-- ===== src/Store/Filters.antt =====
-- `runtimeFiltersFromConfig`, `validateRuntimeFilters` and `UpdateFilters` of store.go.
use market_hacker.Base.{String, Option, none, some, ◌||◌, ltb_ℤ, if◌then◌else◌, Result, ok, err}
use market_hacker.Float.{Float64, not_pos}
use market_hacker.Config.{Config}
use market_hacker.Store.Types.{RuntimeFilters, Store}

abbrev pub runtime_filters_from_config : {F : Type 0} → Config F → RuntimeFilters F
runtime_filters_from_config cfg = record {
  open5m_range_pct_min = cfg.filters.open5m_range_pct_min;
  open5m_range_pct_max = cfg.filters.open5m_range_pct_max;
  open5m_vol_min = cfg.filters.open5m_vol_min;
  open5m_vol_max = cfg.filters.open5m_vol_max;
  open5m_today_pct_min = cfg.filters.open5m_today_pct_min;
  open5m_today_pct_max = cfg.filters.open5m_today_pct_max;
  entry_min_after_open = cfg.filters.entry_min_after_open;
  entry_max_after_open = cfg.filters.entry_max_after_open;
  entry_price_min = cfg.filters.entry_price_min;
  entry_price_max = cfg.filters.entry_price_max;
  sold_off_from_open_pct_min = cfg.filters.sold_off_from_open_pct_min;
  sold_off_open5m_range_pct_min = cfg.filters.sold_off_open5m_range_pct_min;
  sold_off_open5m_today_pct_min = cfg.filters.sold_off_open5m_today_pct_min;
}

module _ {F : Type 0} ⦃d : Float64 F⦄ where
  open d use {of_ℕ, lt, le}

  unfoldable pub validate_runtime_filters : RuntimeFilters F → Option String
  validate_runtime_filters f =
      if not_pos f.open5m_range_pct_min
        || (not_pos f.open5m_range_pct_max || lt f.open5m_range_pct_max f.open5m_range_pct_min)
      then some "open_5m_range_pct_min/max invalid"
      else if lt f.open5m_vol_max f.open5m_vol_min
      then some "open_5m_vol_min/max invalid"
      else if lt f.open5m_today_pct_max f.open5m_today_pct_min
      then some "open_5m_today_pct_min/max invalid"
      else if ltb_ℤ f.entry_max_after_open f.entry_min_after_open
      then some "entry_minutes_after_open_min/max invalid"
      else if lt f.entry_price_max f.entry_price_min
      then some "entry_price_min/max invalid"
      else if not_pos f.sold_off_from_open_pct_min || le (of_ℕ 1) f.sold_off_from_open_pct_min
      then some "sold_off_from_open_pct_min invalid (expected 0..1)"
      else if not_pos f.sold_off_open5m_range_pct_min || le (of_ℕ 1) f.sold_off_open5m_range_pct_min
      then some "sold_off_open5m_range_pct_min invalid (expected 0..1)"
      else if not_pos f.sold_off_open5m_today_pct_min
      then some "sold_off_open5m_today_pct_min invalid (>0)"
      else none

  -- The patch function returns the changed filters or an error. On an error the store stays, and
  -- the error comes with the current filters.
  unfoldable pub update_filters :
      (RuntimeFilters F → Result (RuntimeFilters F))
      → Store F
      → Store F × RuntimeFilters F × Option String
  update_filters fn s = elim (fn s.filters) [
    | err e ↦ (s, s.filters, some e)
    | ok next ↦ elim (validate_runtime_filters next) [
      | some e ↦ (s, s.filters, some e)
      | none ↦ (record s { filters = next }, next, none)
    ]
  ]
