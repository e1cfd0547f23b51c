-- ===== src/Server/Requests.antt =====
-- `handleFilters` with `filtersPatch` of internal/server/api.go.
use market_hacker.Base.{String, Option, none, some, ℤ, or_else, Result, ok, err}
use market_hacker.Float.{Float64}
use market_hacker.Store.{RuntimeFilters, Store, update_filters}

-- A field that the JSON body leaves out is `none`.
pub record FiltersPatch (F : Type 0) : Type 0 where
  pub open5m_range_pct_min : Option F
  pub open5m_range_pct_max : Option F
  pub open5m_vol_min : Option F
  pub open5m_vol_max : Option F
  pub open5m_today_pct_min : Option F
  pub open5m_today_pct_max : Option F
  pub entry_min_after_open : Option ℤ
  pub entry_max_after_open : Option ℤ
  pub entry_price_min : Option F
  pub entry_price_max : Option F
  pub sold_off_from_open_pct_min : Option F
  pub sold_off_open5m_range_pct_min : Option F
  pub sold_off_open5m_today_pct_min : Option F

unfoldable pub apply_patch : {F : Type 0} → FiltersPatch F → RuntimeFilters F → RuntimeFilters F
apply_patch p f = record {
  open5m_range_pct_min = or_else f.open5m_range_pct_min p.open5m_range_pct_min;
  open5m_range_pct_max = or_else f.open5m_range_pct_max p.open5m_range_pct_max;
  open5m_vol_min = or_else f.open5m_vol_min p.open5m_vol_min;
  open5m_vol_max = or_else f.open5m_vol_max p.open5m_vol_max;
  open5m_today_pct_min = or_else f.open5m_today_pct_min p.open5m_today_pct_min;
  open5m_today_pct_max = or_else f.open5m_today_pct_max p.open5m_today_pct_max;
  entry_min_after_open = or_else f.entry_min_after_open p.entry_min_after_open;
  entry_max_after_open = or_else f.entry_max_after_open p.entry_max_after_open;
  entry_price_min = or_else f.entry_price_min p.entry_price_min;
  entry_price_max = or_else f.entry_price_max p.entry_price_max;
  sold_off_from_open_pct_min = or_else f.sold_off_from_open_pct_min p.sold_off_from_open_pct_min;
  sold_off_open5m_range_pct_min =
      or_else f.sold_off_open5m_range_pct_min p.sold_off_open5m_range_pct_min;
  sold_off_open5m_today_pct_min =
      or_else f.sold_off_open5m_today_pct_min p.sold_off_open5m_today_pct_min;
}

-- The method of a request; of POST, what the JSON decoder made of the body.
pub data FiltersRequest (F : Type 0) : Type 0 where
  get : FiltersRequest F
  post : Result (FiltersPatch F) → FiltersRequest F
  other : FiltersRequest F

pub data FiltersResponse (F : Type 0) : Type 0 where
  filters : RuntimeFilters F → FiltersResponse F
  rejected : String → FiltersResponse F
  invalid_json : FiltersResponse F
  not_allowed : FiltersResponse F

module _ {F : Type 0} ⦃d : Float64 F⦄ where
  abbrev pub filters_answer :
      Store F × RuntimeFilters F × Option String → Store F × FiltersResponse F
  filters_answer (s, f, none) = (s, filters f)
  filters_answer (s, f, some m) = (s, rejected m)

  unfoldable pub handle_filters : FiltersRequest F → Store F → Store F × FiltersResponse F
  handle_filters get s = (s, filters s.filters)
  handle_filters (post (err _)) s = (s, invalid_json)
  handle_filters (post (ok p)) s = filters_answer (update_filters (λ f. ok (apply_patch p f)) s)
  handle_filters other s = (s, not_allowed)
