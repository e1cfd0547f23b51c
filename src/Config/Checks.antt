-- ===== src/Config/Checks.antt =====
-- What a configuration that `config.Load` accepts is known to satisfy.
use market_hacker.Base.{
  ap, ◌≡◌, ◌≤◌, ◌<◌, refl, String, false, none, ℤ, pos, negsuc, ◌≤ℤ◌, arith, ltb_ℤ, str_eq, Result,
  ok, err, Bool-cases, inl, inr, ℕ,
}
use market_hacker.Float.{Float64, IsIeee, not_pos, ratio}
use market_hacker.Float.Fixed.{fixed_float}
use market_hacker.Config.{
  Config, FiltersConfig, or_text, or_port, or_count, or_float, apply_defaults, validate,
  validate_filters, load,
}

or_count_pos : (v : ℕ) (n : ℤ) → 0 < v → pos 1 ≤ℤ or_count v n
unfolding or_count
or_count_pos v n h = ground arith

or_count_twice : (v : ℕ) (n : ℤ) → or_count v (or_count v n) ≡ or_count v n
unfolding or_count
or_count_twice v n = ground arith

or_port_twice : (v : ℕ) (n : ℤ) → or_port v (or_port v n) ≡ or_port v n
unfolding or_port
or_port_twice ℕ.zero (pos ℕ.zero) = refl
or_port_twice (ℕ.suc v) (pos ℕ.zero) = refl
or_port_twice v (pos (ℕ.suc n)) = refl
or_port_twice v (negsuc n) = refl

or_text_twice : (v x : String) → or_text v (or_text v x) ≡ or_text v x
unfolding or_text
or_text_twice v x = elim (Bool-cases (str_eq x "")) [
  | inl e ↦ rw e (elim (Bool-cases (str_eq v "")) [ inl e' ↦ rw e' | inr e' ↦ rw e' ])
  | inr e ↦ rw (e, e)
]

module _ {F : Type 0} ⦃d : Float64 F⦄ where
  open d use {of_ℕ, lt, le}

  -- The filters that `validate` lets through.
  pub record FiltersAccepted (f : FiltersConfig F) : Type 0 where
    pub range_min_pos : not_pos f.open5m_range_pct_min ≡ false
    pub range_max_pos : not_pos f.open5m_range_pct_max ≡ false
    pub range_ordered : lt f.open5m_range_pct_max f.open5m_range_pct_min ≡ false
    pub volume_ordered : lt f.open5m_vol_max f.open5m_vol_min ≡ false
    pub minutes_ordered : ltb_ℤ f.entry_max_after_open f.entry_min_after_open ≡ false
    pub price_ordered : lt f.entry_price_max f.entry_price_min ≡ false
    pub drop_pos : not_pos f.sold_off_from_open_pct_min ≡ false
    pub drop_small : le (of_ℕ 1) f.sold_off_from_open_pct_min ≡ false
    pub sold_range_pos : not_pos f.sold_off_open5m_range_pct_min ≡ false
    pub sold_range_small : le (of_ℕ 1) f.sold_off_open5m_range_pct_min ≡ false
    pub sold_today_pos : not_pos f.sold_off_open5m_today_pct_min ≡ false

  pub validate_filters-FiltersAccepted :
      (f : FiltersConfig F) → validate_filters f ≡ none → FiltersAccepted f
  unfolding validate_filters
  validate_filters-FiltersAccepted f h = ground arith

  -- A configuration that the rest of the program can run on.
  pub record IsLoaded (c : Config F) : Type 0 where
    pub port_low : pos 1 ≤ℤ c.server.port
    pub port_high : c.server.port ≤ℤ pos 65_535
    pub events_pos : pos 1 ≤ℤ c.ui.max_events
    pub workers_pos : pos 1 ≤ℤ c.history.max_workers
    pub sessions_pos : pos 1 ≤ℤ c.history.open5m_lookback_sessions
    pub lookback_pos : pos 1 ≤ℤ c.history.max_calendar_lookback
    pub batch_pos : pos 1 ≤ℤ c.massive.ws_batch_size
    pub profit_pos : not_pos c.risk.take_profit_pct ≡ false
    pub stop_pos : not_pos c.risk.stop_loss_pct ≡ false
    pub filters_fit : FiltersAccepted c.filters

  or_float_pos : (v x : F) → not_pos v ≡ false → not_pos (or_float v x) ≡ false
  unfolding or_float
  or_float_pos v x h = elim (Bool-cases (not_pos x)) [ inl e ↦ rw e h | inr e ↦ rw e e ]

  load-parts :
      (r : Result (Config F)) (c : Config F)
      → load r ≡ ok c
      → (c0 : Config F) × (r ≡ ok c0) × (c ≡ apply_defaults c0) × (validate c ≡ none)
  unfolding load
  load-parts (err e) c h = absurd (ground arith)
  load-parts (ok c0) c h = (c0, refl, ground arith, ground arith)

  or_float_twice : (v x : F) → or_float v (or_float v x) ≡ or_float v x
  unfolding or_float
  or_float_twice v x = elim (Bool-cases (not_pos x)) [
    | inl e ↦ rw e (elim (Bool-cases (not_pos v)) [ inl e' ↦ rw e' | inr e' ↦ rw e' ])
    | inr e ↦ rw (e, e)
  ]

  apply_defaults_twice : (c : Config F) → apply_defaults (apply_defaults c) ≡ apply_defaults c
  unfolding apply_defaults
  apply_defaults_twice c = simp (or_text_twice, or_port_twice, or_count_twice, or_float_twice)

  -- Loading a configuration that `Load` returned gives it back unchanged.
  pub load_idempotent : (r : Result (Config F)) (c : Config F) → load r ≡ ok c → load (ok c) ≡ ok c
  unfolding load
  load_idempotent r c h =
      let (c0, _, e, valid) = load-parts r c h in
      let same : apply_defaults c ≡ c = rw e (apply_defaults_twice c0) in
      rw (same, load) (rw (valid, load) (ap ok same))

  validate-parts :
      (c : Config F)
      → validate c ≡ none
      → (pos 1 ≤ℤ c.server.port)
        × (c.server.port ≤ℤ pos 65_535)
        × (validate_filters c.filters ≡ none)
  unfolding validate
  validate-parts c h = (ground arith, ground arith, ground arith)

  module _ (laws : IsIeee F) where
    literal_pos : (a b : ℕ) → 0 < a → 0 < b → b ≤ 1000 → not_pos {F = F} (ratio a b) ≡ false
    literal_pos a b p q r = laws.not_le_of_lt _ _ (laws.ratio_pos a b p q r)

    -- A configuration that `Load` returns has a valid port, positive counts and batch size, positive
    -- risk percentages, and filters that are ordered, positive and below 1 where the checks say so.
    pub load-IsLoaded : (r : Result (Config F)) (c : Config F) → load r ≡ ok c → IsLoaded c
    unfolding apply_defaults
    load-IsLoaded r c h =
        let (c0, _, e, valid) = load-parts r c h in
        let (low, high, filters) = validate-parts c valid in
        record {
          port_low = low;
          port_high = high;
          events_pos = rw e (or_count_pos 250 c0.ui.max_events (omega arith));
          workers_pos = rw e (or_count_pos 6 c0.history.max_workers (omega arith));
          sessions_pos = rw e (or_count_pos 10 c0.history.open5m_lookback_sessions (omega arith));
          lookback_pos = rw e (or_count_pos 35 c0.history.max_calendar_lookback (omega arith));
          batch_pos = rw e (or_count_pos 200 c0.massive.ws_batch_size (omega arith));
          profit_pos = rw e (
              or_float_pos _ c0.risk.take_profit_pct
                (literal_pos 5 100 (omega arith) (omega arith) (omega arith)));
          stop_pos = rw e (
              or_float_pos _ c0.risk.stop_loss_pct
                (literal_pos 2 100 (omega arith) (omega arith) (omega arith)));
          filters_fit = validate_filters-FiltersAccepted c.filters filters;
        }
