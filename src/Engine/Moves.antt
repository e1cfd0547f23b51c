-- ===== src/Engine/Moves.antt =====
-- The position of a ticker as a state machine. A trade makes one `Move`: it leaves the position as
-- it is, opens it, or closes it, and a move carries the conditions under which the code makes it.
use market_hacker.Base.{
  String, ◌≡◌, ◌⊎◌, inl, inr, refl, Bool, true, false, not, ◌&&◌, ◌||◌, some, ℤ, arith,
  if◌then◌else◌, str_eq, Bool-cases,
}
use market_hacker.Float.{Float64, of_ℤ, ratio, outside}
use market_hacker.Clock.{Time, unix_milli, before, minutes_between}
use market_hacker.Store.{RuntimeFilters, TickerState, Times, Store, get_ticker}
use market_hacker.Engine.Types.{Engine}
use market_hacker.Engine.Ticks.{
  drops, record_trade, accumulate, track_max, track_min, track_excursions, detects, mark_cross,
  entry_refused, hits_profit, hits_stop, enter, leave,
}
use market_hacker.Engine.Trade.{process_trade}
use market_hacker.Engine.Refine.{managed, settle, outcome, process_trade_refines}

-- The fields that say what was bought and sold.
pub record SamePosition {F : Type 0} (t t' : TickerState F) : Type 0 where
  pub has_position : t'.has_position ≡ t.has_position
  pub entry_price : t'.entry_price ≡ t.entry_price
  pub entry_time : t'.entry_time ≡ t.entry_time
  pub take_profit_price : t'.take_profit_price ≡ t.take_profit_price
  pub stop_price : t'.stop_price ≡ t.stop_price
  pub exited : t'.exited ≡ t.exited
  pub exit_price : t'.exit_price ≡ t.exit_price
  pub exit_time : t'.exit_time ≡ t.exit_time
  pub exit_reason : t'.exit_reason ≡ t.exit_reason

module _ {F : Type 0} where
  pub SamePosition-refl : (t : TickerState F) → SamePosition t t
  SamePosition-refl t = ground arith

  pub SamePosition-trans :
      {t u v : TickerState F} → SamePosition t u → SamePosition u v → SamePosition t v
  SamePosition-trans p q = ground arith

module _ {F : Type 0} ⦃d : Float64 F⦄ where
  open d use {add, lt, le, nought}

  track_max-SamePosition :
      (tr : Time) (p : F) (t : TickerState F) → SamePosition t (track_max tr p t)
  unfolding track_max
  track_max-SamePosition tr p t = ground arith

  track_min-SamePosition :
      (tr : Time) (p : F) (t : TickerState F) → SamePosition t (track_min tr p t)
  unfolding track_min
  track_min-SamePosition tr p t = ground arith

  track_excursions-SamePosition :
      (tr : Time) (p : F) (t : TickerState F) → SamePosition t (track_excursions tr p t)
  unfolding track_excursions
  track_excursions-SamePosition tr p t =
      ground (arith, track_max-SamePosition tr p t, track_min-SamePosition tr p (track_max tr p t))

  pub record_trade-SamePosition :
      (open_ny tr : Time) (p size : F) (t : TickerState F)
      → SamePosition t (record_trade open_ny tr p size t)
  unfolding record_trade accumulate
  record_trade-SamePosition open_ny tr p size t =
      SamePosition-trans (ground arith) (track_excursions-SamePosition tr p _)

  pub mark_cross-SamePosition :
      (tr : Time) (p : F) (t : TickerState F) → SamePosition t (mark_cross tr p t)
  unfolding mark_cross
  mark_cross-SamePosition tr p t = ground arith

  -- What the entry block demands of the trade and of the ticker as it stands after the trade.
  pub record Admits (f : RuntimeFilters F) (w : Times) (tr : Time) (price : F) (t : TickerState F)
      : Type 0 where
    pub after_selection : before tr w.sel_ny ≡ false
    pub before_cutoff : before tr w.cutoff_ny ≡ true
    pub in_window :
        outside
          (of_ℤ f.entry_min_after_open)
          (add (of_ℤ f.entry_max_after_open) (ratio 999 1000))
          (minutes_between w.open_ny tr)
        ≡ false
    pub range_fits :
        outside f.open5m_range_pct_min f.open5m_range_pct_max t.open5m_range_pct ≡ false
    pub volume_fits : outside f.open5m_vol_min f.open5m_vol_max t.open5m_vol ≡ false
    pub today_fits :
        outside f.open5m_today_pct_min f.open5m_today_pct_max t.open5m_today_pct ≡ false
    pub price_fits : outside f.entry_price_min f.entry_price_max price ≡ false
    pub vwap_pos : lt nought t.vwap ≡ true
    pub above_vwap : le t.vwap price ≡ true

  entry_refused-Admits :
      (f : RuntimeFilters F) (w : Times) (tr : Time) (price : F) (t : TickerState F)
      → entry_refused f w tr price t ≡ false
      → Admits f w tr price t
  unfolding entry_refused
  entry_refused-Admits f w tr price t h = ground arith

  -- `crossed` says that a cross was seen, before this trade or by it; `t` is the ticker with the
  -- trade already in its VWAP.
  pub data Move (e : Engine F) (f : RuntimeFilters F) (open_ny : Time) (w : Times) (tr : Time)
      (price : F) (allow : Bool) (t : TickerState F) : TickerState F → Type 0 where
    stays : {t' : TickerState F} → SamePosition t t' → Move e f open_ny w tr price allow t t'
    enters :
        {u t' : TickerState F}
        → SamePosition t u
        → t' ≡ enter e open_ny tr price u
        → allow ≡ true
        → t.has_position ≡ false
        → t.exited ≡ false
        → u.saw_cross_in_window ≡ true
        → Admits f w tr price t
        → Move e f open_ny w tr price allow t t'
    leaves :
        {u t' : TickerState F} (reason : String)
        → SamePosition t u
        → t' ≡ leave open_ny tr reason price u
        → allow ≡ true
        → t.has_position ≡ true
        → t.exited ≡ false
        → ((reason ≡ "PROFIT") × (le t.take_profit_price price ≡ true))
          ⊎ ((reason ≡ "STOP") × (le price t.stop_price ≡ true))
        → Move e f open_ny w tr price allow t t'

  module _ (e : Engine F) (f : RuntimeFilters F) (open_ny : Time) (w : Times) (tr : Time)
      (price : F) where
    managed-Move :
        (allow : Bool) (t u : TickerState F)
        → SamePosition t u
        → Move e f open_ny w tr price allow t (managed e open_ny tr price allow t u)
    unfolding managed hits_profit hits_stop
    managed-Move false t u same = stays same
    managed-Move true t u same = elim (Bool-cases (t.has_position && not t.exited)) [
      | inr no_position ↦ rw no_position (stays same)
      | inl long ↦ rw long (elim (Bool-cases (hits_profit price t)) [
        | inl hit ↦ rw hit (
            leaves "PROFIT" same refl refl (ground arith) (ground arith) (inl (refl, ground arith)))
        | inr no_hit ↦ rw no_hit (elim (Bool-cases (hits_stop price t)) [
          | inl stop ↦ rw stop (
              leaves "STOP" same refl refl (ground arith) (ground arith) (inr (refl, ground arith)))
          | inr no_stop ↦ rw no_stop (stays same)
        ])
      ])
    ]

    saw_cross-mark_cross : (t : TickerState F) → (mark_cross tr price t).saw_cross_in_window ≡ true
    unfolding mark_cross
    saw_cross-mark_cross t = ground arith

    settle-Move :
        (allow : Bool) (t : TickerState F)
        → Move e f open_ny w tr price allow t (settle e f open_ny w tr price allow t)
    unfolding settle
    settle-Move allow t = elim (Bool-cases (detects w tr price t)) [
      | inl found ↦ rw found (
          go (mark_cross tr price t) (mark_cross-SamePosition tr price t) true
            (λ _. saw_cross-mark_cross t))
      | inr no_cross ↦ rw no_cross (go t (SamePosition-refl t) false (λ h. ground arith))
    ]
      where
        go :
            (u : TickerState F)
            → SamePosition t u
            → (found : Bool)
            → ((t.saw_cross_in_window || found) ≡ true → u.saw_cross_in_window ≡ true)
            → Move e f open_ny w tr price allow t (
                if allow && (not t.has_position && not t.exited)
                then if entry_refused f w tr price t
                  then u
                  else if t.saw_cross_in_window || found
                  then enter e open_ny tr price u
                  else managed e open_ny tr price allow t u
                else managed e open_ny tr price allow t u)
        go u same found crossed =
            elim (Bool-cases (allow && (not t.has_position && not t.exited))) [
              | inr closed ↦ rw closed (managed-Move allow t u same)
              | inl flat ↦ rw flat (elim (Bool-cases (entry_refused f w tr price t)) [
                | inl refused ↦ rw refused (stays same)
                | inr admitted ↦ rw admitted (elim (Bool-cases (t.saw_cross_in_window || found)) [
                  | inr no_cross ↦ rw no_cross (managed-Move allow t u same)
                  | inl cross ↦ rw cross (
                      enters same refl (ground arith) (ground arith) (ground arith) (crossed cross)
                        (entry_refused-Admits f w tr price t admitted))
                ])
              ])
            ]

  pub outcome-moves :
      (e : Engine F) (f : RuntimeFilters F) (open_ny : Time) (w : Times) (tr : Time)
      (price size : F) (allow : Bool) (t : TickerState F)
      → let t' = outcome e f open_ny w tr price size allow t in
        ((drops w tr price size ≡ true) × (t' ≡ t))
        ⊎ ((drops w tr price size ≡ false)
            × Move e f open_ny w tr price allow (record_trade w.open_ny tr price size t) t')
  unfolding outcome
  outcome-moves e f open_ny w tr price size allow t = elim (Bool-cases (drops w tr price size)) [
    | inl dropped ↦ rw dropped (inl (refl, refl))
    | inr kept ↦ rw kept (
        inr
          (refl, settle-Move e f open_ny w tr price allow (record_trade w.open_ny tr price size t)))
  ]

  -- The move of `processTrade`: either the trade is dropped and the ticker is untouched, or the
  -- ticker takes the trade into its VWAP (as `record_trade` does) and then makes a `Move`.
  pub process_trade_moves :
      (e : Engine F) (w : Times) (sym : String) (ts_millis : ℤ) (price size : F) (allow : Bool)
      (s : Store F) (t : TickerState F)
      → str_eq sym "" ≡ false
      → get_ticker sym s ≡ some t
      → let tr = unix_milli ts_millis in
        (t' : TickerState F) × (get_ticker sym (process_trade e w sym ts_millis price size allow s)
          ≡ some t')
        × (((drops w tr price size ≡ true) × (t' ≡ t))
            ⊎ ((drops w tr price size ≡ false)
                × Move e s.filters s.times.open_ny w tr price allow
                    (record_trade w.open_ny tr price size t)
                    t'))
  process_trade_moves e w sym ts_millis price size allow s t named h =
      let tr = unix_milli ts_millis in
      (
        outcome e s.filters s.times.open_ny w tr price size allow t,
        process_trade_refines e w sym ts_millis price size allow s t named h,
        outcome-moves e s.filters s.times.open_ny w tr price size allow t,
      )
