-- ===== src/Engine/Vwap/Replays.antt =====
-- The VWAP over a replay of REST trades.
use market_hacker.Base.{
  ◌≡◌, ◌∙◌, refl, inl, inr, String, Bool, true, false, not, ◌&&◌, some, List, [], ◌∷◌, ◌++◌, ℤ,
  arith, str_eq, All, Bool-cases,
}
use market_hacker.Float.{Float64, IsIeee}
use market_hacker.Clock.{Time, unix_milli}
use market_hacker.Store.{RuntimeFilters, TickerState, Times, Store, get_ticker}
use market_hacker.Engine.Types.{Engine}
use market_hacker.Engine.Ticks.{
  drops, record_trade, accumulate, track_max, track_min, track_excursions, mark_cross, enter, leave,
}
use market_hacker.Engine.Replay.{RestTrade, replay_trade, replay, trade_time_millis, is_zero_ℤ}
use market_hacker.Engine.Refine.{managed, settle, outcome, process_trade_refines}
use market_hacker.Engine.Vwap.{
  Averages, Averages-trans, Averages-none, Averages-accumulate, size_pos, print_if,
}

module _ {F : Type 0} ⦃d : Float64 F⦄ where
  open d use {nought, add, mul, div, lt, le}

  -- Does the replay count the trade?
  abbrev pub replays : Times → RestTrade F → Bool
  replays w tr =
      let millis = trade_time_millis tr in
      not (is_zero_ℤ millis) && not (drops w (unix_milli millis) tr.price tr.size)

  pub replayed : Times → List (RestTrade F) → List (F × F)
  replayed w [] = []
  replayed w (tr ∷ trs) = print_if (replays w tr) tr.price tr.size ++ replayed w trs

  -- What a trade does to the sums after it has been recorded, and to those of the excursions: nothing.
  pub record SameSums (t u : TickerState F) : Type 0 where
    pub volume : u.cum_v ≡ t.cum_v
    pub value : u.cum_pv ≡ t.cum_pv
    pub average : u.vwap ≡ t.vwap

  settle-SameSums :
      (e : Engine F) (f : RuntimeFilters F) (open_ny : Time) (w : Times) (tr : Time) (price : F)
      (allow : Bool) (t : TickerState F)
      → SameSums t (settle e f open_ny w tr price allow t)
  unfolding settle managed mark_cross enter leave
  settle-SameSums e f open_ny w tr price allow t = ground arith

  record_trade-accumulate :
      (open_ny tr : Time) (price size : F) (t : TickerState F)
      → SameSums (accumulate price size t) (record_trade open_ny tr price size t)
  unfolding record_trade accumulate track_excursions track_max track_min
  record_trade-accumulate open_ny tr price size t = ground arith

  module _ (ieee : IsIeee F) (e : Engine F) where
    outcome-Averages :
        (f : RuntimeFilters F) (open_ny : Time) (w : Times) (tr : Time) (price size : F)
        (allow : Bool) (t : TickerState F)
        → le nought t.cum_v ≡ true
        → le size size ≡ true
        → drops w tr price size ≡ false
        → Averages ((price, size) ∷ []) t (outcome e f open_ny w tr price size allow t)
    unfolding outcome drops
    outcome-Averages f open_ny w tr price size allow t nonneg number kept =
        let recorded = record_trade w.open_ny tr price size t in
        let a = record_trade-accumulate w.open_ny tr price size t in
        let b = settle-SameSums e f open_ny w tr price allow recorded in
        rw kept (
          Averages-accumulate ieee price size t _ nonneg (size_pos ieee size number (ground arith))
            (b.volume ∙ a.volume) (b.value ∙ a.value) (b.average ∙ a.average))

    outcome-dropped :
        (f : RuntimeFilters F) (open_ny : Time) (w : Times) (tr : Time) (price size : F)
        (allow : Bool) (t : TickerState F)
        → drops w tr price size ≡ true
        → outcome e f open_ny w tr price size allow t ≡ t
    unfolding outcome
    outcome-dropped f open_ny w tr price size allow t dropped = rw dropped refl

    timed-Averages :
        (w : Times) (millis : ℤ) (tr : RestTrade F) (s : Store F) (allow : Bool) (t : TickerState F)
        → le nought t.cum_v ≡ true
        → le tr.size tr.size ≡ true
        → Averages
            (print_if (not (drops w (unix_milli millis) tr.price tr.size)) tr.price tr.size)
            t
            (outcome e s.filters s.times.open_ny w (unix_milli millis) tr.price tr.size allow t)
    timed-Averages w millis tr s allow t nonneg number =
        let now = unix_milli millis in
        elim (Bool-cases (drops w now tr.price tr.size)) [
          | inl dropped ↦ rw dropped (
              rw (outcome-dropped s.filters s.times.open_ny w now tr.price tr.size allow t dropped)
                (Averages-none t t nonneg refl refl refl))
          | inr kept ↦ rw kept (
              outcome-Averages s.filters s.times.open_ny w now tr.price tr.size allow t nonneg
                number kept)
        ]

    replay_trade-Averages :
        (w : Times) (sym : String) (allow : Bool) (tr : RestTrade F) (s : Store F)
        (t : TickerState F)
        → str_eq sym "" ≡ false
        → get_ticker sym s ≡ some t
        → le nought t.cum_v ≡ true
        → le tr.size tr.size ≡ true
        → (t' : TickerState F) × (get_ticker sym (replay_trade e w sym allow tr s) ≡ some t')
          × Averages (print_if (replays w tr) tr.price tr.size) t t'
    unfolding replay_trade
    replay_trade-Averages w name allow tr s t named h nonneg number =
        let millis = trade_time_millis tr in
        elim (Bool-cases (is_zero_ℤ millis)) [
          | inl untimed ↦ rw untimed (t, h, Averages-none t t nonneg refl refl refl)
          | inr timed ↦ rw timed (
            outcome e s.filters s.times.open_ny w (unix_milli millis) tr.price tr.size allow t,
            process_trade_refines e w name millis tr.price tr.size allow s t named h,
            timed-Averages w millis tr s allow t nonneg number,
          )
        ]

    -- Where no size is NaN and the volume so far is not negative, a replay of the trades of a ticker,
    -- with or without actions, keeps its VWAP the quotient of the value and the volume of all trades
    -- that pass the guards, whatever the replay bought and sold, or the old one where none passes.
    pub replay-Averages :
        (w : Times) (sym : String) (allow : Bool) (trs : List (RestTrade F)) (s : Store F)
        (t : TickerState F)
        → str_eq sym "" ≡ false
        → get_ticker sym s ≡ some t
        → All (λ tr. le tr.size tr.size ≡ true) trs
        → le nought t.cum_v ≡ true
        → (t' : TickerState F) × (get_ticker sym (replay e w sym allow trs s) ≡ some t')
          × Averages (replayed w trs) t t'
    unfolding replay replayed
    replay-Averages w name allow [] s t named h numbers nonneg =
        (t, h, Averages-none t t nonneg refl refl refl)
    replay-Averages w name allow (tr ∷ trs) s t named h (number, numbers) nonneg =
        let (t1, h1, first) = replay_trade-Averages w name allow tr s t named h nonneg number in
        let (t2, h2, rest) =
          replay-Averages w name allow trs (replay_trade e w name allow tr s) t1 named h1 numbers
            first.not_negative in
        (t2, h2, Averages-trans first rest)
