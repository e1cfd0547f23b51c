-- ===== src/Engine/Vwap.antt =====
-- The VWAP that `processTrade` and `seedVWAPFromTrades` keep.
pub mod Replays
use market_hacker.Base.{
  ◌≡◌, ◌⊎◌, ◌∙◌, refl, sym, ap, inl, inr, String, Bool, true, false, not, ◌&&◌, ◌||◌, Option, none,
  some, List, [], ◌∷◌, ◌++◌, foldl, ℤ, arith, if◌then◌else◌, str_eq, All, Bool-cases,
}
use market_hacker.Float.{Float64, IsIeee, not_pos}
use market_hacker.Clock.{Time, unix_milli, after, before}
use market_hacker.Store.{RuntimeFilters, TickerState, Times, Store, get_ticker}
use market_hacker.Engine.Types.{Engine}
use market_hacker.Engine.Ticks.{
  drops, record_trade, accumulate, track_max, track_min, track_excursions, mark_cross, enter, leave,
}
use market_hacker.Engine.Replay.{RestTrade, replay_trade, replay, trade_time_millis, is_zero_ℤ}
use market_hacker.Engine.Tracking.{seed_trade, seed_trades}
use market_hacker.Engine.Refine.{managed, settle, outcome, process_trade_refines}

module _ {F : Type 0} ⦃d : Float64 F⦄ where
  open d use {nought, add, mul, div, lt, le}

  -- The sums over prints, which are pairs of a price and a size, from a starting value on.
  pub volume_of : F → List (F × F) → F
  volume_of v [] = v
  volume_of v ((price, size) ∷ ps) = volume_of (add v size) ps

  pub value_of : F → List (F × F) → F
  value_of v [] = v
  value_of v ((price, size) ∷ ps) = value_of (add v (mul price size)) ps

  volume_of-append :
      (v : F) (ps qs : List (F × F)) → volume_of v (ps ++ qs) ≡ volume_of (volume_of v ps) qs
  unfolding volume_of
  volume_of-append v [] qs = refl
  volume_of-append v ((price, size) ∷ ps) qs = volume_of-append (add v size) ps qs

  value_of-append :
      (v : F) (ps qs : List (F × F)) → value_of v (ps ++ qs) ≡ value_of (value_of v ps) qs
  unfolding value_of
  value_of-append v [] qs = refl
  value_of-append v ((price, size) ∷ ps) qs = value_of-append (add v (mul price size)) ps qs

  -- The sums of `t'` are those of `t` and the prints, and its VWAP is their quotient, or that of `t`
  -- where there is no print.
  pub record Averages (ps : List (F × F)) (t t' : TickerState F) : Type 0 where
    pub volume : t'.cum_v ≡ volume_of t.cum_v ps
    pub value : t'.cum_pv ≡ value_of t.cum_pv ps
    pub average : ((ps ≡ []) × (t'.vwap ≡ t.vwap)) ⊎ (t'.vwap ≡ div t'.cum_pv t'.cum_v)
    pub not_negative : le nought t'.cum_v ≡ true

  pub Averages-trans :
      {ps qs : List (F × F)} {t u v : TickerState F}
      → Averages ps t u
      → Averages qs u v
      → Averages (ps ++ qs) t v
  unfolding volume_of value_of
  Averages-trans {ps} {qs} {t} {u} {v} p q = record {
    volume = q.volume ∙ ap (λ x. volume_of x qs) p.volume ∙ sym (volume_of-append t.cum_v ps qs);
    value = q.value ∙ ap (λ x. value_of x qs) p.value ∙ sym (value_of-append t.cum_pv ps qs);
    average = elim q.average [
      | inr e ↦ inr e
      | inl (none_new, same) ↦
          let volume_kept : v.cum_v ≡ u.cum_v = q.volume ∙ ap (volume_of u.cum_v) none_new in
          let value_kept : v.cum_pv ≡ u.cum_pv = q.value ∙ ap (value_of u.cum_pv) none_new in
          elim p.average [
            | inl (none_old, same') ↦ inl (ap (λ x. x ++ qs) none_old ∙ none_new, same ∙ same')
            | inr e ↦ inr (rw (volume_kept, value_kept) (same ∙ e))
          ]
    ];
    not_negative = q.not_negative;
  }

  pub Averages-none :
      (t u : TickerState F)
      → le nought t.cum_v ≡ true
      → u.cum_v ≡ t.cum_v
      → u.cum_pv ≡ t.cum_pv
      → u.vwap ≡ t.vwap
      → Averages [] t u
  unfolding volume_of value_of
  Averages-none t u nonneg v pv a = record {
    volume = v;
    value = pv;
    average = inl (refl, a);
    not_negative = rw v nonneg;
  }

  abbrev pub print_if : Bool → F → F → List (F × F)
  print_if counted price size = if counted then (price, size) ∷ [] else []

  -- Does `seedVWAPFromTrades` count the trade?
  abbrev pub seeds : RestTrade F → Bool
  seeds tr = not ((not_pos tr.price || not_pos tr.size) || is_zero_ℤ (trade_time_millis tr))

  pub seeded : List (RestTrade F) → List (F × F)
  seeded [] = []
  seeded (tr ∷ trs) = print_if (seeds tr) tr.price tr.size ++ seeded trs

  module _ (ieee : IsIeee F) where
    pub size_pos : (size : F) → le size size ≡ true → not_pos size ≡ false → lt nought size ≡ true
    size_pos size number pos_size =
        ground (arith, ieee.le_of_not_lt nought size ieee.nought_number number)

    pub Averages-accumulate :
        (price size : F) (t u : TickerState F)
        → le nought t.cum_v ≡ true
        → lt nought size ≡ true
        → u.cum_v ≡ (accumulate price size t).cum_v
        → u.cum_pv ≡ (accumulate price size t).cum_pv
        → u.vwap ≡ (accumulate price size t).vwap
        → Averages ((price, size) ∷ []) t u
    unfolding accumulate volume_of value_of
    Averages-accumulate price size t u nonneg pos_size v pv a =
        let grows = ieee.add_pos t.cum_v size nonneg pos_size in
        record {
          volume = v;
          value = pv;
          average = inr (rw (v, pv) (a ∙ rw grows refl));
          not_negative = rw v (ieee.le_of_lt nought _ grows);
        }

    seed_trade-Averages :
        (start : Time) (tr : RestTrade F) (t : TickerState F)
        → le nought t.cum_v ≡ true
        → le tr.size tr.size ≡ true
        → Averages (print_if (seeds tr) tr.price tr.size) t (seed_trade start tr t)
    unfolding seed_trade
    seed_trade-Averages start tr t nonneg number = elim (Bool-cases (seeds tr)) [
      | inr skipped ↦
          rw skipped (Averages-none t _ nonneg (ground arith) (ground arith) (ground arith))
      | inl counted ↦ rw counted (
          Averages-accumulate tr.price tr.size t _ nonneg (size_pos tr.size number (ground arith))
            (ground arith) (ground arith) (ground arith))
    ]

    -- Where no size is NaN and the volume so far is not negative, the volume of a seeded ticker is the
    -- old one and the sizes of the counted trades, its value that and their prices times sizes, and
    -- its VWAP the quotient of the two, or the old one where no trade is counted.
    pub seed_trades-Averages :
        (start : Time) (trs : List (RestTrade F)) (t : TickerState F)
        → All (λ tr. le tr.size tr.size ≡ true) trs
        → le nought t.cum_v ≡ true
        → Averages (seeded trs) t (seed_trades start trs t)
    unfolding seed_trades seeded
    seed_trades-Averages start [] t numbers nonneg = Averages-none t t nonneg refl refl refl
    seed_trades-Averages start (tr ∷ trs) t (number, numbers) nonneg =
        let first = seed_trade-Averages start tr t nonneg number in
        Averages-trans first
          (seed_trades-Averages start trs (seed_trade start tr t) numbers first.not_negative)
