-- ===== src/Engine/CatchUp.antt =====
-- The catch-up of a live session replays trades with actions switched off.
use market_hacker.Base.{
  String, ◌≡◌, inl, inr, sym, ◌∙◌, false, some, List, [], ◌∷◌, ℤ, arith, str_eq, str_eq_iff,
  Bool-cases,
}
use market_hacker.Float.{Float64}
use market_hacker.Clock.{Time, unix_milli}
use market_hacker.Store.{RuntimeFilters, TickerState, Times, Store, get_ticker}
use market_hacker.Engine.Types.{Engine}
use market_hacker.Engine.Trade.{process_trade}
use market_hacker.Engine.Refine.{
  outcome, process_trade_refines, process_trade_frame, process_trade_unnamed,
}
use market_hacker.Engine.Moves.{
  SamePosition, SamePosition-refl, SamePosition-trans, record_trade-SamePosition, Move, stays,
  enters, leaves, outcome-moves,
}
use market_hacker.Engine.Replay.{RestTrade, replay_trade, replay, trade_time_millis, is_zero_ℤ}

module _ {F : Type 0} ⦃d : Float64 F⦄ (e : Engine F) where
  outcome-no_actions :
      (f : RuntimeFilters F) (open_ny : Time) (w : Times) (tr : Time) (price size : F)
      (t : TickerState F)
      → SamePosition t (outcome e f open_ny w tr price size false t)
  outcome-no_actions f open_ny w tr price size t =
      elim (outcome-moves e f open_ny w tr price size false t) [
        | inl (_, same) ↦ rw same (SamePosition-refl t)
        | inr (_, move) ↦
            SamePosition-trans (record_trade-SamePosition w.open_ny tr price size t) (go move)
      ]
    where
      go : {u t' : TickerState F} → Move e f open_ny w tr price false u t' → SamePosition u t'
      go (stays same) = same
      go (enters _ _ ok _ _ _ _) = absurd (ground arith)
      go (leaves _ _ _ ok _ _ _) = absurd (ground arith)

  process_trade-no_actions :
      (w : Times) (sym j : String) (ts_millis : ℤ) (price size : F) (s : Store F)
      (t : TickerState F)
      → get_ticker j s ≡ some t
      → (t' : TickerState F) × (get_ticker j (process_trade e w sym ts_millis price size false s)
          ≡ some t')
        × SamePosition t t'
  process_trade-no_actions w sym j ts_millis price size s t h = elim (Bool-cases (str_eq sym "")) [
    | inl unnamed ↦ (
      t,
      rw (process_trade_unnamed e w sym ts_millis price size false s unnamed) h,
      SamePosition-refl t,
    )
    | inr named ↦ elim (Bool-cases (str_eq sym j)) [
      | inr other ↦ (
        t,
        process_trade_frame e w sym j ts_millis price size false s
              (λ same. ground (arith, str_eq_iff sym j))
            ∙ h,
        SamePosition-refl t,
      )
      | inl same ↦
          let eq = (str_eq_iff sym j).0 same in
          let tr = unix_milli ts_millis in
          (
            outcome e s.filters s.times.open_ny w tr price size false t,
            rw (← eq)
                (process_trade_refines e w sym ts_millis price size false s t named (rw eq h)),
            outcome-no_actions s.filters s.times.open_ny w tr price size t,
          )
    ]
  ]

  replay_trade-no_actions :
      (w : Times) (sym j : String) (tr : RestTrade F) (s : Store F) (t : TickerState F)
      → get_ticker j s ≡ some t
      → (t' : TickerState F) × (get_ticker j (replay_trade e w sym false tr s) ≡ some t')
        × SamePosition t t'
  unfolding replay_trade
  replay_trade-no_actions w sym j tr s t h = elim (Bool-cases (is_zero_ℤ (trade_time_millis tr))) [
    | inl untimed ↦ (t, rw untimed h, SamePosition-refl t)
    | inr timed ↦
        rw timed (process_trade-no_actions w sym j (trade_time_millis tr) tr.price tr.size s t h)
  ]

  -- The catch-up of a live session, which replays trades with actions switched off, opens and closes
  -- no position of any ticker, whatever the trades are.
  pub catch_up_takes_no_action :
      (w : Times) (sym j : String) (trs : List (RestTrade F)) (s : Store F) (t : TickerState F)
      → get_ticker j s ≡ some t
      → (t' : TickerState F) × (get_ticker j (replay e w sym false trs s) ≡ some t')
        × SamePosition t t'
  unfolding replay
  catch_up_takes_no_action w sym j [] s t h = (t, h, SamePosition-refl t)
  catch_up_takes_no_action w sym j (tr ∷ trs) s t h =
      let (t1, h1, same1) = replay_trade-no_actions w sym j tr s t h in
      let (t2, h2, same2) =
        catch_up_takes_no_action w sym j trs (replay_trade e w sym false tr s) t1 h1 in
      (t2, h2, SamePosition-trans same1 same2)
