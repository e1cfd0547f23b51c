-- ===== src/Engine/Lifecycle.antt =====
-- What the moves of a ticker come to over any sequence of trades: a position is opened at most once
-- and closed at most once, and neither its terms nor its exit change afterwards.
use market_hacker.Base.{
  String, ◌≡◌, ◌⊎◌, inl, inr, sym, ◌∙◌, Bool, true, false, some, List, [], ◌∷◌, ℤ, arith, str_eq,
  str_eq_iff, Bool-cases,
}
use market_hacker.Float.{Float64}
use market_hacker.Clock.{Time, unix_milli}
use market_hacker.Store.{RuntimeFilters, TickerState, Times, Store, get_ticker}
use market_hacker.Engine.Types.{Engine}
use market_hacker.Engine.Ticks.{enter, leave}
use market_hacker.Engine.Trade.{process_trade, on_trade}
use market_hacker.Engine.Refine.{
  outcome, process_trade_frame, process_trade_refines, process_trade_unnamed,
}
use market_hacker.Engine.Moves.{
  SamePosition, SamePosition-refl, record_trade-SamePosition, Move, stays, enters, leaves,
  outcome-moves,
}
use market_hacker.Engine.Replay.{
  EquityTrade, RestTrade, feed, replay_trade, replay, replay_all, trade_time_millis, is_zero_ℤ,
}

-- How a ticker may differ from what it was before some trades: a position keeps its terms, and an
-- exit keeps what it was made at.
pub record Later {F : Type 0} (t t' : TickerState F) : Type 0 where
  pub entered :
      (t.has_position ≡ false)
      ⊎ ((t'.has_position ≡ true)
          × (t'.entry_price ≡ t.entry_price)
          × (t'.entry_time ≡ t.entry_time)
          × (t'.take_profit_price ≡ t.take_profit_price)
          × (t'.stop_price ≡ t.stop_price))
  pub done :
      (t.exited ≡ false)
      ⊎ ((t'.exited ≡ true)
          × (t'.exit_price ≡ t.exit_price)
          × (t'.exit_time ≡ t.exit_time)
          × (t'.exit_reason ≡ t.exit_reason))

module _ {F : Type 0} where
  Later-same : {t t' : TickerState F} → SamePosition t t' → Later t t'
  Later-same {t = t} p = record {
    entered = elim (Bool-cases t.has_position) [ inl h ↦ inr (ground arith) | inr h ↦ inl h ];
    done = elim (Bool-cases t.exited) [ inl h ↦ inr (ground arith) | inr h ↦ inl h ];
  }

  Later-trans : {t u v : TickerState F} → Later t u → Later u v → Later t v
  Later-trans p q = record {
    entered = ground (arith, p.entered, q.entered);
    done = ground (arith, p.done, q.done);
  }

module _ {F : Type 0} ⦃d : Float64 F⦄ (e : Engine F) where
  Move-Later :
      {f : RuntimeFilters F} {open_ny : Time} {w : Times} {tr : Time} {price : F} {allow : Bool}
      {t t' : TickerState F}
      → Move e f open_ny w tr price allow t t'
      → Later t t'
  unfolding enter leave
  Move-Later (stays same) = Later-same same
  Move-Later (enters same e' _ flat open_ _ _) = record { entered = inl flat; done = inl open_ }
  Move-Later (leaves reason same e' _ long open_ _) = record {
    entered = inr (ground arith);
    done = inl open_;
  }

  outcome-Later :
      (f : RuntimeFilters F) (open_ny : Time) (w : Times) (tr : Time) (price size : F)
      (allow : Bool) (t : TickerState F)
      → Later t (outcome e f open_ny w tr price size allow t)
  outcome-Later f open_ny w tr price size allow t =
      elim (outcome-moves e f open_ny w tr price size allow t) [
        | inl (_, same) ↦ rw same (Later-same (SamePosition-refl t))
        | inr (_, move) ↦
            Later-trans (Later-same (record_trade-SamePosition w.open_ny tr price size t))
              (Move-Later move)
      ]

  abbrev Progress : Store F → Store F → Type 0
  Progress s s' =
      (j : String) (t : TickerState F)
      → get_ticker j s ≡ some t
      → (t' : TickerState F) × (get_ticker j s' ≡ some t') × Later t t'

  Progress-refl : (s : Store F) → Progress s s
  Progress-refl s j t h = (t, h, Later-same (SamePosition-refl t))

  Progress-trans : (s u v : Store F) → Progress s u → Progress u v → Progress s v
  Progress-trans s u v p q j t h =
      let (t1, h1, l1) = p j t h in let (t2, h2, l2) = q j t1 h1 in (t2, h2, Later-trans l1 l2)

  -- One trade moves every ticker forward, that of another symbol too.
  pub process_trade-Progress :
      (w : Times) (sym : String) (ts_millis : ℤ) (price size : F) (allow : Bool) (s : Store F)
      → Progress s (process_trade e w sym ts_millis price size allow s)
  process_trade-Progress w sym ts_millis price size allow s j t h =
      elim (Bool-cases (str_eq sym "")) [
        | inl unnamed ↦ (t, unnamed_unchanged unnamed ∙ h, Later-same (SamePosition-refl t))
        | inr named ↦ elim (Bool-cases (str_eq sym j)) [
          | inr other ↦ (
            t,
            process_trade_frame e w sym j ts_millis price size allow s
                  (λ same. ground (arith, str_eq_iff sym j))
                ∙ h,
            Later-same (SamePosition-refl t),
          )
          | inl same ↦
              let eq = (str_eq_iff sym j).0 same in
              (
                outcome e s.filters s.times.open_ny w (unix_milli ts_millis) price size allow t,
                rw (← eq)
                    (process_trade_refines e w sym ts_millis price size allow s t named (rw eq h)),
                outcome-Later s.filters s.times.open_ny w (unix_milli ts_millis) price size allow t,
              )
        ]
      ]
    where
      unnamed_unchanged :
          str_eq sym "" ≡ true
          → get_ticker j (process_trade e w sym ts_millis price size allow s) ≡ get_ticker j s
      unnamed_unchanged u = rw (process_trade_unnamed e w sym ts_millis price size allow s u)

  -- Over all the messages of a session, in any order and for any tickers: a ticker that has a
  -- position keeps it with its entry price, entry time, profit target and stop, and a ticker that has
  -- been closed stays closed with its exit price, exit time and reason.
  pub feed_progress :
      (w : Times) (ms : List (EquityTrade F)) (s : Store F) (j : String) (t : TickerState F)
      → get_ticker j s ≡ some t
      → (t' : TickerState F) × (get_ticker j (feed e w ms s) ≡ some t') × Later t t'
  unfolding feed on_trade
  feed_progress w [] s = Progress-refl s
  feed_progress w (m ∷ ms) s =
      Progress-trans _ _ _ (process_trade-Progress w m.symbol m.timestamp m.price _ true s)
        (feed_progress w ms _)

  replay_trade-Progress :
      (w : Times) (sym : String) (allow : Bool) (tr : RestTrade F) (s : Store F)
      → Progress s (replay_trade e w sym allow tr s)
  unfolding replay_trade
  replay_trade-Progress w sym allow tr s = elim (Bool-cases (is_zero_ℤ (trade_time_millis tr))) [
    | inl untimed ↦ rw untimed (Progress-refl s)
    | inr timed ↦
        rw timed (process_trade-Progress w sym (trade_time_millis tr) tr.price tr.size allow s)
  ]

  replay-Progress :
      (w : Times) (sym : String) (allow : Bool) (trs : List (RestTrade F)) (s : Store F)
      → Progress s (replay e w sym allow trs s)
  unfolding replay
  replay-Progress w sym allow [] s = Progress-refl s
  replay-Progress w sym allow (tr ∷ trs) s =
      Progress-trans _ _ _ (replay_trade-Progress w sym allow tr s)
        (replay-Progress w sym allow trs _)

  -- The same over the replay of the trades of any tickers, one ticker after the other, with or
  -- without actions: no ticker is lost, no position changes its terms, and no exit changes.
  pub replay_all_progress :
      (w : Times) (allow : Bool) (trades : String → List (RestTrade F)) (syms : List String)
      (s : Store F) (j : String) (t : TickerState F)
      → get_ticker j s ≡ some t
      → (t' : TickerState F) × (get_ticker j (replay_all e w allow trades syms s) ≡ some t')
        × Later t t'
  unfolding replay_all
  replay_all_progress w allow trades [] s = Progress-refl s
  replay_all_progress w allow trades (sym ∷ syms) s =
      Progress-trans _ _ _ (replay-Progress w sym allow (trades sym) s)
        (replay_all_progress w allow trades syms _)
