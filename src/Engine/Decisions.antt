-- ===== src/Engine/Decisions.antt =====
-- When `processTrade` opens and closes a position.
use market_hacker.Base.{
  String, ◌≡◌, ◌⊎◌, inl, inr, refl, sym, ◌∙◌, Bool, true, false, ◌||◌, some, ℤ, arith,
  if◌then◌else◌, str_eq,
}
use mathlib.Core.Option.{some-injective}
use market_hacker.Float.{Float64}
use market_hacker.Clock.{Time, unix_milli}
use market_hacker.Store.{TickerState, Times, Store, get_ticker}
use market_hacker.Engine.Types.{Engine}
use market_hacker.Engine.Ticks.{
  drops, record_trade, detects, entry_refused, hits_profit, hits_stop, enter, leave,
}
use market_hacker.Engine.Trade.{process_trade}
use market_hacker.Engine.Refine.{settle, outcome, process_trade_refines}
use market_hacker.Engine.Moves.{
  record_trade-SamePosition, Admits, Move, stays, enters, leaves, outcome-moves,
}

module _ {F : Type 0} ⦃d : Float64 F⦄ (e : Engine F) where
  open d use {lt, le}

  -- What is known of a ticker that a trade has just bought.
  pub record Bought (s : Store F) (w : Times) (tr : Time) (price size : F) (allow : Bool)
      (t t' : TickerState F) : Type 0 where
    pub allowed : allow ≡ true
    pub kept : drops w tr price size ≡ false
    pub not_exited : t.exited ≡ false
    pub admitted : Admits s.filters w tr price (record_trade w.open_ny tr price size t)
    pub crossed : t'.saw_cross_in_window ≡ true
    pub at_price : t'.entry_price ≡ price
    pub at_time : t'.entry_time ≡ tr
    pub still_open : t'.exited ≡ false

  Move-Bought :
      (s : Store F) (w : Times) (tr : Time) (price size : F) (allow : Bool) (t t' : TickerState F)
      → drops w tr price size ≡ false
      → Move e s.filters s.times.open_ny w tr price allow
          (record_trade w.open_ny tr price size t)
          t'
      → t.has_position ≡ false
      → t'.has_position ≡ true
      → Bought s w tr price size allow t t'
  unfolding enter leave
  Move-Bought s w tr price size allow t t' k (stays same) flat long =
      let before = record_trade-SamePosition w.open_ny tr price size t in ground arith
  Move-Bought s w tr price size allow t t' k (enters {u = u} same e' ok no_position open_ cross adm)
        flat long =
      let before = record_trade-SamePosition w.open_ny tr price size t in
      rw e' (record {
        allowed = ok;
        kept = k;
        not_exited = sym before.exited ∙ open_;
        admitted = adm;
        crossed = cross;
        at_price = refl;
        at_time = refl;
        still_open = same.exited ∙ open_;
      })
  Move-Bought s w tr price size allow t t' k (leaves reason same e' ok has open_ why) flat long =
      let before = record_trade-SamePosition w.open_ny tr price size t in ground arith

  -- If a trade turns a ticker without a position into one with a position, then actions were allowed,
  -- the trade passed the guards, the ticker had not been closed before, a cross had been seen, the
  -- trade came at or after the selection time and before the cutoff, inside the minutes after the open
  -- that the runtime filters allow, the opening range, volume,
  -- today's percentage and the price lie inside the runtime filters, the price is at or above a
  -- positive VWAP, and the position has the price and the time of the trade.
  pub process_trade_buys_soundly :
      (w : Times) (sym : String) (ts_millis : ℤ) (price size : F) (allow : Bool) (s : Store F)
      (t t' : TickerState F)
      → str_eq sym "" ≡ false
      → get_ticker sym s ≡ some t
      → get_ticker sym (process_trade e w sym ts_millis price size allow s) ≡ some t'
      → t.has_position ≡ false
      → t'.has_position ≡ true
      → Bought s w (unix_milli ts_millis) price size allow t t'
  process_trade_buys_soundly w name ts_millis price size allow s t t' named h h' flat long =
      let tr = unix_milli ts_millis in
      let e' =
        some-injective _ _
          (sym (process_trade_refines e w name ts_millis price size allow s t named h) ∙ h') in
      elim (outcome-moves e s.filters s.times.open_ny w tr price size allow t) [
        | inl (_, same) ↦ absurd (ground arith)
        | inr (k, move) ↦ Move-Bought s w tr price size allow t t' k (rw e' at move) flat long
      ]

  -- What is known of a ticker that a trade has just sold.
  pub record Sold (price : F) (tr : Time) (allow : Bool) (t t' : TickerState F) : Type 0 where
    pub allowed : allow ≡ true
    pub had_position : t.has_position ≡ true
    pub at_price : t'.exit_price ≡ price
    pub at_time : t'.exit_time ≡ tr
    pub same_entry : t'.entry_price ≡ t.entry_price
    pub why :
        ((t'.exit_reason ≡ "PROFIT") × (le t.take_profit_price price ≡ true))
        ⊎ ((t'.exit_reason ≡ "STOP") × (le price t.stop_price ≡ true))

  Move-Sold :
      (s : Store F) (w : Times) (tr : Time) (price size : F) (allow : Bool) (t t' : TickerState F)
      → Move e s.filters s.times.open_ny w tr price allow
          (record_trade w.open_ny tr price size t)
          t'
      → t.exited ≡ false
      → t'.exited ≡ true
      → Sold price tr allow t t'
  unfolding enter leave
  Move-Sold s w tr price size allow t t' (stays same) open_ gone =
      let before = record_trade-SamePosition w.open_ny tr price size t in absurd (ground arith)
  Move-Sold s w tr price size allow t t' (enters same e' ok flat open' cross adm) open_ gone =
      let before = record_trade-SamePosition w.open_ny tr price size t in absurd (ground arith)
  Move-Sold s w tr price size allow t t' (leaves reason same e' ok long open' why) open_ gone =
      let before = record_trade-SamePosition w.open_ny tr price size t in
      rw e' (record {
        allowed = ok;
        had_position = sym before.has_position ∙ long;
        at_price = refl;
        at_time = refl;
        same_entry = same.entry_price ∙ before.entry_price;
        why = ground arith;
      })

  -- If a trade closes a ticker, then actions were allowed, the ticker had a position, which keeps its
  -- entry price, the exit has the price and the time of the trade, and either the price reached the
  -- profit target and the reason is PROFIT, or it fell to the stop and the reason is STOP.
  pub process_trade_sells_soundly :
      (w : Times) (sym : String) (ts_millis : ℤ) (price size : F) (allow : Bool) (s : Store F)
      (t t' : TickerState F)
      → str_eq sym "" ≡ false
      → get_ticker sym s ≡ some t
      → get_ticker sym (process_trade e w sym ts_millis price size allow s) ≡ some t'
      → t.exited ≡ false
      → t'.exited ≡ true
      → Sold price (unix_milli ts_millis) allow t t'
  process_trade_sells_soundly w name ts_millis price size allow s t t' named h h' open_ gone =
      let tr = unix_milli ts_millis in
      let e' =
        some-injective _ _
          (sym (process_trade_refines e w name ts_millis price size allow s t named h) ∙ h') in
      elim (outcome-moves e s.filters s.times.open_ny w tr price size allow t) [
        | inl (_, same) ↦ absurd (ground arith)
        | inr (_, move) ↦ Move-Sold s w tr price size allow t t' (rw e' at move) open_ gone
      ]

  -- A trade that passes the guards on a ticker that still holds a position closes it as soon as the
  -- profit target or the stop is reached; the target goes first.
  pub process_trade_closes :
      (w : Times) (sym : String) (ts_millis : ℤ) (price size : F) (s : Store F) (t : TickerState F)
      → str_eq sym "" ≡ false
      → get_ticker sym s ≡ some t
      → drops w (unix_milli ts_millis) price size ≡ false
      → t.has_position ≡ true
      → t.exited ≡ false
      → (hits_profit price t || hits_stop price t) ≡ true
      → let reason : String = if hits_profit price t then "PROFIT" else "STOP" in
        get_ticker sym (process_trade e w sym ts_millis price size true s)
        ≡ some (
            leave s.times.open_ny
              (unix_milli ts_millis)
              reason
              price
              (record_trade w.open_ny (unix_milli ts_millis) price size t))
  unfolding outcome hits_profit hits_stop detects
  process_trade_closes w sym ts_millis price size s t named h kept long open_ hit =
      let tr = unix_milli ts_millis in
      let before = record_trade-SamePosition w.open_ny tr price size t in
      process_trade_refines e w sym ts_millis price size true s t named h ∙ rw kept (ground arith)

  -- A ticker without a position that was not closed, whose trade passes the guards and the entry
  -- checks, is bought when a cross was seen before or is seen now.
  pub process_trade_opens :
      (w : Times) (sym : String) (ts_millis : ℤ) (price size : F) (s : Store F) (t : TickerState F)
      → str_eq sym "" ≡ false
      → get_ticker sym s ≡ some t
      → drops w (unix_milli ts_millis) price size ≡ false
      → t.has_position ≡ false
      → t.exited ≡ false
      → let t1 = record_trade w.open_ny (unix_milli ts_millis) price size t in
        entry_refused s.filters w (unix_milli ts_millis) price t1 ≡ false
        → (t1.saw_cross_in_window || detects w (unix_milli ts_millis) price t1) ≡ true
        → (t' : TickerState F) × (get_ticker sym (process_trade e w sym ts_millis price size true s)
            ≡ some t')
          × (t'.has_position ≡ true)
          × (t'.entry_price ≡ price)
  unfolding outcome settle enter
  process_trade_opens w sym ts_millis price size s t named h kept flat open_ admitted cross =
      let tr = unix_milli ts_millis in
      let before = record_trade-SamePosition w.open_ny tr price size t in
      (
        outcome e s.filters s.times.open_ny w tr price size true t,
        process_trade_refines e w sym ts_millis price size true s t named h,
        ground arith,
        ground arith,
      )
