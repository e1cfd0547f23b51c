-- ===== src/Engine/Sound.antt =====
-- What a ticker may look like in a session: never bought, held, or bought and sold. A trade and a
-- close of what is open lead from one to another.
use market_hacker.Base.{
  String, ◌≡◌, ◌⊎◌, inl, inr, refl, ◌∙◌, Bool, true, false, not, ◌&&◌, arith, Bool-cases,
}
use market_hacker.Float.{Float64, of_ℤ, ratio, outside}
use market_hacker.Clock.{Time, before, minutes_between}
use market_hacker.Store.{RuntimeFilters, TickerState, Times}
use market_hacker.Engine.Types.{Engine}
use market_hacker.Engine.Ticks.{enter, leave}
use market_hacker.Engine.Refine.{outcome}
use market_hacker.Engine.Moves.{
  SamePosition, record_trade-SamePosition, Move, stays, enters, leaves, outcome-moves,
}
use market_hacker.Engine.Closing.{closed}

-- The times of two sessions, but for their ends.
pub record SameEntryTimes (w w' : Times) : Type 0 where
  pub open_ny : w'.open_ny ≡ w.open_ny
  pub sel_ny : w'.sel_ny ≡ w.sel_ny
  pub cutoff_ny : w'.cutoff_ny ≡ w.cutoff_ny

module _ {F : Type 0} ⦃d : Float64 F⦄ where
  open d use {of_ℕ, add, sub, mul, le}

  -- A position that was opened in the session with the times `w` under the filters `f`, with the
  -- target and the stop of the configuration.
  pub record Entered (e : Engine F) (f : RuntimeFilters F) (w : Times) (t : TickerState F)
      : Type 0 where
    pub long : t.has_position ≡ true
    pub after_selection : before t.entry_time w.sel_ny ≡ false
    pub before_cutoff : before t.entry_time w.cutoff_ny ≡ true
    pub in_window :
        outside
          (of_ℤ f.entry_min_after_open)
          (add (of_ℤ f.entry_max_after_open) (ratio 999 1000))
          (minutes_between w.open_ny t.entry_time)
        ≡ false
    pub price_fits : outside f.entry_price_min f.entry_price_max t.entry_price ≡ false
    pub target : t.take_profit_price ≡ mul t.entry_price (add (of_ℕ 1) e.cfg.risk.take_profit_pct)
    pub stop : t.stop_price ≡ mul t.entry_price (sub (of_ℕ 1) e.cfg.risk.stop_loss_pct)

  -- A sale has one of three reasons, and its price bears the reason out.
  pub data Reason (t : TickerState F) : Type 0 where
    profit : t.exit_reason ≡ "PROFIT" → le t.take_profit_price t.exit_price ≡ true → Reason t
    stop_loss : t.exit_reason ≡ "STOP" → le t.exit_price t.stop_price ≡ true → Reason t
    time_exit : t.exit_reason ≡ "TIME_EXIT" → Reason t

  same-Reason : {t t' : TickerState F} → SamePosition t t' → Reason t → Reason t'
  same-Reason same (profit why hit) =
      profit (rw same.exit_reason why) (rw (same.take_profit_price, same.exit_price) hit)
  same-Reason same (stop_loss why hit) =
      stop_loss (rw same.exit_reason why) (rw (same.stop_price, same.exit_price) hit)
  same-Reason same (time_exit why) = time_exit (rw same.exit_reason why)

  pub data Sound (e : Engine F) (f : RuntimeFilters F) (w : Times) (t : TickerState F)
      : Type 0 where
    never_bought : t.has_position ≡ false → t.exited ≡ false → Sound e f w t
    held : Entered e f w t → t.exited ≡ false → Sound e f w t
    sold : Entered e f w t → t.exited ≡ true → Reason t → Sound e f w t

  module _ {e : Engine F} {f : RuntimeFilters F} {w : Times} where
    same-Entered : {t t' : TickerState F} → SamePosition t t' → Entered e f w t → Entered e f w t'
    same-Entered same ent = record {
      long = rw same.has_position ent.long;
      after_selection = rw same.entry_time ent.after_selection;
      before_cutoff = rw same.entry_time ent.before_cutoff;
      in_window = rw same.entry_time ent.in_window;
      price_fits = rw same.entry_price ent.price_fits;
      target = rw (same.take_profit_price, same.entry_price) ent.target;
      stop = rw (same.stop_price, same.entry_price) ent.stop;
    }

    pub same-Sound : {t t' : TickerState F} → SamePosition t t' → Sound e f w t → Sound e f w t'
    same-Sound same (never_bought flat open_) =
        never_bought (rw same.has_position flat) (rw same.exited open_)
    same-Sound same (held ent open_) = held (same-Entered same ent) (rw same.exited open_)
    same-Sound same (sold ent gone why) =
        sold (same-Entered same ent) (rw same.exited gone) (same-Reason same why)

    still_held :
        {t : TickerState F}
        → Sound e f w t
        → t.has_position ≡ true
        → t.exited ≡ false
        → Entered e f w t
    still_held (never_bought flat _) long open_ = absurd (ground arith)
    still_held (held ent _) long open_ = ent
    still_held (sold _ gone _) long open_ = absurd (ground arith)

    leave-Entered :
        (open_ny tr : Time) (reason : String) (price : F) {t : TickerState F}
        → Entered e f w t
        → Entered e f w (leave open_ny tr reason price t)
    unfolding leave
    leave-Entered open_ny tr reason price ent = record {
      long = ent.long;
      after_selection = ent.after_selection;
      before_cutoff = ent.before_cutoff;
      in_window = ent.in_window;
      price_fits = ent.price_fits;
      target = ent.target;
      stop = ent.stop;
    }

    -- Under the filters `g`, a ticker stays sound under those it was bought under, or it is bought under `g`.
    pub Move-Sound :
        {g : RuntimeFilters F} {open_ny : Time} {w' : Times} {tr : Time} {price : F} {allow : Bool}
        {t t' : TickerState F}
        → SameEntryTimes w w'
        → Move e g open_ny w' tr price allow t t'
        → Sound e f w t
        → Sound e f w t' ⊎ Sound e g w t'
    unfolding enter leave
    Move-Sound times (stays same) h = inl (same-Sound same h)
    Move-Sound {open_ny = o} {tr = tr} {price = price} times
          (enters {u = u} same e' ok flat open_ cross adm) h =
        inr (
          rw e' (
            held
              (record {
                long = refl;
                after_selection = rw (← times.sel_ny) adm.after_selection;
                before_cutoff = rw (← times.cutoff_ny) adm.before_cutoff;
                in_window = rw (← times.open_ny) adm.in_window;
                price_fits = adm.price_fits;
                target = refl;
                stop = refl;
              })
              (same.exited ∙ open_)))
    Move-Sound {open_ny = o} {tr = tr} {price = price} times
          (leaves {u = u} reason same e' ok long open_ why) h =
        let ent = leave-Entered o tr reason price (same-Entered same (still_held h long open_)) in
        inl (
          rw e' (
            sold ent refl (elim why [
              | inl (because, hit) ↦ profit because (rw same.take_profit_price hit)
              | inr (because, hit) ↦ stop_loss because (rw same.stop_price hit)
            ])))

    pub outcome-Sound :
        {g : RuntimeFilters F} {w' : Times} (open_ny tr : Time) (price size : F) (allow : Bool)
        (t : TickerState F)
        → SameEntryTimes w w'
        → Sound e f w t
        → Sound e f w (outcome e g open_ny w' tr price size allow t)
          ⊎ Sound e g w (outcome e g open_ny w' tr price size allow t)
    outcome-Sound {g = g} {w' = w'} open_ny tr price size allow t times h =
        elim (outcome-moves e g open_ny w' tr price size allow t) [
          | inl (_, same) ↦ inl (rw same h)
          | inr (_, move) ↦
              Move-Sound times move
                (same-Sound (record_trade-SamePosition w'.open_ny tr price size t) h)
        ]

    pub closed-Sound :
        (open_ny ts : Time) (t : TickerState F)
        → Sound e f w t
        → Sound e f w (closed e open_ny ts t)
    unfolding closed leave
    closed-Sound open_ny ts t h = elim (Bool-cases (t.has_position && not t.exited)) [
      | inr shut ↦ rw shut h
      | inl open_ ↦ rw open_ (
          sold (leave-Entered open_ny ts "TIME_EXIT" _ (still_held h (ground arith) (ground arith)))
            refl (time_exit refl))
    ]
