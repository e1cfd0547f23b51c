-- ===== src/Engine/Ticks.antt =====
-- What one trade does to the state of its ticker: the closures that `processTrade` and
-- `seedVWAPFromTrades` pass to UpsertTicker, and the tests between them.
use market_hacker.Base.{◌+◌, ◌*◌, String, Bool, true, not, ◌&&◌, ◌||◌, if◌then◌else◌}
use market_hacker.Float.{Float64, of_ℤ, ratio, outside, not_pos}
use market_hacker.Clock.{Time, minute, before, after, is_zero, minutes_between}
use market_hacker.Store.{RuntimeFilters, TickerState, Times}
use market_hacker.Engine.Types.{Engine}

module _ {F : Type 0} ⦃d : Float64 F⦄ where
  open d use {nought, of_ℕ, add, sub, mul, div, lt, le, eq}

  -- The guards that drop a trade without a trace.
  unfoldable pub drops : Times → Time → F → F → Bool
  drops w tr price size =
      (before tr w.open_ny || after tr (w.exit_ny + 5 * minute)) || (not_pos price || not_pos size)

  -- the VWAP update, which both callers make
  unfoldable pub accumulate : F → F → TickerState F → TickerState F
  accumulate price size t =
      let pv = add t.cum_pv (mul price size) in
      let v = add t.cum_v size in
      record t { cum_pv = pv; cum_v = v; vwap = if lt nought v then div pv v else t.vwap }

  unfoldable pub track_max : Time → F → TickerState F → TickerState F
  track_max tr price t =
      if eq t.max_price_since_entry nought || lt t.max_price_since_entry price
      then record t { max_price_since_entry = price; max_price_since_entry_time = tr }
      else t

  unfoldable pub track_min : Time → F → TickerState F → TickerState F
  track_min tr price t =
      if eq t.min_price_since_entry nought || lt price t.min_price_since_entry
      then record t { min_price_since_entry = price; min_price_since_entry_time = tr }
      else t

  unfoldable pub track_excursions : Time → F → TickerState F → TickerState F
  track_excursions tr price t =
      if t.has_position && (not (is_zero t.entry_time) && not (before tr t.entry_time))
      then track_min tr price (track_max tr price t)
      else t

  -- the first UpsertTicker of `processTrade`
  unfoldable pub record_trade : Time → Time → F → F → TickerState F → TickerState F
  record_trade open_ny tr price size t =
      let t' = record t {
        last_trade = tr;
        minutes_after_open = minutes_between open_ny tr;
        prev_price = t.last_price;
        prev_vwap = t.vwap;
      } in
      track_excursions tr price (record (accumulate price size t') { last_price = price })

  -- `crossNow`: from below the VWAP to it or above
  unfoldable pub crosses : F → TickerState F → Bool
  crosses price t =
      lt nought t.prev_price
      && (lt nought t.prev_vwap && (lt t.prev_price t.prev_vwap && le t.vwap price))

  unfoldable pub detects : Times → Time → F → TickerState F → Bool
  detects w tr price t =
      not t.has_position
      && (not t.exited
          && (not t.saw_cross_in_window
              && (crosses price t
                  && (not (before tr (w.open_ny + minute)) && before tr w.cutoff_ny))))

  unfoldable pub mark_cross : Time → F → TickerState F → TickerState F
  mark_cross tr price t =
      if t.saw_cross_in_window
      then t
      else record t { saw_cross_in_window = true; first_cross_time = tr; first_cross_price = price }

  -- The early returns of the entry block, in their order.
  unfoldable pub entry_refused : RuntimeFilters F → Times → Time → F → TickerState F → Bool
  entry_refused f w tr price t =
      let min_after_open = minutes_between w.open_ny tr in
      before tr w.sel_ny
      || (not (before tr w.cutoff_ny)
          || (outside (of_ℤ f.entry_min_after_open)
                (add (of_ℤ f.entry_max_after_open) (ratio 999 1000)) min_after_open
              || (outside f.open5m_range_pct_min f.open5m_range_pct_max t.open5m_range_pct
                  || (outside f.open5m_vol_min f.open5m_vol_max t.open5m_vol
                      || (outside f.open5m_today_pct_min f.open5m_today_pct_max t.open5m_today_pct
                          || (outside f.entry_price_min f.entry_price_max price
                              || not (lt nought t.vwap && le t.vwap price)))))))

  unfoldable pub hits_profit : F → TickerState F → Bool
  hits_profit price t = le t.take_profit_price price && lt nought t.take_profit_price

  unfoldable pub hits_stop : F → TickerState F → Bool
  hits_stop price t = le price t.stop_price && lt nought t.stop_price

  -- the closure of `openPosition`; `open_ny` is the session's, from the store
  unfoldable pub enter : Engine F → Time → Time → F → TickerState F → TickerState F
  enter e open_ny tr entry t = record t {
    has_position = true;
    entry_price = entry;
    entry_time = tr;
    entry_minutes_after_open = minutes_between open_ny tr;
    take_profit_price = mul entry (add (of_ℕ 1) e.cfg.risk.take_profit_pct);
    stop_price = mul entry (sub (of_ℕ 1) e.cfg.risk.stop_loss_pct);
    status = "LONG";
    max_price_since_entry = entry;
    max_price_since_entry_time = tr;
    min_price_since_entry = entry;
    min_price_since_entry_time = tr;
  }

  -- the closure of `closePosition`
  unfoldable pub leave : Time → Time → String → F → TickerState F → TickerState F
  leave open_ny ts reason exit_price t = record t {
    exited = true;
    exit_reason = reason;
    exit_time = ts;
    exit_price = exit_price;
    exit_minutes_after_open = minutes_between open_ny ts;
    status = reason;
  }
