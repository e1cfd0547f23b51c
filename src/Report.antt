-- ===== src/Report.antt =====
-- `buildHistoricReport` of internal/engine/historic.go.
-- Go's sort.Slice does not say how it orders equal elements; the model keeps their order. The tickers
-- are read in the order of the store's list, where Go promises none.
pub mod Counts
use Prim.Native.String.{◌++◌ as glue}
use market_hacker.Base.{
  text_lt, ℕ, suc, ◌+◌, String, Bool, true, false, not, ◌&&◌, ◌||◌, List, [], ◌∷◌, if◌then◌else◌,
  length, str_eq, sort_by, ltb,
}
use market_hacker.Float.{Float64, not_pos, outside}
use market_hacker.Clock.{Time, Location, minute, is_zero, clock_hms, clock_hm, date_iso}
use market_hacker.Store.{
  RuntimeFilters, HistoricSummary, HistoricTrade, HistoricNoEntry, HistoricReport, TickerState,
  Times, Store, ticker_states, clock_or_empty,
}
use market_hacker.Engine.{Engine}

abbrev pub historic_shares : ℕ
historic_shares = 1000

pub record Totals (F : Type 0) : Type 0 where
  pub sum_pnl : F
  pub sum_notional : F
  pub sum_pct : F
  pub sum_win_amt : F
  pub sum_loss_amt : F
  pub sum_win_pct : F
  pub sum_loss_pct : F
  pub win_n : ℕ
  pub loss_n : ℕ
  pub time_exit_n : ℕ
  pub best_pct : F
  pub worst_pct : F
  pub first_trade : Bool

module _ {F : Type 0} ⦃d : Float64 F⦄ where
  open d use {nought, of_ℕ, neg, add, sub, mul, div, lt, le, eq}

  abbrev pub no_totals : Totals F
  no_totals = record {
    sum_pnl = nought;
    sum_notional = nought;
    sum_pct = nought;
    sum_win_amt = nought;
    sum_loss_amt = nought;
    sum_win_pct = nought;
    sum_loss_pct = nought;
    win_n = 0;
    loss_n = 0;
    time_exit_n = 0;
    best_pct = nought;
    worst_pct = nought;
    first_trade = true;
  }

  unfoldable pub was_traded : TickerState F → Bool
  was_traded t = t.has_position && (lt nought t.entry_price && not (is_zero t.entry_time))

  abbrev pct_from : F → F → F
  pct_from entry px = div (sub px entry) entry

  abbrev amount_from : F → F → F
  amount_from entry px = mul (sub px entry) (of_ℕ historic_shares)

  unfoldable pub historic_trade : Location → Time → TickerState F → HistoricTrade F
  historic_trade loc end_ny t =
      let entry = t.entry_price in
      let exit_px = if not_pos t.exit_price then t.last_price else t.exit_price in
      let exit_time = if not_pos t.exit_price then end_ny else t.exit_time in
      let hold_px = t.last_price in
      let no_max = not_pos t.max_price_since_entry in
      let mfe_px = if no_max then entry else t.max_price_since_entry in
      let mfe_time = if no_max then t.entry_time else t.max_price_since_entry_time in
      let no_min = not_pos t.min_price_since_entry in
      let mae_px = if no_min then entry else t.min_price_since_entry in
      let mae_time = if no_min then t.entry_time else t.min_price_since_entry_time in
      record {
        symbol = t.symbol;
        entry_time_ny = clock_hms loc t.entry_time;
        entry_price = entry;
        entry_minutes_after_open = t.entry_minutes_after_open;
        take_profit_price = t.take_profit_price;
        stop_price = t.stop_price;
        exit_time_ny = clock_hms loc exit_time;
        exit_price = exit_px;
        exit_minutes_after_open = t.exit_minutes_after_open;
        exit_reason = t.exit_reason;
        shares = historic_shares;
        realized_pnl_pct = pct_from entry exit_px;
        realized_pnl = amount_from entry exit_px;
        hold_price = hold_px;
        hold_pnl_pct = pct_from entry hold_px;
        hold_pnl = amount_from entry hold_px;
        mfe_price = mfe_px;
        mfe_time_ny = clock_hms loc mfe_time;
        mfe_pnl_pct = pct_from entry mfe_px;
        mfe_pnl = amount_from entry mfe_px;
        mae_price = mae_px;
        mae_time_ny = clock_hms loc mae_time;
        mae_pnl_pct = pct_from entry mae_px;
        mae_pnl = amount_from entry mae_px;
      }

  -- the accumulators after one more trade
  unfoldable pub tally : HistoricTrade F → Totals F → Totals F
  tally h a =
      let won = le nought h.realized_pnl in
      let real = h.realized_pnl_pct in
      record {
        sum_pnl = add a.sum_pnl h.realized_pnl;
        sum_notional = add a.sum_notional (mul h.entry_price (of_ℕ historic_shares));
        sum_pct = add a.sum_pct real;
        sum_win_amt = if won then add a.sum_win_amt h.realized_pnl else a.sum_win_amt;
        sum_loss_amt = if won then a.sum_loss_amt else add a.sum_loss_amt h.realized_pnl;
        sum_win_pct = if won then add a.sum_win_pct real else a.sum_win_pct;
        sum_loss_pct = if won then a.sum_loss_pct else add a.sum_loss_pct real;
        win_n = if won then suc a.win_n else a.win_n;
        loss_n = if won then a.loss_n else suc a.loss_n;
        time_exit_n = if str_eq h.exit_reason "TIME_EXIT" then suc a.time_exit_n else a.time_exit_n;
        best_pct = if a.first_trade || lt a.best_pct real then real else a.best_pct;
        worst_pct = if a.first_trade || lt real a.worst_pct then real else a.worst_pct;
        first_trade = false;
      }

  unfoldable pub no_entry_reason : Location → RuntimeFilters F → Times → TickerState F → String
  no_entry_reason loc f w t =
      if not t.saw_cross_in_window
      then glue "No VWAP cross between "
          (glue (clock_hm loc (w.open_ny + minute)) (glue " and " (clock_hm loc w.cutoff_ny)))
      else if outside f.open5m_today_pct_min f.open5m_today_pct_max t.open5m_today_pct
      then "Open5mToday% filter failed"
      else if lt nought t.first_cross_price
          && outside f.entry_price_min f.entry_price_max t.first_cross_price
      then "VWAP cross occurred but price filter failed"
      else "No entry (filters + cross never aligned)"

  unfoldable pub historic_no_entry :
      Location → RuntimeFilters F → Times → TickerState F → HistoricNoEntry F
  unfolding no_entry_reason
  historic_no_entry loc f w t = record {
    symbol = t.symbol;
    open5m_vol = t.open5m_vol;
    open5m_range_pct = t.open5m_range_pct;
    open5m_today_pct = t.open5m_today_pct;
    saw_cross_in_window = t.saw_cross_in_window;
    first_cross_time_ny = clock_or_empty loc t.first_cross_time;
    first_cross_price = t.first_cross_price;
    reason = no_entry_reason loc f w t;
  }

  unfoldable pub traded : Location → Time → List (TickerState F) → List (HistoricTrade F)
  traded loc end_ny [] = []
  traded loc end_ny (t ∷ ts) =
      if was_traded t
      then historic_trade loc end_ny t ∷ traded loc end_ny ts
      else traded loc end_ny ts

  unfoldable pub untraded :
      Location → RuntimeFilters F → Times → List (TickerState F) → List (HistoricNoEntry F)
  untraded loc f w [] = []
  untraded loc f w (t ∷ ts) =
      if was_traded t
      then untraded loc f w ts
      else historic_no_entry loc f w t ∷ untraded loc f w ts

  unfoldable pub tally_all : List (HistoricTrade F) → Totals F → Totals F
  tally_all [] a = a
  tally_all (h ∷ hs) a = tally_all hs (tally h a)

  abbrev mean : F → ℕ → F
  mean sum n = if ltb 0 n then div sum (of_ℕ n) else nought

  unfoldable pub profit_factor : Totals F → F
  profit_factor a =
      if lt a.sum_loss_amt nought
      then div a.sum_win_amt (neg a.sum_loss_amt)
      else if lt nought a.sum_win_amt && eq a.sum_loss_amt nought
      then of_ℕ 999
      else nought

  unfoldable pub summarize :
      Location → Time → Times → Time → ℕ → ℕ → ℕ → Totals F → HistoricSummary F
  unfolding profit_factor
  summarize loc session_date w end_ny candidates trade_n no_entry_n a = record {
    date_ny = date_iso loc session_date;
    window_start_ny = clock_hms loc w.open_ny;
    window_end_ny = clock_hms loc end_ny;
    shares = historic_shares;
    candidates = candidates;
    trades_taken = trade_n;
    no_entry = no_entry_n;
    wins = a.win_n;
    losses = a.loss_n;
    time_exits = a.time_exit_n;
    win_rate = mean (of_ℕ a.win_n) trade_n;
    net_pnl = a.sum_pnl;
    total_notional = a.sum_notional;
    net_return_pct = if lt nought a.sum_notional then div a.sum_pnl a.sum_notional else nought;
    avg_return_pct = mean a.sum_pct trade_n;
    avg_win_pct = mean a.sum_win_pct a.win_n;
    avg_loss_pct = mean a.sum_loss_pct a.loss_n;
    profit_factor = profit_factor a;
    best_trade_pct = a.best_pct;
    worst_trade_pct = a.worst_pct;
  }

  -- The one loop of the source over the tickers is three here: what it appends to either list, and
  -- what it adds up, do not read one another.
  unfoldable pub build_historic_report : Engine F → Time → Times → Time → Store F → HistoricReport F
  build_historic_report e session_date w end_ny s =
      let states = ticker_states s in
      let trades = traded e.loc end_ny states in
      let no_entries = untraded e.loc s.filters w states in
      record {
        summary =
            summarize e.loc session_date w end_ny (length states) (length trades)
              (length no_entries) (tally_all trades no_totals);
        trades = sort_by (λ a b. lt b.realized_pnl_pct a.realized_pnl_pct) trades;
        no_entries = sort_by (λ a b. text_lt a.symbol b.symbol) no_entries;
        sold_off = [];
      }
