-- ===== src/Report/Counts.antt =====
-- The counts of the report agree with its lists and with the tickers of the store.
use market_hacker.Base.{
  ◌+◌, ◌≤◌, ◌≡◌, refl, ap, subst, inl, inr, Bool, not, ◌&&◌, arith, List, [], ◌∷◌, length,
  length-sort_by, map, keep_if, sort_by, sort_by-perm, Bool-cases,
}
use mathlib.Core.List.{Perm}
use market_hacker.Float.{Float64}
use market_hacker.Clock.{Time, Location, is_zero}
use market_hacker.Store.{RuntimeFilters, HistoricTrade, TickerState, Times, Store, ticker_states}
use market_hacker.Engine.{Engine}
use market_hacker.Report.{
  Totals, no_totals, historic_trade, historic_no_entry, was_traded, traded, untraded, tally,
  tally_all, summarize, build_historic_report,
}

module _ {F : Type 0} ⦃d : Float64 F⦄ where
  open d use {nought, lt}

  length-traded-untraded :
      (loc : Location) (end_ny : Time) (f : RuntimeFilters F) (w : Times)
      (ts : List (TickerState F))
      → length (traded loc end_ny ts) + length (untraded loc f w ts) ≡ length ts
  unfolding traded untraded
  length-traded-untraded loc end_ny f w [] = refl
  length-traded-untraded loc end_ny f w (t ∷ ts) =
      ground (arith, length-traded-untraded loc end_ny f w ts)

  -- Is there a position, with a positive price and a time of the entry?
  abbrev pub bought : TickerState F → Bool
  bought t = t.has_position && (lt nought t.entry_price && not (is_zero t.entry_time))

  traded-bought :
      (loc : Location) (end_ny : Time) (ts : List (TickerState F))
      → traded loc end_ny ts ≡ map (historic_trade loc end_ny) (keep_if bought ts)
  unfolding traded was_traded
  traded-bought loc end_ny [] = refl
  traded-bought loc end_ny (t ∷ ts) =
      let rest = traded-bought loc end_ny ts in
      elim (Bool-cases (bought t)) [
        | inl held ↦ rw held (ap (◌∷◌ (historic_trade loc end_ny t)) rest)
        | inr other ↦ rw other rest
      ]

  untraded-bought :
      (loc : Location) (f : RuntimeFilters F) (w : Times) (ts : List (TickerState F))
      → untraded loc f w ts ≡ map (historic_no_entry loc f w) (keep_if (λ t. not (bought t)) ts)
  unfolding untraded was_traded
  untraded-bought loc f w [] = refl
  untraded-bought loc f w (t ∷ ts) =
      let rest = untraded-bought loc f w ts in
      elim (Bool-cases (bought t)) [
        | inl held ↦ rw held rest
        | inr other ↦ rw other (ap (◌∷◌ (historic_no_entry loc f w t)) rest)
      ]

  win_loss-tally_all :
      (hs : List (HistoricTrade F)) (a : Totals F)
      → (tally_all hs a).win_n + (tally_all hs a).loss_n ≡ a.win_n + a.loss_n + length hs
  unfolding tally_all tally
  win_loss-tally_all [] a = omega arith
  win_loss-tally_all (h ∷ hs) a = ground (arith, win_loss-tally_all hs (tally h a))

  time_exits-tally_all :
      (hs : List (HistoricTrade F)) (a : Totals F)
      → (tally_all hs a).time_exit_n ≤ a.time_exit_n + length hs
  unfolding tally_all tally
  time_exits-tally_all [] a = omega arith
  time_exits-tally_all (h ∷ hs) a = ground (arith, time_exits-tally_all hs (tally h a))

  -- In the report the trades are those of the tickers with a position, a positive price and a time of
  -- the entry, each once, and the no-entries are those of all other tickers of the store, each once.
  -- The summary counts the tickers and both lists as they are, wins and losses together make up the
  -- trades, and no more trades than that are time exits.
  pub report_accounts :
      (e : Engine F) (session_date : Time) (w : Times) (end_ny : Time) (s : Store F)
      → let r = build_historic_report e session_date w end_ny s in
        Perm r.trades (map (historic_trade e.loc end_ny) (keep_if bought (ticker_states s)))
        × Perm r.no_entries (
            map
              (historic_no_entry e.loc s.filters w)
              (keep_if (λ t. not (bought t)) (ticker_states s)))
        × (length r.trades + length r.no_entries ≡ length (ticker_states s))
        × (r.summary.candidates ≡ length (ticker_states s))
        × (r.summary.trades_taken ≡ length r.trades)
        × (r.summary.no_entry ≡ length r.no_entries)
        × (r.summary.wins + r.summary.losses ≡ r.summary.trades_taken)
        × (r.summary.time_exits ≤ r.summary.trades_taken)
  unfolding build_historic_report summarize
  report_accounts e session_date w end_ny s =
      let ts = ticker_states s in
      let trades = traded e.loc end_ny ts in
      let split = length-traded-untraded e.loc end_ny s.filters w ts in
      (
        subst (Perm (sort_by _ trades)) (traded-bought e.loc end_ny ts) (sort_by-perm _ trades),
        subst (Perm (sort_by _ (untraded e.loc s.filters w ts)))
            (untraded-bought e.loc s.filters w ts) (sort_by-perm _ _),
        omega (arith, length-sort_by {0}, split),
        refl,
        omega (arith, length-sort_by {0}),
        omega (arith, length-sort_by {0}),
        omega (arith, win_loss-tally_all trades no_totals),
        omega (arith, time_exits-tally_all trades no_totals),
      )
