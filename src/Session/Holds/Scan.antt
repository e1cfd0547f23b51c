-- ===== src/Session/Holds/Scan.antt =====
-- What an event without audio keeps, the scan for sold-off tickers keeps.
use market_hacker.Base.{if_kept, ℕ, ◌+◌, String, List, Dict}
use market_hacker.Float.{Float64}
use market_hacker.Clock.{Time, minute, before}
use market_hacker.Store.{HistoricSoldOff, Times, Store}
use market_hacker.Rest.{is_empty}
use market_hacker.Engine.{
  Engine, emit, Open5mMetric, ScanAnswers, scan_sold_off, eligible, screened,
}
use market_hacker.Session.Feeds.{Feeds}
use market_hacker.Session.Historic.{scan_session}

module _ {F : Type 0} ⦃d : Float64 F⦄ (e : Engine F) {P : Store F → Type 0}
    (quiet : (ts : Time) (typ sym msg level : String) (s : Store F)
      → P s
      → P (emit e ts typ sym msg "" level s)) where
  scan_sold_off_kept :
      (answers : ScanAnswers F) (shuffle : ℕ → List String → List String) (now : ℕ → Time)
      (open_ny scan_end : Time) (metrics : Dict (Open5mMetric F)) (s : Store F)
      → P s
      → P (scan_sold_off e answers shuffle now open_ny scan_end metrics s).0
  unfolding scan_sold_off
  scan_sold_off_kept answers shuffle now open_ny scan_end metrics s h =
      let syms = eligible s.filters metrics in
      let pres = screened s.filters open_ny metrics answers (shuffle 0 syms) in
      let rows = λ (p : Store F × List (HistoricSoldOff F)). P p.0 in
      let h1 = quiet (now 0) "SYSTEM" "" _ "info" s h in
      if_kept rows (before scan_end (open_ny + minute)) _ _ h (
        if_kept rows (is_empty syms) _ _ h (
          if_kept rows (is_empty pres) _ _ (quiet (now 1) "SYSTEM" "" _ "info" _ h1)
            (quiet (now 1) "SYSTEM" "" _ "info" _ h1)))

  pub scan_session_kept :
      (feeds : Feeds F) (k : ℕ) (day : Time) (w : Times) (end_ny : Time)
      (metrics : Dict (Open5mMetric F)) (s : Store F)
      → P s
      → P (scan_session e feeds k day w end_ny metrics s).0
  unfolding scan_session
  scan_session_kept feeds k day w end_ny metrics s h = scan_sold_off_kept _ _ _ _ _ metrics s h
