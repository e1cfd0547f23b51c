-- ===== src/Engine/Trade.antt =====
-- `processTrade`, `onTrade`, `openPosition`, `closePosition`, `onElevenAM` of engine.go and
-- `closeAllOpenPositionsAt` of historic.go, over the store.
use Prim.Native.String.{◌++◌}
use market_hacker.Base.{
  ℕ, String, Bool, true, not, ◌&&◌, ◌||◌, none, some, List, [], ◌∷◌, ℤ, str_eq, if◌then◌else◌,
}
use market_hacker.Float.{Float64, not_pos}
use market_hacker.Clock.{Time, unix_milli, clock_hm}
use market_hacker.Store.{TickerState, Times, Store, get_ticker, upsert_ticker}
use market_hacker.Nato.{spell_nato}
use market_hacker.Engine.Types.{Engine}
use market_hacker.Engine.Alerts.{emit, say}
use market_hacker.Engine.Ticks.{
  drops, record_trade, detects, mark_cross, entry_refused, hits_profit, hits_stop, enter, leave,
}

module _ {F : Type 0} ⦃d : Float64 F⦄ (e : Engine F) where
  open d use {of_ℕ}

  unfoldable pub open_position : Time → String → F → Store F → Store F
  open_position ts sym entry s =
      let s1 = upsert_ticker sym (enter e s.times.open_ny ts entry) s in
      let (s2, audio) = say e ("Buy. " ++ spell_nato sym) s1 in
      emit e ts "BUY" sym ("BUY " ++ (sym ++ (" (" ++ (spell_nato sym ++ ")")))) audio "signal" s2

  unfoldable pub close_position : Time → String → String → String → F → Store F → Store F
  close_position ts sym reason text exit_price s =
      let s1 = upsert_ticker sym (leave s.times.open_ny ts reason exit_price) s in
      let (s2, audio) = say e text s1 in emit e ts reason sym text audio "signal" s2

  -- "manage position", on the ticker that was read back
  unfoldable pub manage : String → Time → F → Bool → TickerState F → Store F → Store F
  manage sym tr price allow t s =
      if allow && (t.has_position && not t.exited)
      then if hits_profit price t
        then close_position tr sym "PROFIT" ("PROFIT! " ++ sym) price s
        else if hits_stop price t
        then close_position tr sym "STOP" ("STOP LOSS HIT! " ++ sym) price s
        else s
      else s

  -- The part of `processTrade` below "Read back for logic checks".
  unfoldable pub decide : Times → String → Time → F → Bool → TickerState F → Store F → Store F
  decide w sym tr price allow t s =
      let found = detects w tr price t in
      let saw = t.saw_cross_in_window || found in
      let s1 = if found then upsert_ticker sym (mark_cross tr price) s else s in
      if allow && (not t.has_position && not t.exited)
      then if entry_refused s.filters w tr price t
        then s1
        else if saw
        then open_position tr sym price s1
        else manage sym tr price allow t s1
      else manage sym tr price allow t s1

  unfoldable pub process_trade : Times → String → ℤ → F → F → Bool → Store F → Store F
  process_trade w sym ts_millis price size allow s =
      let tr = unix_milli ts_millis in
      if str_eq sym "" then s else elim (get_ticker sym s) [
        | none ↦ s
        | some _ ↦
            if drops w tr price size
            then s
            else let s1 = upsert_ticker sym (record_trade w.open_ny tr price size) s in
              elim (get_ticker sym s1) [ none ↦ s1 | some t ↦ decide w sym tr price allow t s1 ]
      ]

  -- The size of a trade from the WebSocket is an integer.
  unfoldable pub on_trade : Times → String → ℤ → F → ℕ → Store F → Store F
  on_trade w sym ts_millis price size s = process_trade w sym ts_millis price (of_ℕ size) true s

  -- One round of the loops that close what is open: at the last price, or at the entry price.
  unfoldable pub close_if_open : Time → String → String → Store F → Store F
  close_if_open ts text sym s = elim (get_ticker sym s) [
    | none ↦ s
    | some t ↦
        if t.has_position && not t.exited
        then close_position ts sym "TIME_EXIT" (text ++ sym)
            (if not_pos t.last_price then t.entry_price else t.last_price) s
        else s
  ]

  unfoldable pub close_each : Time → String → List String → Store F → Store F
  close_each ts text [] s = s
  close_each ts text (sym ∷ wl) s = close_each ts text wl (close_if_open ts text sym s)

  unfoldable pub on_eleven_am : Time → Store F → Store F
  on_eleven_am ts s =
      let (s1, audio) = say e "Eleven a.m. close" s in
      let s2 = emit e ts "11AM" "" "11am close" audio "info" s1 in
      close_each ts "11am close. " s2.watchlist s2

  unfoldable pub close_all_open_positions_at : Time → Store F → Store F
  close_all_open_positions_at ts s =
      close_each ts ("Close at " ++ (clock_hm e.loc ts ++ ". ")) s.watchlist s
