-- ===== src/Engine/Closing.antt =====
-- What `onElevenAM` and `closeAllOpenPositionsAt` do to the tickers.
use Prim.Native.String.{◌++◌}
use market_hacker.Base.{
  String, ◌≡◌, ◌≢◌, inl, inr, ◌∙◌, not, ◌&&◌, none, some, List, [], ◌∷◌, arith, if◌then◌else◌,
  str_eq, str_eq_iff, Bool-cases, Option-cases, contains,
}
use mathlib.Core.Path.{ap₂}
use market_hacker.Float.{Float64, not_pos}
use market_hacker.Clock.{Time, clock_hm}
use market_hacker.Store.{TickerState, Store, get_ticker, upsert_ticker, store_audio, add_event}
use market_hacker.Engine.Types.{Engine}
use market_hacker.Engine.Alerts.{emit, say}
use market_hacker.Engine.Ticks.{leave}
use market_hacker.Engine.Trade.{
  close_position, close_if_open, close_each, on_eleven_am, close_all_open_positions_at,
}
use market_hacker.Engine.Refine.{
  get_ticker-say, get_ticker-emit, get_ticker-close_position, get_ticker-close_position_ne,
}

module _ {F : Type 0} ⦃d : Float64 F⦄ (e : Engine F) where
  -- The ticker after a time exit at `ts`: at the last price if that is positive, else at the entry.
  unfoldable pub closed : Time → Time → TickerState F → TickerState F
  closed open_ny ts t =
      if t.has_position && not t.exited
      then leave open_ny ts "TIME_EXIT"
          (if not_pos t.last_price then t.entry_price else t.last_price) t
      else t

  closed-closed :
      (open_ny ts : Time) (t : TickerState F)
      → closed open_ny ts (closed open_ny ts t) ≡ closed open_ny ts t
  unfolding closed leave
  closed-closed open_ny ts t = ground arith

  times-close_if_open :
      (ts : Time) (text name : String) (s : Store F)
      → (close_if_open e ts text name s).times ≡ s.times
  unfolding close_if_open close_position say emit store_audio add_event upsert_ticker
  times-close_if_open ts text name s = ground arith

  get_ticker-close_if_open :
      (ts : Time) (text name : String) (s : Store F) (t : TickerState F)
      → get_ticker name s ≡ some t
      → get_ticker name (close_if_open e ts text name s) ≡ some (closed s.times.open_ny ts t)
  unfolding close_if_open closed
  get_ticker-close_if_open ts text name s t h =
      rw (h, close_if_open)
        (ground (
          arith,
          get_ticker-close_position e ts name "TIME_EXIT" (text ++ name)
              (if not_pos t.last_price then t.entry_price else t.last_price) s h,
        ))

  get_ticker-close_if_open_ne :
      (ts : Time) (text name j : String) (s : Store F)
      → name ≢ j
      → get_ticker j (close_if_open e ts text name s) ≡ get_ticker j s
  unfolding close_if_open
  get_ticker-close_if_open_ne ts text name j s h = elim (Option-cases (get_ticker name s)) [
    | inl missing ↦ rw (missing, close_if_open)
    | inr (t, found) ↦
        rw (found, close_if_open)
          (ground (
            arith,
            get_ticker-close_position_ne e ts name j "TIME_EXIT" (text ++ name)
                (if not_pos t.last_price then t.entry_price else t.last_price) s h,
          ))
  ]

  -- The loop over a list closes exactly the open positions of the list's tickers, however often a
  -- ticker stands in the list.
  get_ticker-close_each :
      (ts : Time) (text j : String) (wl : List String) (s : Store F) (t : TickerState F)
      → get_ticker j s ≡ some t
      → get_ticker j (close_each e ts text wl s)
        ≡ some (if contains j wl then closed s.times.open_ny ts t else t)
  unfolding close_each
  get_ticker-close_each ts text j [] s t h = h
  get_ticker-close_each ts text j (name ∷ wl) s t h =
      let s1 = close_if_open e ts text name s in
      let same_times = times-close_if_open ts text name s in
      elim (Bool-cases (str_eq name j)) [
        | inr other ↦
            let h1 =
              get_ticker-close_if_open_ne ts text name j s
                (λ same. ground (arith, str_eq_iff name j))
              ∙ h in
            rw other (ground (arith, get_ticker-close_each ts text j wl s1 t h1))
        | inl same ↦
            let eq = (str_eq_iff name j).0 same in
            let h1 : get_ticker j s1 ≡ some (closed s.times.open_ny ts t) =
              rw (← eq) (get_ticker-close_if_open ts text name s t (rw eq h)) in
            rw same (
              ground (
                arith,
                get_ticker-close_each ts text j wl s1 (closed s.times.open_ny ts t) h1,
                closed-closed s.times.open_ny ts t,
              ))
      ]

  close_if_open-missing :
      (ts : Time) (text j : String) (s : Store F)
      → get_ticker j s ≡ none
      → close_if_open e ts text j s ≡ s
  unfolding close_if_open
  close_if_open-missing ts text j s h = rw (close_if_open, h)

  -- A ticker that is missing stays missing.
  close_each-missing :
      (ts : Time) (text j : String) (wl : List String) (s : Store F)
      → get_ticker j s ≡ none
      → get_ticker j (close_each e ts text wl s) ≡ none
  unfolding close_each
  close_each-missing ts text j [] s h = h
  close_each-missing ts text j (name ∷ wl) s h = elim (Bool-cases (str_eq name j)) [
    | inl same ↦
        let eq = (str_eq_iff name j).0 same in
        close_each-missing ts text j wl _ (rw (eq, close_if_open-missing ts text j s h) h)
    | inr other ↦ close_each-missing ts text j wl _ (
        get_ticker-close_if_open_ne ts text name j s (λ same. ground (arith, str_eq_iff name j))
        ∙ h)
  ]

  alert-quiet :
      (ts : Time) (typ name msg level text : String) (s : Store F)
      → let s' = emit e ts typ name msg (say e text s).1 level (say e text s).0 in
        (s'.watchlist ≡ s.watchlist) × (s'.times ≡ s.times)
  unfolding emit say store_audio add_event
  alert-quiet ts typ name msg level text s = ground arith

  -- At the force exit, `onElevenAM` closes every position of the watchlist that is still open, with
  -- the reason TIME_EXIT, the given time, and the last price, or the entry price where there is no
  -- positive last price. It changes no other ticker, and none that is closed already.
  pub on_eleven_am_closes :
      (ts : Time) (j : String) (s : Store F) (t : TickerState F)
      → get_ticker j s ≡ some t
      → get_ticker j (on_eleven_am e ts s)
        ≡ some (if contains j s.watchlist then closed s.times.open_ny ts t else t)
  unfolding on_eleven_am
  on_eleven_am_closes ts j s t h =
      let s1 = (say e "Eleven a.m. close" s).0 in
      let audio = (say e "Eleven a.m. close" s).1 in
      let s2 = emit e ts "11AM" "" "11am close" audio "info" s1 in
      let (same_list, same_times) =
        alert-quiet ts "11AM" "" "11am close" "info" "Eleven a.m. close" s in
      let h2 : get_ticker j s2 ≡ some t =
        get_ticker-emit e j ts "11AM" "" "11am close" audio "info" s1
        ∙ (get_ticker-say e j "Eleven a.m. close" s ∙ h) in
      get_ticker-close_each ts "11am close. " j s2.watchlist s2 t h2
      ∙ ap₂ (λ wl w. some (if contains j wl then closed w.open_ny ts t else t)) same_list same_times

  -- The close at the end of a replay of a day does the same to every ticker of the watchlist whose
  -- position is still open, at the time it is given, and to no other ticker.
  pub close_all_closes :
      (ts : Time) (j : String) (s : Store F) (t : TickerState F)
      → get_ticker j s ≡ some t
      → get_ticker j (close_all_open_positions_at e ts s)
        ≡ some (if contains j s.watchlist then closed s.times.open_ny ts t else t)
  unfolding close_all_open_positions_at
  close_all_closes ts j s t h =
      get_ticker-close_each ts ("Close at " ++ (clock_hm e.loc ts ++ ". ")) j s.watchlist s t h

  pub on_eleven_am-missing :
      (ts : Time) (j : String) (s : Store F)
      → get_ticker j s ≡ none
      → get_ticker j (on_eleven_am e ts s) ≡ none
  unfolding on_eleven_am
  on_eleven_am-missing ts j s h =
      let s1 = (say e "Eleven a.m. close" s).0 in
      let audio = (say e "Eleven a.m. close" s).1 in
      close_each-missing ts "11am close. " j _ _ (
        get_ticker-emit e j ts "11AM" "" "11am close" audio "info" s1
        ∙ (get_ticker-say e j "Eleven a.m. close" s ∙ h))

  pub close_all-missing :
      (ts : Time) (j : String) (s : Store F)
      → get_ticker j s ≡ none
      → get_ticker j (close_all_open_positions_at e ts s) ≡ none
  unfolding close_all_open_positions_at
  close_all-missing ts j s h = close_each-missing ts _ j s.watchlist s h
