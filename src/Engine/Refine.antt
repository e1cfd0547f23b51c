-- ===== src/Engine/Refine.antt =====
-- `processTrade` takes the store's lock up to four times. On the ticker of the trade the whole comes
-- to one function of the ticker, `outcome`, and no other ticker changes.
use Prim.Native.String.{◌++◌}
use market_hacker.Base.{
  String, ◌≡◌, ◌≢◌, ◌∙◌, refl, inl, inr, Bool, true, false, not, ◌&&◌, ◌||◌, none, some, ℤ, arith,
  if◌then◌else◌, str_eq, Bool-cases, Option-cases,
}
use market_hacker.Float.{Float64}
use market_hacker.Clock.{Time, unix_milli}
use market_hacker.Store.{
  RuntimeFilters, TickerState, Times, Store, get_ticker, upsert_ticker, store_audio, add_event,
}
use market_hacker.Store.Tickers.{
  get_ticker-upsert_ticker_self, get_ticker-upsert_ticker_ne, times-upsert_ticker,
}
use market_hacker.Engine.Types.{Engine}
use market_hacker.Engine.Alerts.{emit, say}
use market_hacker.Engine.Ticks.{
  drops, record_trade, detects, mark_cross, entry_refused, hits_profit, hits_stop, enter, leave,
}
use market_hacker.Engine.Trade.{open_position, close_position, manage, decide, process_trade}

-- The alerts touch the events and the audio alone.
module _ {F : Type 0} (e : Engine F) where
  pub get_ticker-say :
      (j text : String) (s : Store F) → get_ticker j (say e text s).0 ≡ get_ticker j s
  unfolding say store_audio get_ticker
  get_ticker-say j text s = ground arith

  pub get_ticker-emit :
      (j : String) (ts : Time) (typ sym msg audio level : String) (s : Store F)
      → get_ticker j (emit e ts typ sym msg audio level s) ≡ get_ticker j s
  unfolding emit add_event get_ticker
  get_ticker-emit j ts typ sym msg audio level s = refl

module _ {F : Type 0} ⦃d : Float64 F⦄ (e : Engine F) where
  pub get_ticker-open_position :
      (ts : Time) (sym : String) (p : F) (s : Store F) {t : TickerState F}
      → get_ticker sym s ≡ some t
      → get_ticker sym (open_position e ts sym p s) ≡ some (enter e s.times.open_ny ts p t)
  unfolding open_position
  get_ticker-open_position ts sym p s {t} h =
      rw (get_ticker-emit, get_ticker-say)
        (get_ticker-upsert_ticker_self sym (enter e s.times.open_ny ts p) s t h)

  pub get_ticker-open_position_ne :
      (ts : Time) (sym j : String) (p : F) (s : Store F)
      → sym ≢ j
      → get_ticker j (open_position e ts sym p s) ≡ get_ticker j s
  unfolding open_position
  get_ticker-open_position_ne ts sym j p s h =
      rw (get_ticker-emit, get_ticker-say) (get_ticker-upsert_ticker_ne sym j _ s h)

  pub get_ticker-close_position :
      (ts : Time) (sym reason text : String) (p : F) (s : Store F) {t : TickerState F}
      → get_ticker sym s ≡ some t
      → get_ticker sym (close_position e ts sym reason text p s)
        ≡ some (leave s.times.open_ny ts reason p t)
  unfolding close_position
  get_ticker-close_position ts sym reason text p s {t} h =
      rw (get_ticker-emit, get_ticker-say)
        (get_ticker-upsert_ticker_self sym (leave s.times.open_ny ts reason p) s t h)

  pub get_ticker-close_position_ne :
      (ts : Time) (sym j reason text : String) (p : F) (s : Store F)
      → sym ≢ j
      → get_ticker j (close_position e ts sym reason text p s) ≡ get_ticker j s
  unfolding close_position
  get_ticker-close_position_ne ts sym j reason text p s h =
      rw (get_ticker-emit, get_ticker-say) (get_ticker-upsert_ticker_ne sym j _ s h)

  -- What "manage position" comes to on the ticker.
  unfoldable pub managed : Time → Time → F → Bool → TickerState F → TickerState F → TickerState F
  managed open_ny tr price allow t t1 =
      if allow && (t.has_position && not t.exited)
      then if hits_profit price t
        then leave open_ny tr "PROFIT" price t1
        else if hits_stop price t
        then leave open_ny tr "STOP" price t1
        else t1
      else t1

  get_ticker-manage :
      (sym : String) (tr : Time) (price : F) (allow : Bool) (t : TickerState F) (s : Store F)
      {t1 : TickerState F}
      → get_ticker sym s ≡ some t1
      → get_ticker sym (manage e sym tr price allow t s)
        ≡ some (managed s.times.open_ny tr price allow t t1)
  unfolding manage managed
  get_ticker-manage sym tr price allow t s h = ground (
    arith,
    get_ticker-close_position tr sym "PROFIT" ("PROFIT! " ++ sym) price s h,
    get_ticker-close_position tr sym "STOP" ("STOP LOSS HIT! " ++ sym) price s h,
  )

  get_ticker-manage_ne :
      (sym j : String) (tr : Time) (price : F) (allow : Bool) (t : TickerState F) (s : Store F)
      → sym ≢ j
      → get_ticker j (manage e sym tr price allow t s) ≡ get_ticker j s
  unfolding manage
  get_ticker-manage_ne sym j tr price allow t s h = ground (
    arith,
    get_ticker-close_position_ne tr sym j "PROFIT" ("PROFIT! " ++ sym) price s h,
    get_ticker-close_position_ne tr sym j "STOP" ("STOP LOSS HIT! " ++ sym) price s h,
  )

  -- What the checks after the update come to on the ticker that was read back.
  unfoldable pub settle :
      RuntimeFilters F → Time → Times → Time → F → Bool → TickerState F → TickerState F
  unfolding managed
  settle f open_ny w tr price allow t =
      let found = detects w tr price t in
      let t1 = if found then mark_cross tr price t else t in
      if allow && (not t.has_position && not t.exited)
      then if entry_refused f w tr price t
        then t1
        else if t.saw_cross_in_window || found
        then enter e open_ny tr price t1
        else managed open_ny tr price allow t t1
      else managed open_ny tr price allow t t1

  unfoldable pub outcome :
      RuntimeFilters F → Time → Times → Time → F → F → Bool → TickerState F → TickerState F
  unfolding settle
  outcome f open_ny w tr price size allow t =
      if drops w tr price size
      then t
      else settle f open_ny w tr price allow (record_trade w.open_ny tr price size t)

  get_ticker-decide :
      (w : Times) (sym : String) (tr : Time) (price : F) (allow : Bool) (t : TickerState F)
      (s : Store F)
      → get_ticker sym s ≡ some t
      → get_ticker sym (decide e w sym tr price allow t s)
        ≡ some (settle s.filters s.times.open_ny w tr price allow t)
  unfolding decide settle
  get_ticker-decide w sym tr price allow t s h = elim (Bool-cases (detects w tr price t)) [
    | inl found ↦
        let s1 = upsert_ticker sym (mark_cross tr price) s in
        let h1 = get_ticker-upsert_ticker_self sym (mark_cross tr price) s t h in
        rw found (
          ground (
            arith,
            h1,
            times-upsert_ticker sym (mark_cross tr price) s,
            get_ticker-open_position tr sym price s1 h1,
            get_ticker-manage sym tr price allow t s1 h1,
          ))
    | inr no_cross ↦ rw no_cross (
        ground (
          arith,
          get_ticker-open_position tr sym price s h,
          get_ticker-manage sym tr price allow t s h,
        ))
  ]

  get_ticker-decide_ne :
      (w : Times) (sym j : String) (tr : Time) (price : F) (allow : Bool) (t : TickerState F)
      (s : Store F)
      → sym ≢ j
      → get_ticker j (decide e w sym tr price allow t s) ≡ get_ticker j s
  unfolding decide
  get_ticker-decide_ne w sym j tr price allow t s h =
      let s1 = upsert_ticker sym (mark_cross tr price) s in
      ground (
        arith,
        get_ticker-upsert_ticker_ne sym j (mark_cross tr price) s h,
        get_ticker-open_position_ne tr sym j price s h,
        get_ticker-open_position_ne tr sym j price s1 h,
        get_ticker-manage_ne sym j tr price allow t s h,
        get_ticker-manage_ne sym j tr price allow t s1 h,
      )

  -- For a ticker that the store holds, under a symbol that is not empty, the store holds after
  -- `processTrade` the state that `outcome` gives for it.
  pub process_trade_refines :
      (w : Times) (sym : String) (ts_millis : ℤ) (price size : F) (allow : Bool) (s : Store F)
      (t : TickerState F)
      → str_eq sym "" ≡ false
      → get_ticker sym s ≡ some t
      → get_ticker sym (process_trade e w sym ts_millis price size allow s)
        ≡ some (outcome s.filters s.times.open_ny w (unix_milli ts_millis) price size allow t)
  unfolding process_trade outcome upsert_ticker
  process_trade_refines w sym ts_millis price size allow s t named h =
      let tr = unix_milli ts_millis in
      let f = record_trade w.open_ny tr price size in
      let s1 = upsert_ticker sym f s in
      let h1 = get_ticker-upsert_ticker_self sym f s t h in
      rw (named, h)
        (elim (Bool-cases (drops w tr price size)) [
          | inl dropped ↦ rw dropped h
          | inr kept ↦ rw (kept, h1) (get_ticker-decide w sym tr price allow (f t) s1 h1)
        ])

  -- Whatever the trade, `processTrade` leaves every ticker but its own as it was.
  pub process_trade_frame :
      (w : Times) (sym j : String) (ts_millis : ℤ) (price size : F) (allow : Bool) (s : Store F)
      → sym ≢ j
      → get_ticker j (process_trade e w sym ts_millis price size allow s) ≡ get_ticker j s
  unfolding process_trade
  process_trade_frame w sym j ts_millis price size allow s h =
      let tr = unix_milli ts_millis in
      let f = record_trade w.open_ny tr price size in
      let s1 = upsert_ticker sym f s in
      let e1 = get_ticker-upsert_ticker_ne sym j f s h in
      elim (Bool-cases (str_eq sym "")) [
        | inl unnamed ↦ rw unnamed
        | inr named ↦ rw named (elim (Option-cases (get_ticker sym s)) [
          | inl untracked ↦ rw (untracked)
          | inr (t, tracked) ↦
              let h1 = get_ticker-upsert_ticker_self sym f s t tracked in
              rw tracked (elim (Bool-cases (drops w tr price size)) [
                | inl dropped ↦ rw dropped
                | inr kept ↦
                    rw (kept, h1) (get_ticker-decide_ne w sym j tr price allow (f t) s1 h ∙ e1)
              ])
        ])
      ]

  -- A symbol that the store does not hold changes nothing at all.
  pub process_trade_untracked :
      (w : Times) (sym : String) (ts_millis : ℤ) (price size : F) (allow : Bool) (s : Store F)
      → get_ticker sym s ≡ none
      → process_trade e w sym ts_millis price size allow s ≡ s
  unfolding process_trade
  process_trade_untracked w sym ts_millis price size allow s h = rw h (ground arith)

  pub process_trade_unnamed :
      (w : Times) (sym : String) (ts_millis : ℤ) (price size : F) (allow : Bool) (s : Store F)
      → str_eq sym "" ≡ true
      → process_trade e w sym ts_millis price size allow s ≡ s
  unfolding process_trade
  process_trade_unnamed w sym ts_millis price size allow s h = rw h
