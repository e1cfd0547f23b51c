-- ===== src/Engine/Tracking.antt =====
-- From the selection to the tracking: `avgPrevSessionsOpen5mVol`, `seedVWAPFromTrades` and
-- `buildTrackedStates` of engine.go. The REST client's answers are parameters; a cancelled context,
-- which ends the loops early, is not modelled.
use Prim.Native.String.{◌++◌ as glue}
use market_hacker.Base.{
  ℕ, zero, suc, ◌+◌, String, true, not, ◌&&◌, ◌||◌, Option, none, some, List, [], ◌∷◌, ◌++◌, foldl,
  ℤ, pos, negsuc, pos_part, ltb_ℤ, if◌then◌else◌, length, Result, ok, err, Dict, lookup, upsert,
}
use market_hacker.Float.{Float64, not_pos}
use market_hacker.Clock.{Time, minute, unix_milli, before, decimal}
use market_hacker.Store.{TickerState, Times, Store, get_ticker, upsert_ticker}
use market_hacker.Rest.{Fetched}
use market_hacker.Engine.Types.{Engine}
use market_hacker.Engine.Alerts.{emit}
use market_hacker.Engine.Ticks.{accumulate}
use market_hacker.Engine.Replay.{RestTrade, trade_time_millis, is_zero_ℤ}

-- `%d` of an `int`
abbrev pub int_text : ℤ → String
int_text (pos n) = decimal n
int_text (negsuc n) = glue "-" (decimal (suc n))

module _ {F : Type 0} ⦃d : Float64 F⦄ where
  open d use {nought, of_ℕ, add, mul, div, lt, le}

  -- The volume of one earlier day, where there is one: errors and empty days are skipped.
  unfoldable pub valid_volume : Result (Option F) → List F
  valid_volume (err _) = []
  valid_volume (ok none) = []
  valid_volume (ok (some v)) = if not_pos v then [] else v ∷ []

  -- `fetch back` is the opening volume of the day `back` days before; `left` days may still be asked.
  unfoldable pub sessions_loop : (ℕ → Result (Option F)) → ℤ → ℕ → ℕ → List F → List F
  sessions_loop fetch needed back zero vols = vols
  sessions_loop fetch needed back (suc left) vols =
      let rest = sessions_loop fetch needed (suc back) left (vols ++ valid_volume (fetch back)) in
      if ltb_ℤ (pos (length vols)) needed then rest else vols

  unfoldable pub average : List F → F
  average vols = div (foldl add nought vols) (of_ℕ (length vols))

  unfoldable pub avg_prev_sessions_open5m_vol : (ℕ → Result (Option F)) → ℤ → ℤ → Result F
  avg_prev_sessions_open5m_vol fetch needed max_lookback =
      elim (sessions_loop fetch needed 1 (pos_part max_lookback) []) [
        | [] ↦
            err (glue "no prior sessions found in lookback=" (glue (int_text max_lookback) " days"))
        | v ∷ vs ↦ ok (average (v ∷ vs))
      ]

  -- the body of the loop of `seedVWAPFromTrades`
  unfoldable pub seed_trade : Time → RestTrade F → TickerState F → TickerState F
  seed_trade start tr t =
      let millis = trade_time_millis tr in
      let now = unix_milli millis in
      let t1 = record (accumulate tr.price tr.size t) { last_price = tr.price; last_trade = now } in
      let crossed =
        lt nought t.last_price
        && (lt nought t.vwap && (lt t.last_price t.vwap && le t1.vwap tr.price)) in
      if not_pos tr.price || not_pos tr.size
      then t
      else if is_zero_ℤ millis
      then t
      else if not t1.saw_cross_in_window && (not (before now (start + minute)) && crossed)
      then record t1 {
        saw_cross_in_window = true;
        first_cross_time = now;
        first_cross_price = tr.price;
      }
      else t1

  unfoldable pub seed_trades : Time → List (RestTrade F) → TickerState F → TickerState F
  unfolding seed_trade
  seed_trades start [] t = t
  seed_trades start (tr ∷ trs) t = seed_trades start trs (seed_trade start tr t)

  -- The state is changed in place, so that it keeps the trades read before an error.
  unfoldable pub seed_vwap_from_trades :
      Time → Fetched (RestTrade F) → TickerState F → TickerState F × Option String
  seed_vwap_from_trades start it t =
      let t1 = seed_trades start it.items t in
      elim it.error [
        | some m ↦ (t1, some m)
        | none ↦ (
          if lt nought t1.cum_v
              then record t1 { prev_vwap = t1.vwap; prev_price = t1.last_price }
              else t1,
          none,
        )
      ]

  -- What the worker for `sym` sends: the average of the earlier sessions and today's percentage.
  unfoldable pub history_result :
      Engine F → (String → ℕ → Result (Option F)) → String → Store F → Result (F × F)
  history_result e fetch sym s = elim (get_ticker sym s) [
    | none ↦ err "missing ticker state"
    | some t ↦
        elim (avg_prev_sessions_open5m_vol (fetch sym) e.cfg.history.open5m_lookback_sessions
          e.cfg.history.max_calendar_lookback) [
            | err m ↦ err m
            | ok avg ↦
                ok (avg, if lt nought avg then mul (div t.open5m_vol avg) (of_ℕ 100) else nought)
          ]
  ]

  abbrev pub set_history : F → F → TickerState F → TickerState F
  set_history avg pct t = record t { prev10_avg_open5m_vol = avg; open5m_today_pct = pct }

  -- Changes the value under a key that is there.
  abbrev pub adjust :
      String → (TickerState F → TickerState F) → Dict (TickerState F) → Dict (TickerState F)
  adjust sym f m = elim (lookup sym m) [ none ↦ m | some t ↦ upsert sym t f m ]

  unfoldable pub shallow_states : List String → Store F → Dict (TickerState F)
  shallow_states [] s = []
  shallow_states (sym ∷ syms) s =
      let rest = shallow_states syms s in
      elim (get_ticker sym s) [
        | none ↦ rest
        | some t ↦ (sym, record t { status = "tracking" }) ∷ rest
      ]

  -- The results in the order of their arrival; a failure is reported and leaves the state.
  unfoldable pub apply_history :
      Engine F
      → (String → ℕ → Result (Option F))
      → Time
      → List String
      → Store F × Dict (TickerState F)
      → Store F × Dict (TickerState F)
  apply_history e fetch now [] p = p
  apply_history e fetch now (sym ∷ arrivals) (s, tracked) =
      apply_history e fetch now arrivals (elim (history_result e fetch sym s) [
        | err m ↦ (emit e now "SYSTEM" sym (glue "History calc failed: " m) "" "warn" s, tracked)
        | ok (avg, pct) ↦ (s, adjust sym (set_history avg pct) tracked)
      ])

  unfoldable pub seed_states :
      Engine F
      → (String → Fetched (RestTrade F))
      → Time
      → Times
      → List String
      → Store F × Dict (TickerState F)
      → Store F × Dict (TickerState F)
  seed_states e trades now w [] p = p
  seed_states e trades now w (sym ∷ syms) (s, tracked) =
      seed_states e trades now w syms (elim (lookup sym tracked) [
        | none ↦ (s, tracked)
        | some t ↦
            let (t', problem) = seed_vwap_from_trades w.open_ny (trades sym) t in
            (
              elim problem [
                | none ↦ s
                | some m ↦ emit e now "SYSTEM" sym (glue "VWAP seed failed: " m) "" "warn" s
              ],
              upsert sym t (λ _. t') tracked,
            )
      ])

  unfoldable pub put_back : Dict (TickerState F) → Store F → Store F
  put_back [] s = s
  put_back ((sym, t) ∷ tracked) s = put_back tracked (upsert_ticker sym (λ _. t) s)

  -- `arrivals` is the order in which the workers' results come.
  unfoldable pub build_tracked_states :
      Engine F
      → (String → ℕ → Result (Option F))
      → (String → Fetched (RestTrade F))
      → Time
      → Times
      → List String
      → List String
      → Store F
      → Store F × Dict (TickerState F)
  build_tracked_states e fetch trades now w candidates arrivals s =
      let p1 = apply_history e fetch now arrivals (s, shallow_states candidates s) in
      let (s2, tracked) = seed_states e trades now w candidates p1 in (put_back tracked s2, tracked)
