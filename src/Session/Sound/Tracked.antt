-- ===== src/Session/Sound/Tracked.antt =====
-- What holds of the tickers of the store and says nothing but of their positions, holds of the tickers
-- that `buildTrackedStates` makes of them.
use market_hacker.Base.{
  ◌≡◌, ◌∙◌, sym, subst, inl, inr, ℕ, String, Option, none, some, List, [], ◌∷◌, arith, option_kept,
  result_kept, str_eq, Dict, lookup, upsert, or_else, lookup-upsert, Bool-cases, Option-cases,
  Result,
}
use mathlib.Core.Option.{some-injective}
use market_hacker.Float.{Float64}
use market_hacker.Clock.{Time}
use market_hacker.Store.{TickerState, Times, Store, get_ticker, set_phase, set_tracked_tickers}
use market_hacker.Rest.{Fetched}
use market_hacker.Engine.{
  Engine, RestTrade, accumulate, history_result, set_history, adjust, shallow_states, apply_history,
  seed_trade, seed_trades, seed_vwap_from_trades, seed_states, build_tracked_states,
}
use market_hacker.Engine.Moves.{SamePosition, SamePosition-refl, SamePosition-trans}
use market_hacker.Session.Feeds.{Feeds}
use market_hacker.Session.Realtime.{track}

module _ {F : Type 0} where
  abbrev pub Every : (TickerState F → Type 0) → Dict (TickerState F) → Type 0
  Every Q m = (j : String) (t : TickerState F) → lookup j m ≡ some t → Q t

module _ {F : Type 0} (Q : TickerState F → Type 0) where
  pub or_else-Every :
      (k : String) (v : TickerState F) (m : Dict (TickerState F))
      → Q v
      → Every Q m
      → Q (or_else v (lookup k m))
  or_else-Every k v m q h = elim (Option-cases (lookup k m)) [
    | inl absent ↦ rw absent q
    | inr (t, there) ↦ rw there (h k t there)
  ]

  pub upsert-Every :
      (k : String) (v : TickerState F) (fn : TickerState F → TickerState F)
      (m : Dict (TickerState F))
      → Q (fn (or_else v (lookup k m)))
      → Every Q m
      → Every Q (upsert k v fn m)
  upsert-Every k v fn m q h j t there = elim (Bool-cases (str_eq k j)) [
    | inl same ↦ subst Q (some-injective _ _ (rw (lookup-upsert k j v fn m, same) at there)) q
    | inr other ↦ h j t (rw (lookup-upsert k j v fn m, other) at there)
  ]

module _ {F : Type 0} (Q : TickerState F → Type 0) where
  -- A step that keeps the missing tickers missing, and of the tickers there what holds of them.
  pub step-Every :
      (s s' : Store F)
      → ((j : String) → get_ticker j s ≡ none → get_ticker j s' ≡ none)
      → ((j : String) (t : TickerState F)
          → get_ticker j s ≡ some t
          → Q t
          → (t' : TickerState F) × (get_ticker j s' ≡ some t') × Q t')
      → Every Q s.tickers
      → Every Q s'.tickers
  unfolding get_ticker
  step-Every s s' missing found h j t' there = elim (Option-cases (get_ticker j s)) [
    | inl absent ↦ let gone = missing j absent in absurd (cc)
    | inr (t, here) ↦
        let (u, now, fine) = found j t here (h j t here) in
        subst Q (some-injective u t' (sym now ∙ there)) fine
  ]

module _ {F : Type 0} ⦃d : Float64 F⦄ where
  seed_trade-SamePosition :
      (start : Time) (tr : RestTrade F) (t : TickerState F) → SamePosition t (seed_trade start tr t)
  unfolding seed_trade accumulate
  seed_trade-SamePosition start tr t = ground arith

  seed_trades-SamePosition :
      (start : Time) (trs : List (RestTrade F)) (t : TickerState F)
      → SamePosition t (seed_trades start trs t)
  unfolding seed_trades
  seed_trades-SamePosition start [] t = SamePosition-refl t
  seed_trades-SamePosition start (tr ∷ trs) t =
      SamePosition-trans (seed_trade-SamePosition start tr t) (seed_trades-SamePosition start trs _)

  pub seed_vwap-SamePosition :
      (start : Time) (it : Fetched (RestTrade F)) (t : TickerState F)
      → SamePosition t (seed_vwap_from_trades start it t).0
  unfolding seed_vwap_from_trades
  seed_vwap-SamePosition start it t =
      SamePosition-trans (seed_trades-SamePosition start it.items t) (
        option_kept
          (λ (p : TickerState F × Option String). SamePosition (seed_trades start it.items t) p.0)
          it.error _ _ (ground arith) (λ m. SamePosition-refl _))

module _ {F : Type 0} ⦃d : Float64 F⦄ (Q : TickerState F → Type 0)
    (same : (t t' : TickerState F) → SamePosition t t' → Q t → Q t') where
  shallow_states-Every :
      (candidates : List String) (s : Store F)
      → Every Q s.tickers
      → Every Q (shallow_states candidates s)
  unfolding shallow_states get_ticker lookup
  shallow_states-Every [] s h = λ j t there. absurd (ground arith)
  shallow_states-Every (name ∷ candidates) s h =
      let rest = shallow_states-Every candidates s h in
      elim (Option-cases (get_ticker name s)) [
        | inl absent ↦ rw (absent, shallow_states) rest
        | inr (t, here) ↦
            rw (here, shallow_states)
              (λ j u there. elim (Bool-cases (str_eq name j)) [
                | inl first ↦
                    subst Q (some-injective _ _ (rw first at there))
                      (same t _ (ground arith) (h name t here))
                | inr other ↦ rest j u (rw other at there)
              ])
      ]

  adjust-Every :
      (name : String) (fn : TickerState F → TickerState F) (m : Dict (TickerState F))
      → ((t : TickerState F) → SamePosition t (fn t))
      → Every Q m
      → Every Q (adjust name fn m)
  adjust-Every name fn m neutral h = elim (Option-cases (lookup name m)) [
    | inl absent ↦ rw (absent, adjust) h
    | inr (t, there) ↦
        rw (there, adjust)
          (upsert-Every Q name t fn m
            (same _ _ (neutral _) (or_else-Every Q name t m (h name t there) h)) h)
  ]

  apply_history-Every :
      (e : Engine F) (fetch : String → ℕ → Result (Option F)) (now : Time) (arrivals : List String)
      (p : Store F × Dict (TickerState F))
      → Every Q p.1
      → Every Q (apply_history e fetch now arrivals p).1
  unfolding apply_history
  apply_history-Every e fetch now [] p h = h
  apply_history-Every e fetch now (name ∷ arrivals) (s, tracked) h =
      apply_history-Every e fetch now arrivals _ (
        result_kept (λ (q : Store F × Dict (TickerState F)). Every Q q.1)
          (history_result e fetch name s) _ _
          (λ a. adjust-Every name (set_history a.0 a.1) tracked (λ t. ground arith) h) (λ m. h))

  seed_states-Every :
      (e : Engine F) (trades : String → Fetched (RestTrade F)) (now : Time) (w : Times)
      (syms : List String) (p : Store F × Dict (TickerState F))
      → Every Q p.1
      → Every Q (seed_states e trades now w syms p).1
  unfolding seed_states
  seed_states-Every e trades now w [] p h = h
  seed_states-Every e trades now w (name ∷ syms) (s, tracked) h =
      elim (Option-cases (lookup name tracked)) [
        | inl absent ↦ rw (absent, seed_states) (seed_states-Every e trades now w syms _ h)
        | inr (t, there) ↦
            rw (there, seed_states)
              (seed_states-Every e trades now w syms _ (
                upsert-Every Q name t _ tracked
                  (same t _ (seed_vwap-SamePosition w.open_ny (trades name) t) (h name t there)) h))
      ]

  pub track-Every :
      (e : Engine F) (feeds : Feeds F) (now : Time) (w : Times) (candidates : List String)
      (s : Store F)
      → Every Q s.tickers
      → Every Q (track e feeds now w candidates s).0.tickers
  unfolding track build_tracked_states set_phase set_tracked_tickers
  track-Every e feeds now w candidates s h =
      seed_states-Every e _ now w candidates _
        (apply_history-Every e _ now _ _ (shallow_states-Every candidates s h))
