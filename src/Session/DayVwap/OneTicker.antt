-- ===== src/Session/DayVwap/OneTicker.antt =====
-- The replay of the trades of all tracked tickers, seen from one of them.
use market_hacker.Base.{
  ◌≡◌, refl, sym, subst, ◌∙◌, inl, inr, String, Bool, true, false, Option, none, some, List, [],
  ◌∷◌, arith, All, if_kept, option_kept, str_eq, str_eq_iff, contains, Bool-cases,
}
use market_hacker.Float.{Float64, IsIeee}
use market_hacker.Clock.{Time}
use market_hacker.Store.{TickerState, Times, Store, get_ticker, add_event}
use market_hacker.Rest.{Fetched}
use market_hacker.Engine.{
  Engine, RestTrade, emit, replay_trade, replay, trade_time_millis, is_zero_ℤ,
}
use market_hacker.Engine.Refine.{process_trade_frame}
use market_hacker.Engine.Vwap.{Averages}
use market_hacker.Engine.Vwap.Replays.{replayed, replay-Averages}
use market_hacker.Engine.Tracked.Maps.{once}
use market_hacker.Session.Historic.{replay_fetched}

module _ {F : Type 0} ⦃d : Float64 F⦄ where
  open d use {nought, le}

  module _ (e : Engine F) (j : String) where
    replay_frame :
        (w : Times) (name : String) (allow : Bool) (trs : List (RestTrade F)) (s : Store F)
        → str_eq name j ≡ false
        → get_ticker j (replay e w name allow trs s) ≡ get_ticker j s
    unfolding replay replay_trade
    replay_frame w name allow [] s other = refl
    replay_frame w name allow (tr ∷ trs) s other =
        replay_frame w name allow trs _ other
        ∙ if_kept (λ s'. get_ticker j s' ≡ get_ticker j s) (is_zero_ℤ (trade_time_millis tr)) _ _
            refl
            (process_trade_frame e w name j (trade_time_millis tr) tr.price tr.size allow s
              (λ same. ground (arith, str_eq_iff name j)))

    -- One ticker of the loop, with its warning.
    after_warning :
        (now : Time) (name : String) (problem : Option String) (f : String → String) (s : Store F)
        → get_ticker j
            (elim problem [ none ↦ s | some m ↦ emit e now "SYSTEM" name (f m) "" "warn" s ])
          ≡ get_ticker j s
    unfolding emit add_event get_ticker
    after_warning now name problem f s =
        option_kept (λ s'. get_ticker j s' ≡ get_ticker j s) problem _ _ refl (λ m. refl)

    replay_fetched_frame :
        (now : Time) (w : Times) (trades : String → Fetched (RestTrade F)) (syms : List String)
        (s : Store F)
        → contains j syms ≡ false
        → get_ticker j (replay_fetched e now w trades syms s) ≡ get_ticker j s
    unfolding replay_fetched
    replay_fetched_frame now w trades [] s h = refl
    replay_fetched_frame now w trades (name ∷ syms) s h =
        replay_fetched_frame now w trades syms _ (ground arith)
        ∙ after_warning now name (trades name).error _ _
        ∙ replay_frame w name true (trades name).items s (ground arith)

    module _ (ieee : IsIeee F) where
      replay_fetched-first :
          (now : Time) (w : Times) (trades : String → Fetched (RestTrade F)) (syms : List String)
          (s : Store F) (t : TickerState F)
          → str_eq j "" ≡ false
          → contains j syms ≡ false
          → get_ticker j s ≡ some t
          → All (λ tr. le tr.size tr.size ≡ true) (trades j).items
          → le nought t.cum_v ≡ true
          → (t' : TickerState F) × (get_ticker j (replay_fetched e now w trades (j ∷ syms) s)
              ≡ some t')
            × Averages (replayed w (trades j).items) t t'
      unfolding replay_fetched
      replay_fetched-first now w trades syms s t named alone here numbers nonneg =
          let (t', there, sums) =
            replay-Averages ieee e w j true (trades j).items s t named here numbers nonneg in
          (
            t',
            replay_fetched_frame now w trades syms _ alone
                ∙ (after_warning now j (trades j).error _ _ ∙ there),
            sums,
          )

      pub replay_fetched-Averages :
          (now : Time) (w : Times) (trades : String → Fetched (RestTrade F)) (syms : List String)
          (s : Store F) (t : TickerState F)
          → str_eq j "" ≡ false
          → once syms ≡ true
          → contains j syms ≡ true
          → get_ticker j s ≡ some t
          → All (λ tr. le tr.size tr.size ≡ true) (trades j).items
          → le nought t.cum_v ≡ true
          → (t' : TickerState F) × (get_ticker j (replay_fetched e now w trades syms s) ≡ some t')
            × Averages (replayed w (trades j).items) t t'
      unfolding replay_fetched
      replay_fetched-Averages now w trades [] s t named distinct listed here numbers nonneg =
          absurd (ground arith)
      replay_fetched-Averages now w trades (name ∷ syms) s t named distinct listed here numbers
            nonneg =
          elim (Bool-cases (str_eq name j)) [
            | inr other ↦
                replay_fetched-Averages now w trades syms _ t named (ground arith) (ground arith)
                  (after_warning now name (trades name).error _ _
                    ∙ (replay_frame w name true (trades name).items s other ∙ here))
                  numbers nonneg
            | inl same ↦
                let eq = (str_eq_iff name j).0 same in
                let distinct' : once (j ∷ syms) ≡ true = rw eq at distinct in
                subst
                  (λ n.
                    (t' : TickerState F) × (get_ticker j
                        (replay_fetched e now w trades (n ∷ syms) s)
                      ≡ some t')
                    × Averages (replayed w (trades j).items) t t')
                  (sym eq)
                  (replay_fetched-first now w trades syms s t named (ground arith) here numbers
                    nonneg)
          ]
