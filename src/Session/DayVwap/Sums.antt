-- ===== src/Session/DayVwap/Sums.antt =====
-- What keeps the sums of a ticker, keeps its VWAP.
use market_hacker.Base.{
  refl, ◌∙◌, inl, inr, String, Option, List, arith, option_kept, Result, ok, err,
}
use market_hacker.Float.{Float64}
use market_hacker.Clock.{Time}
use market_hacker.Store.{TickerState}
use market_hacker.Rest.{Fetched}
use market_hacker.Engine.{Engine, RestTrade, seed_trades, seed_vwap_from_trades, leave}
use market_hacker.Engine.Closing
use market_hacker.Engine.Vwap.{Averages}
use market_hacker.Engine.Vwap.Replays.{SameSums}
use market_hacker.Engine.Tracked.{with_history}
use market_hacker.Engine.Tracked.Maps.{tracking}

module _ {F : Type 0} ⦃d : Float64 F⦄ where
  pub Averages-after :
      {ps : List (F × F)} {t u v : TickerState F} → Averages ps t u → SameSums u v → Averages ps t v
  Averages-after {ps = ps} {t = t} a same = record {
    volume = same.volume ∙ a.volume;
    value = same.value ∙ a.value;
    average = elim a.average [
      | inl (none_new, kept) ↦ inl (none_new, same.average ∙ kept)
      | inr e ↦ inr (rw (same.volume, same.value, same.average) e)
    ];
    not_negative = rw same.volume a.not_negative;
  }

  pub Averages-before :
      {ps : List (F × F)} {t u v : TickerState F} → SameSums t u → Averages ps u v → Averages ps t v
  Averages-before same a = record {
    volume = rw (← same.volume) a.volume;
    value = rw (← same.value) a.value;
    average = elim a.average [
      | inl (none_new, kept) ↦ inl (none_new, kept ∙ same.average)
      | inr e ↦ inr e
    ];
    not_negative = a.not_negative;
  }

  pub told-SameSums :
      (e : Engine F) (r : Result (F × F)) (t : TickerState F)
      → SameSums t (with_history e r (tracking t))
  told-SameSums e (err m) t = record { volume = refl; value = refl; average = refl }
  told-SameSums e (ok (avg, pct)) t = record { volume = refl; value = refl; average = refl }

  pub seed_vwap-SameSums :
      (start : Time) (it : Fetched (RestTrade F)) (t : TickerState F)
      → SameSums (seed_trades start it.items t) (seed_vwap_from_trades start it t).0
  unfolding seed_vwap_from_trades
  seed_vwap-SameSums start it t =
      option_kept
        (λ (p : TickerState F × Option String). SameSums (seed_trades start it.items t) p.0)
        it.error _ _ (ground arith) (λ m. ground arith)

  pub closed-SameSums :
      (e : Engine F) (open_ny ts : Time) (t : TickerState F)
      → SameSums t (Closing.closed e open_ny ts t)
  unfolding Closing.closed leave
  closed-SameSums e open_ny ts t = ground arith
