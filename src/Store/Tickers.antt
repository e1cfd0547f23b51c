-- ===== src/Store/Tickers.antt =====
-- How the methods of `Store` change what `GetTicker` returns.
use market_hacker.Base.{String, ◌≡◌, ◌≢◌, refl, some, lookup-upsert_self, lookup-upsert_ne}
use market_hacker.Float.{Float64}
use market_hacker.Store.Types.{TickerState, Store}
use market_hacker.Store.Ops.{get_ticker, upsert_ticker, new_ticker}

module _ {F : Type 0} ⦃d : Float64 F⦄ where
  pub get_ticker-upsert_ticker_self :
      (sym : String) (f : TickerState F → TickerState F) (s : Store F) (t : TickerState F)
      → get_ticker sym s ≡ some t
      → get_ticker sym (upsert_ticker sym f s) ≡ some (f t)
  unfolding get_ticker upsert_ticker
  get_ticker-upsert_ticker_self sym f s t h =
      rw (lookup-upsert_self sym (new_ticker sym) f s.tickers, h)

  pub get_ticker-upsert_ticker_ne :
      (sym j : String) (f : TickerState F → TickerState F) (s : Store F)
      → sym ≢ j
      → get_ticker j (upsert_ticker sym f s) ≡ get_ticker j s
  unfolding get_ticker upsert_ticker
  get_ticker-upsert_ticker_ne sym j f s h = lookup-upsert_ne sym j (new_ticker sym) f s.tickers h

  pub times-upsert_ticker :
      (sym : String) (f : TickerState F → TickerState F) (s : Store F)
      → (upsert_ticker sym f s).times ≡ s.times
  unfolding upsert_ticker
  times-upsert_ticker sym f s = refl

  pub filters-upsert_ticker :
      (sym : String) (f : TickerState F → TickerState F) (s : Store F)
      → (upsert_ticker sym f s).filters ≡ s.filters
  unfolding upsert_ticker
  filters-upsert_ticker sym f s = refl
