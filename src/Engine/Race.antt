-- ===== src/Engine/Race.antt =====
-- `onElevenAM` runs in a goroutine of its own, and takes the lock of the store between the steps of
-- `processTrade`, which goes on with the ticker that it read before.
use Prim.Native.String.{◌++◌}
use market_hacker.Base.{◌≡◌, ◌∙◌, String, true, false, some, arith, if◌then◌else◌, contains}
use market_hacker.Float.{Float64, not_pos}
use market_hacker.Clock.{Time}
use market_hacker.Store.{TickerState, Times, Store, get_ticker}
use market_hacker.Engine.Types.{Engine}
use market_hacker.Engine.Ticks.{leave, hits_profit}
use market_hacker.Engine.Trade.{on_eleven_am, manage}
use market_hacker.Engine.Refine.{get_ticker-close_position}
use market_hacker.Engine.Closing.{closed, on_eleven_am_closes}

module _ {F : Type 0} ⦃d : Float64 F⦄ (e : Engine F) where
  -- Where the forced exit runs after a trade at or above the target has read an open position of the
  -- watchlist back, the position that the exit has closed is closed a second time: the reason, the
  -- price and the time of the trade overwrite those of the exit.
  pub forced_exit_overwritten :
      (w : Times) (sym : String) (ts : Time) (price : F) (t : TickerState F) (s : Store F)
      → get_ticker sym s ≡ some t
      → t.has_position ≡ true
      → t.exited ≡ false
      → hits_profit price t ≡ true
      → contains sym s.watchlist ≡ true
      → let s' = on_eleven_am e w.exit_ny s in
        let last = if not_pos t.last_price then t.entry_price else t.last_price in
        let left = leave s.times.open_ny w.exit_ny "TIME_EXIT" last t in
        (get_ticker sym s' ≡ some left)
        × (get_ticker sym (manage e sym ts price true t s')
            ≡ some (leave s'.times.open_ny ts "PROFIT" price left))
  unfolding manage closed
  forced_exit_overwritten w sym ts price t s h held open' hit listed =
      let last = if not_pos t.last_price then t.entry_price else t.last_price in
      let gone : get_ticker sym (on_eleven_am e w.exit_ny s)
          ≡ some (leave s.times.open_ny w.exit_ny "TIME_EXIT" last t) =
        on_eleven_am_closes e w.exit_ny sym s t h ∙ rw (listed, held, open') in
      (
        gone,
        ground (
          arith,
          get_ticker-close_position e ts sym "PROFIT" ("PROFIT! " ++ sym) price
              (on_eleven_am e w.exit_ny s) gone,
        ),
      )
