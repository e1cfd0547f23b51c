-- ===== src/Session/Holds.antt =====
-- What every step of a session keeps, the whole session keeps. `W` says which times the session may
-- have, and `P` is what is kept.
pub mod Edits
pub mod Opening
pub mod Realtime
pub mod Scan
pub mod Replay
pub mod Today
use market_hacker.Base.{if_kept, ◌≡◌, ℕ, String, Bool, true, Option, List, [], ◌∷◌, ℤ, Dict}
use market_hacker.Float.{Float64}
use market_hacker.Clock.{Time}
use market_hacker.Store.{
  Phase, HistoricReport, TickerState, Times, Store, upsert_ticker, set_phase, set_times,
  set_historic_report,
}
use market_hacker.Engine.{
  Engine, RestTrade, emit, process_trade, on_trade, on_eleven_am, close_all_open_positions_at,
  replay_trade, replay, trade_time_millis, is_zero_ℤ,
}
use market_hacker.Engine.Moves.{SamePosition}
use market_hacker.Session.Feeds.{Feeds}
use market_hacker.Session.Realtime.{track}

module _ {F : Type 0} ⦃d : Float64 F⦄ where
  -- The steps: an event without audio, three settings, a change of a ticker that leaves its position
  -- alone, the tracking, a trade, and the two ways of closing what is open.
  pub record Holds (e : Engine F) (W : Times → Type 0) (P : Store F → Type 0) : Type 0 where
    pub quiet :
        (ts : Time) (typ sym msg level : String) (s : Store F)
        → P s
        → P (emit e ts typ sym msg "" level s)
    pub phase : (p : Phase) (s : Store F) → P s → P (set_phase p s)
    pub times : (w : Times) (s : Store F) → P s → P (set_times w s)
    pub report : (r : Option (HistoricReport F)) (s : Store F) → P s → P (set_historic_report r s)
    pub neutral :
        (sym : String) (fn : TickerState F → TickerState F) (s : Store F)
        → ((t : TickerState F) → SamePosition t (fn t))
        → P s
        → P (upsert_ticker sym fn s)
    pub tracked :
        (feeds : Feeds F) (now : Time) (w : Times) (candidates : List String) (s : Store F)
        → P s
        → P (track e feeds now w candidates s).0
    pub ends : (w : Times) (end_ny : Time) → W w → W (record w { exit_ny = end_ny })
    pub print :
        (w : Times) (sym : String) (ts_millis : ℤ) (price size : F) (allow : Bool) (s : Store F)
        → W w
        → P s
        → P (process_trade e w sym ts_millis price size allow s)
    pub eleven : (ts : Time) (s : Store F) → P s → P (on_eleven_am e ts s)
    pub close_all : (ts : Time) (s : Store F) → P s → P (close_all_open_positions_at e ts s)

  module _ {e : Engine F} {W : Times → Type 0} {P : Store F → Type 0} (st : Holds e W P) where
    pub on_trade_kept :
        (w : Times) (sym : String) (ts_millis : ℤ) (price : F) (size : ℕ) (s : Store F)
        → W w
        → P s
        → P (on_trade e w sym ts_millis price size s)
    unfolding on_trade
    on_trade_kept w sym ts_millis price size s ok h = st.print w sym ts_millis price _ true s ok h

    replay_trade_kept :
        (w : Times) (sym : String) (allow : Bool) (tr : RestTrade F) (s : Store F)
        → W w
        → P s
        → P (replay_trade e w sym allow tr s)
    unfolding replay_trade
    replay_trade_kept w sym allow tr s ok h =
        if_kept P (is_zero_ℤ (trade_time_millis tr)) _ _ h
          (st.print w sym (trade_time_millis tr) tr.price tr.size allow s ok h)

    pub replay_kept :
        (w : Times) (sym : String) (allow : Bool) (trs : List (RestTrade F)) (s : Store F)
        → W w
        → P s
        → P (replay e w sym allow trs s)
    unfolding replay
    replay_kept w sym allow [] s ok h = h
    replay_kept w sym allow (tr ∷ trs) s ok h =
        replay_kept w sym allow trs _ ok (replay_trade_kept w sym allow tr s ok h)
