-- ===== src/Engine/Replay.antt =====
-- The loops that hand trades to `processTrade`: the live loop of `Run` and `runHistoricLiveToday`,
-- which reads the messages of a WebSocket, and the replay of REST trades of historic.go.
use market_hacker.Base.{
  ℕ, zero, suc, String, Bool, true, false, not, List, [], ◌∷◌, ℤ, pos, negsuc, if◌then◌else◌,
}
use market_hacker.Float.{Float64}
use market_hacker.Clock.{Time, is_zero, to_unix_milli}
use market_hacker.Store.{Times, Store}
use market_hacker.Engine.Types.{Engine}
use market_hacker.Engine.Trade.{process_trade, on_trade}

-- What the program reads of massive.EquityTrade and of models.Trade. The messages of the WebSocket
-- that are no trades are not in the list.
pub record EquityTrade (F : Type 0) : Type 0 where
  pub symbol : String
  pub timestamp : ℤ
  pub price : F
  pub size : ℕ

pub record RestTrade (F : Type 0) : Type 0 where
  pub sip_timestamp : Time
  pub participant_timestamp : Time
  pub trf_timestamp : Time
  pub price : F
  pub size : F

unfoldable pub trade_time_millis : {F : Type 0} → RestTrade F → ℤ
trade_time_millis tr =
    if not (is_zero tr.sip_timestamp)
    then to_unix_milli tr.sip_timestamp
    else if not (is_zero tr.participant_timestamp)
    then to_unix_milli tr.participant_timestamp
    else if not (is_zero tr.trf_timestamp)
    then to_unix_milli tr.trf_timestamp
    else pos 0

abbrev pub is_zero_ℤ : ℤ → Bool
is_zero_ℤ (pos zero) = true
is_zero_ℤ (pos (suc _)) = false
is_zero_ℤ (negsuc _) = false

module _ {F : Type 0} ⦃d : Float64 F⦄ (e : Engine F) where
  unfoldable pub feed : Times → List (EquityTrade F) → Store F → Store F
  feed w [] s = s
  feed w (m ∷ ms) s = feed w ms (on_trade e w m.symbol m.timestamp m.price m.size s)

  -- One round of the loop over the trades of one ticker.
  unfoldable pub replay_trade : Times → String → Bool → RestTrade F → Store F → Store F
  replay_trade w sym allow tr s =
      let millis = trade_time_millis tr in
      if is_zero_ℤ millis then s else process_trade e w sym millis tr.price tr.size allow s

  unfoldable pub replay : Times → String → Bool → List (RestTrade F) → Store F → Store F
  unfolding replay_trade
  replay w sym allow [] s = s
  replay w sym allow (tr ∷ trs) s = replay w sym allow trs (replay_trade w sym allow tr s)

  -- The loop over the tickers; `trades` stands for the REST client's ListTrades.
  unfoldable pub replay_all :
      Times → Bool → (String → List (RestTrade F)) → List String → Store F → Store F
  replay_all w allow trades [] s = s
  replay_all w allow trades (sym ∷ syms) s =
      replay_all w allow trades syms (replay w sym allow (trades sym) s)
