-- ===== src/Server/Pump.antt =====
-- `eventPump` of api.go and `Broadcast` of sse.go.
use market_hacker.Base.{
  ℕ, ◌&&◌, not, String, List, [], ◌∷◌, ◌++◌, map, ltb, if◌then◌else◌, length, drop, str_eq,
}
use market_hacker.Store.{Event, Store}

-- `lastSession` and `lastLen`
pub record PumpState : Type 0 where
  pub last_session : String
  pub last_len : ℕ

abbrev pub pump_start : PumpState
pump_start = record { last_session = ""; last_len = 0 }

-- One tick: the events that are broadcast, in order, and the new state.
unfoldable pub pump_tick : {F : Type 0} → Store F → PumpState → List Event × PumpState
pump_tick s p =
    let renewed = not (str_eq s.session_id "") && not (str_eq s.session_id p.last_session) in
    let session = if renewed then s.session_id else p.last_session in
    let len = if renewed then 0 else p.last_len in
    let from = if ltb (length s.events) len then 0 else len in
    (drop from s.events, record { last_session = session; last_len = length s.events })

-- The buffer of a client's channel.
abbrev pub client_buffer : ℕ
client_buffer = 64

-- A client whose buffer is full misses the message.
abbrev offer {ℓ} : {A : Type ℓ} → A → List A → List A
offer b queue = if ltb (length queue) client_buffer then queue ++ (b ∷ []) else queue

unfoldable pub broadcast {ℓ} : {A : Type ℓ} → A → List (List A) → List (List A)
broadcast b clients = map (offer b) clients
