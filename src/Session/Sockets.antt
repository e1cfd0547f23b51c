-- ===== src/Session/Sockets.antt =====
-- The two WebSockets: `NewWS` of internal/massive/massive.go, the subscription in batches, `Connect`.
use Prim.Native.String.{◌++◌}
use market_hacker.Base.{
  ℕ, zero, suc, ◌+◌, ◌-◌, String, ◌||◌, Option, none, some, List, [], ◌∷◌, ℤ, pos_part, ltb, str_eq,
  if◌then◌else◌, length, take, drop,
}

-- What the third-party client answers to the calls on one socket: the error, if there is one.
pub record Socket : Type 0 where
  pub create : Option String
  pub subscribe : List String → Option String
  pub connect : Option String

-- `NewWS`; `lower` is strings.ToLower.
unfoldable pub new_ws : (String → String) → String → Socket → Option String
new_ws lower feed ws =
    let f = lower feed in
    if (str_eq f "realtime" || (str_eq f "real_time" || str_eq f "real-time")) || str_eq f "delayed"
    then ws.create
    else some "unknown massive.feed (use realtime or delayed)"

-- `wl[i:j]`
abbrev pub slice {ℓ} : {A : Type ℓ} → ℕ → ℕ → List A → List A
slice i j wl = take (j - i) (drop i wl)

-- The loop over the batches, from the index `i` on; `fuel` bounds the rounds.
unfoldable pub batches_from {ℓ} : {A : Type ℓ} → ℕ → ℕ → List A → ℕ → List (List A)
batches_from zero batch wl i = []
batches_from (suc fuel) batch wl i =
    let j = if ltb (length wl) (i + batch) then length wl else i + batch in
    let rest = batches_from fuel batch wl (i + batch) in
    if ltb i (length wl) then slice i j wl ∷ rest else []

-- A batch holds one symbol at least, so a round for each symbol is enough.
unfoldable pub batches {ℓ} : {A : Type ℓ} → ℕ → List A → List (List A)
batches batch wl = batches_from (length wl) batch wl 0

unfoldable pub subscribe_each : (List String → Option String) → List (List String) → Option String
subscribe_each subscribe [] = none
subscribe_each subscribe (b ∷ bs) = elim (subscribe b) [
  | some m ↦ some m
  | none ↦ subscribe_each subscribe bs
]

abbrev wrap : String → Option String → Option String → Option String
wrap what none next = next
wrap what (some m) next = some (what ++ (": " ++ m))

abbrev first_error : Option String → Option String → Option String
first_error none next = next
first_error (some m) next = some m

-- The socket for the minute aggregates of the watchlist.
unfoldable pub open_aggs : (String → String) → String → ℤ → List String → Socket → Option String
unfolding batches
open_aggs lower feed batch wl ws = first_error (new_ws lower feed ws) (
    wrap "subscribe minute aggs" (subscribe_each ws.subscribe (batches (pos_part batch) wl))
      (wrap "ws connect" ws.connect none))

-- The socket for the trades of the tracked symbols.
unfoldable pub open_trades : (String → String) → String → List String → Socket → Option String
open_trades lower feed syms ws =
    first_error (new_ws lower feed ws)
      (wrap "subscribe trades" (ws.subscribe syms) (wrap "ws trades connect" ws.connect none))
