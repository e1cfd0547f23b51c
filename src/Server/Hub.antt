-- ===== src/Server/Hub.antt =====
-- `SSEHub` of internal/server/sse.go: the clients with the channels that their handlers read.
use market_hacker.Base.{ℕ, List, [], ◌∷◌, ◌++◌, ltb, length, if◌then◌else◌, keep_if, map, not, ◌==◌}
use market_hacker.Server.Pump.{client_buffer}

-- A client under a number of its own: what waits in its channel, and what its handler has written.
pub record Client (B : Type 0) : Type 0 where
  pub id : ℕ
  pub waiting : List B
  pub written : List B

-- What can happen to the hub.
pub data HubEvent (B : Type 0) : Type 0 where
  joins leaves reads : ℕ → HubEvent B
  sends : B → HubEvent B

module _ {B : Type 0} where
  -- `ServeHTTP`: the handler enters its channel, and removes it at the end.
  unfoldable pub register : ℕ → List (Client B) → List (Client B)
  register id cs = record { id = id; waiting = []; written = [] } ∷ cs

  unfoldable pub unregister : ℕ → List (Client B) → List (Client B)
  unregister id cs = keep_if (λ c. not (c.id == id)) cs

  -- One round of the handler's loop.
  unfoldable pub write_next : Client B → Client B
  write_next c = elim c.waiting [
    | [] ↦ c
    | b ∷ bs ↦ record c { waiting = bs; written = c.written ++ (b ∷ []) }
  ]

  unfoldable pub serve : ℕ → List (Client B) → List (Client B)
  serve id cs = map (λ c. if c.id == id then write_next c else c) cs

  -- A full channel drops the message.
  unfoldable pub deliver : B → Client B → Client B
  deliver b c =
      if ltb (length c.waiting) client_buffer
      then record c { waiting = c.waiting ++ (b ∷ []) }
      else c

  unfoldable pub deliver_all : B → List (Client B) → List (Client B)
  unfolding deliver
  deliver_all b cs = map (deliver b) cs

  unfoldable pub hub_step : HubEvent B → List (Client B) → List (Client B)
  unfolding register unregister serve write_next deliver_all
  hub_step (joins id) cs = register id cs
  hub_step (leaves id) cs = unregister id cs
  hub_step (reads id) cs = serve id cs
  hub_step (sends b) cs = deliver_all b cs

  unfoldable pub hub_steps : List (HubEvent B) → List (Client B) → List (Client B)
  unfolding hub_step
  hub_steps [] cs = cs
  hub_steps (ev ∷ evs) cs = hub_steps evs (hub_step ev cs)
