-- ===== src/Server/HubOrder.antt =====
-- What the clients of the hub receive.
use mathlib.Core.List.{Sublist, append_assoc, append-nil}
use mathlib.Core.List.Sublist
use market_hacker.Base.{
  ◌≡◌, refl, sym, ap, subst, inl, inr, ℕ, ◌≤◌, ◌<◌, ◌⊎◌, leb, ◌==◌, Bool, true, false, not, List,
  [], ◌∷◌, ◌++◌, ltb, length, length-append, arith, keep_if, map, if◌then◌else◌, if_kept,
  Bool-cases, Option, none, some, ◌&&◌, ◌∙◌,
}
use market_hacker.Server.Pump.{client_buffer}
use market_hacker.Server.Hub.{
  Client, HubEvent, joins, leaves, reads, sends, register, unregister, write_next, serve, deliver,
  deliver_all, hub_step, hub_steps,
}

module _ {B : Type 0} where
  -- The messages that were sent.
  abbrev pub sent : List (HubEvent B) → List B
  sent [] = []
  sent (joins id ∷ evs) = sent evs
  sent (leaves id ∷ evs) = sent evs
  sent (reads id ∷ evs) = sent evs
  sent (sends b ∷ evs) = b ∷ sent evs

  abbrev pub received : Client B → List B
  received c = c.written ++ c.waiting

  Served : List B → Client B → Type 0
  Served all c =
      (length c.waiting ≤ client_buffer)
      × (Sublist (received c) all × (length all ≤ client_buffer → received c ≡ all))

  nil-Sublist : (xs : List B) → Sublist [] xs
  nil-Sublist [] = Sublist.refl []
  nil-Sublist (x ∷ xs) = Sublist.cons x (nil-Sublist xs)

  received-write_next : (c : Client B) → received (write_next c) ≡ received c
  unfolding write_next
  received-write_next c = go c.waiting c.written
    where
      go :
          (w r : List B)
          → received (write_next (record { id = c.id; waiting = w; written = r })) ≡ r ++ w
      go [] r = refl
      go (b ∷ bs) r = append_assoc r (b ∷ []) bs

  length-write_next : (c : Client B) → length (write_next c).waiting ≤ length c.waiting
  unfolding write_next
  length-write_next c = go c.waiting
    where
      go :
          (w : List B)
          → length (write_next (record { id = c.id; waiting = w; written = c.written })).waiting
            ≤ length w
      go [] = omega arith
      go (b ∷ bs) = omega arith

  write_next-Served : (all : List B) (c : Client B) → Served all c → Served all (write_next c)
  unfolding Served
  write_next-Served all c (few, (some', whole)) =
      (omega (arith, length-write_next c), rw (received-write_next c) (some', whole))

  waiting_of_all : (c : Client B) (all : List B) → received c ≡ all → length c.waiting ≤ length all
  waiting_of_all c all eq =
      let whole : length (received c) ≡ length all = ap length eq in
      omega (arith, length-append c.written c.waiting)

  deliver_room :
      (b : B) (c : Client B)
      → ltb (length c.waiting) client_buffer ≡ true
      → deliver b c ≡ record c { waiting = c.waiting ++ (b ∷ []) }
  unfolding deliver
  deliver_room b c room = rw (deliver, room)

  deliver_full :
      (b : B) (c : Client B) → ltb (length c.waiting) client_buffer ≡ false → deliver b c ≡ c
  unfolding deliver
  deliver_full b c full = rw (deliver, full)

  deliver-Served :
      (b : B) (all : List B) (c : Client B) → Served all c → Served (all ++ (b ∷ [])) (deliver b c)
  unfolding Served
  deliver-Served b all c (few, (part, whole)) =
      elim (Bool-cases (ltb (length c.waiting) client_buffer)) [
        | inl room ↦ rw (deliver_room b c room) (
          ground (arith, length-append c.waiting (b ∷ [])),
          (
            rw (← append_assoc c.written c.waiting (b ∷ []))
                (Sublist.append part (Sublist.refl (b ∷ []))),
            λ short.
                sym (append_assoc c.written c.waiting (b ∷ []))
                ∙ ap (λ xs. xs ++ (b ∷ [])) (whole (omega (arith, length-append all (b ∷ [])))),
          ),
        )
        | inr full ↦ rw (deliver_full b c full) (
          few,
          (
            rw (← append-nil (received c)) (Sublist.append part (nil-Sublist (b ∷ []))),
            λ short.
                let sizes = length-append all (b ∷ []) in
                let fits = waiting_of_all c all (whole (omega arith)) in absurd (ground arith),
          ),
        )
      ]

  -- The client of a number.
  abbrev pub find : ℕ → List (Client B) → Option (Client B)
  find id [] = none
  find id (c ∷ cs) = if c.id == id then some c else find id cs

  -- No client of this number joins or leaves.
  abbrev pub stays : ℕ → List (HubEvent B) → Bool
  stays id [] = true
  stays id (joins i ∷ evs) = not (i == id) && stays id evs
  stays id (leaves i ∷ evs) = not (i == id) && stays id evs
  stays id (reads i ∷ evs) = stays id evs
  stays id (sends b ∷ evs) = stays id evs

  find-map :
      (id : ℕ) (f : Client B → Client B)
      → ((c : Client B) → (f c).id ≡ c.id)
      → (cs : List (Client B)) (c : Client B) → find id cs ≡ some c
      → find id (map f cs) ≡ some (f c)
  find-map id f same [] c h = absurd (ground arith)
  find-map id f same (x ∷ cs) c h = elim (Bool-cases (x.id == id)) [
    | inl here ↦
        let found : some x ≡ some c =
          subst (λ b. (if b then some x else find id cs) ≡ some c) here h in
        let eq : x ≡ c = cc in
        subst (λ b. (if b then some (f x) else find id (map f cs)) ≡ some (f c))
          (sym (ap (λ k. k == id) (same x) ∙ here)) (ap (λ y. some (f y)) eq)
    | inr there ↦
        subst (λ b. (if b then some (f x) else find id (map f cs)) ≡ some (f c))
          (sym (ap (λ k. k == id) (same x) ∙ there))
          (find-map id f same cs c
            (subst (λ b. (if b then some x else find id cs) ≡ some c) there h))
  ]

  find-keep_if :
      (id i : ℕ) (cs : List (Client B)) (c : Client B)
      → (i == id) ≡ false
      → find id cs ≡ some c
      → find id (keep_if (λ x. not (x.id == i)) cs) ≡ some c
  find-keep_if id i [] c other h = h
  find-keep_if id i (x ∷ cs) c other h = ground (arith, find-keep_if id i cs c other)

  -- What one step does to a client that stays.
  follow : HubEvent B → Client B → Client B
  follow (joins i) c = c
  follow (leaves i) c = c
  follow (reads i) c = if c.id == i then write_next c else c
  follow (sends b) c = deliver b c

  id-write_next : (c : Client B) → (write_next c).id ≡ c.id
  unfolding write_next
  id-write_next c = go c.waiting
    where
      go :
          (w : List B)
          → (write_next (record { id = c.id; waiting = w; written = c.written })).id ≡ c.id
      go [] = refl
      go (b ∷ bs) = refl

  id-deliver : (b : B) (c : Client B) → (deliver b c).id ≡ c.id
  unfolding deliver
  id-deliver b c =
      if_kept (λ (c' : Client B). c'.id ≡ c.id) (ltb (length c.waiting) client_buffer) _ _ refl refl

  find-hub_step :
      (id : ℕ) (ev : HubEvent B) (cs : List (Client B)) (c : Client B)
      → stays id (ev ∷ []) ≡ true
      → find id cs ≡ some c
      → find id (hub_step ev cs) ≡ some (follow ev c)
  unfolding hub_step register unregister serve deliver_all follow
  find-hub_step id (joins i) cs c stay h = ground arith
  find-hub_step id (leaves i) cs c stay h = find-keep_if id i cs c (ground arith) h
  find-hub_step id (reads i) cs c stay h =
      find-map id (λ x. if x.id == i then write_next x else x)
        (λ x. if_kept (λ (y : Client B). y.id ≡ x.id) (x.id == i) _ _ (id-write_next x) refl) cs c h
  find-hub_step id (sends b) cs c stay h = find-map id (deliver b) (id-deliver b) cs c h

  follow-Served :
      (ev : HubEvent B) (all : List B) (c : Client B)
      → Served all c
      → Served (all ++ sent (ev ∷ [])) (follow ev c)
  unfolding follow
  follow-Served (joins i) all c h = rw (append-nil all) h
  follow-Served (leaves i) all c h = rw (append-nil all) h
  follow-Served (reads i) all c h =
      rw (append-nil all) (if_kept (Served all) (c.id == i) _ _ (write_next-Served all c h) h)
  follow-Served (sends b) all c h = deliver-Served b all c h

  sent-cons :
      (ev : HubEvent B) (evs : List (HubEvent B)) → sent (ev ∷ evs) ≡ sent (ev ∷ []) ++ sent evs
  sent-cons (joins id) evs = refl
  sent-cons (leaves id) evs = refl
  sent-cons (reads id) evs = refl
  sent-cons (sends b) evs = refl

  stays-cons :
      (id : ℕ) (ev : HubEvent B) (evs : List (HubEvent B))
      → stays id (ev ∷ evs) ≡ true
      → (stays id (ev ∷ []) ≡ true) × (stays id evs ≡ true)
  stays-cons id (joins i) evs h = (ground arith, ground arith)
  stays-cons id (leaves i) evs h = (ground arith, ground arith)
  stays-cons id (reads i) evs h = (refl, h)
  stays-cons id (sends b) evs h = (refl, h)

  hub_steps-Served :
      (id : ℕ) (evs : List (HubEvent B)) (all : List B) (cs : List (Client B)) (c : Client B)
      → stays id evs ≡ true
      → find id cs ≡ some c
      → Served all c
      → (c' : Client B) × ((find id (hub_steps evs cs) ≡ some c') × Served (all ++ sent evs) c')
  unfolding hub_steps
  hub_steps-Served id [] all cs c stay h k = (c, (h, rw (append-nil all) k))
  hub_steps-Served id (ev ∷ evs) all cs c stay h k =
      let (now, after') = stays-cons id ev evs stay in
      rw (sent-cons ev evs, ← append_assoc all (sent (ev ∷ [])) (sent evs))
        (hub_steps-Served id evs (all ++ sent (ev ∷ [])) (hub_step ev cs) (follow ev c) after'
          (find-hub_step id ev cs c now h) (follow-Served ev all c k))

  -- Of the messages `all` the client has some, in their order; and either there are more than a channel
  -- holds, or the client has all of them.
  pub Received : List B → Client B → Type 0
  Received all c =
      (length c.waiting ≤ client_buffer)
      × (Sublist (received c) all × ((client_buffer < length all) ⊎ (received c ≡ all)))

  Served-Received : (all : List B) (c : Client B) → Served all c → Received all c
  unfolding Served Received
  Served-Received all c (few, (part, whole)) = elim (Bool-cases (leb (length all) client_buffer)) [
    | inl short ↦ (few, (part, inr (whole (ground arith))))
    | inr long ↦ (few, (part, inl (ground arith)))
  ]

  -- A client that joins under a number of its own and stays, whatever the other clients do and
  -- whenever it reads, is among the clients; its channel never holds more than its capacity; what it
  -- has received, or has waiting, is in the order in which it was sent; and it is all that was sent
  -- since the client joined, if that is no more than a channel holds.
  pub hub_serves :
      (id : ℕ) (evs : List (HubEvent B)) (cs : List (Client B))
      → stays id evs ≡ true
      → (c : Client B) × ((find id (hub_steps evs (register id cs)) ≡ some c)
          × Received (sent evs) c)
  unfolding register Served
  hub_serves id evs cs stay =
      let new_client : Client B = record { id = id; waiting = []; written = [] } in
      let (c, (found, served)) =
        hub_steps-Served id evs [] (register id cs) new_client stay (ground arith)
          (omega arith, (Sublist.refl [], λ short. refl)) in
      (c, (found, Served-Received (sent evs) c served))
