-- ===== src/Server/Delivery.antt =====
-- What the clients of /api/events get of the store's events.
use market_hacker.Base.{
  ℕ, suc, ◌≡◌, ◌∙◌, refl, sym, false, not, ◌&&◌, List, [], ◌∷◌, ◌++◌, arith, pos, length, drop,
  length-append, length-drop, str_eq, str_eq_self,
}
use market_hacker.Store.{Event, Store, add_event, push_event}
use market_hacker.Store.Ring.{add_events}
use market_hacker.Server.Pump.{PumpState, pump_tick}

length-push_event_full :
    (cap : ℕ) (evs : List Event) (ev : Event)
    → length evs ≡ suc cap
    → length (push_event (pos (suc cap)) evs ev) ≡ suc cap
unfolding push_event
length-push_event_full cap evs ev h =
    ground (arith, length-append (drop 1 evs) (ev ∷ []), length-drop 1 evs)

drop_all {ℓ} : {A : Type ℓ} (xs : List A) → ◌≡◌ {A = List A} (drop (length xs) xs) []
drop_all [] = refl
drop_all (x ∷ xs) = drop_all xs

drop-length_append {ℓ} : {A : Type ℓ} (xs ys : List A) → drop (length xs) (xs ++ ys) ≡ ys
drop-length_append [] ys = refl
drop-length_append (x ∷ xs) ys = drop-length_append xs ys

module _ {F : Type 0} where
  length-add_events_full :
      (cap : ℕ) (evs : List Event) (s : Store F)
      → s.cfg.ui.max_events ≡ pos (suc cap)
      → length s.events ≡ suc cap
      → (length (add_events evs s).events ≡ suc cap)
        × ((add_events evs s).session_id ≡ s.session_id)
  unfolding add_events add_event
  length-add_events_full cap [] s c h = (h, refl)
  length-add_events_full cap (ev ∷ evs) s c h =
      length-add_events_full cap evs (add_event ev s) c
        (rw c (length-push_event_full cap s.events ev h))

  same_session :
      (s : Store F) (p : PumpState)
      → p.last_session ≡ s.session_id
      → (not (str_eq s.session_id "") && not (str_eq s.session_id p.last_session)) ≡ false
  same_session s p h = rw h (rw (str_eq_self s.session_id) (ground arith))

  -- Once the store holds as many events as its limit allows, and the pump has seen them all in this
  -- session, no later event of the session is ever broadcast: whatever events are added, the next
  -- tick sends nothing.
  pub pump_stalls_when_full :
      (cap : ℕ) (evs : List Event) (s : Store F) (p : PumpState)
      → s.cfg.ui.max_events ≡ pos (suc cap)
      → length s.events ≡ suc cap
      → p.last_session ≡ s.session_id
      → p.last_len ≡ suc cap
      → pump_tick (add_events evs s) p ≡ ([], p)
  unfolding pump_tick
  pump_stalls_when_full cap evs s p c full same seen =
      let (len, session) = length-add_events_full cap evs s c full in
      let s' = add_events evs s in
      let quiet = same_session s' p (same ∙ sym session) in
      let all_seen : p.last_len ≡ length s'.events = seen ∙ sym len in
      let none_left = drop_all s'.events in ground (arith, quiet, all_seen, none_left)

  -- While the list only grows, a tick sends exactly the events that were added since the last one.
  pub pump_sends_new :
      (s : Store F) (p : PumpState) (old new : List Event)
      → p.last_session ≡ s.session_id
      → p.last_len ≡ length old
      → s.events ≡ old ++ new
      → (pump_tick s p).0 ≡ new
  unfolding pump_tick
  pump_sends_new s p old new same seen grown =
      let quiet = same_session s p same in
      let longer = length-append old new in
      ground (arith, quiet, drop-length_append old new, longer)
