-- ===== src/Store/Ring.antt =====
-- `AddEvent`: the store keeps the newest events, as many as the configuration allows.
use market_hacker.Base.{
  ℕ, zero, suc, ◌-◌, ◌≤◌, ◌≡◌, ◌∙◌, refl, true, false, List, [], ◌∷◌, ◌++◌, pos, ◌≤ℤ◌, arith,
  length, drop, length-append, length-drop, leb_ℤ, ap, sym,
}
use mathlib.Core.List.{append_assoc, append-nil}
use native.Mathlib.Decide.{dec_le}
use market_hacker.Store.Types.{Event, Store}
use market_hacker.Store.Ops.{push_event, push_faults, add_event}

drop-nil {ℓ} : {A : Type ℓ} (n : ℕ) → ◌≡◌ {A = List A} (drop n []) []
drop-nil zero = refl
drop-nil (suc n) = refl

drop-append {ℓ} :
    {A : Type ℓ} (n : ℕ) (xs ys : List A) → n ≤ length xs → drop n (xs ++ ys) ≡ drop n xs ++ ys
drop-append zero xs ys h = refl
drop-append (suc n) [] ys h = absurd (omega arith)
drop-append (suc n) (x ∷ xs) ys h = drop-append n xs ys (omega arith)

drop-drop_one {ℓ} : {A : Type ℓ} (n : ℕ) (xs : List A) → drop 1 (drop n xs) ≡ drop (suc n) xs
drop-drop_one zero [] = refl
drop-drop_one zero (x ∷ xs) = refl
drop-drop_one (suc n) [] = refl
drop-drop_one (suc n) (x ∷ xs) = drop-drop_one n xs

-- The newest `cap` of the events `evs`, oldest first.
abbrev pub newest : ℕ → List Event → List Event
newest cap evs = drop (length evs - cap) evs

push_event-newest :
    (cap : ℕ) (evs : List Event) (ev : Event)
    → push_event (pos (suc cap)) (newest (suc cap) evs) ev ≡ newest (suc cap) (evs ++ (ev ∷ []))
unfolding push_event
push_event-newest cap evs ev = elim (dec_le (suc cap) (length evs)) [
  | yes full ↦
      let k = length evs - suc cap in
      let size : length (drop k evs) ≡ suc cap = omega (arith, length-drop k evs) in
      let test : leb_ℤ (pos (suc cap)) (pos (length (drop k evs))) ≡ true = ground (arith, size) in
      let more : length (evs ++ (ev ∷ [])) - suc cap ≡ suc k =
        omega (arith, length-append evs (ev ∷ [])) in
      rw (test, drop-drop_one k evs, more) (sym (drop-append (suc k) evs (ev ∷ []) (omega arith)))
  | no room ↦
      let none_dropped : length evs - suc cap ≡ 0 = omega arith in
      let still_none : length (evs ++ (ev ∷ [])) - suc cap ≡ 0 =
        omega (arith, length-append evs (ev ∷ [])) in
      let test : leb_ℤ (pos (suc cap)) (pos (length evs)) ≡ false = ground arith in
      rw (none_dropped, still_none, test)
]

module _ {F : Type 0} where
  unfoldable pub add_events : List Event → Store F → Store F
  add_events [] s = s
  add_events (ev ∷ evs) s = add_events evs (add_event ev s)

  add_events-newest :
      (cap : ℕ) (old evs : List Event) (s : Store F)
      → s.cfg.ui.max_events ≡ pos (suc cap)
      → s.events ≡ newest (suc cap) old
      → (add_events evs s).events ≡ newest (suc cap) (old ++ evs)
  unfolding add_events add_event
  add_events-newest cap old [] s c h = h ∙ ap (newest (suc cap)) (sym (append-nil old))
  add_events-newest cap old (ev ∷ evs) s c h =
      add_events-newest cap (old ++ (ev ∷ [])) evs (add_event ev s) c
        (rw (c, h) (push_event-newest cap old ev))
      ∙ ap (newest (suc cap)) (append_assoc old (ev ∷ []) evs)

  -- A store with no events and a positive limit on them, given any events one after the other, holds
  -- exactly the newest of them, oldest first, as many as the limit allows.
  pub add_events_keeps_newest :
      (cap : ℕ) (evs : List Event) (s : Store F)
      → s.cfg.ui.max_events ≡ pos (suc cap)
      → s.events ≡ []
      → (add_events evs s).events ≡ newest (suc cap) evs
  add_events_keeps_newest cap evs s c h =
      add_events-newest cap [] evs s c (h ∙ sym (drop-nil (0 - suc cap)))

  -- With a positive limit, `AddEvent` never indexes an empty list, so it does not panic.
  pub add_event_no_fault :
      (ev : Event) (s : Store F) → pos 1 ≤ℤ s.cfg.ui.max_events → (add_event ev s).fault ≡ s.fault
  unfolding add_event push_faults
  add_event_no_fault ev s h = ground arith
