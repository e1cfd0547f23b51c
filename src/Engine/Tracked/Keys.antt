-- ===== src/Engine/Tracked/Keys.antt =====
-- The names of the tracked tickers: each candidate that the store holds, once.
use market_hacker.Base.{
  ◌≡◌, refl, ◌∙◌, ap, inl, inr, ℕ, String, Bool, true, not, ◌&&◌, ◌||◌, Option, some, List, [], ◌∷◌,
  map, arith, result_kept, str_eq, str_eq_iff, Dict, lookup, upsert, contains, insert_by, sort_by,
  Bool-cases, Option-cases, Result,
}
use market_hacker.Float.{Float64}
use market_hacker.Clock.{Time}
use market_hacker.Store.{TickerState, Times, Store, get_ticker}
use market_hacker.Rest.{Fetched}
use market_hacker.Engine.Types.{Engine}
use market_hacker.Engine.Replay.{RestTrade}
use market_hacker.Engine.Tracking.{
  history_result, set_history, adjust, shallow_states, apply_history, seed_states,
  build_tracked_states,
}
use market_hacker.Engine.Tracked.Maps.{once}

contains-insert_by :
    (less : String → String → Bool) (j x : String) (xs : List String)
    → contains j (insert_by less x xs) ≡ (str_eq x j || contains j xs)
contains-insert_by less j x [] = refl
contains-insert_by less j x (y ∷ ys) = ground (arith, contains-insert_by less j x ys)

pub contains-sort_by :
    (less : String → String → Bool) (j : String) (xs : List String)
    → contains j (sort_by less xs) ≡ contains j xs
contains-sort_by less j [] = refl
contains-sort_by less j (x ∷ xs) =
    contains-insert_by less j x (sort_by less xs)
    ∙ ap (λ b. str_eq x j || b) (contains-sort_by less j xs)

once-insert_by :
    (less : String → String → Bool) (x : String) (xs : List String)
    → once (insert_by less x xs) ≡ (not (contains x xs) && once xs)
once-insert_by less x [] = refl
once-insert_by less x (y ∷ ys) = ground (
  arith,
  once-insert_by less x ys,
  contains-insert_by less y x ys,
  str_eq_iff x y,
  str_eq_iff y x,
)

pub once-sort_by :
    (less : String → String → Bool) (xs : List String) → once (sort_by less xs) ≡ once xs
once-sort_by less [] = refl
once-sort_by less (x ∷ xs) =
    once-insert_by less x (sort_by less xs)
    ∙ rw (contains-sort_by less x xs, once-sort_by less xs) refl

abbrev pub keys : {F : Type 0} → Dict (TickerState F) → List String
keys m = map (λ p. p.0) m

module _ {F : Type 0} ⦃d : Float64 F⦄ where
  keys-upsert :
      (k : String) (v : TickerState F) (f : TickerState F → TickerState F)
      (m : Dict (TickerState F)) (t : TickerState F)
      → lookup k m ≡ some t
      → keys (upsert k v f m) ≡ keys m
  unfolding lookup upsert
  keys-upsert k v f [] t h = absurd (ground arith)
  keys-upsert k v f ((j, w) ∷ m) t h = elim (Bool-cases (str_eq j k)) [
    | inl same ↦ rw same refl
    | inr other ↦ rw other (ap (λ ks. j ∷ ks) (keys-upsert k v f m t (rw other at h)))
  ]

  keys-adjust :
      (k : String) (f : TickerState F → TickerState F) (m : Dict (TickerState F))
      → keys (adjust k f m) ≡ keys m
  keys-adjust k f m = elim (Option-cases (lookup k m)) [
    | inl absent ↦ rw (absent, adjust) refl
    | inr (t, there) ↦ rw (there, adjust) (keys-upsert k t f m t there)
  ]

  keys-apply_history :
      (e : Engine F) (fetch : String → ℕ → Result (Option F)) (now : Time) (arrivals : List String)
      (p : Store F × Dict (TickerState F))
      → keys (apply_history e fetch now arrivals p).1 ≡ keys p.1
  unfolding apply_history
  keys-apply_history e fetch now [] p = refl
  keys-apply_history e fetch now (name ∷ arrivals) (s, m) =
      keys-apply_history e fetch now arrivals _
      ∙ result_kept (λ (q : Store F × Dict (TickerState F)). keys q.1 ≡ keys m)
          (history_result e fetch name s) _ _ (λ a. keys-adjust name (set_history a.0 a.1) m)
          (λ problem. refl)

  keys-seed_states :
      (e : Engine F) (trades : String → Fetched (RestTrade F)) (now : Time) (w : Times)
      (syms : List String) (p : Store F × Dict (TickerState F))
      → keys (seed_states e trades now w syms p).1 ≡ keys p.1
  unfolding seed_states
  keys-seed_states e trades now w [] p = refl
  keys-seed_states e trades now w (name ∷ syms) (s, m) = elim (Option-cases (lookup name m)) [
    | inl absent ↦ rw (absent, seed_states) (keys-seed_states e trades now w syms (s, m))
    | inr (t, there) ↦
        rw (there, seed_states)
          (keys-seed_states e trades now w syms _ ∙ keys-upsert name t _ m t there)
  ]

  contains-shallow :
      (j : String) (candidates : List String) (s : Store F) (t : TickerState F)
      → get_ticker j s ≡ some t
      → contains j (keys (shallow_states candidates s)) ≡ contains j candidates
  unfolding shallow_states
  contains-shallow j [] s t here = refl
  contains-shallow j (name ∷ candidates) s t here =
      let rest = contains-shallow j candidates s t here in
      elim (Option-cases (get_ticker name s)) [
        | inr (u, there) ↦ rw (there, shallow_states) (ap (λ b. str_eq name j || b) rest)
        | inl absent ↦
            rw (absent, shallow_states)
              (elim (Bool-cases (str_eq name j)) [
                | inr other ↦ rw other rest
                | inl same ↦
                    let eq = (str_eq_iff name j).0 same in absurd (ground (arith, rw eq at absent))
              ])
      ]

  once-shallow :
      (candidates : List String) (s : Store F)
      → once candidates ≡ true
      → once (keys (shallow_states candidates s)) ≡ true
  unfolding shallow_states
  once-shallow [] s h = refl
  once-shallow (name ∷ candidates) s h =
      let rest = once-shallow candidates s (ground arith) in
      elim (Option-cases (get_ticker name s)) [
        | inl absent ↦ rw (absent, shallow_states) rest
        | inr (u, there) ↦
            rw (there, shallow_states)
              (rw (contains-shallow name candidates s u there, rest) (ground arith))
      ]

  -- The names of what is tracked.
  module _ (e : Engine F) (fetch : String → ℕ → Result (Option F))
      (trades : String → Fetched (RestTrade F)) (now : Time) (w : Times)
      (candidates arrivals : List String) (s : Store F) where
    abbrev names : List String
    names = keys (build_tracked_states e fetch trades now w candidates arrivals s).1

    names-shallow : names ≡ keys (shallow_states candidates s)
    unfolding build_tracked_states
    names-shallow =
        keys-seed_states e trades now w candidates _ ∙ keys-apply_history e fetch now arrivals _

    pub once-build_tracked_states : once candidates ≡ true → once names ≡ true
    once-build_tracked_states h = rw names-shallow (once-shallow candidates s h)

    pub contains-build_tracked_states :
        (j : String) (t : TickerState F)
        → get_ticker j s ≡ some t
        → contains j names ≡ contains j candidates
    contains-build_tracked_states j t here =
        rw names-shallow (contains-shallow j candidates s t here)
