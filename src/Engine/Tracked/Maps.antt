-- ===== src/Engine/Tracked/Maps.antt =====
-- A dictionary of tickers in which each change is made to one key, seen from one key.
use market_hacker.Base.{
  ◌≡◌, refl, sym, ap, inl, inr, String, Bool, true, false, not, ◌&&◌, ◌||◌, Option, none, some,
  List, [], ◌∷◌, arith, if◌then◌else◌, str_eq, str_eq_iff, Dict, lookup, upsert, contains,
  lookup-upsert, Bool-cases, Option-cases,
}
use mathlib.Core.Option
use market_hacker.Float.{Float64}
use market_hacker.Store.{TickerState, Store, get_ticker}
use market_hacker.Engine.Tracking.{adjust, shallow_states}

-- No text stands twice in the list.
abbrev pub once : List String → Bool
once [] = true
once (x ∷ xs) = not (contains x xs) && once xs

abbrev pub when {ℓ} : {A : Type ℓ} → Bool → (A → A) → Option A → Option A
when b f none = none
when b f (some a) = some (if b then f a else a)

pub when_unset {ℓ} : {A : Type ℓ} (f : A → A) (o : Option A) → when false f o ≡ o
when_unset f none = refl
when_unset f (some a) = refl

-- A change that is made once or again.
pub when_again {ℓ} :
    {A : Type ℓ} (b c : Bool) (f : A → A) (o : Option A)
    → ((a : A) → f (f a) ≡ f a)
    → when c f (when b f o) ≡ when (b || c) f o
when_again b c f none idem = refl
when_again true true f (some a) idem = ap some (idem a)
when_again true false f (some a) idem = refl
when_again false c f (some a) idem = refl

pub when_idle {ℓ} :
    {A : Type ℓ} (b : Bool) (f : A → A) (o : Option A) → ((a : A) → f a ≡ a) → when b f o ≡ o
when_idle b f none idle = refl
when_idle true f (some a) idle = ap some (idle a)
when_idle false f (some a) idle = refl

-- A change that is made at most once.
pub when_once {ℓ} :
    {A : Type ℓ} (b c : Bool) (f : A → A) (o : Option A)
    → (b && c) ≡ false
    → when c f (when b f o) ≡ when (b || c) f o
when_once b c f none h = refl
when_once true true f (some a) h = absurd (ground arith)
when_once true false f (some a) h = refl
when_once false c f (some a) h = refl

abbrev pub tracking : {F : Type 0} → TickerState F → TickerState F
tracking t = record t { status = "tracking" }

module _ {F : Type 0} ⦃d : Float64 F⦄ (j : String) where
  pub lookup-upsert_there :
      (name : String) (f : TickerState F → TickerState F) (m : Dict (TickerState F))
      (t : TickerState F)
      → lookup name m ≡ some t
      → lookup j (upsert name t f m) ≡ when (str_eq name j) f (lookup j m)
  lookup-upsert_there name f m t there = elim (Bool-cases (str_eq name j)) [
    | inl same ↦
        let eq = (str_eq_iff name j).0 same in
        rw (lookup-upsert name j t f m, same, there, rw eq at there) refl
    | inr other ↦ rw (lookup-upsert name j t f m, other) (sym (when_unset f (lookup j m)))
  ]

  pub lookup-adjust :
      (name : String) (f : TickerState F → TickerState F) (m : Dict (TickerState F))
      → lookup j (adjust name f m) ≡ when (str_eq name j) f (lookup j m)
  lookup-adjust name f m = elim (Option-cases (lookup name m)) [
    | inr (t, there) ↦ rw (there, adjust) (lookup-upsert_there name f m t there)
    | inl absent ↦
        rw (absent, adjust)
          (elim (Bool-cases (str_eq name j)) [
            | inl same ↦ let eq = (str_eq_iff name j).0 same in rw (rw eq at absent) refl
            | inr other ↦ rw other (sym (when_unset f (lookup j m)))
          ])
  ]

  pub lookup-shallow_states :
      (candidates : List String) (s : Store F)
      → lookup j (shallow_states candidates s)
        ≡ (if contains j candidates then Option.map tracking (get_ticker j s) else none)
  unfolding shallow_states lookup
  lookup-shallow_states [] s = refl
  lookup-shallow_states (name ∷ candidates) s =
      let rest = lookup-shallow_states candidates s in
      elim (Option-cases (get_ticker name s)) [
        | inl absent ↦
            rw (absent, shallow_states)
              (elim (Bool-cases (str_eq name j)) [
                | inl same ↦ let eq = (str_eq_iff name j).0 same in ground (arith, rw eq at absent)
                | inr other ↦ rw other rest
              ])
        | inr (u, there) ↦
            rw (there, shallow_states)
              (elim (Bool-cases (str_eq name j)) [
                | inl same ↦ let eq = (str_eq_iff name j).0 same in ground (arith, rw eq at there)
                | inr other ↦ rw other rest
              ])
      ]
