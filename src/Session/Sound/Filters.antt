-- ===== src/Session/Sound/Filters.antt =====
-- The runtime filters that are in force in a session, one after another.
use mathlib.Core.List.{Memᴰ}
use market_hacker.Base.{◌≡◌, refl, none, List, [], ◌∷◌, Result, ok, All}
use market_hacker.Float.{Float64}
use market_hacker.Store.{RuntimeFilters, Store, validate_runtime_filters}
use market_hacker.Session.Feeds.{
  Live, trade, edited, forced_exit, noticed, socket_error, socket_closed,
}
use market_hacker.Session.Holds.Edits.{EditKept, update_filters_kept}

module _ {F : Type 0} ⦃d : Float64 F⦄ where
  -- The filters of the start, or what a change among the events `live` has made of filters that were
  -- in force, where the result is valid.
  pub data InForce (live : List (Live F)) (f0 : RuntimeFilters F) : RuntimeFilters F → Type 0 where
    at_start : InForce live f0 f0
    changed :
        {f f' : RuntimeFilters F} (fn : RuntimeFilters F → Result (RuntimeFilters F))
        → Memᴰ (edited fn) live
        → InForce live f0 f
        → fn f ≡ ok f'
        → validate_runtime_filters f' ≡ none
        → InForce live f0 f'

  -- Changes keep what holds, where the filters are in force, whatever they are.
  pub edits-InForce :
      (live : List (Live F)) (f0 : RuntimeFilters F) (Q : Store F → Type 0)
      → ((f : RuntimeFilters F) (s : Store F) → Q s → Q (record s { filters = f }))
      → (later : List (Live F)) → ((l : Live F) → Memᴰ l later → Memᴰ l live)
      → All (EditKept (λ s. InForce live f0 s.filters × Q s)) later
  edits-InForce live f0 Q blind [] incl = tt
  edits-InForce live f0 Q blind (trade m ∷ later) incl =
      (tt, edits-InForce live f0 Q blind later (λ l m'. incl l (Memᴰ.tail m')))
  edits-InForce live f0 Q blind (edited fn ∷ later) incl = (
    λ s h.
        update_filters_kept (λ s'. InForce live f0 s'.filters × Q s') fn s
          (λ f made valid.
            (changed fn (incl (edited fn) (Memᴰ.head refl)) h.0 made valid, blind f s h.1))
          h,
    edits-InForce live f0 Q blind later (λ l m'. incl l (Memᴰ.tail m')),
  )
  edits-InForce live f0 Q blind (forced_exit ∷ later) incl =
      (tt, edits-InForce live f0 Q blind later (λ l m'. incl l (Memᴰ.tail m')))
  edits-InForce live f0 Q blind (noticed ∷ later) incl =
      (tt, edits-InForce live f0 Q blind later (λ l m'. incl l (Memᴰ.tail m')))
  edits-InForce live f0 Q blind (socket_error m ∷ later) incl =
      (tt, edits-InForce live f0 Q blind later (λ l m'. incl l (Memᴰ.tail m')))
  edits-InForce live f0 Q blind (socket_closed ∷ later) incl =
      (tt, edits-InForce live f0 Q blind later (λ l m'. incl l (Memᴰ.tail m')))
