-- ===== src/Engine/Requests/Ranges.antt =====
-- What `ListTrades` gives, where the service answers a request with the trades that it asks for.
use mathlib.Core.List.{Perm, perm_middle}
use mathlib.Core.List.Perm
use market_hacker.Base.{
  ◌≡◌, refl, String, Bool, true, false, not, ◌&&◌, List, [], ◌∷◌, ◌++◌, arith, keep_if, ◌≤◌,
  Bool-cases, inl, inr, if◌then◌else◌,
}
use market_hacker.Clock.{Time, before}
use market_hacker.Engine.Replay.{RestTrade}
use market_hacker.Engine.Requests.{RestClient, ListTradesParams, list_trades}

-- A list that is split by two tests of which just one holds where a third does.
keep_if-split {ℓ} :
    {A : Type ℓ} (p q r : A → Bool) (xs : List A)
    → ((a : A) → (p a && q a) ≡ false)
    → ((a : A) → r a ≡ (if p a then true else q a))
    → Perm (keep_if p xs ++ keep_if q xs) (keep_if r xs)
keep_if-split p q r [] apart both = Perm.refl []
keep_if-split p q r (a ∷ xs) apart both =
    let rest = keep_if-split p q r xs apart both in
    let r_is = both a in
    let alone = apart a in
    elim (Bool-cases (p a)) [
      | inl first ↦
          let no_second : q a ≡ false = ground arith in
          let third : r a ≡ true = ground arith in rw (first, no_second, third) (Perm.cons a rest)
      | inr not_first ↦ elim (Bool-cases (q a)) [
        | inl second ↦
            let third : r a ≡ true = ground arith in
            rw (not_first, second, third)
              (Perm.trans (perm_middle (keep_if p xs) (keep_if q xs)) (Perm.cons a rest))
        | inr neither ↦
            let no_third : r a ≡ false = ground arith in rw (not_first, neither, no_third) rest
      ]
    ]

module _ {F : Type 0} where
  -- Does the trade carry a timestamp from the one time on and before the other?
  abbrev pub in_range : Time → Time → RestTrade F → Bool
  in_range start end_ny tr = not (before tr.sip_timestamp start) && before tr.sip_timestamp end_ny

  -- The service answers for `ticker` with those of the trades `all` that the request asks for.
  abbrev pub Answers : RestClient F → String → List (RestTrade F) → Type 0
  Answers c ticker all =
      (p : ListTradesParams)
      → p.ticker ≡ ticker
      → (c.list_trades p).items ≡ keep_if (in_range p.timestamp_gte p.timestamp_lt) all

  apart_ranges : (a b c : Time) (tr : RestTrade F) → (in_range a b tr && in_range b c tr) ≡ false
  apart_ranges a b c tr = ground arith

  joined_ranges :
      (a b c : Time) (tr : RestTrade F)
      → a ≤ b
      → b ≤ c
      → in_range a c tr ≡ (if in_range a b tr then true else in_range b c tr)
  joined_ranges a b c tr early late = ground arith

  pub answered :
      (c : RestClient F) (ticker : String) (all : List (RestTrade F)) (start end_ny : Time)
      → Answers c ticker all
      → (list_trades c ticker start end_ny).items ≡ keep_if (in_range start end_ny) all
  unfolding list_trades
  answered c ticker all start end_ny answers = answers _ refl

  -- Two ranges that meet hold together just what the whole range holds.
  pub ranges_meet :
      (all : List (RestTrade F)) (start middle end_ny : Time)
      → start ≤ middle
      → middle ≤ end_ny
      → Perm
          (keep_if (in_range start middle) all ++ keep_if (in_range middle end_ny) all)
          (keep_if (in_range start end_ny) all)
  ranges_meet all start middle end_ny early late =
      keep_if-split (in_range start middle) (in_range middle end_ny) (in_range start end_ny) all
        (apart_ranges start middle end_ny) (λ tr. joined_ranges start middle end_ny tr early late)
