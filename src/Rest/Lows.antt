-- ===== src/Rest/Lows.antt =====
-- What `MinLowAndLastClose` finds.
use market_hacker.Base.{
  suc, ◌+◌, ◌*◌, ◌≡◌, ◌⊎◌, ◌∙◌, refl, sym, ap, inl, inr, String, Bool, true, false, ◌||◌, ◌&&◌,
  Option, none, some, List, [], ◌∷◌, ◌++◌, arith, All, All-mono, All-append, Bool-cases, ok, length,
  length-append,
}
use mathlib.Core.List.{append_assoc, append-nil}
use market_hacker.Float.{Float64, IsIeee, not_pos}
use market_hacker.Clock.{Time, minute}
use market_hacker.Rest.{
  Fetched, Agg, LowBars, answer, is_empty, low_bar, low_bars, no_lows, min_low_and_last_close,
}

answer-some {ℓ} :
    {A : Type ℓ} (e : Option String) (empty : Bool) (a r : A)
    → answer e empty a ≡ ok (some r)
    → (empty ≡ false) × (a ≡ r)
answer-some (some m) empty a r h = absurd (ground arith)
answer-some none true a r h = absurd (ground arith)
answer-some none false a r h = (refl, cc)

length-snoc {ℓ} : {A : Type ℓ} (xs : List A) (a : A) → length (xs ++ (a ∷ [])) ≡ suc (length xs)
length-snoc xs a = omega (arith, length-append xs (a ∷ []))

module _ {F : Type 0} ⦃d : Float64 F⦄ where
  open d use {nought, lt, le, eq}

  abbrev pub NotBelow : F → Agg F → Type 0
  NotBelow m a = (lt nought a.low ≡ false) ⊎ (le m a.low ≡ true)

  -- The minute of the day's bars in which the low of `r` was reached.
  pub record At (start : Time) (bars : List (Agg F)) (r : LowBars F) : Type 0 where
    pub earlier : List (Agg F)
    pub bar : Agg F
    pub later : List (Agg F)
    pub split : bars ≡ earlier ++ (bar ∷ later)
    pub low : bar.low ≡ r.min_low
    pub time : r.min_low_time ≡ start + length earlier * minute

  pub record Lowest (start : Time) (bars : List (Agg F)) (r : LowBars F) : Type 0 where
    pub positive : lt nought r.min_low ≡ true
    pub bound : All (NotBelow r.min_low) bars
    pub reached : At start bars r

  Seen : Time → List (Agg F) → LowBars F → Type 0
  Seen start bars r =
      ((r.min_low ≡ nought) × All (λ a. lt nought a.low ≡ false) bars) ⊎ Lowest start bars r

  At-snoc :
      (start : Time) (bars : List (Agg F)) (a : Agg F) (r r' : LowBars F)
      → r'.min_low ≡ r.min_low
      → r'.min_low_time ≡ r.min_low_time
      → At start bars r
      → At start (bars ++ (a ∷ [])) r'
  At-snoc start bars a r r' same_low same_time p = record {
    earlier = p.earlier;
    bar = p.bar;
    later = p.later ++ (a ∷ []);
    split = ap (λ x. x ++ (a ∷ [])) p.split ∙ append_assoc p.earlier (p.bar ∷ p.later) (a ∷ []);
    low = p.low ∙ sym same_low;
    time = same_time ∙ p.time;
  }

  abbrev replaces : Agg F → LowBars F → Bool
  replaces a r = lt nought a.low && (eq r.min_low nought || lt a.low r.min_low)

  low_bar-takes :
      (now : Time) (a : Agg F) (r : LowBars F)
      → replaces a r ≡ true
      → ((low_bar now a r).min_low ≡ a.low) × ((low_bar now a r).min_low_time ≡ now)
  unfolding low_bar
  low_bar-takes now a r h = ground arith

  low_bar-keeps :
      (now : Time) (a : Agg F) (r : LowBars F)
      → replaces a r ≡ false
      → ((low_bar now a r).min_low ≡ r.min_low) × ((low_bar now a r).min_low_time ≡ r.min_low_time)
  unfolding low_bar
  low_bar-keeps now a r h = ground arith

  module _ (ieee : IsIeee F) where
    -- Where a bar replaces the low, no bar before it was below it.
    replaces-bound :
        (start : Time) (bars : List (Agg F)) (a : Agg F) (r : LowBars F)
        → replaces a r ≡ true
        → Seen start bars r
        → All (NotBelow a.low) bars
    unfolding Seen
    replaces-bound start bars a r h (inl (unset, none_pos)) = All-mono (λ b p. inl p) bars none_pos
    replaces-bound start bars a r h (inr found) =
        let lower : le a.low r.min_low ≡ true = ground (
          arith,
          ieee.le_of_eq r.min_low nought,
          ieee.not_le_of_lt nought r.min_low found.positive,
          ieee.le_of_lt a.low r.min_low,
        ) in
        All-mono
          (λ b p. elim p [
            | inl q ↦ inl q
            | inr q ↦ inr (ieee.le_trans a.low r.min_low b.low lower q)
          ])
          bars found.bound

    low_bar-taken :
        (start : Time) (bars : List (Agg F)) (a : Agg F) (r : LowBars F)
        → le a.low a.low ≡ true
        → replaces a r ≡ true
        → Seen start bars r
        → Seen start (bars ++ (a ∷ [])) (low_bar (start + length bars * minute) a r)
    unfolding Seen
    low_bar-taken start bars a r number taken seen =
        let (low, time) = low_bar-takes (start + length bars * minute) a r taken in
        inr (record {
          positive = rw low (ground arith);
          bound = rw low (
              All-append (NotBelow a.low) bars (a ∷ []) (replaces-bound start bars a r taken seen)
                (inr number, tt));
          reached = record {
            earlier = bars;
            bar = a;
            later = [];
            split = refl;
            low = sym low;
            time = time;
          };
        })

    -- A positive low that replaces nothing is not below the low.
    kept-NotBelow :
        (start : Time) (bars : List (Agg F)) (a : Agg F) (r : LowBars F)
        → le a.low a.low ≡ true
        → replaces a r ≡ false
        → Lowest start bars r
        → NotBelow r.min_low a
    kept-NotBelow start bars a r number kept found = elim (Bool-cases (lt nought a.low)) [
      | inr no_low ↦ inl no_low
      | inl low ↦ inr (
          ieee.le_of_not_lt a.low r.min_low number
            (ieee.number_of_le nought r.min_low (ieee.le_of_lt nought r.min_low found.positive)).1
            (ground arith))
    ]

    low_bar-kept :
        (start : Time) (bars : List (Agg F)) (a : Agg F) (r : LowBars F)
        → le a.low a.low ≡ true
        → replaces a r ≡ false
        → Seen start bars r
        → Seen start (bars ++ (a ∷ [])) (low_bar (start + length bars * minute) a r)
    unfolding Seen
    low_bar-kept start bars a r number kept (inl (unset, none_pos)) =
        let (low, time) = low_bar-keeps (start + length bars * minute) a r kept in
        let starts : eq r.min_low nought ≡ true =
          rw unset (ieee.eq_self nought ieee.nought_number) in
        inl (
          low ∙ unset,
          All-append (λ b. lt nought b.low ≡ false) bars (a ∷ []) none_pos (ground arith, tt),
        )
    low_bar-kept start bars a r number kept (inr found) =
        let (low, time) = low_bar-keeps (start + length bars * minute) a r kept in
        inr (record {
          positive = rw low found.positive;
          bound = rw low (
              All-append (NotBelow r.min_low) bars (a ∷ []) found.bound
                (kept-NotBelow start bars a r number kept found, tt));
          reached = At-snoc start bars a r _ low time found.reached;
        })

    low_bar-Seen :
        (start : Time) (bars : List (Agg F)) (a : Agg F) (r : LowBars F)
        → le a.low a.low ≡ true
        → Seen start bars r
        → Seen start (bars ++ (a ∷ [])) (low_bar (start + length bars * minute) a r)
    low_bar-Seen start bars a r number seen = elim (Bool-cases (replaces a r)) [
      | inl taken ↦ low_bar-taken start bars a r number taken seen
      | inr kept ↦ low_bar-kept start bars a r number kept seen
    ]

    low_bars-Seen :
        (start : Time) (bars items : List (Agg F)) (r : LowBars F)
        → All (λ a. le a.low a.low ≡ true) items
        → Seen start bars r
        → Seen start (bars ++ items) (low_bars start (length bars) items r)
    unfolding low_bars
    low_bars-Seen start bars [] r numbers seen = rw (append-nil bars) seen
    low_bars-Seen start bars (a ∷ items) r (number, numbers) seen =
        let next =
          low_bars-Seen start (bars ++ (a ∷ [])) items (low_bar (start + length bars * minute) a r)
            numbers (low_bar-Seen start bars a r number seen) in
        rw (append_assoc bars (a ∷ []) items, length-snoc bars a) at next

    -- Where no low is NaN and the answer is a result, its low is positive, at most every positive low
    -- of the bars, and that of the bar whose minute, counted from `start`, it gives as the time.
    pub min_low_and_last_close-Lowest :
        (start : Time) (it : Fetched (Agg F)) (r : LowBars F)
        → All (λ a. le a.low a.low ≡ true) it.items
        → min_low_and_last_close start it ≡ ok (some r)
        → Lowest start it.items r
    unfolding min_low_and_last_close Seen
    min_low_and_last_close-Lowest start it r numbers h =
        let all = low_bars start 0 it.items no_lows in
        let (fits, same) =
          answer-some it.error
            (is_empty it.items || (not_pos all.min_low || not_pos all.last_close)) all r h in
        elim (low_bars-Seen start [] it.items no_lows numbers (inl (refl, tt))) [
          | inr found ↦ rw same at found
          | inl (unset, _) ↦
              absurd (ground (arith, ap (λ x. le x nought) unset, ieee.nought_number))
        ]
