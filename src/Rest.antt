-- ===== src/Rest.antt =====
-- internal/engine/restshim.go: what the program computes from the bars that the REST client lists.
-- The client is a third-party package: its iterator is a list of items and the error, if any, that
-- ended it. The loops run over the items before the error is looked at, as in the source.
pub mod Lows
use market_hacker.Base.{
  ℕ, zero, suc, ◌+◌, ◌*◌, String, Bool, ◌||◌, Option, none, some, List, [], ◌∷◌, if◌then◌else◌,
  ◌==◌, Result, ok, err,
}
use market_hacker.Float.{Float64, not_pos}
use market_hacker.Clock.{Time, minute}

pub record Fetched (A : Type 0) : Type 0 where
  pub items : List A
  pub error : Option String

-- models.Agg, and the aggregates of the WebSocket, as far as they are read
pub record Agg (F : Type 0) : Type 0 where
  pub open_price : F
  pub high : F
  pub low : F
  pub close : F
  pub volume : F

pub record OpenBars (F : Type 0) : Type 0 where
  pub open0930 : F
  pub or_high : F
  pub or_low : F
  pub vol : F
  pub n : ℕ

pub record LowBars (F : Type 0) : Type 0 where
  pub min_low : F
  pub min_low_time : Time
  pub last_close : F

-- `if err := it.Err(); err != nil` and then `if n == 0`
abbrev pub answer {ℓ} : {A : Type ℓ} → Option String → Bool → A → Result (Option A)
answer (some e) empty a = err e
answer none empty a = if empty then ok none else ok (some a)

abbrev pub is_empty {ℓ} : {A : Type ℓ} → List A → Bool
is_empty [] = Bool.true
is_empty (_ ∷ _) = Bool.false

module _ {F : Type 0} ⦃d : Float64 F⦄ where
  open d use {nought, add, lt, eq}

  unfoldable pub volume_loop : List (Agg F) → F → ℕ → F × ℕ
  volume_loop [] sum n = (sum, n)
  volume_loop (a ∷ as') sum n =
      volume_loop as' (if lt nought a.volume then add sum a.volume else sum)
        (if lt nought a.volume then suc n else n)

  unfoldable pub open5m_volume : Fetched (Agg F) → Result (Option F)
  unfolding volume_loop
  open5m_volume it = let (sum, n) = volume_loop it.items nought 0 in answer it.error (n == 0) sum

  -- the body of the loop of `Open5mMetrics`
  unfoldable pub open_bar : Agg F → OpenBars F → OpenBars F
  open_bar a r =
      if not_pos a.open_price
      then r
      else let r' =
          if r.n == 0
          then record r { open0930 = a.open_price; or_high = a.high; or_low = a.low }
          else record r {
            or_high = if lt r.or_high a.high then a.high else r.or_high;
            or_low = if eq r.or_low nought || lt a.low r.or_low then a.low else r.or_low;
          } in
        record r' { vol = add r.vol a.volume; n = suc r.n }

  unfoldable pub open_bars : List (Agg F) → OpenBars F → OpenBars F
  unfolding open_bar
  open_bars [] r = r
  open_bars (a ∷ as') r = open_bars as' (open_bar a r)

  abbrev pub no_bars : OpenBars F
  no_bars = record { open0930 = nought; or_high = nought; or_low = nought; vol = nought; n = 0 }

  unfoldable pub open5m_metrics : Fetched (Agg F) → Result (Option (OpenBars F))
  unfolding open_bars
  open5m_metrics it = let r = open_bars it.items no_bars in answer it.error (r.n == 0) r

  -- the body of the loop of `MinLowAndLastClose`; `bar_start` is the start of the bar
  unfoldable pub low_bar : Time → Agg F → LowBars F → LowBars F
  low_bar bar_start a r =
      let r' =
        if lt nought a.low
        then if eq r.min_low nought || lt a.low r.min_low
          then record r { min_low = a.low; min_low_time = bar_start }
          else r
        else r in
      if lt nought a.close then record r' { last_close = a.close } else r'

  -- `idx` is the index of the next bar.
  unfoldable pub low_bars : Time → ℕ → List (Agg F) → LowBars F → LowBars F
  unfolding low_bar
  low_bars start idx [] r = r
  low_bars start idx (a ∷ as') r = low_bars start (suc idx) as' (low_bar (start + idx * minute) a r)

  abbrev pub no_lows : LowBars F
  no_lows = record { min_low = nought; min_low_time = 0; last_close = nought }

  unfoldable pub min_low_and_last_close : Time → Fetched (Agg F) → Result (Option (LowBars F))
  unfolding low_bars
  min_low_and_last_close start it =
      let r = low_bars start 0 it.items no_lows in
      answer it.error (is_empty it.items || (not_pos r.min_low || not_pos r.last_close)) r
