-- ===== src/Watchlist/Distinct.antt =====
-- What the loaded watchlist holds.
use market_hacker.Base.{
  ◌≡◌, refl, inl, inr, Bool, true, false, not, ◌||◌, ◌&&◌, List, [], ◌∷◌, ◌++◌, arith,
  if◌then◌else◌, All, All-append, map, ok, Bool-cases,
}
use market_hacker.Watchlist.{Symbol, same_symbol, seen_in, is_blank, clean, load_loop, load}

pub distinct : List Symbol → Bool
distinct [] = true
distinct (x ∷ xs) = not (seen_in xs x) && distinct xs

same_symbol_self : (s : Symbol) → same_symbol s s ≡ true
same_symbol_self [] = refl
same_symbol_self (a ∷ s) = ground (arith, same_symbol_self s)

same_symbol_comm : (s t : Symbol) → same_symbol s t ≡ same_symbol t s
same_symbol_comm [] [] = refl
same_symbol_comm [] (b ∷ t) = refl
same_symbol_comm (a ∷ s) [] = refl
same_symbol_comm (a ∷ s) (b ∷ t) = ground (arith, same_symbol_comm s t)

seen_in-snoc :
    (xs : List Symbol) (s x : Symbol)
    → seen_in (xs ++ (s ∷ [])) x ≡ (seen_in xs x || same_symbol s x)
seen_in-snoc [] s x = ground arith
seen_in-snoc (y ∷ xs) s x = ground (arith, seen_in-snoc xs s x)

distinct-snoc :
    (xs : List Symbol) (s : Symbol)
    → distinct xs ≡ true
    → seen_in xs s ≡ false
    → distinct (xs ++ (s ∷ [])) ≡ true
unfolding distinct
distinct-snoc [] s h k = refl
distinct-snoc (y ∷ xs) s h k = ground (
  arith,
  seen_in-snoc xs s y,
  same_symbol_comm s y,
  distinct-snoc xs s (ground arith) (ground arith),
)

-- What the loop has gathered so far.
record Gathered (out : List Symbol) : Type 0 where
  once : distinct out ≡ true
  filled : All (λ s. is_blank s ≡ false) out

abbrev gather : List Symbol → Symbol → List Symbol
gather out s = if is_blank s || seen_in out s then out else out ++ (s ∷ [])

gather-Gathered : (out : List Symbol) (s : Symbol) → Gathered out → Gathered (gather out s)
gather-Gathered out s g = elim (Bool-cases (is_blank s || seen_in out s)) [
  | inl skipped ↦ rw skipped g
  | inr new ↦ rw new (record {
    once = distinct-snoc out s g.once (ground arith);
    filled = All-append (λ x. is_blank x ≡ false) out (s ∷ []) g.filled (ground arith, tt);
  })
]

gather-keeps :
    (out : List Symbol) (s x : Symbol) → seen_in out x ≡ true → seen_in (gather out s) x ≡ true
gather-keeps out s x h = ground (arith, seen_in-snoc out s x)

gather-has : (out : List Symbol) (s : Symbol) → (is_blank s || seen_in (gather out s) s) ≡ true
gather-has out s = ground (arith, seen_in-snoc out s s, same_symbol_self s)

gather-from :
    (out : List Symbol) (s x : Symbol)
    → seen_in (gather out s) x ≡ true
    → (seen_in out x || same_symbol s x) ≡ true
gather-from out s x h = ground (arith, seen_in-snoc out s x)

load_loop-Gathered :
    (to_upper : Symbol → Symbol)
    → (out its : List Symbol) → Gathered out
    → Gathered (load_loop to_upper out its)
unfolding load_loop
load_loop-Gathered to_upper out [] g = g
load_loop-Gathered to_upper out (it ∷ its) g =
    load_loop-Gathered to_upper (gather out (clean to_upper it)) its
      (gather-Gathered out (clean to_upper it) g)

load_loop-keeps :
    (to_upper : Symbol → Symbol)
    → (out its : List Symbol) (x : Symbol) → seen_in out x ≡ true
    → seen_in (load_loop to_upper out its) x ≡ true
unfolding load_loop
load_loop-keeps to_upper out [] x h = h
load_loop-keeps to_upper out (it ∷ its) x h =
    load_loop-keeps to_upper (gather out (clean to_upper it)) its x
      (gather-keeps out (clean to_upper it) x h)

abbrev pub Listed : (Symbol → Symbol) → List Symbol → Symbol → Type 0
Listed to_upper ws it = (is_blank (clean to_upper it) || seen_in ws (clean to_upper it)) ≡ true

load_loop-Listed :
    (to_upper : Symbol → Symbol)
    → (out its : List Symbol) → All (Listed to_upper (load_loop to_upper out its)) its
unfolding load_loop
load_loop-Listed to_upper out [] = tt
load_loop-Listed to_upper out (it ∷ its) =
    let s = clean to_upper it in
    (
      ground (arith, gather-has out s, load_loop-keeps to_upper (gather out s) its s),
      load_loop-Listed to_upper (gather out s) its,
    )

load_loop-from :
    (to_upper : Symbol → Symbol)
    → (out its : List Symbol) (x : Symbol) → seen_in (load_loop to_upper out its) x ≡ true
    → (seen_in out x || seen_in (map (clean to_upper) its) x) ≡ true
unfolding load_loop
load_loop-from to_upper out [] x h = ground arith
load_loop-from to_upper out (it ∷ its) x h =
    let s = clean to_upper it in
    ground (arith, load_loop-from to_upper (gather out s) its x h, gather-from out s x)

-- A file that is read gives a watchlist without a repetition and without a blank symbol, in which
-- every symbol of the file stands, trimmed and then changed by `to_upper`, unless it is blank, and no other symbol `x`.
pub load_lists_each_once :
    (to_upper : Symbol → Symbol) (symbols : List Symbol) (x : Symbol)
    → (ws : List Symbol) × (load to_upper (ok symbols) ≡ ok ws)
      × (distinct ws ≡ true)
      × All (λ s. is_blank s ≡ false) ws
      × All (Listed to_upper ws) symbols
      × ((not (seen_in ws x) || seen_in (map (clean to_upper) symbols) x) ≡ true)
unfolding load distinct
load_lists_each_once to_upper symbols x =
    let ws = load_loop to_upper [] symbols in
    let g = load_loop-Gathered to_upper [] symbols (record { once = refl; filled = tt }) in
    (
      ws,
      refl,
      g.once,
      g.filled,
      load_loop-Listed to_upper [] symbols,
      ground (arith, load_loop-from to_upper [] symbols x),
    )
