-- ===== src/Watchlist.antt =====
-- internal/watchlist/watchlist.go: the symbols of the file, trimmed, in capitals, without repetition.
-- The file is read by a third-party YAML package. A symbol is the list of its
-- code points. `to_upper` is strings.ToUpper, whose table of Unicode is not modelled.
pub mod Distinct
use market_hacker.Base.{
  ℕ, suc, ◌≡◌, ◌≢◌, refl, String, Bool, true, false, not, ◌||◌, ◌&&◌, List, [], ◌∷◌, ◌++◌,
  if◌then◌else◌, ◌==◌, Result, ok, err,
}
use market_hacker.Nato.{trim_space}

abbrev pub Symbol : Type 0
Symbol = List ℕ

abbrev pub same_symbol : Symbol → Symbol → Bool
same_symbol [] [] = true
same_symbol [] (_ ∷ _) = false
same_symbol (_ ∷ _) [] = false
same_symbol (a ∷ s) (b ∷ t) = (a == b) && same_symbol s t

abbrev pub seen_in : List Symbol → Symbol → Bool
seen_in [] s = false
seen_in (x ∷ xs) s = same_symbol x s || seen_in xs s

abbrev pub is_blank : Symbol → Bool
is_blank [] = true
is_blank (_ ∷ _) = false

unfoldable pub clean : (Symbol → Symbol) → Symbol → Symbol
unfolding trim_space
clean to_upper s = to_upper (trim_space s)

-- The loop; `out` holds what was appended, which is also what `seen` holds.
unfoldable pub load_loop : (Symbol → Symbol) → List Symbol → List Symbol → List Symbol
unfolding clean
load_loop to_upper out [] = out
load_loop to_upper out (it ∷ its) =
    let s = clean to_upper it in
    load_loop to_upper (if is_blank s || seen_in out s then out else out ++ (s ∷ [])) its

unfoldable pub load : (Symbol → Symbol) → Result (List Symbol) → Result (List Symbol)
unfolding load_loop
load to_upper (err e) = err e
load to_upper (ok symbols) = ok (load_loop to_upper [] symbols)
