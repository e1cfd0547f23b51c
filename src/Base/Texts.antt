-- ===== src/Base/Texts.antt =====
-- The order of texts.
use Prim.Native.Nat.{ℕ, Ordering, compare as compare_ℕ}
use Prim.Native.Char.{code}
use Prim.Native.String.compare
use Prim.Native.String.{String, [], ◌∷◌, compare, then}
use mathlib.Core.Path.{◌≡◌, sym, ◌∙◌}
use mathlib.Core.Bool.{Bool, true, false}
use native.Mathlib.Omega.{arith}

-- Go's `<` on strings
abbrev pub text_lt : String → String → Bool
text_lt a b = elim (compare a b) [ Ordering.lt ↦ true | _ ↦ false ]

then_swap :
    (m n : ℕ) (o r : Ordering)
    → (o ≡ Ordering.lt → r ≡ Ordering.gt)
    → then (compare_ℕ m n) o ≡ Ordering.lt
    → then (compare_ℕ n m) r ≡ Ordering.gt
then_swap m n o r f h = ground arith

compare_swap : (s t : String) → compare s t ≡ Ordering.lt → compare t s ≡ Ordering.gt
compare_swap [] [] h = absurd (ground arith)
compare_swap [] (d ∷ t) h = compare.cons-nil d t
compare_swap (c ∷ s) [] h = absurd (ground (arith, compare.cons-nil c s))
compare_swap (c ∷ s) (d ∷ t) h =
    compare.cons-cons d c t s
    ∙ then_swap (code c) (code d) (compare s t) (compare t s) (compare_swap s t)
        (sym (compare.cons-cons c d s t) ∙ h)

pub text_lt_asymm : (a b : String) → text_lt a b ≡ true → text_lt b a ≡ false
text_lt_asymm a b h = ground (arith, compare_swap a b)
