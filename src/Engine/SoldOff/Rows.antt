-- ===== src/Engine/SoldOff/Rows.antt =====
-- Lists of results of which some give no row.
use mathlib.Core.List.{filter_map}
use market_hacker.Base.{
  ◌≡◌, ◌∙◌, refl, ap, inl, inr, String, true, Option, none, List, [], ◌∷◌, arith, str_eq_self,
  contains, All, All-mono, Option-cases,
}
use market_hacker.Rest.{is_empty}

pub filter_map_step {ℓ κ} :
    {A : Type ℓ} {B : Type κ} (f g : A → Option B) (a : A) (xs ys : List A)
    → ◌≡◌ {A = Option B} (f a) (g a)
    → ◌≡◌ {A = List B} (filter_map f xs) (filter_map g ys)
    → ◌≡◌ {A = List B} (filter_map f (a ∷ xs)) (filter_map g (a ∷ ys))
unfolding filter_map
filter_map_step f g a xs ys same rest = elim (Option-cases (g a)) [
  | inl e ↦ rw (same ∙ e, filter_map) (rw (e, filter_map) rest)
  | inr (b, e) ↦ rw (same ∙ e, filter_map) (rw (e, filter_map) (ap (◌∷◌ b) rest))
]

pub filter_map_skip {ℓ κ} :
    {A : Type ℓ} {B : Type κ} (g : A → Option B) (a : A) (ys : List A)
    → ◌≡◌ {A = Option B} (g a) none
    → ◌≡◌ {A = List B} (filter_map g (a ∷ ys)) (filter_map g ys)
unfolding filter_map
filter_map_skip g a ys e = rw (e, filter_map) refl

pub filter_map_nil {ℓ κ} :
    {A : Type ℓ} {B : Type κ} (f g : A → Option B)
    → ◌≡◌ {A = List B} (filter_map f []) (filter_map g [])
unfolding filter_map
filter_map_nil f g = refl

pub nil_of_is_empty {ℓ} : {A : Type ℓ} (xs : List A) → is_empty xs ≡ true → ◌≡◌ {A = List A} xs []
nil_of_is_empty [] h = refl
nil_of_is_empty (x ∷ xs) h = absurd (ground arith)

pub filter_map_of_nil {ℓ κ} :
    {A : Type ℓ} {B : Type κ} (f : A → Option B) → ◌≡◌ {A = List B} (filter_map f []) []
unfolding filter_map
filter_map_of_nil f = refl

pub contains-All : (xs : List String) → All (λ x. contains x xs ≡ true) xs
contains-All [] = tt
contains-All (x ∷ xs) =
    (ground (arith, str_eq_self x), All-mono (λ y h. ground arith) xs (contains-All xs))
