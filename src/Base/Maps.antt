-- ===== src/Base/Maps.antt =====
-- Go's `map[string]V` as an association list. A key that is written again keeps its place.
use Prim.Native.String.{String}
use mathlib.Core.Path.{◌≡◌, refl}
use mathlib.Core.Logic.{◌≢◌}
use mathlib.Core.Bool.{Bool, true, false, ◌||◌}
use mathlib.Core.Option.{Option, none, some}
use mathlib.Core.List.{List, [], ◌∷◌}
use native.Mathlib.Omega.{arith}
use market_hacker.Base.Tests.{
  Result, ok, err, if◌then◌else◌, str_eq, str_eq_iff, str_eq_self, str_eq_ne,
}

abbrev pub Dict {ℓ} : Type ℓ → Type ℓ
Dict V = List (String × V)

abbrev pub contains : String → List String → Bool
contains k [] = false
contains k (x ∷ xs) = str_eq x k || contains k xs

module _ {ℓ} {V : Type ℓ} where
  unfoldable pub lookup : String → Dict V → Option V
  lookup k [] = none
  lookup k ((j, v) ∷ m) = if str_eq j k then some v else lookup k m

  abbrev pub or_else : V → Option V → V
  or_else v none = v
  or_else v (some w) = w

  -- Changes the value under `k`, after storing `v` there if the key is missing.
  unfoldable pub upsert : String → V → (V → V) → Dict V → Dict V
  upsert k v f [] = (k, f v) ∷ []
  upsert k v f ((j, w) ∷ m) = if str_eq j k then (j, f w) ∷ m else (j, w) ∷ upsert k v f m

  pub lookup-upsert :
      (k j : String) (v : V) (f : V → V) (m : Dict V)
      → lookup j (upsert k v f m)
        ≡ (if str_eq k j then some (f (or_else v (lookup k m))) else lookup j m)
  unfolding lookup upsert
  lookup-upsert k j v f [] = refl
  lookup-upsert k j v f ((i, w) ∷ m) =
      ground (arith, str_eq_iff k j, str_eq_iff i k, str_eq_iff i j, lookup-upsert k j v f m)

  pub lookup-upsert_self :
      (k : String) (v : V) (f : V → V) (m : Dict V)
      → lookup k (upsert k v f m) ≡ some (f (or_else v (lookup k m)))
  lookup-upsert_self k v f m = simp (lookup-upsert, str_eq_self)

  pub lookup-upsert_ne :
      (k j : String) (v : V) (f : V → V) (m : Dict V)
      → k ≢ j
      → lookup j (upsert k v f m) ≡ lookup j m
  lookup-upsert_ne k j v f m h = rw (lookup-upsert k j v f m, str_eq_ne k j h)

-- What all branches keep.
pub if_kept {ℓ ι} :
    {A : Type ℓ} (P : A → Type ι) (c : Bool) (a b : A) → P a → P b → P (if c then a else b)
if_kept P true a b p q = p
if_kept P false a b p q = q

pub option_kept {ℓ κ ι} :
    {A : Type ℓ} {B : Type κ} (P : B → Type ι) (o : Option A) (n : B) (f : A → B)
    → P n
    → ((a : A) → P (f a))
    → P (elim o [ none ↦ n | some a ↦ f a ])
option_kept P none n f p q = p
option_kept P (some a) n f p q = q a

pub result_kept {ℓ κ ι} :
    {A : Type ℓ} {B : Type κ} (P : B → Type ι) (r : Result A) (f : A → B) (g : String → B)
    → ((a : A) → P (f a))
    → ((m : String) → P (g m))
    → P (elim r [ ok a ↦ f a | err m ↦ g m ])
result_kept P (ok a) f g p q = p a
result_kept P (err m) f g p q = q m
