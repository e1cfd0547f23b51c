-- ===== src/Base/Lists.antt =====
-- Lists: lengths over the native numbers, predicates by recursion, filters by a Boolean test, and
-- the stable insertion sort that stands for Go's `sort`.
use Prim.Native.Nat.{ℕ, zero, suc, ◌+◌, ◌-◌, ◌≤◌}
use mathlib.Core.Path.{◌≡◌, refl}
use mathlib.Core.Bool.{Bool, true, false}
use mathlib.Core.List.{List, [], ◌∷◌, ◌++◌, Perm}
use mathlib.Core.List.Perm
use native.Mathlib.Omega.{arith}
use market_hacker.Base.Tests.{if◌then◌else◌, Bool-cases}
use mathlib.Core.Logic.{inl, inr}

module _ {ℓ} {A : Type ℓ} where
  abbrev pub length : List A → ℕ
  length [] = 0
  length (x ∷ xs) = suc (length xs)

  pub length-append : (xs ys : List A) → length (xs ++ ys) ≡ length xs + length ys
  length-append [] ys = omega arith
  length-append (x ∷ xs) ys = omega (arith, length-append xs ys)

  abbrev pub drop : ℕ → List A → List A
  drop zero xs = xs
  drop (suc n) [] = []
  drop (suc n) (x ∷ xs) = drop n xs

  abbrev pub take : ℕ → List A → List A
  take zero xs = []
  take (suc n) [] = []
  take (suc n) (x ∷ xs) = x ∷ take n xs

  pub length-drop : (n : ℕ) (xs : List A) → length (drop n xs) ≡ length xs - n
  length-drop zero xs = omega arith
  length-drop (suc n) [] = omega arith
  length-drop (suc n) (x ∷ xs) = omega (arith, length-drop n xs)

  abbrev pub All {κ} : (A → Type κ) → List A → Type κ
  All P [] = Unit
  All P (x ∷ xs) = P x × All P xs

  pub All-mono {κ} :
      {P Q : A → Type κ} → ((a : A) → P a → Q a) → (xs : List A) → All P xs → All Q xs
  All-mono f [] p = tt
  All-mono f (x ∷ xs) (p, ps) = (f x p, All-mono f xs ps)

  pub All-append {κ} : (P : A → Type κ) (xs ys : List A) → All P xs → All P ys → All P (xs ++ ys)
  All-append P [] ys p q = q
  All-append P (x ∷ xs) ys p q = (p.0, All-append P xs ys p.1 q)

  abbrev pub keep_if : (A → Bool) → List A → List A
  keep_if p [] = []
  keep_if p (x ∷ xs) = if p x then x ∷ keep_if p xs else keep_if p xs

  pub keep_if_ext :
      (p q : A → Bool) → ((a : A) → p a ≡ q a) → (xs : List A) → keep_if p xs ≡ keep_if q xs
  keep_if_ext p q h [] = refl
  keep_if_ext p q h (x ∷ xs) = rw (h x, keep_if_ext p q h xs)

  pub length-keep_if : (p : A → Bool) (xs : List A) → length (keep_if p xs) ≤ length xs
  length-keep_if p [] = omega arith
  length-keep_if p (x ∷ xs) = ground (arith, length-keep_if p xs)

  pub All-keep_if : (p : A → Bool) (xs : List A) → All (λ x. p x ≡ true) (keep_if p xs)
  All-keep_if p [] = tt
  All-keep_if p (x ∷ xs) = ground (arith, All-keep_if p xs)

  -- `less a b` holds where `a` goes strictly before `b`.
  abbrev pub insert_by : (A → A → Bool) → A → List A → List A
  insert_by less a [] = a ∷ []
  insert_by less a (x ∷ xs) = if less x a then x ∷ insert_by less a xs else a ∷ (x ∷ xs)

  abbrev pub sort_by : (A → A → Bool) → List A → List A
  sort_by less [] = []
  sort_by less (x ∷ xs) = insert_by less x (sort_by less xs)

  pub insert_by-perm :
      (less : A → A → Bool) (a : A) (xs : List A) → Perm (insert_by less a xs) (a ∷ xs)
  insert_by-perm less a [] = Perm.refl _
  insert_by-perm less a (x ∷ xs) = elim (Bool-cases (less x a)) [
    | inl e ↦
        rw (e, insert_by) (Perm.trans (Perm.cons x (insert_by-perm less a xs)) (Perm.swap a x xs))
    | inr e ↦ rw (e, insert_by) (Perm.refl _)
  ]

  pub sort_by-perm : (less : A → A → Bool) (xs : List A) → Perm (sort_by less xs) xs
  sort_by-perm less [] = Perm.refl _
  sort_by-perm less (x ∷ xs) =
      Perm.trans (insert_by-perm less x (sort_by less xs)) (Perm.cons x (sort_by-perm less xs))

  pub length-insert_by :
      (less : A → A → Bool) (a : A) (xs : List A) → length (insert_by less a xs) ≡ suc (length xs)
  length-insert_by less a [] = refl
  length-insert_by less a (x ∷ xs) = ground (arith, length-insert_by less a xs)

  pub length-sort_by : (less : A → A → Bool) (xs : List A) → length (sort_by less xs) ≡ length xs
  length-sort_by less [] = refl
  length-sort_by less (x ∷ xs) =
      omega (arith, length-insert_by less x (sort_by less xs), length-sort_by less xs)

  -- No two neighbours are in the wrong order.
  abbrev pub InOrder : (A → A → Bool) → List A → Type 0
  InOrder less [] = Unit
  InOrder less (x ∷ []) = Unit
  InOrder less (x ∷ y ∷ ys) = (less y x ≡ false) × InOrder less (y ∷ ys)

  insert_by-InOrder :
      (less : A → A → Bool)
      → ((a b : A) → less a b ≡ true → less b a ≡ false)
      → (a : A) (xs : List A) → InOrder less xs
      → InOrder less (insert_by less a xs)
  insert_by-InOrder less asymm a [] h = tt
  insert_by-InOrder less asymm a (x ∷ []) h = elim (Bool-cases (less x a)) [
    | inl e ↦ rw e (asymm x a e, tt)
    | inr e ↦ rw e (e, tt)
  ]
  insert_by-InOrder less asymm a (x ∷ y ∷ ys) (p, h) =
      let rest = insert_by-InOrder less asymm a (y ∷ ys) h in
      elim (Bool-cases (less x a)) [
        | inr e ↦ rw e (e, (p, h))
        | inl e ↦ rw e (elim (Bool-cases (less y a)) [
          | inl k ↦ rw k (p, rw k at rest)
          | inr k ↦ rw k (asymm x a e, rw k at rest)
        ])
      ]

  pub sort_by-InOrder :
      (less : A → A → Bool)
      → ((a b : A) → less a b ≡ true → less b a ≡ false)
      → (xs : List A) → InOrder less (sort_by less xs)
  sort_by-InOrder less asymm [] = tt
  sort_by-InOrder less asymm (x ∷ xs) =
      insert_by-InOrder less asymm x (sort_by less xs) (sort_by-InOrder less asymm xs)
