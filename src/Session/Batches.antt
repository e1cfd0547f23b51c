-- ===== src/Session/Batches.antt =====
-- The batches in which `Run` subscribes to the watchlist.
use market_hacker.Base.{
  ◌≡◌, refl, sym, ap, inl, inr, ◌∙◌, ℕ, zero, suc, ◌+◌, ◌≤◌, List, [], ◌∷◌, ◌++◌, arith, ltb,
  if◌then◌else◌, length, take, drop, length-drop, All, Bool-cases,
}
use market_hacker.Session.Sockets.{slice, batches_from, batches}
use mathlib.Core.List.{append-nil}

suc_add : (m n : ℕ) → suc m + n ≡ suc (m + n)
suc_add m n = omega arith

module _ {ℓ} {A : Type ℓ} where
  take-drop : (n : ℕ) (xs : List A) → take n xs ++ drop n xs ≡ xs
  take-drop zero xs = refl
  take-drop (suc n) [] = refl
  take-drop (suc n) (x ∷ xs) = ap (λ ys. x ∷ ys) (take-drop n xs)

  drop-nil : (m n : ℕ) → drop {A = A} (suc (m + n)) [] ≡ drop n []
  drop-nil m zero = refl
  drop-nil m (suc n) = refl

  drop-drop : (m n : ℕ) (xs : List A) → drop (m + n) xs ≡ drop n (drop m xs)
  drop-drop zero n xs = ap (λ k. drop k xs) (omega arith)
  drop-drop (suc m) n [] = ap (λ k. drop k []) (suc_add m n) ∙ drop-nil m n
  drop-drop (suc m) n (x ∷ xs) = ap (λ k. drop k (x ∷ xs)) (suc_add m n) ∙ drop-drop m n xs

  take_all : (n : ℕ) (xs : List A) → length xs ≤ n → take n xs ≡ xs
  take_all zero [] h = refl
  take_all zero (x ∷ xs) h = ground arith
  take_all (suc n) [] h = refl
  take_all (suc n) (x ∷ xs) h = ap (λ ys. x ∷ ys) (take_all n xs (omega arith))

  drop_all : (n : ℕ) (xs : List A) → length xs ≤ n → drop n xs ≡ []
  drop_all zero [] h = refl
  drop_all zero (x ∷ xs) h = ground arith
  drop_all (suc n) [] h = refl
  drop_all (suc n) (x ∷ xs) h = drop_all n xs (omega arith)

  length-take : (n : ℕ) (xs : List A) → n ≤ length xs → length (take n xs) ≡ n
  length-take zero xs h = refl
  length-take (suc n) [] h = ground arith
  length-take (suc n) (x ∷ xs) h = ap suc (length-take n xs (omega arith))

  abbrev pub together : List (List A) → List A
  together [] = []
  together (b ∷ bs) = b ++ together bs

  abbrev pub Fits : ℕ → List A → Type 0
  Fits batch b = (1 ≤ length b) × (length b ≤ batch)

  slice_short : (i : ℕ) (wl : List A) → slice i (length wl) wl ≡ drop i wl
  slice_short i wl = take_all _ (drop i wl) (omega (arith, length-drop i wl))

  slice_full : (i batch : ℕ) (wl : List A) → slice i (i + batch) wl ≡ take batch (drop i wl)
  slice_full i batch wl = ap (λ n. take n (drop i wl)) (omega arith)

  -- One batch and what follows it.
  slice-rest :
      (batch : ℕ) (wl : List A) (i : ℕ)
      → suc i ≤ length wl
      → let j = if ltb (length wl) (i + suc batch) then length wl else i + suc batch in
        (slice i j wl ++ drop (i + suc batch) wl ≡ drop i wl) × Fits (suc batch) (slice i j wl)
  slice-rest batch wl i h = elim (Bool-cases (ltb (length wl) (i + suc batch))) [
    | inl short ↦
        rw
          (
            short,
            slice_short i wl,
            drop_all (i + suc batch) wl (ground arith),
            append-nil (drop i wl),
            length-drop i wl,
          )
          (refl, (omega arith, ground arith))
    | inr full ↦
        rw
          (
            full,
            slice_full i (suc batch) wl,
            drop-drop i (suc batch) wl,
            take-drop (suc batch) (drop i wl),
            length-take (suc batch) (drop i wl) (ground (arith, length-drop i wl)),
          )
          (refl, (omega arith, omega arith))
  ]

  batches_from-lem :
      (fuel batch : ℕ) (wl : List A) (i : ℕ)
      → length wl ≤ i + fuel
      → (together (batches_from fuel (suc batch) wl i) ≡ drop i wl)
        × All (Fits (suc batch)) (batches_from fuel (suc batch) wl i)
  unfolding batches_from
  batches_from-lem zero batch wl i h = (sym (drop_all i wl (omega arith)), tt)
  batches_from-lem (suc fuel) batch wl i h =
      let (rest, fit) = batches_from-lem fuel batch wl (i + suc batch) (omega arith) in
      elim (Bool-cases (ltb i (length wl))) [
        | inl more ↦
            let (whole, fits) = slice-rest batch wl i (ground arith) in
            rw more (rw rest whole, (fits, fit))
        | inr over ↦ rw over (sym (drop_all i wl (ground arith)), tt)
      ]

  -- For a batch size of 1 or more the batches, one after the other, are the whole list, and each holds
  -- one symbol at least and at most as many as the size says.
  pub batches_cover :
      (batch : ℕ) (wl : List A)
      → (together (batches (suc batch) wl) ≡ wl) × All (Fits (suc batch)) (batches (suc batch) wl)
  unfolding batches
  batches_cover batch wl = batches_from-lem (length wl) batch wl 0 (omega arith)
