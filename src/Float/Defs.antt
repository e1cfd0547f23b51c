-- ===== src/Float/Defs.antt =====
-- The interface of float64, the constants that the source writes, and the IEEE facts relied upon.
use market_hacker.Base.{ℕ, suc, ◌≤◌, ◌<◌, ◌≡◌, ◌||◌, Bool, true, false, ℤ, pos, negsuc}

pub record Float64 (F : Type 0) : Type 0 where
  pub nought : F
  -- float64(n), and an integer literal
  pub of_ℕ : ℕ → F
  pub neg : F → F
  pub add : F → F → F
  pub sub : F → F → F
  pub mul : F → F → F
  pub div : F → F → F
  pub lt : F → F → Bool
  pub le : F → F → Bool
  pub eq : F → F → Bool

module _ {F : Type 0} ⦃d : Float64 F⦄ where
  open d use {nought, of_ℕ, neg, add, div, lt, le}

  -- float64(i) for an `int`
  abbrev pub of_ℤ : ℤ → F
  of_ℤ (pos n) = of_ℕ n
  of_ℤ (negsuc n) = neg (of_ℕ (suc n))

  -- The literal a/b. Division of two integers below 2^53 is rounded correctly, as a literal is.
  abbrev pub ratio : ℕ → ℕ → F
  ratio a b = div (of_ℕ a) (of_ℕ b)

  -- `x <= 0`, the guard that the source puts before every use of a price or a volume
  abbrev pub not_pos : F → Bool
  not_pos x = le x nought

  -- `x < lo || x > hi`
  abbrev pub outside : F → F → F → Bool
  outside lo hi x = lt x lo || lt hi x

-- Facts of IEEE 754 arithmetic. `le x x` says that x is a number and not NaN.
pub record IsIeee (F : Type 0) ⦃d : Float64 F⦄ : Type 0 where
  pub nought_number : d.le d.nought d.nought ≡ true
  pub number_of_le : (a b : F) → d.le a b ≡ true → (d.le a a ≡ true) × (d.le b b ≡ true)
  pub le_of_lt : (a b : F) → d.lt a b ≡ true → d.le a b ≡ true
  pub not_le_of_lt : (a b : F) → d.lt a b ≡ true → d.le b a ≡ false
  pub le_of_not_lt :
      (a b : F) → d.le a a ≡ true → d.le b b ≡ true → d.lt a b ≡ false → d.le b a ≡ true
  pub le_trans : (a b c : F) → d.le a b ≡ true → d.le b c ≡ true → d.le a c ≡ true
  pub lt_of_lt_of_le : (a b c : F) → d.lt a b ≡ true → d.le b c ≡ true → d.lt a c ≡ true
  pub lt_of_le_of_lt : (a b c : F) → d.le a b ≡ true → d.lt b c ≡ true → d.lt a c ≡ true
  pub le_of_eq : (a b : F) → d.eq a b ≡ true → (d.le a b ≡ true) × (d.le b a ≡ true)
  pub eq_comm : (a b : F) → d.eq a b ≡ d.eq b a
  pub eq_self : (a : F) → d.le a a ≡ true → d.eq a a ≡ true
  -- rounding is monotone, so a sum of numbers that are not negative is at least each of them
  pub le_add :
      (a b : F) → d.le d.nought a ≡ true → d.le d.nought b ≡ true → d.le a (d.add a b) ≡ true
  pub add_pos :
      (a b : F) → d.le d.nought a ≡ true → d.lt d.nought b ≡ true → d.lt d.nought (d.add a b) ≡ true
  pub of_ℕ_pos : (a : ℕ) → 0 < a → d.lt d.nought (d.of_ℕ a) ≡ true
  -- no underflow for divisors of ordinary size: the source divides its literals by 100 and by 1000
  pub ratio_pos :
      (a b : ℕ) → 0 < a → 0 < b → b ≤ 1000 → d.lt d.nought (d.div (d.of_ℕ a) (d.of_ℕ b)) ≡ true
