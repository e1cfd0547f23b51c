-- ===== src/Float/Fixed.antt =====
-- Ten-thousandths, with `none` for NaN: a concrete number type for the tests and the witnesses.
use market_hacker.Base.{
  ℕ, zero, suc, ◌+◌, ◌*◌, ◌/◌, ◌≤◌, ◌<◌, Bool, false, Option, none, some, arith, ℤ, pos, negsuc,
  pos_part, neg_part, sub_ℕ, ◌+ℤ◌, ltb_ℤ, leb_ℤ, ◌&&◌, refl,
}
use market_hacker.Float.Defs.{Float64, IsIeee}

abbrev pub Fixed : Type 0
Fixed = Option ℤ

abbrev scale : ℕ
scale = 10_000

abbrev on_numbers : (ℤ → ℤ → Fixed) → Fixed → Fixed → Fixed
on_numbers f (some a) (some b) = f a b
on_numbers f _ _ = none

abbrev test : (ℤ → ℤ → Bool) → Fixed → Fixed → Bool
test f (some a) (some b) = f a b
test f _ _ = false

abbrev negate : ℤ → ℤ
negate a = sub_ℕ (neg_part a) (pos_part a)

abbrev times : ℤ → ℤ → ℤ
times a b =
    sub_ℕ ((pos_part a * pos_part b + neg_part a * neg_part b) / scale)
      ((pos_part a * neg_part b + neg_part a * pos_part b) / scale)

abbrev over : ℤ → ℤ → Fixed
over a (pos zero) = none
over a (pos (suc b)) = some (sub_ℕ (pos_part a * scale / suc b) (neg_part a * scale / suc b))
over a (negsuc b) = some (sub_ℕ (neg_part a * scale / suc b) (pos_part a * scale / suc b))

-- thousandths, hundredths and so on: `cents 1050` is 10.50
abbrev pub cents : ℕ → Fixed
cents n = some (pos (n * 100))

instance abbrev pub fixed_float : Float64 Fixed
fixed_float = record {
  nought = some (pos 0);
  of_ℕ = λ n. some (pos (n * scale));
  neg = λ a. elim a [ none ↦ none | some x ↦ some (negate x) ];
  add = on_numbers (λ a b. some (a +ℤ b));
  sub = on_numbers (λ a b. some (a +ℤ negate b));
  mul = on_numbers (λ a b. some (times a b));
  div = on_numbers over;
  lt = test ltb_ℤ;
  le = test leb_ℤ;
  eq = test (λ a b. leb_ℤ a b && leb_ℤ b a);
}

ratio_pos_lem : (a b : ℕ) → 0 < a → 0 < b → b ≤ 1000 → 0 < a * scale * scale / (b * scale)
ratio_pos_lem a b p q r = grind arith

pub Fixed-IsIeee : IsIeee Fixed
Fixed-IsIeee = record {
  nought_number = refl;
  number_of_le = λ a b h. (ground arith, ground arith);
  le_of_lt = λ a b h. ground arith;
  not_le_of_lt = λ a b h. ground arith;
  le_of_not_lt = λ a b h k l. ground arith;
  le_trans = λ a b c h k. ground arith;
  lt_of_lt_of_le = λ a b c h k. ground arith;
  lt_of_le_of_lt = λ a b c h k. ground arith;
  le_of_eq = λ a b h. (ground arith, ground arith);
  eq_comm = λ a b. ground arith;
  eq_self = λ a h. ground arith;
  le_add = λ a b h k. ground arith;
  add_pos = λ a b h k. ground arith;
  of_ℕ_pos = λ a h. ground arith;
  ratio_pos = λ a b p q r. ground (arith, ratio_pos_lem a b p q r);
}
