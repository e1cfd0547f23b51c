-- ===== src/Nato/Decode.antt =====
-- The spelling loses nothing but what the table does not know: the words can be read back.
use market_hacker.Base.{
  ℕ, ◌≡◌, refl, String, Bool, true, false, Option, none, some, List, [], ◌∷◌, arith, ◌==◌,
  if◌then◌else◌, str_eq, str_eq_iff, not, ◌&&◌, ◌||◌, Bool-cases, Option-cases, inl, inr, ap,
}
use mathlib.Core.Option.{some-injective}
use market_hacker.Nato.{words, word_in, parts}

-- The rune of a word.
letter_in : List (ℕ × String) → String → Option ℕ
letter_in [] w = none
letter_in ((c, v) ∷ table) w = if str_eq v w then some c else letter_in table w

-- The runes of a list of words.
pub letters : List String → List ℕ
unfolding letter_in
letters [] = []
letters (w ∷ ws) = elim (letter_in words w) [ none ↦ letters ws | some c ↦ c ∷ letters ws ]

-- The runes that the table knows.
pub known : List ℕ → List ℕ
unfolding word_in
known [] = []
known (r ∷ rs) = elim (word_in words r) [ none ↦ known rs | some _ ↦ r ∷ known rs ]

has_word : List (ℕ × String) → String → Bool
has_word [] w = false
has_word ((c, v) ∷ table) w = str_eq v w || has_word table w

distinct_words : List (ℕ × String) → Bool
unfolding has_word
distinct_words [] = true
distinct_words ((c, v) ∷ table) = not (has_word table v) && distinct_words table

has_word-word_in :
    (table : List (ℕ × String)) (r : ℕ) (w : String)
    → word_in table r ≡ some w
    → has_word table w ≡ true
unfolding word_in has_word
has_word-word_in [] r w h = absurd (ground arith)
has_word-word_in ((c, v) ∷ table) r w h = ground (arith, has_word-word_in table r w, str_eq_iff v w)

letter_in-word_in :
    (table : List (ℕ × String)) (r : ℕ) (w : String)
    → distinct_words table ≡ true
    → word_in table r ≡ some w
    → letter_in table w ≡ some r
unfolding word_in letter_in distinct_words
letter_in-word_in [] r w h k = absurd (ground arith)
letter_in-word_in ((c, v) ∷ table) r w h k = elim (Bool-cases (c == r)) [
  | inl here ↦
      let found : some v ≡ some w = rw here at k in
      let same : str_eq v w ≡ true = (str_eq_iff v w).1 (some-injective _ _ found) in
      rw same (ground arith)
  | inr further ↦
      let rest : word_in table r ≡ some w = rw further at k in
      let listed = has_word-word_in table r w rest in
      ground (arith, letter_in-word_in table r w (ground arith) rest, listed, str_eq_iff v w)
]

words_distinct : distinct_words words ≡ true
unfolding distinct_words
words_distinct = refl

-- The words that a ticker is spelled with read back, letter by letter, as the runes of the ticker
-- that the table knows, in their order.
pub letters-parts : (rs : List ℕ) → letters (parts rs) ≡ known rs
unfolding letters parts known
letters-parts [] = refl
letters-parts (r ∷ rs) = elim (Option-cases (word_in words r)) [
  | inl unknown ↦ rw (unknown, parts, known) (letters-parts rs)
  | inr (w, found) ↦
      rw (found, parts, known)
        (rw (letter_in-word_in words r w words_distinct found, letters)
          (ap (◌∷◌ r) (letters-parts rs)))
]
