-- ===== src/Nato.antt =====
-- internal/nato/nato.go: the spelling alphabet, over code points.
-- strings.ToUpper maps a rune to its capital. Of the runes beyond ASCII only U+0131 and U+017F have a
-- capital that the table knows; the others stay as they are here, and the table drops them either way.
pub mod Decode
use Prim.Native.Char.{code}
use Prim.Native.String.{◌++◌ as glue}
use market_hacker.Base.{
  ℕ, ◌-◌, String, Bool, true, false, ◌&&◌, ◌||◌, Option, none, some, List, [], ◌∷◌, leb, ◌==◌,
  if◌then◌else◌, reverse,
}

abbrev pub codes : String → List ℕ
codes String.[] = []
codes (String.◌∷◌ c s) = code c ∷ codes s

abbrev pub between : ℕ → ℕ → ℕ → Bool
between lo hi c = leb lo c && leb c hi

-- unicode.IsSpace
unfoldable pub is_space : ℕ → Bool
is_space c =
    between 9 13 c
    || (c == 32
        || (c == 0x85
            || (c == 0xa0
                || (c == 0x1680
                    || (between 0x2000 0x200a c
                        || (between 0x2028 0x2029 c
                            || (c == 0x202f || (c == 0x205f || c == 0x3000))))))))

unfoldable pub upper : ℕ → ℕ
upper c =
    if between b'a' b'z' c
    then c - 32
    else if c == 0x131
    then b'I'
    else if c == 0x17f
    then b'S'
    else c

abbrev drop_spaces : List ℕ → List ℕ
drop_spaces [] = []
drop_spaces (c ∷ s) = if is_space c then drop_spaces s else c ∷ s

-- strings.TrimSpace
unfoldable pub trim_space : List ℕ → List ℕ
unfolding is_space
trim_space s = reverse (drop_spaces (reverse (drop_spaces s)))

abbrev pub map_upper : List ℕ → List ℕ
map_upper [] = []
map_upper (c ∷ s) = upper c ∷ map_upper s

-- the map `words`
abbrev pub words : List (ℕ × String)
words =
    (b'A', "alpha")
    ∷ (b'B', "bravo")
    ∷ (b'C', "charlie")
    ∷ (b'D', "delta")
    ∷ (b'E', "echo")
    ∷ (b'F', "foxtrot")
    ∷ (b'G', "golf")
    ∷ (b'H', "hotel")
    ∷ (b'I', "india")
    ∷ (b'J', "juliett")
    ∷ (b'K', "kilo")
    ∷ (b'L', "lima")
    ∷ (b'M', "mike")
    ∷ (b'N', "november")
    ∷ (b'O', "oscar")
    ∷ (b'P', "papa")
    ∷ (b'Q', "quebec")
    ∷ (b'R', "romeo")
    ∷ (b'S', "sierra")
    ∷ (b'T', "tango")
    ∷ (b'U', "uniform")
    ∷ (b'V', "victor")
    ∷ (b'W', "whiskey")
    ∷ (b'X', "x-ray")
    ∷ (b'Y', "yankee")
    ∷ (b'Z', "zulu")
    ∷ (b'0', "zero")
    ∷ (b'1', "one")
    ∷ (b'2', "two")
    ∷ (b'3', "three")
    ∷ (b'4', "four")
    ∷ (b'5', "five")
    ∷ (b'6', "six")
    ∷ (b'7', "seven")
    ∷ (b'8', "eight")
    ∷ (b'9', "nine")
    ∷ []

unfoldable pub word_in : List (ℕ × String) → ℕ → Option String
word_in [] r = none
word_in ((c, w) ∷ table) r = if c == r then some w else word_in table r

-- the loop over the runes
unfoldable pub parts : List ℕ → List String
unfolding word_in
parts [] = []
parts (r ∷ rs) = elim (word_in words r) [ none ↦ parts rs | some w ↦ w ∷ parts rs ]

-- strings.Join
abbrev pub join : String → List String → String
join sep [] = ""
join sep (w ∷ []) = w
join sep (w ∷ (v ∷ ws)) = glue w (glue sep (join sep (v ∷ ws)))

unfoldable pub spell_nato : String → String
unfolding parts trim_space upper
spell_nato ticker = join ", " (parts (map_upper (trim_space (codes ticker))))
