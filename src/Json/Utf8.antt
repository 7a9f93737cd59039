-- ===== src/Json/Utf8.antt =====
-- The package unicode/utf8: the first character of a text, and the bytes of a code point.
use deepseek_project.Base.{
  ℕ, ◌+◌, ◌/◌, ◌%◌, ◌≡◌, Bytes, [], ◌∷◌, Bool, true, not, ◌&&◌, ◌||◌, if◌then◌else◌, ltb, leb, ◌==◌,
  arith,
}

unfoldable pub is_continuation : ℕ → Bool
is_continuation c = leb 0x80 c && leb c 0xbf

unfoldable pub is_two : ℕ → ℕ → Bool
unfolding is_continuation
is_two a b = leb 0xc2 a && leb a 0xdf && is_continuation b

unfoldable pub is_three : ℕ → ℕ → ℕ → Bool
unfolding is_continuation
is_three a b c =
    ((a == 0xe0 && leb 0xa0 b && leb b 0xbf)
      || (leb 0xe1 a && leb a 0xef && not (a == 0xed) && is_continuation b)
      || (a == 0xed && leb 0x80 b && leb b 0x9f))
    && is_continuation c

unfoldable pub is_four : ℕ → ℕ → ℕ → ℕ → Bool
unfolding is_continuation
is_four a b c d =
    ((a == 0xf0 && leb 0x90 b && leb b 0xbf)
      || (leb 0xf1 a && leb a 0xf3 && is_continuation b)
      || (a == 0xf4 && leb 0x80 b && leb b 0x8f))
    && is_continuation c
    && is_continuation d

-- The first character, by its bytes, and the rest; `invalid` is a byte that begins none.
pub data Head : Type 0 where
  ended : Head
  one : ℕ → Bytes → Head
  two : ℕ → ℕ → Bytes → Head
  three : ℕ → ℕ → ℕ → Bytes → Head
  four : ℕ → ℕ → ℕ → ℕ → Bytes → Head
  invalid : Bytes → Head

unfoldable pub wide_head : ℕ → Bytes → Head
unfolding is_two is_three is_four
wide_head a [] = invalid []
wide_head a (b ∷ []) = if is_two a b then two a b [] else invalid (b ∷ [])
wide_head a (b ∷ c ∷ []) =
    if is_two a b
    then two a b (c ∷ [])
    else (if is_three a b c then three a b c [] else invalid (b ∷ c ∷ []))
wide_head a (b ∷ c ∷ d ∷ s) =
    if is_two a b
    then two a b (c ∷ d ∷ s)
    else (if is_three a b c
        then three a b c (d ∷ s)
        else (if is_four a b c d then four a b c d s else invalid (b ∷ c ∷ d ∷ s)))

-- `utf8.DecodeRune`
unfoldable pub next_rune : Bytes → Head
unfolding wide_head
next_rune [] = ended
next_rune (a ∷ s) = if ltb a 0x80 then one a s else wide_head a s

-- `utf8.AppendRune`
unfoldable pub encode_rune : ℕ → Bytes
encode_rune v =
    if ltb v 0x80
    then v ∷ []
    else (if ltb v 0x800
        then (0xc0 + v / 64) ∷ (0x80 + v % 64) ∷ []
        else (if ltb v 0x10000
            then (0xe0 + v / 4096) ∷ (0x80 + v / 64 % 64) ∷ (0x80 + v % 64) ∷ []
            else (0xf0 + v / 262144)
              ∷ (0x80 + v / 4096 % 64)
              ∷ (0x80 + v / 64 % 64)
              ∷ (0x80 + v % 64)
              ∷ []))

-- U+FFFD
abbrev pub replacement : Bytes
replacement = 0xef ∷ 0xbf ∷ 0xbd ∷ []

pub next_rune-two : (a b : ℕ) (s : Bytes) → is_two a b ≡ true → next_rune (a ∷ b ∷ s) ≡ two a b s
unfolding next_rune is_two
next_rune-two a b [] h = ground arith
next_rune-two a b (c ∷ []) h = ground arith
next_rune-two a b (c ∷ d ∷ s) h = ground arith

pub next_rune-three :
    (a b c : ℕ) (s : Bytes) → is_three a b c ≡ true → next_rune (a ∷ b ∷ c ∷ s) ≡ three a b c s
unfolding next_rune is_two is_three
next_rune-three a b c [] h = ground arith
next_rune-three a b c (d ∷ s) h = ground arith

pub next_rune-four :
    (a b c d : ℕ) (s : Bytes)
    → is_four a b c d ≡ true
    → next_rune (a ∷ b ∷ c ∷ d ∷ s) ≡ four a b c d s
unfolding next_rune is_two is_three is_four
next_rune-four a b c d s h = ground arith
