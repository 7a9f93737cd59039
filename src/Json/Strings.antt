-- ===== src/Json/Strings.antt =====
-- A text as a JSON string, and back.
pub mod RoundTrip
use deepseek_project.Base.{
  ℕ, zero, suc, ◌+◌, ◌-◌, ◌*◌, ◌/◌, ◌%◌, Bytes, codes, List, [], ◌∷◌, ◌++◌, Option, none, some,
  Bool, true, false, not, ◌&&◌, ◌||◌, if◌then◌else◌, ltb, leb, ◌==◌,
}
use deepseek_project.Base.Options.{◌>>=◌}
use deepseek_project.Json.Utf8.{
  Head, ended, one, two, three, four, invalid, next_rune, encode_rune, replacement,
}

abbrev pub quote : ℕ
quote = 34

abbrev pub backslash : ℕ
backslash = 92

-- A hexadecimal digit below 16.
unfoldable pub hex_digit : ℕ → ℕ
hex_digit d = if ltb d 10 then 48 + d else 87 + d

unfoldable pub hex_value : ℕ → Option ℕ
hex_value c =
    if leb 48 c && leb c 57
    then some (c - 48)
    else (if leb 97 c && leb c 102
        then some (c - 87)
        else (if leb 65 c && leb c 70 then some (c - 55) else none))

-- `htmlSafeSet`
unfoldable pub is_plain : ℕ → Bool
is_plain a =
    leb 0x20 a
    && not (a == quote)
    && not (a == backslash)
    && not (a == b'<')
    && not (a == b'>')
    && not (a == b'&')

-- One ASCII character within a string, as `json.Marshal` of Go 1.22 writes it.
unfoldable pub escape_ascii : ℕ → Bytes
unfolding is_plain hex_digit
escape_ascii a =
    if is_plain a
    then a ∷ []
    else (if a == quote || a == backslash
        then backslash ∷ a ∷ []
        else (if a == 8
            then backslash ∷ b'b' ∷ []
            else (if a == 12
                then backslash ∷ b'f' ∷ []
                else (if a == 10
                    then backslash ∷ b'n' ∷ []
                    else (if a == 13
                        then backslash ∷ b'r' ∷ []
                        else (if a == 9
                            then backslash ∷ b't' ∷ []
                            else backslash
                              ∷ b'u'
                              ∷ 48
                              ∷ 48
                              ∷ hex_digit (a / 16)
                              ∷ hex_digit (a % 16)
                              ∷ []))))))

-- U+2028 and U+2029 are escaped.
unfoldable pub escape_three : ℕ → ℕ → ℕ → Bytes
escape_three a b c =
    if a == 0xe2 && b == 0x80 && c == 0xa8
    then codes "\\u2028"
    else (if a == 0xe2 && b == 0x80 && c == 0xa9 then codes "\\u2029" else a ∷ b ∷ c ∷ [])

-- The escaped first character, and the rest, which `go_on` escapes.
unfoldable pub escape_head : (Bytes → Bytes) → Head → Bytes
unfolding escape_ascii escape_three
escape_head go_on ended = []
escape_head go_on (one a r) = escape_ascii a ++ go_on r
escape_head go_on (two a b r) = a ∷ b ∷ go_on r
escape_head go_on (three a b c r) = escape_three a b c ++ go_on r
escape_head go_on (four a b c d r) = a ∷ b ∷ c ∷ d ∷ go_on r
escape_head go_on (invalid r) = codes "\\ufffd" ++ go_on r

-- The inside of the string. The fuel is the number of characters, at most.
unfoldable pub escape : ℕ → Bytes → Bytes
unfolding next_rune escape_head
escape zero s = []
escape (suc n) s = escape_head (escape n) (next_rune s)

-- The four digits of `\\u`.
unfoldable pub unit : Bytes → Option (ℕ × Bytes)
unfolding hex_value
unit (h ∷ i ∷ j ∷ k ∷ s) = do
  a ← hex_value h
  b ← hex_value i
  c ← hex_value j
  d ← hex_value k
  some (a * 4096 + b * 256 + c * 16 + d, s)
unit s = none

abbrev low_of : Option (ℕ × Bytes) → Option (ℕ × Bytes)
low_of none = none
low_of (some (v, r)) = if leb 0xdc00 v && leb v 0xdfff then some (v, r) else none

-- The second half of a pair of surrogates: its code, if the text begins with one.
unfoldable pub low_unit : Bytes → Option (ℕ × Bytes)
unfolding unit
low_unit (a ∷ b ∷ s) = if a == backslash && b == b'u' then low_of (unit s) else none
low_unit s = none

-- The character that a unit begins, with what may be its second half, and the rest.
abbrev pub paired : ℕ → Bytes → Option (ℕ × Bytes) → Bytes × Bytes
paired v s none = (replacement, s)
paired v s (some (w, r)) =
    if ltb v 0xdc00
    then (encode_rune (0x10000 + (v - 0xd800) * 0x400 + (w - 0xdc00)), r)
    else (replacement, s)

unfoldable pub after_unit : ℕ → Bytes → Bytes × Bytes
unfolding low_unit encode_rune
after_unit v s =
    if leb 0xd800 v && leb v 0xdfff then paired v s (low_unit s) else (encode_rune v, s)

-- The character after a backslash.
unfoldable pub simple_escape : ℕ → Option ℕ
simple_escape c =
    if c == quote || c == backslash || c == b'/'
    then some c
    else (if c == b'b'
        then some 8
        else (if c == b'f'
            then some 12
            else (if c == b'n'
                then some 10
                else (if c == b'r' then some 13 else (if c == b't' then some 9 else none)))))

unfoldable pub escaped : Bytes → Option (Bytes × Bytes)
unfolding unit after_unit simple_escape
escaped [] = none
escaped (c ∷ s) =
    if c == b'u'
    then (do (v, r) ← unit s; some (after_unit v r))
    else (do a ← simple_escape c; some (a ∷ [], s))

-- The first character of the inside of a string, and the rest; `none` for one that is not allowed.
unfoldable pub unescape : Bytes → Option (Bytes × Bytes)
unfolding next_rune escaped
unescape s = elim (next_rune s) [
  | ended ↦ none
  | one a r ↦ if a == backslash then escaped r else if ltb a 0x20 then none else some (a ∷ [], r)
  | two a b r ↦ some (a ∷ b ∷ [], r)
  | three a b c r ↦ some (a ∷ b ∷ c ∷ [], r)
  | four a b c d r ↦ some (a ∷ b ∷ c ∷ d ∷ [], r)
  | invalid r ↦ some (replacement, r)
]

abbrev pub prepended : Bytes → Option (Bytes × Bytes) → Option (Bytes × Bytes)
prepended piece none = none
prepended piece (some (t, r)) = some (piece ++ t, r)

-- The rest of the string, where `go_on` reads it.
abbrev pub continued :
    (Bytes → Option (Bytes × Bytes)) → Option (Bytes × Bytes) → Option (Bytes × Bytes)
continued go_on none = none
continued go_on (some (piece, r)) = prepended piece (go_on r)

-- The text of a string, from behind its opening quote, and what follows its closing quote.
unfoldable pub unquote : ℕ → Bytes → Option (Bytes × Bytes)
unfolding unescape
unquote zero s = none
unquote (suc n) [] = none
unquote (suc n) (c ∷ s) = elim (c == quote) [
  | true ↦ some ([], s)
  | false ↦ continued (unquote n) (unescape (c ∷ s))
]
