-- ===== src/Json/Strings/RoundTrip.antt =====
-- A text that is valid UTF-8 is read back from its JSON string.
use deepseek_project.Base.{
  ℕ, zero, suc, ◌/◌, ◌%◌, ◌<◌, ◌≡◌, refl, Bytes, [], ◌∷◌, ◌++◌, some, Bool, true, false, ◌&&◌, ltb,
  ◌==◌, arith, append_assoc, Bool-cases, inl, inr,
}
use deepseek_project.Json.Utf8.{
  Head, ended, one, two, three, four, invalid, next_rune, wide_head, is_two, is_three, is_four,
  encode_rune, next_rune-two, next_rune-three, next_rune-four,
}
use deepseek_project.Json.Strings.{
  quote, hex_digit, hex_value, is_plain, escape_ascii, escape_three, escape, unit, unescape,
  escaped, after_unit, simple_escape, prepended, unquote, escape_head,
}

-- The rest after a valid first character is judged by `go_on`.
abbrev pub valid_head : (Bytes → Bool) → Head → Bool
valid_head go_on ended = true
valid_head go_on (one a r) = go_on r
valid_head go_on (two a b r) = go_on r
valid_head go_on (three a b c r) = go_on r
valid_head go_on (four a b c d r) = go_on r
valid_head go_on (invalid r) = false

-- Valid UTF-8 of at most as many characters as the fuel.
unfoldable pub is_utf8 : ℕ → Bytes → Bool
unfolding next_rune
is_utf8 zero [] = true
is_utf8 zero (a ∷ s) = false
is_utf8 (suc n) s = valid_head (is_utf8 n) (next_rune s)

hex_back : (d : ℕ) → d < 16 → hex_value (hex_digit d) ≡ some d
unfolding hex_value hex_digit
hex_back d h = ground arith

unit-hex :
    (a : ℕ) (s : Bytes)
    → a < 128
    → unit (48 ∷ 48 ∷ hex_digit (a / 16) ∷ hex_digit (a % 16) ∷ s) ≡ some (a, s)
unfolding unit hex_value
unit-hex a s h = ground (arith, hex_back (a / 16), hex_back (a % 16))

unquote-ascii :
    (n a : ℕ) (s : Bytes)
    → a < 128
    → unquote (suc n) (escape_ascii a ++ s) ≡ prepended (a ∷ []) (unquote n s)
unfolding unquote unescape next_rune escaped simple_escape escape_ascii is_plain after_unit
    encode_rune
unquote-ascii n a s h = ground (arith, unit-hex a s h)

unquote-three :
    (n a b c : ℕ) (s : Bytes)
    → is_three a b c ≡ true
    → unquote (suc n) (escape_three a b c ++ s) ≡ prepended (a ∷ b ∷ c ∷ []) (unquote n s)
unfolding unquote unescape is_three escape_three
unquote-three n a b c s h = elim (Bool-cases (a == 0xe2 && b == 0x80 && c == 0xa8)) [
  | inl e ↦ rw e (ground arith)
  | inr f ↦ rw f (elim (Bool-cases (a == 0xe2 && b == 0x80 && c == 0xa9)) [
    | inl e ↦ rw e (ground arith)
    | inr g ↦ rw g (ground (arith, next_rune-three a b c s h))
  ])
]

unquote-two :
    (n a b : ℕ) (s : Bytes)
    → is_two a b ≡ true
    → unquote (suc n) (a ∷ b ∷ s) ≡ prepended (a ∷ b ∷ []) (unquote n s)
unfolding unquote unescape is_two
unquote-two n a b s h = ground (arith, next_rune-two a b s h)

unquote-four :
    (n a b c d : ℕ) (s : Bytes)
    → is_four a b c d ≡ true
    → unquote (suc n) (a ∷ b ∷ c ∷ d ∷ s) ≡ prepended (a ∷ b ∷ c ∷ d ∷ []) (unquote n s)
unfolding unquote unescape is_four
unquote-four n a b c d s h = ground (arith, next_rune-four a b c d s h)

-- What a first character says of the text.
abbrev pub Shows : Bytes → Head → Type 0
Shows s ended = s ≡ []
Shows s (one a r) = (s ≡ a ∷ r) × (a < 128)
Shows s (two a b r) = (s ≡ a ∷ b ∷ r) × (is_two a b ≡ true)
Shows s (three a b c r) = (s ≡ a ∷ b ∷ c ∷ r) × (is_three a b c ≡ true)
Shows s (four a b c d r) = (s ≡ a ∷ b ∷ c ∷ d ∷ r) × (is_four a b c d ≡ true)
Shows s (invalid r) = Unit

wide_head-Shows : (a : ℕ) (s : Bytes) → Shows (a ∷ s) (wide_head a s)
unfolding wide_head
wide_head-Shows a [] = tt
wide_head-Shows a (b ∷ []) = elim (Bool-cases (is_two a b)) [
  | inl e ↦ rw e (refl, e)
  | inr e ↦ rw e tt
]
wide_head-Shows a (b ∷ c ∷ []) = elim (Bool-cases (is_two a b)) [
  | inl e ↦ rw e (refl, e)
  | inr e ↦ rw e (elim (Bool-cases (is_three a b c)) [ inl f ↦ rw f (refl, f) | inr f ↦ rw f tt ])
]
wide_head-Shows a (b ∷ c ∷ d ∷ s) = elim (Bool-cases (is_two a b)) [
  | inl e ↦ rw e (refl, e)
  | inr e ↦ rw e (elim (Bool-cases (is_three a b c)) [
    | inl f ↦ rw f (refl, f)
    | inr f ↦
        rw f (elim (Bool-cases (is_four a b c d)) [ inl g ↦ rw g (refl, g) | inr g ↦ rw g tt ])
  ])
]

pub next_rune-Shows : (s : Bytes) → Shows s (next_rune s)
unfolding next_rune
next_rune-Shows [] = refl
next_rune-Shows (a ∷ s) = elim (Bool-cases (ltb a 0x80)) [
  | inl e ↦ rw e (refl, ground arith)
  | inr e ↦ rw e (wide_head-Shows a s)
]

module _ (m : ℕ) (go_on : Bytes → Bytes) (valid : Bytes → Bool) (rest : Bytes)
    (ih : (r : Bytes) → valid r ≡ true → unquote m (go_on r ++ quote ∷ rest) ≡ some (r, rest)) where
  unquote-escape_head :
      (x : Head) (s : Bytes)
      → Shows s x
      → valid_head valid x ≡ true
      → unquote (suc m) (escape_head go_on x ++ quote ∷ rest) ≡ some (s, rest)
  unfolding escape_head
  unquote-escape_head ended s e h = rw e (unfold unquote in refl)
  unquote-escape_head (one a r) s (e, lt) h =
      rw
        (
          append_assoc (escape_ascii a) (go_on r) (quote ∷ rest),
          unquote-ascii m a (go_on r ++ quote ∷ rest) lt,
          ih r h,
          e,
        )
        refl
  unquote-escape_head (two a b r) s (e, is) h =
      rw (unquote-two m a b (go_on r ++ quote ∷ rest) is, ih r h, e) refl
  unquote-escape_head (three a b c r) s (e, is) h =
      rw
        (
          append_assoc (escape_three a b c) (go_on r) (quote ∷ rest),
          unquote-three m a b c (go_on r ++ quote ∷ rest) is,
          ih r h,
          e,
        )
        refl
  unquote-escape_head (four a b c d r) s (e, is) h =
      rw (unquote-four m a b c d (go_on r ++ quote ∷ rest) is, ih r h, e) refl
  unquote-escape_head (invalid r) s e h = cc

-- A text that is valid UTF-8 is what is read back from its escaped form, up to the closing quote.
pub unquote-escape :
    (n m : ℕ) (s rest : Bytes)
    → is_utf8 n s ≡ true
    → n < m
    → unquote m (escape n s ++ quote ∷ rest) ≡ some (s, rest)
unfolding is_utf8 escape
unquote-escape n zero s rest h lt = absurd (omega arith)
unquote-escape zero (suc m) [] rest h lt = unfold unquote in refl
unquote-escape zero (suc m) (a ∷ s) rest h lt = cc
unquote-escape (suc n) (suc m) s rest h lt =
    unquote-escape_head m (escape n) (is_utf8 n) rest
      (λ r u. unquote-escape n m r rest u (omega arith)) (next_rune s) s (next_rune-Shows s) h
