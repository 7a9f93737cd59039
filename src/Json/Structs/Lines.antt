-- ===== src/Json/Structs/Lines.antt =====
-- The JSON text of a struct stands on one line, without white space around it.
use mathlib.Core.List.{reverse, reverse-reverse, reverse-append}
use deepseek_project.Base.{
  ℕ, zero, suc, ◌+◌, ◌*◌, ◌≤◌, ◌<◌, ◌≡◌, refl, ap, sym, ◌∙◌, Bytes, codes, List, [], ◌∷◌, ◌++◌,
  Bool, true, false, length, arith, All, All-append, trim_space, trim_left, trim_left_reversed,
  is_space_1, is_space_2, is_space_3, append_assoc, length-append,
}
use deepseek_project.Json.Utf8.{
  Head, ended, one, two, three, four, invalid, next_rune, is_two, is_three, is_four, one, two,
  three, four, invalid,
}
use deepseek_project.Json.Strings.{
  quote, escape, escape_head, escape_ascii, escape_three, hex_digit, is_plain,
}
use deepseek_project.Json.Strings.RoundTrip.{is_utf8, valid_head, Shows, next_rune-Shows}
use deepseek_project.Json.Structs.{
  Scalar, text_value, bool_value, number_value, marshal_string, marshal_scalar, member, members,
  marshal,
}
use deepseek_project.Json.Structs.RoundTrip.{IsText, IsReadable, AreReadable, length-escape}

-- No control character.
abbrev pub IsPrinted : Bytes → Type 0
IsPrinted = All (λ c. 0x20 ≤ c)

escape_ascii-IsPrinted : (a : ℕ) → a < 128 → IsPrinted (escape_ascii a)
unfolding escape_ascii is_plain hex_digit
escape_ascii-IsPrinted a h = ground arith

escape_three-IsPrinted : (a b c : ℕ) → is_three a b c ≡ true → IsPrinted (escape_three a b c)
unfolding escape_three is_three
escape_three-IsPrinted a b c h = ground arith

two-IsPrinted : (a b : ℕ) → is_two a b ≡ true → IsPrinted (a ∷ b ∷ [])
unfolding is_two
two-IsPrinted a b h = ground arith

four-IsPrinted : (a b c d : ℕ) → is_four a b c d ≡ true → IsPrinted (a ∷ b ∷ c ∷ d ∷ [])
unfolding is_four
four-IsPrinted a b c d h = ground arith

module _ (go_on : Bytes → Bytes) (valid : Bytes → Bool)
    (ih : (r : Bytes) → valid r ≡ true → IsPrinted (go_on r)) where
  escape_head-IsPrinted :
      (x : Head) (s : Bytes)
      → Shows s x
      → valid_head valid x ≡ true
      → IsPrinted (escape_head go_on x)
  unfolding escape_head
  escape_head-IsPrinted ended s e h = tt
  escape_head-IsPrinted (one a r) s (e, lt) h =
      All-append _ (escape_ascii a) (go_on r) (escape_ascii-IsPrinted a lt) (ih r h)
  escape_head-IsPrinted (two a b r) s (e, is) h =
      All-append _ (a ∷ b ∷ []) (go_on r) (two-IsPrinted a b is) (ih r h)
  escape_head-IsPrinted (three a b c r) s (e, is) h =
      All-append _ (escape_three a b c) (go_on r) (escape_three-IsPrinted a b c is) (ih r h)
  escape_head-IsPrinted (four a b c d r) s (e, is) h =
      All-append _ (a ∷ b ∷ c ∷ d ∷ []) (go_on r) (four-IsPrinted a b c d is) (ih r h)
  escape_head-IsPrinted (invalid r) s e h = cc

escape-IsPrinted : (n : ℕ) (s : Bytes) → is_utf8 n s ≡ true → IsPrinted (escape n s)
unfolding is_utf8 escape
escape-IsPrinted zero s h = tt
escape-IsPrinted (suc n) s h =
    escape_head-IsPrinted (escape n) (is_utf8 n) (escape-IsPrinted n) (next_rune s) s
      (next_rune-Shows s) h

pub marshal_string-IsPrinted : (s : Bytes) → IsText s → IsPrinted (marshal_string s)
unfolding marshal_string
marshal_string-IsPrinted s h = (
  omega arith,
  All-append _ (escape (length s) s) (quote ∷ []) (escape-IsPrinted (length s) s h)
      (omega arith, tt),
)

marshal_scalar-IsPrinted : (v : Scalar) → IsReadable v → IsPrinted (marshal_scalar v)
unfolding marshal_scalar
marshal_scalar-IsPrinted (text_value s) h = marshal_string-IsPrinted s h
marshal_scalar-IsPrinted (bool_value true) h = ground arith
marshal_scalar-IsPrinted (bool_value false) h = ground arith
marshal_scalar-IsPrinted (number_value ds) h = absurd h

member-IsPrinted : (key : Bytes) (v : Scalar) → IsText key → IsReadable v → IsPrinted (member key v)
unfolding member
member-IsPrinted key v hk hv =
    All-append _ (marshal_string key) (b':' ∷ marshal_scalar v) (marshal_string-IsPrinted key hk)
      (omega arith, marshal_scalar-IsPrinted v hv)

members-IsPrinted :
    (key : Bytes) (v : Scalar) (more : List (Bytes × Scalar))
    → IsText key
    → IsReadable v
    → AreReadable more
    → IsPrinted (members key v more)
unfolding members
members-IsPrinted key v [] hk hv h =
    All-append _ (member key v) (b'}' ∷ []) (member-IsPrinted key v hk hv) (omega arith, tt)
members-IsPrinted key v ((k, w) ∷ more) hk hv h =
    All-append _ (member key v) (b',' ∷ members k w more) (member-IsPrinted key v hk hv)
      (omega arith, members-IsPrinted k w more h.0.0 h.0.1 h.1)

-- A struct's text has no control character.
pub marshal-IsPrinted : (fs : List (Bytes × Scalar)) → AreReadable fs → IsPrinted (marshal fs)
unfolding marshal
marshal-IsPrinted [] h = ground arith
marshal-IsPrinted ((key, v) ∷ more) h = (omega arith, members-IsPrinted key v more h.0.0 h.0.1 h.1)

trim_left_brace : (s : Bytes) → trim_left (32 ∷ b'{' ∷ s) ≡ b'{' ∷ s
unfolding trim_left is_space_1 is_space_2 is_space_3
trim_left_brace [] = refl
trim_left_brace (a ∷ []) = refl
trim_left_brace (a ∷ b ∷ s) = refl

trim_left_letter :
    (c a b : ℕ) (s : Bytes) → b'a' ≤ c → c ≤ b'z' → trim_left (c ∷ a ∷ b ∷ s) ≡ c ∷ a ∷ b ∷ s
unfolding trim_left is_space_1 is_space_2 is_space_3
trim_left_letter c a b s lo hi = ground arith

trim_right_brace : (s : Bytes) → trim_left_reversed (b'}' ∷ s) ≡ b'}' ∷ s
unfolding trim_left_reversed is_space_1 is_space_2 is_space_3
trim_right_brace [] = refl
trim_right_brace (a ∷ []) = ground arith
trim_right_brace (a ∷ b ∷ s) = ground arith

-- A text that ends with a brace keeps its end.
reversed_brace : (s : Bytes) → reverse (s ++ b'}' ∷ []) ≡ b'}' ∷ reverse s
reversed_brace s = reverse-append s (b'}' ∷ [])

-- A text that begins with a letter and ends with a brace is kept.
pub trim_space_brace :
    (c a b : ℕ) (s : Bytes)
    → b'a' ≤ c
    → c ≤ b'z'
    → trim_space (c ∷ a ∷ b ∷ (s ++ b'}' ∷ [])) ≡ c ∷ a ∷ b ∷ (s ++ b'}' ∷ [])
unfolding trim_space
trim_space_brace c a b s lo hi =
    rw
      (
        trim_left_letter c a b (s ++ b'}' ∷ []) lo hi,
        reversed_brace (c ∷ a ∷ b ∷ s),
        trim_right_brace (reverse (c ∷ a ∷ b ∷ s)),
      )
      (ap reverse (sym (reversed_brace (c ∷ a ∷ b ∷ s)))
        ∙ reverse-reverse (c ∷ a ∷ b ∷ (s ++ b'}' ∷ [])))

pub trim_space_braces :
    (s : Bytes) → trim_space (codes " " ++ b'{' ∷ (s ++ b'}' ∷ [])) ≡ b'{' ∷ (s ++ b'}' ∷ [])
unfolding trim_space
trim_space_braces s =
    rw
      (
        trim_left_brace (s ++ b'}' ∷ []),
        reversed_brace (b'{' ∷ s),
        trim_right_brace (reverse (b'{' ∷ s)),
      )
      (ap reverse (sym (reversed_brace (b'{' ∷ s))) ∙ reverse-reverse (b'{' ∷ (s ++ b'}' ∷ [])))

members_last :
    (key : Bytes) (v : Scalar) (more : List (Bytes × Scalar))
    → (s : Bytes) × (members key v more ≡ s ++ b'}' ∷ [])
unfolding members
members_last key v [] = (member key v, refl)
members_last key v ((k, w) ∷ more) =
    let (s, e) = members_last k w more in
    (member key v ++ b',' ∷ s, rw e (sym (append_assoc (member key v) (b',' ∷ s) (b'}' ∷ []))))

-- `strings.TrimSpace` keeps the text of a struct, and drops a space before it.
pub trim_space-marshal :
    (key : Bytes) (v : Scalar) (more : List (Bytes × Scalar))
    → trim_space (codes " " ++ marshal ((key, v) ∷ more)) ≡ marshal ((key, v) ∷ more)
unfolding marshal
trim_space-marshal key v more = let (s, e) = members_last key v more in rw e (trim_space_braces s)

-- The length of a text's JSON string.
pub length-marshal_string : (s : Bytes) → IsText s → length (marshal_string s) ≤ 6 * length s + 2
unfolding marshal_string
length-marshal_string s h =
    omega
      (arith, (length-escape (length s) s h).1, length-append (escape (length s) s) (quote ∷ []))

-- The length of a text's member.
pub length-member :
    (key s : Bytes)
    → IsText key
    → IsText s
    → length (member key (text_value s)) ≤ 6 * length key + 6 * length s + 5
unfolding member marshal_scalar
length-member key s hk hs = omega (
  arith,
  length-marshal_string key hk,
  length-marshal_string s hs,
  length-append (marshal_string key) (b':' ∷ marshal_string s),
)
