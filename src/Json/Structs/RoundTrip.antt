-- ===== src/Json/Structs/RoundTrip.antt =====
-- A struct is read back from its JSON text.
use deepseek_project.Base.{
  ℕ, zero, suc, ◌+◌, ◌≤◌, ◌<◌, ◌≡◌, refl, sym, ap, ◌∙◌, Bytes, List, [], ◌∷◌, ◌++◌, Option, some,
  Bool, true, false, length, append_assoc, arith, length-append, All, ◌*◌, append-nil, lt→ltb,
}
use deepseek_project.Json.Utf8.{Head, next_rune, one, two, three, four, invalid, ended}
use deepseek_project.Json.Strings.{quote, escape, escape_head, escape_ascii, escape_three}
use deepseek_project.Json.Strings.RoundTrip.{
  is_utf8, unquote-escape, next_rune-Shows, Shows, valid_head,
}
use deepseek_project.Json.Values.{
  object, Fields, end, field, parse, parse_first, parse_value, parse_members, member_from,
  members_after, members_from, parse_text, skip_space, value_from, expect, literal,
}
use deepseek_project.Json.Structs.{
  Scalar, text_value, bool_value, number_value, value_of, marshal_string, marshal_scalar, member,
  members, marshal,
}

-- Valid UTF-8.
abbrev pub IsText : Bytes → Type 0
IsText s = is_utf8 (length s) s ≡ true

-- ASCII is valid UTF-8.
pub ascii-IsText : (s : Bytes) → All (λ c. c < 128) s → IsText s
unfolding is_utf8 next_rune
ascii-IsText [] h = refl
ascii-IsText (c ∷ s) h = rw (lt→ltb c 128 h.0) (ascii-IsText s h.1)

-- Texts and flags that are read back.
abbrev pub IsReadable : Scalar → Type 0
IsReadable (text_value s) = IsText s
IsReadable (bool_value b) = Unit
IsReadable (number_value ds) = ⊥

length-escape_ascii : (a : ℕ) → (1 ≤ length (escape_ascii a)) × (length (escape_ascii a) ≤ 6)
unfolding escape_ascii
length-escape_ascii a = ground arith

length-escape_three :
    (a b c : ℕ) → (3 ≤ length (escape_three a b c)) × (length (escape_three a b c) ≤ 6)
unfolding escape_three
length-escape_three a b c = ground arith

module _ (go_on : Bytes → Bytes) (valid : Bytes → Bool)
    (ih : (r : Bytes)
      → valid r ≡ true
      → (length r ≤ length (go_on r)) × (length (go_on r) ≤ 6 * length r)) where
  length-escape_head :
      (x : Head) (s : Bytes)
      → Shows s x
      → valid_head valid x ≡ true
      → (length s ≤ length (escape_head go_on x)) × (length (escape_head go_on x) ≤ 6 * length s)
  unfolding escape_head
  length-escape_head ended s e h = rw e (omega arith, omega arith)
  length-escape_head (one a r) s (e, lt) h =
      let b = ih r h in
      let l = length-append (escape_ascii a) (go_on r) in
      let w = length-escape_ascii a in rw e (omega (arith, l, b.0, w.0), omega (arith, l, b.1, w.1))
  length-escape_head (two a b r) s (e, is) h =
      rw e (let b = ih r h in (omega (arith, b.0), omega (arith, b.1)))
  length-escape_head (three a b c r) s (e, is) h =
      let v = ih r h in
      let l = length-append (escape_three a b c) (go_on r) in
      let w = length-escape_three a b c in
      rw e (omega (arith, l, v.0, w.0), omega (arith, l, v.1, w.1))
  length-escape_head (four a b c d r) s (e, is) h =
      rw e (let b = ih r h in (omega (arith, b.0), omega (arith, b.1)))
  length-escape_head (invalid r) s e h = cc

-- A text is at most as long as its escaped form, and this at most six times as long.
pub length-escape :
    (n : ℕ) (s : Bytes)
    → is_utf8 n s ≡ true
    → (length s ≤ length (escape n s)) × (length (escape n s) ≤ 6 * length s)
unfolding is_utf8 escape
length-escape zero [] h = (omega arith, omega arith)
length-escape zero (a ∷ s) h = cc
length-escape (suc n) s h =
    length-escape_head (escape n) (is_utf8 n) (length-escape n) (next_rune s) s (next_rune-Shows s)
      h

pub parse_text-marshal :
    (s rest : Bytes) → IsText s → parse_text (marshal_string s ++ rest) ≡ some (s, rest)
unfolding parse_text marshal_string
parse_text-marshal s rest h =
    let bound = length-escape (length s) s h in
    rw (append_assoc (escape (length s) s) (quote ∷ []) rest) (
      unquote-escape (length s) (length (escape (length s) s ++ quote ∷ rest) + 1) s rest h
        (omega (arith, bound, length-append (escape (length s) s) (quote ∷ rest))))

abbrev pub fields : Bytes → Scalar → List (Bytes × Scalar) → Fields
fields key value [] = field key (value_of value) end
fields key value ((k, v) ∷ more) = field key (value_of value) (fields k v more)

pub parse_value-scalar :
    (n : ℕ) (v : Scalar) (rest : Bytes)
    → IsReadable v
    → parse_value (suc n) (marshal_scalar v ++ rest) ≡ some (value_of v, rest)
unfolding parse_value marshal_scalar value_from literal
parse_value-scalar n (text_value s) rest h = rw (parse_text-marshal s rest h) refl
parse_value-scalar n (bool_value true) rest h = refl
parse_value-scalar n (bool_value false) rest h = refl
parse_value-scalar n (number_value ds) rest h = absurd h

pub skip_space-string :
    (s rest : Bytes) → skip_space (marshal_string s ++ rest) ≡ marshal_string s ++ rest
unfolding marshal_string skip_space
skip_space-string s rest = refl

skip_space-scalar :
    (v : Scalar) (rest : Bytes)
    → IsReadable v
    → skip_space (marshal_scalar v ++ rest) ≡ marshal_scalar v ++ rest
unfolding marshal_scalar marshal_string skip_space
skip_space-scalar (text_value s) rest h = refl
skip_space-scalar (bool_value true) rest h = refl
skip_space-scalar (bool_value false) rest h = refl
skip_space-scalar (number_value ds) rest h = absurd h

member-append :
    (key : Bytes) (v : Scalar) (rest : Bytes)
    → member key v ++ rest ≡ marshal_string key ++ b':' ∷ (marshal_scalar v ++ rest)
unfolding member
member-append key v rest = append_assoc (marshal_string key) (b':' ∷ marshal_scalar v) rest

-- Where a member's value ends, the next byte is kept by `skip_space`.
parse_member :
    (n : ℕ) (more : Bytes → Option (Fields × Bytes)) (key : Bytes) (v : Scalar) (c : ℕ)
    (rest : Bytes)
    → IsText key
    → IsReadable v
    → skip_space (c ∷ rest) ≡ c ∷ rest
    → member_from (parse_value (suc n)) more (member key v ++ c ∷ rest)
      ≡ members_after more key (value_of v) (c ∷ rest)
unfolding member_from expect
parse_member n more key v c rest hk hv hc =
    rw
      (
        member-append key v (c ∷ rest),
        skip_space-string key (b':' ∷ (marshal_scalar v ++ c ∷ rest)),
        parse_text-marshal key (b':' ∷ (marshal_scalar v ++ c ∷ rest)) hk,
      )
      (unfold skip_space in
        rw (skip_space-scalar v (c ∷ rest) hv, parse_value-scalar n v (c ∷ rest) hv)
          (ap (members_after more key (value_of v)) hc))

-- The keys are valid UTF-8, and the values are read back.
abbrev pub AreReadable : List (Bytes × Scalar) → Type 0
AreReadable = All (λ kv. IsText kv.0 × IsReadable kv.1)

members_last :
    (key : Bytes) (v : Scalar) (rest : Bytes)
    → members key v [] ++ rest ≡ member key v ++ b'}' ∷ rest
unfolding members
members_last key v rest = append_assoc (member key v) (b'}' ∷ []) rest

members_append :
    (key k : Bytes) (v w : Scalar) (more : List (Bytes × Scalar)) (rest : Bytes)
    → members key v ((k, w) ∷ more) ++ rest ≡ member key v ++ b',' ∷ (members k w more ++ rest)
unfolding members
members_append key k v w more rest = append_assoc (member key v) (b',' ∷ members k w more) rest

parse_members-members :
    (n : ℕ) (key : Bytes) (v : Scalar) (more : List (Bytes × Scalar)) (rest : Bytes)
    → IsText key
    → IsReadable v
    → AreReadable more
    → suc (length more) < n
    → parse_members n (members key v more ++ rest) ≡ some (fields key v more, rest)
unfolding parse_members
parse_members-members zero key v more rest hk hv h lt = absurd (omega arith)
parse_members-members (suc zero) key v more rest hk hv h lt = absurd (omega arith)
parse_members-members (suc (suc n)) key v [] rest hk hv h lt =
    ap (member_from (parse_value (suc n)) (parse_members (suc n))) (members_last key v rest)
    ∙ parse_member n (parse_members (suc n)) key v b'}' rest hk hv (unfold skip_space in refl)
parse_members-members (suc (suc n)) key v ((k, w) ∷ more) rest hk hv h lt =
    ap (member_from (parse_value (suc n)) (parse_members (suc n)))
      (members_append key k v w more rest)
    ∙ (parse_member n (parse_members (suc n)) key v b',' (members k w more ++ rest) hk hv
          (unfold skip_space in refl)
        ∙ rw (parse_members-members (suc n) k w more rest h.0.0 h.0.1 h.1 (omega arith)) refl)

length-member : (key : Bytes) (v : Scalar) → 2 ≤ length (member key v)
unfolding member marshal_string
length-member key v = omega (
  arith,
  length-append (escape (length key) key) (quote ∷ []),
  length-append (escape (length key) key ++ quote ∷ []) (b':' ∷ marshal_scalar v),
)

length-members :
    (key : Bytes) (v : Scalar) (more : List (Bytes × Scalar))
    → suc (length more) < length (members key v more)
unfolding members
length-members key v [] =
    omega (arith, length-member key v, length-append (member key v) (b'}' ∷ []))
length-members key v ((k, w) ∷ more) = omega (
  arith,
  length-member key v,
  length-members k w more,
  length-append (member key v) (b',' ∷ members k w more),
)

members_from-members :
    (parser : Bytes → Option (Fields × Bytes)) (key : Bytes) (v : Scalar)
    (more : List (Bytes × Scalar)) (rest : Bytes)
    → members_from parser (skip_space (members key v more ++ rest))
      ≡ parser (members key v more ++ rest)
unfolding members_from skip_space members member marshal_string
members_from-members parser key v [] rest = refl
members_from-members parser key v ((k, w) ∷ more) rest = refl

plus_one : (n : ℕ) → n + 1 ≡ suc n
plus_one n = omega arith

-- A struct's text, with what stands behind it, is read up to its end.
pub parse_first-marshal :
    (key : Bytes) (v : Scalar) (more : List (Bytes × Scalar)) (rest : Bytes)
    → IsText key
    → IsReadable v
    → AreReadable more
    → parse_first (marshal ((key, v) ∷ more) ++ rest) ≡ some (object (fields key v more), rest)
unfolding parse_first marshal skip_space parse_value value_from
parse_first-marshal key v more rest hk hv h =
    let text = members key v more ++ rest in
    rw
      (
        plus_one (suc (length text)),
        members_from-members (parse_members (suc (length text))) key v more rest,
        parse_members-members (suc (length text)) key v more rest hk hv h
            (omega (arith, length-members key v more, length-append (members key v more) rest)),
      )
      refl

marshal_whole :
    (key : Bytes) (v : Scalar) (more : List (Bytes × Scalar))
    → IsText key
    → IsReadable v
    → AreReadable more
    → parse_first (marshal ((key, v) ∷ more)) ≡ some (object (fields key v more), [])
marshal_whole key v more hk hv h =
    ap parse_first (sym (append-nil (marshal ((key, v) ∷ more))))
    ∙ parse_first-marshal key v more [] hk hv h

pub parse-marshal :
    (key : Bytes) (v : Scalar) (more : List (Bytes × Scalar))
    → IsText key
    → IsReadable v
    → AreReadable more
    → parse (marshal ((key, v) ∷ more)) ≡ some (object (fields key v more))
unfolding parse
parse-marshal key v more hk hv h = rw (marshal_whole key v more hk hv h) (unfold skip_space in refl)
