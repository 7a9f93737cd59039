-- ===== src/Crypto/Base64.antt =====
-- base64.RawURLEncoding of encoding/base64: URL-safe alphabet, no padding. `decode` is the inverse
-- that the laws use; the program only encodes.
use deepseek_project.Base.{
  ℕ, ◌+◌, ◌-◌, ◌*◌, ◌/◌, ◌%◌, ◌<◌, ◌≡◌, refl, sym, ◌∙◌, ap, Bytes, leb, Bool, true, ◌&&◌, ◌||◌,
  List, [], ◌∷◌, ltb, ◌==◌, if◌then◌else◌, All, length, arith,
}

-- The character of a value below 64.
unfoldable pub symbol : ℕ → ℕ
symbol d =
    if ltb d 26
    then b'A' + d
    else (if ltb d 52
        then b'a' + d - 26
        else (if ltb d 62 then b'0' + d - 52 else (if d == 62 then b'-' else b'_')))

value : ℕ → ℕ
value c =
    if c == b'-'
    then 62
    else (if c == b'_'
        then 63
        else (if ltb c b'A'
            then c + 52 - b'0'
            else (if ltb c b'a' then c - b'A' else c + 26 - b'a')))

unfoldable pub encode : List ℕ → Bytes
encode [] = []
encode (a ∷ []) = symbol (a / 4) ∷ symbol (a % 4 * 16) ∷ []
encode (a ∷ b ∷ []) = symbol (a / 4) ∷ symbol (a % 4 * 16 + b / 16) ∷ symbol (b % 16 * 4) ∷ []
encode (a ∷ b ∷ c ∷ rest) =
    symbol (a / 4)
    ∷ symbol (a % 4 * 16 + b / 16)
    ∷ symbol (b % 16 * 4 + c / 64)
    ∷ symbol (c % 64)
    ∷ encode rest

decode : Bytes → List ℕ
decode (w ∷ x ∷ y ∷ z ∷ rest) =
    (value w * 4 + value x / 16)
    ∷ (value x % 16 * 16 + value y / 4)
    ∷ (value y % 4 * 64 + value z)
    ∷ decode rest
decode (w ∷ x ∷ y ∷ []) = (value w * 4 + value x / 16) ∷ (value x % 16 * 16 + value y / 4) ∷ []
decode (w ∷ x ∷ []) = (value w * 4 + value x / 16) ∷ []
decode _ = []

value-symbol : (d : ℕ) → d < 64 → value (symbol d) ≡ d
unfolding value symbol
value-symbol d h = ground arith

abbrev pub AreBytes : List ℕ → Type 0
AreBytes = All (λ b. b < 256)

decode-encode : (b : List ℕ) → AreBytes b → decode (encode b) ≡ b
unfolding encode decode
decode-encode [] h = refl
decode-encode (a ∷ []) h =
    ground (arith, value-symbol (a / 4) (omega arith), value-symbol (a % 4 * 16) (omega arith))
decode-encode (a ∷ b ∷ []) h = ground (
  arith,
  value-symbol (a / 4) (omega arith),
  value-symbol (a % 4 * 16 + b / 16) (omega arith),
  value-symbol (b % 16 * 4) (omega arith),
)
decode-encode (a ∷ b ∷ c ∷ rest) h = ground (
  arith,
  value-symbol (a / 4) (omega arith),
  value-symbol (a % 4 * 16 + b / 16) (omega arith),
  value-symbol (b % 16 * 4 + c / 64) (omega arith),
  value-symbol (c % 64) (omega arith),
  decode-encode rest h.1.1.1,
)

-- Different bytes have different encodings.
pub encode_inj : (a b : List ℕ) → AreBytes a → AreBytes b → encode a ≡ encode b → a ≡ b
encode_inj a b h k e = sym (decode-encode a h) ∙ ap decode e ∙ decode-encode b k

-- Three bytes make four characters, and a rest of `r` bytes makes `r + 1`.
pub length-encode : (b : List ℕ) → length (encode b) ≡ (length b * 4 + 2) / 3
unfolding encode
length-encode [] = refl
length-encode (a ∷ []) = refl
length-encode (a ∷ b ∷ []) = refl
length-encode (a ∷ b ∷ c ∷ rest) = omega (arith, length-encode rest)

-- The characters that may stand unescaped in a path segment and in a header.
unfoldable pub is_url_safe : ℕ → Bool
is_url_safe c =
    (leb b'A' c && leb c b'Z')
    || (leb b'a' c && leb c b'z')
    || (leb b'0' c && leb c b'9')
    || c == b'-'
    || c == b'_'

symbol-is_url_safe : (d : ℕ) → d < 64 → is_url_safe (symbol d) ≡ true
unfolding is_url_safe symbol
symbol-is_url_safe d h = ground arith

pub encode-is_url_safe : (b : List ℕ) → AreBytes b → All (λ c. is_url_safe c ≡ true) (encode b)
unfolding encode
encode-is_url_safe [] h = tt
encode-is_url_safe (a ∷ []) h =
    (symbol-is_url_safe _ (omega arith), (symbol-is_url_safe _ (omega arith), tt))
encode-is_url_safe (a ∷ b ∷ []) h = (
  symbol-is_url_safe _ (omega arith),
  (symbol-is_url_safe _ (omega arith), (symbol-is_url_safe _ (omega arith), tt)),
)
encode-is_url_safe (a ∷ b ∷ c ∷ rest) h = (
  symbol-is_url_safe _ (omega arith),
  (
    symbol-is_url_safe _ (omega arith),
    (
      symbol-is_url_safe _ (omega arith),
      (symbol-is_url_safe _ (omega arith), encode-is_url_safe rest h.1.1.1),
    ),
  ),
)
