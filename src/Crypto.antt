-- ===== src/Crypto.antt =====
-- internal/crypto/rand.go: random identifiers, tokens and pairing codes, and what the file uses of
-- encoding/base64 and fmt. What the system's generator returns is the argument: `none` is its error.
pub mod Base64
pub mod Laws
use deepseek_project.Base.{
  ℕ, zero, suc, ◌+◌, ◌*◌, ◌/◌, ◌%◌, Bytes, Option, none, some, Result, ok, err, List, [], ◌∷◌, ◌++◌,
  if◌then◌else◌, ◌==◌, codes,
}
use Base64.{encode}

pub data RandError : Type 0 where
  read_failed : RandError

-- `base64.RawURLEncoding.EncodeToString(b)`, where `rand.Read` has filled `b`.
abbrev pub encoded : Option (List ℕ) → Result RandError Bytes
encoded none = err read_failed
encoded (some b) = ok (encode b)

-- The 16 bytes of `rand.Read`.
unfoldable pub new_id : Option (List ℕ) → Result RandError Bytes
new_id read = encoded read

-- The 32 bytes of `rand.Read`.
unfoldable pub new_token : Option (List ℕ) → Result RandError Bytes
new_token read = encoded read

abbrev pub digit : ℕ → ℕ
digit n = b'0' + n % 10

-- The last `width` decimal digits of `n`.
unfoldable pub low_digits : ℕ → ℕ → Bytes
low_digits zero n = []
low_digits (suc width) n = low_digits width (n / 10) ++ digit n ∷ []

-- The decimal digits of `n`, and none for 0. Fuel `n` is enough.
unfoldable pub decimal : ℕ → ℕ → Bytes
decimal zero n = []
decimal (suc fuel) n =
    let more = decimal fuel (n / 10) ++ digit n ∷ [] in if n == 0 then [] else more

-- `fmt.Sprintf("%d", n)`
unfoldable pub format_d : ℕ → Bytes
format_d n = if n == 0 then codes "0" else decimal n n

-- `fmt.Sprintf("%06d", n)`: at least six digits.
unfoldable pub format_06d : ℕ → Bytes
format_06d n = decimal n (n / 1000000) ++ low_digits 6 n

abbrev pub code_limit : ℕ
code_limit = 1000000

-- The argument is what `rand.Int(rand.Reader, 10^6)` returns.
unfoldable pub new_pair_code : Option ℕ → Result RandError Bytes
new_pair_code none = err read_failed
new_pair_code (some n) = ok (format_06d n)
