-- ===== src/Config.antt =====
-- internal/config/config.go: the configuration from environment variables. `os.Getenv` is a function of
-- the variable's name, empty for one that is not set. `time.ParseDuration` is a parameter, in
-- nanoseconds; what `fmt.Sscanf` does with "%d" is `scan_int`.
pub mod Laws
use deepseek_project.Base.{
  ℕ, zero, suc, ◌+◌, ◌-◌, ◌*◌, ◌^◌, Bytes, codes, text_eq, List, [], ◌∷◌, ◌++◌, Option, none, some,
  Bool, true, false, not, ◌&&◌, ◌||◌, if◌then◌else◌, leb, ltb, ◌==◌, length, take, ℤ, pos, negsuc,
  Result, ok, err, trim_left,
}
use deepseek_project.Provider.Settings.{model_v4_flash}

abbrev pub Env : Type 0
Env = Bytes → Bytes

-- The only error of `APIKey`.
pub data ConfigError : Type 0 where
  no_api_key : ConfigError

unfoldable pub api_key : Env → Result ConfigError Bytes
api_key getenv =
    let k = getenv (codes "DEEPSEEK_API_KEY") in if text_eq k [] then err no_api_key else ok k

-- `if v := os.Getenv(key); v != "" { return v }; return default`
abbrev pub or_default : Bytes → Bytes → Bytes
or_default value default = if text_eq value [] then default else value

unfoldable pub model : Env → Bytes
model getenv = or_default (getenv (codes "DS_MODEL")) model_v4_flash

unfoldable pub gateway_url : Env → Bytes
gateway_url getenv = or_default (getenv (codes "DS_GATEWAY_URL")) (codes "http://localhost:8080")

unfoldable pub gateway_addr : Env → Bytes
gateway_addr getenv = or_default (getenv (codes "DS_GATEWAY_ADDR")) (codes "127.0.0.1:8080")

unfoldable pub listen_addr : Env → Bytes → Bytes
unfolding gateway_addr
listen_addr getenv flag = if text_eq flag [] then gateway_addr getenv else flag

-- A positive result, or the default.
abbrev pub if_positive : Option ℤ → ℤ → ℤ
if_positive (some (pos (suc n))) default = pos (suc n)
if_positive _ default = default

unfoldable pub duration : (Bytes → Option ℤ) → Env → Bytes → ℤ → ℤ
duration parse_duration getenv key default =
    let v = getenv key in if text_eq v [] then default else if_positive (parse_duration v) default

-- The digits at the front, as a number.
unfoldable pub read_digits : ℕ → Bytes → ℕ
read_digits n [] = n
read_digits n (c ∷ s) =
    let rest = read_digits (n * 10 + (c - b'0')) s in if leb b'0' c && leb c b'9' then rest else n

abbrev begins_with_digit : Bytes → Bool
begins_with_digit [] = false
begins_with_digit (c ∷ s) = leb b'0' c && leb c b'9'

-- `n` and `-n`, where they fit into 64 bits.
abbrev int64 : ℕ → Option ℤ
int64 n = if ltb n (2 ^ 63) then some (pos n) else none

abbrev negated : ℕ → ℤ
negated zero = pos 0
negated (suc n) = negsuc n

abbrev minus_int64 : ℕ → Option ℤ
minus_int64 n = if leb n (2 ^ 63) then some (negated n) else none

-- A sign, if there is one, and at least one digit.
abbrev signed : Bytes → Option ℤ
signed [] = none
signed (c ∷ s) =
    if c == b'-'
    then (if begins_with_digit s then minus_int64 (read_digits 0 s) else none)
    else (if c == b'+'
        then (if begins_with_digit s then int64 (read_digits 0 s) else none)
        else (if begins_with_digit (c ∷ s) then int64 (read_digits 0 (c ∷ s)) else none))

-- Spaces before the number are skipped, but a line break is an error; what follows the number is not
-- read.
abbrev has_newline : Bytes → Bool
has_newline [] = false
has_newline (c ∷ s) = c == 10 || has_newline s

unfoldable pub scan_int : Bytes → Option ℤ
unfolding read_digits trim_left
scan_int s =
    let t = trim_left s in if has_newline (take (length s - length t) s) then none else signed t

unfoldable pub int : Env → Bytes → ℤ → ℤ
unfolding scan_int
int getenv key default =
    let v = getenv key in if text_eq v [] then default else if_positive (scan_int v) default
