-- ===== src/Gateway/Handlers/Bearer.antt =====
-- The control token in the Authorization header.
use mathlib.Core.List.{reverse, reverse-cons, reverse-reverse}
use deepseek_project.Base.{
  ℕ, ◌<◌, ◌≡◌, ◌≢◌, refl, Bytes, codes, [], ◌∷◌, ◌++◌, true, false, arith, length, All, All-append,
  trim_left, trim_left_reversed, trim_space, Bytes-discrete, ℕ_discrete, lt→ltb, is_space_1,
  is_space_2, is_space_3,
}
use deepseek_project.Crypto.Base64.{is_url_safe}
use deepseek_project.Gateway.Handlers.{bearer_token}

abbrev pub IsUrlSafe : Bytes → Type 0
IsUrlSafe = All (λ c. is_url_safe c ≡ true)

url_safe_range : (c : ℕ) → is_url_safe c ≡ true → (0x2c < c) × (c < 0x7b)
unfolding is_url_safe
url_safe_range c h = ground arith

-- A URL-safe byte is no white space, nor the first or the last byte of one.
record NoSpace (c : ℕ) : Type 0 where
  one : is_space_1 c ≡ false
  first_of_2 : (b : ℕ) → is_space_2 c b ≡ false
  last_of_2 : (a : ℕ) → is_space_2 a c ≡ false
  first_of_3 : (b d : ℕ) → is_space_3 c b d ≡ false
  last_of_3 : (a b : ℕ) → is_space_3 a b c ≡ false

range-NoSpace : (c : ℕ) → 0x2c < c → c < 0x7b → NoSpace c
unfolding is_space_1 is_space_2 is_space_3
range-NoSpace c lo hi = record {
  one = ground arith;
  first_of_2 = λ b. ground arith;
  last_of_2 = λ a. ground arith;
  first_of_3 = λ b d. ground arith;
  last_of_3 = λ a b. ground arith;
}

url_safe-NoSpace : (c : ℕ) → is_url_safe c ≡ true → NoSpace c
url_safe-NoSpace c h = let r = url_safe_range c h in range-NoSpace c r.0 r.1

trim_left_safe : (s : Bytes) → IsUrlSafe s → trim_left s ≡ s
unfolding trim_left
trim_left_safe [] h = refl
trim_left_safe (a ∷ []) h = rw (url_safe-NoSpace a h.0).one
trim_left_safe (a ∷ b ∷ []) h =
    let n = url_safe-NoSpace a h.0 in ground (arith, n.one, n.first_of_2 b)
trim_left_safe (a ∷ b ∷ c ∷ s) h =
    let n = url_safe-NoSpace a h.0 in ground (arith, n.one, n.first_of_2 b, n.first_of_3 b c)

trim_left_reversed_safe : (s : Bytes) → IsUrlSafe s → trim_left_reversed s ≡ s
unfolding trim_left_reversed
trim_left_reversed_safe [] h = refl
trim_left_reversed_safe (c ∷ []) h = rw (url_safe-NoSpace c h.0).one
trim_left_reversed_safe (c ∷ b ∷ []) h =
    let n = url_safe-NoSpace c h.0 in ground (arith, n.one, n.last_of_2 b)
trim_left_reversed_safe (c ∷ b ∷ a ∷ s) h =
    let n = url_safe-NoSpace c h.0 in ground (arith, n.one, n.last_of_2 b, n.last_of_3 a b)

reverse-IsUrlSafe : (s : Bytes) → IsUrlSafe s → IsUrlSafe (reverse s)
reverse-IsUrlSafe [] h = tt
reverse-IsUrlSafe (c ∷ s) h =
    rw (reverse-cons c s) (All-append _ (reverse s) (c ∷ []) (reverse-IsUrlSafe s h.1) (h.0, tt))

trim_space_safe : (s : Bytes) → IsUrlSafe s → trim_space s ≡ s
unfolding trim_space
trim_space_safe s h =
    rw (trim_left_safe s h, trim_left_reversed_safe (reverse s) (reverse-IsUrlSafe s h))
      (reverse-reverse s)

-- A token of URL-safe characters is what the gateway reads from the header that carries it.
pub bearer_token_of_header :
    (token : Bytes) → token ≢ [] → IsUrlSafe token → bearer_token (codes "Bearer " ++ token) ≡ token
unfolding bearer_token Bytes-discrete ℕ_discrete
bearer_token_of_header [] n h = absurd (n refl)
bearer_token_of_header (c ∷ token) n h =
    rw (lt→ltb 7 (length (codes "Bearer " ++ c ∷ token)) (omega arith))
      (trim_space_safe (c ∷ token) h)
