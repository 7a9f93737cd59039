-- ===== src/Crypto/Laws.antt =====
-- What the identifiers, tokens and codes look like.
use deepseek_project.Base.{
  ℕ, zero, suc, ◌+◌, ◌-◌, ◌*◌, ◌/◌, ◌<◌, ◌≡◌, ◌≢◌, Option, none, refl, Bytes, some, ok, ok_inj,
  List, [], ◌∷◌, true, length, length-append, All, All-append, arith,
}
use deepseek_project.Protocol.PairCode.{is_digit, AreDigits}
use deepseek_project.Crypto.Base64.{
  encode, AreBytes, encode_inj, length-encode, encode-is_url_safe, is_url_safe,
}
use deepseek_project.Crypto.{
  new_id, new_token, new_pair_code, low_digits, decimal, format_06d, digit, code_limit,
}

-- A successful read of 16 bytes gives an identifier of 22 URL-safe characters.
pub new_id_shape :
    (b : List ℕ)
    → AreBytes b
    → length b ≡ 16
    → (id : Bytes) × (new_id (some b) ≡ ok id)
      × (length id ≡ 22)
      × All (λ c. is_url_safe c ≡ true) id
unfolding new_id
new_id_shape b h n = (encode b, refl, omega (arith, length-encode b), encode-is_url_safe b h)

-- A successful read of 32 bytes gives a token of 43 URL-safe characters.
pub new_token_shape :
    (b : List ℕ)
    → AreBytes b
    → length b ≡ 32
    → (token : Bytes) × (new_token (some b) ≡ ok token)
      × (length token ≡ 43)
      × All (λ c. is_url_safe c ≡ true) token
unfolding new_token
new_token_shape b h n = (encode b, refl, omega (arith, length-encode b), encode-is_url_safe b h)

-- Two tokens are equal only if the generator returned the same bytes.
pub new_token_inj :
    (a b : List ℕ) → AreBytes a → AreBytes b → new_token (some a) ≡ new_token (some b) → a ≡ b
unfolding new_token
new_token_inj a b h k e = encode_inj a b h k (ok_inj e)

digit-is_digit : (n : ℕ) → is_digit (digit n) ≡ true
unfolding is_digit
digit-is_digit n = ground arith

low_digits-AreDigits : (w n : ℕ) → AreDigits (low_digits w n)
unfolding low_digits
low_digits-AreDigits zero n = tt
low_digits-AreDigits (suc w) n =
    All-append _ (low_digits w (n / 10)) _ (low_digits-AreDigits w (n / 10)) (digit-is_digit n, tt)

length-low_digits : (w n : ℕ) → length (low_digits w n) ≡ w
unfolding low_digits
length-low_digits zero n = refl
length-low_digits (suc w) n =
    omega
      (arith, length-append (low_digits w (n / 10)) (digit n ∷ []), length-low_digits w (n / 10))

decimal-zero : (f : ℕ) → decimal f 0 ≡ []
unfolding decimal
decimal-zero zero = refl
decimal-zero (suc f) = refl

below_limit : (n : ℕ) → n < code_limit → n / 1000000 ≡ 0
below_limit n h = omega arith

format_06d_below : (n : ℕ) → n < code_limit → format_06d n ≡ low_digits 6 n
unfolding format_06d
format_06d_below n h = rw (below_limit n h, decimal-zero n)

-- The number that a string of digits denotes.
abbrev pub number : ℕ → Bytes → ℕ
number acc [] = acc
number acc (c ∷ s) = number (acc * 10 + (c - b'0')) s

number-low_digits : (n : ℕ) → n < code_limit → number 0 (low_digits 6 n) ≡ n
unfolding low_digits
number-low_digits n h = omega arith

-- Every draw below a million gives a code of exactly six digits, which denotes the number drawn, so
-- different draws give different codes.
pub new_pair_code_shape :
    (n : ℕ)
    → n < code_limit
    → (code : Bytes) × (new_pair_code (some n) ≡ ok code)
      × (length code ≡ 6)
      × AreDigits code
      × (number 0 code ≡ n)
unfolding new_pair_code
new_pair_code_shape n h = (
  format_06d n,
  refl,
  rw (format_06d_below n h) (length-low_digits 6 n),
  rw (format_06d_below n h) (low_digits-AreDigits 6 n),
  rw (format_06d_below n h) (number-low_digits n h),
)

-- A token is never empty.
pub new_token-ne-nil :
    (draw : Option (List ℕ)) (token : Bytes)
    → ((b : List ℕ) → draw ≡ some b → AreBytes b × (length b ≡ 32))
    → new_token draw ≡ ok token
    → token ≢ []
unfolding new_token
new_token-ne-nil none token h e = cc
new_token-ne-nil (some b) token h e = ground (arith, length-encode b, (h b refl).1)
