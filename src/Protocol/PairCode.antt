-- ===== src/Protocol/PairCode.antt =====
-- internal/protocol/types.go: the written form of a pairing code.
use deepseek_project.Base.{
  ℕ, zero, suc, ◌≡◌, refl, Bytes, codes, [], ◌∷◌, ◌++◌, Bool, true, ◌&&◌, leb, ◌==◌, if◌then◌else◌,
  Bool-cases, inl, inr, length, take, drop, arith, All, append-nil, ap, sym, ◌∙◌,
}

unfoldable pub is_digit : ℕ → Bool
is_digit c = leb b'0' c && leb c b'9'

-- The loop of `NormalizePairCode`: the digits, in order.
unfoldable pub normalize_pair_code : Bytes → Bytes
normalize_pair_code [] = []
normalize_pair_code (c ∷ s) =
    let rest = normalize_pair_code s in if is_digit c then c ∷ rest else rest

unfoldable pub format_pair_code : Bytes → Bytes
format_pair_code code = if length code == 6 then take 3 code ++ codes " " ++ drop 3 code else code

abbrev pub AreDigits : Bytes → Type 0
AreDigits = All (λ c. is_digit c ≡ true)

normalize-append :
    (s t : Bytes) → normalize_pair_code (s ++ t) ≡ normalize_pair_code s ++ normalize_pair_code t
unfolding normalize_pair_code
normalize-append [] t = refl
normalize-append (c ∷ s) t = ground (arith, normalize-append s t)

normalize_of_AreDigits : (s : Bytes) → AreDigits s → normalize_pair_code s ≡ s
unfolding normalize_pair_code
normalize_of_AreDigits [] h = refl
normalize_of_AreDigits (c ∷ s) h = ground (arith, normalize_of_AreDigits s h.1)

pub normalize-AreDigits : (s : Bytes) → AreDigits (normalize_pair_code s)
unfolding normalize_pair_code
normalize-AreDigits [] = tt
normalize-AreDigits (c ∷ s) = ground (arith, normalize-AreDigits s)

pub normalize_idempotent :
    (s : Bytes) → normalize_pair_code (normalize_pair_code s) ≡ normalize_pair_code s
normalize_idempotent s = normalize_of_AreDigits _ (normalize-AreDigits s)

take-append-drop : (n : ℕ) (xs : Bytes) → take n xs ++ drop n xs ≡ xs
take-append-drop zero xs = refl
take-append-drop (suc n) [] = refl
take-append-drop (suc n) (x ∷ xs) = rw (take-append-drop n xs)

normalize-take-drop :
    (n : ℕ) (s : Bytes)
    → normalize_pair_code (take n s) ++ normalize_pair_code (drop n s) ≡ normalize_pair_code s
normalize-take-drop n s =
    sym (normalize-append (take n s) (drop n s)) ∙ ap normalize_pair_code (take-append-drop n s)

normalize_space : normalize_pair_code (codes " ") ≡ []
unfolding normalize_pair_code is_digit
normalize_space = refl

-- Formatting a code for display and normalising it gives the digits of the code.
pub normalize-format :
    (s : Bytes) → normalize_pair_code (format_pair_code s) ≡ normalize_pair_code s
unfolding format_pair_code
normalize-format s = elim (Bool-cases (length s == 6)) [
  | inl six ↦
      rw six (simp (normalize-append, normalize_space, append-nil) (normalize-take-drop 3 s))
  | inr other ↦ rw other refl
]

-- A code of digits survives display and normalisation.
pub normalize-format_of_AreDigits :
    (s : Bytes) → AreDigits s → normalize_pair_code (format_pair_code s) ≡ s
normalize-format_of_AreDigits s h = normalize-format s ∙ normalize_of_AreDigits s h
