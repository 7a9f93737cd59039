-- ===== src/Command/Body.antt =====
-- cmd/dsgateway/main.go: what `runApprove` posts is what the gateway reads.
use deepseek_project.Base.{
  ◌≡◌, ◌≢◌, ◌≤◌, refl, sym, ap, ◌∙◌, Bytes, Bytes-discrete, ℕ_discrete, codes, List, [], ◌∷◌, ◌++◌,
  some, length, length-append, All-map, take_all, append-nil, arith, take,
}
use deepseek_project.Json.Utf8.{next_rune}
use deepseek_project.Json.Strings.RoundTrip.{is_utf8}
use deepseek_project.Json.Structs.{
  text_value, marshal, members, member, decode_first, text_field, bool_field, fold_fields, all_fit,
  names, fold_name, fold_letter, Scalar,
}
use deepseek_project.Json.Structs.RoundTrip.{IsText, ascii-IsText, parse_first-marshal}
use deepseek_project.Json.Structs.Lines.{length-member}
use deepseek_project.Protocol.PairCode.{
  normalize_pair_code, AreDigits, is_digit, normalize-AreDigits,
}
use deepseek_project.Protocol.Messages.{approve_json, approve_of}
use deepseek_project.Gateway.Server.{decode_json}
use deepseek_project.Gateway.Handlers.Pairing.{code_request}
use deepseek_project.Command.{approve_body}

pairing_code-IsText : IsText (codes "pairing_code")
unfolding is_utf8 next_rune
pairing_code-IsText = refl

digits-IsText : (s : Bytes) → AreDigits s → IsText s
unfolding is_digit
digits-IsText s h = ascii-IsText s (All-map _ _ s (λ c d. ground arith) h)

abbrev code_fields : Bytes → List (Bytes × Scalar)
code_fields code = (codes "pairing_code", text_value code) ∷ []

code_only :
    (code : Bytes) → code ≢ [] → approve_json (code_request code) ≡ marshal (code_fields code)
unfolding approve_json Bytes-discrete
code_only [] h = absurd (h refl)
code_only (c ∷ code) h = refl

code_fits :
    (code : Bytes) → IsText code → length code ≤ 600 → length (marshal (code_fields code)) ≤ 4096
unfolding marshal members
code_fits code text short = omega (
  arith,
  length-member (codes "pairing_code") code pairing_code-IsText text,
  length-append (member (codes "pairing_code") (text_value code)) (b'}' ∷ []),
)

code_read :
    (code : Bytes)
    → IsText code
    → decode_first approve_of (marshal (code_fields code) ++ []) ≡ some (code_request code)
unfolding decode_first text_field bool_field fold_fields all_fit names fold_name fold_letter
    Bytes-discrete ℕ_discrete
code_read code text =
    rw
      (parse_first-marshal (codes "pairing_code") (text_value code) [] [] pairing_code-IsText text
        tt)
      refl

-- What the command posts is read as a request with the code's digits alone.
pub approve_body-read :
    (typed : Bytes)
    → normalize_pair_code typed ≢ []
    → length (normalize_pair_code typed) ≤ 600
    → decode_json approve_of (approve_body typed) 4096
      ≡ some (code_request (normalize_pair_code typed))
unfolding decode_json approve_body
approve_body-read typed filled short =
    let code = normalize_pair_code typed in
    let text = digits-IsText code (normalize-AreDigits typed) in
    let whole = marshal (code_fields code) in
    ap (λ b. decode_first approve_of (take 4096 b)) (code_only code filled)
    ∙ (ap (decode_first approve_of)
          (take_all 4096 whole (code_fits code text short) ∙ sym (append-nil whole))
        ∙ code_read code text)
