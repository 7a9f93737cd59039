-- ===== src/Protocol/Messages/RoundTrip.antt =====
-- The messages are read back from their JSON texts, which a stream of events can carry.
use deepseek_project.Base.{◌≡◌, refl, Bytes, Bytes-discrete, ℕ_discrete, codes, [], ◌∷◌, ◌++◌, some}
use deepseek_project.Json.Utf8.{next_rune}
use deepseek_project.Json.Strings.RoundTrip.{is_utf8}
use deepseek_project.Json.Structs.{
  text_value, fold_name, fold_letter, text_field, fold_fields, all_fit, names, decode_first,
}
use deepseek_project.Json.Structs.RoundTrip.{IsText, parse-marshal, parse_first-marshal}
use deepseek_project.Protocol.Types.{token, done, failure, ErrorBody, PromptRequest}
use deepseek_project.Protocol.Messages.{
  event_json, decode_token, decode_done, decode_error, error_body, error_json, prompt_json,
  prompt_of,
}

pub delta_key : IsText (codes "delta")
unfolding is_utf8 next_rune
delta_key = refl

pub reason_key : IsText (codes "finish_reason")
unfolding is_utf8 next_rune
reason_key = refl

pub code_key : IsText (codes "code")
unfolding is_utf8 next_rune
code_key = refl

pub message_key : IsText (codes "message")
unfolding is_utf8 next_rune
message_key = refl

content_key : IsText (codes "content")
unfolding is_utf8 next_rune
content_key = refl

pub decode_token-json :
    (delta : Bytes) → IsText delta → decode_token (event_json (token delta)) ≡ some delta
unfolding decode_token event_json text_field fold_fields all_fit names fold_name fold_letter
    Bytes-discrete ℕ_discrete
decode_token-json delta h =
    rw (parse-marshal (codes "delta") (text_value delta) [] delta_key h tt) refl

pub decode_done-json :
    (reason : Bytes) → IsText reason → decode_done (event_json (done reason)) ≡ some reason
unfolding decode_done event_json text_field fold_fields all_fit names fold_name fold_letter
    Bytes-discrete ℕ_discrete
decode_done-json reason h =
    rw (parse-marshal (codes "finish_reason") (text_value reason) [] reason_key h tt) refl

pub decode_error-json :
    (code message : Bytes)
    → IsText code
    → IsText message
    → decode_error (event_json (failure code message))
      ≡ some (record { code = code; message = message })
unfolding decode_error event_json text_field fold_fields all_fit names fold_name fold_letter
    Bytes-discrete ℕ_discrete
decode_error-json code message h k =
    rw
      (parse-marshal (codes "code") (text_value code) ((codes "message", text_value message) ∷ [])
        code_key h ((message_key, k), tt))
      refl

-- The body of an error is read back, whatever stands behind it.
pub error_body-json :
    (b : ErrorBody) (rest : Bytes)
    → IsText b.code
    → IsText b.message
    → error_body (error_json b ++ rest) ≡ b
unfolding error_body error_json fold_fields names fold_name fold_letter Bytes-discrete ℕ_discrete
error_body-json b rest h k =
    rw
      (parse_first-marshal (codes "code") (text_value b.code)
        ((codes "message", text_value b.message) ∷ []) rest code_key h ((message_key, k), tt))
      refl

pub decode-prompt_json :
    (req : PromptRequest) (rest : Bytes)
    → IsText req.content
    → decode_first prompt_of (prompt_json req ++ rest) ≡ some req
unfolding decode_first prompt_json text_field fold_fields all_fit names fold_name fold_letter
    Bytes-discrete ℕ_discrete
decode-prompt_json req rest h =
    rw (parse_first-marshal (codes "content") (text_value req.content) [] rest content_key h tt)
      refl
