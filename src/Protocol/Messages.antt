-- ===== src/Protocol/Messages.antt =====
-- internal/protocol/types.go: the messages as JSON texts, by the tags of their fields, and what they
-- are read as.
pub mod RoundTrip
pub mod Sending
use deepseek_project.Base.{
  Bytes, codes, text_eq, List, [], ◌∷◌, ◌++◌, Option, none, some, Bool, if◌then◌else◌, ◌==◌,
}
use deepseek_project.Base.Options.{◌>>=◌}
use deepseek_project.Json.Values.{Fields, end, parse_first}
use deepseek_project.Json.Structs.{
  Scalar, text_value, bool_value, marshal, text_field, bool_field, fold_fields, set_text, unmarshal,
  decode_first, first_fields, number_value,
}
use deepseek_project.Crypto.{format_d}
use deepseek_project.Protocol.Types.{
  StreamEvent, token, done, failure, ErrorBody, SessionState, waiting, approved, active, destroyed,
  ApproveResponse, SessionStatusResponse, SessionCreateResponse, PromptRequest, ApproveRequest,
}

-- The tag `omitempty`: a field that is left out, or stands in front of the others.
abbrev pub omit_empty : Bytes → Bytes → List (Bytes × Scalar) → List (Bytes × Scalar)
omit_empty key text more = if text_eq text [] then more else (key, text_value text) ∷ more

abbrev pub omit_nil : Bytes → Option Bool → List (Bytes × Scalar) → List (Bytes × Scalar)
omit_nil key none more = more
omit_nil key (some b) more = (key, bool_value b) ∷ more

-- `TokenEvent`, `DoneEvent` and `ErrorEvent`
abbrev pub event_fields : StreamEvent → List (Bytes × Scalar)
event_fields (token delta) = (codes "delta", text_value delta) ∷ []
event_fields (done reason) = (codes "finish_reason", text_value reason) ∷ []
event_fields (failure code message) =
    (codes "code", text_value code) ∷ (codes "message", text_value message) ∷ []

unfoldable pub event_json : StreamEvent → Bytes
unfolding marshal
event_json e = marshal (event_fields e)

unfoldable pub decode_token : Bytes → Option Bytes
unfolding text_field
decode_token json = unmarshal (text_field (codes "delta")) json

unfoldable pub decode_done : Bytes → Option Bytes
unfolding text_field
decode_done json = unmarshal (text_field (codes "finish_reason")) json

-- The fields `code` and `message`, of an `ErrorEvent` or an `ErrorBody`.
abbrev error_of : Fields → Option ErrorBody
error_of fs = do
  code ← text_field (codes "code") fs
  message ← text_field (codes "message") fs
  some (record { code = code; message = message })

unfoldable pub decode_error : Bytes → Option ErrorBody
unfolding text_field
decode_error json = unmarshal error_of json

unfoldable pub error_json : ErrorBody → Bytes
unfolding marshal
error_json b =
    marshal ((codes "code", text_value b.code) ∷ (codes "message", text_value b.message) ∷ [])

abbrev or_end : Option Fields → Fields
or_end none = end
or_end (some fs) = fs

-- `_ = json.NewDecoder(r).Decode(&eb)`: an error leaves what has been read until then.
unfoldable pub error_body : Bytes → ErrorBody
unfolding parse_first fold_fields
error_body json =
    let fs = or_end (first_fields (parse_first json)) in
    record {
      code = fold_fields set_text (codes "code") [] fs;
      message = fold_fields set_text (codes "message") [] fs;
    }

unfoldable pub state_text : SessionState → Bytes
state_text waiting = codes "WAITING"
state_text approved = codes "APPROVED"
state_text active = codes "ACTIVE"
state_text destroyed = codes "DESTROYED"

unfoldable pub approval_json : ApproveResponse → Bytes
approval_json a = marshal (
    (codes "session_id", text_value a.session_id)
    ∷ (codes "state", text_value (state_text a.state))
    ∷ omit_empty (codes "control_token") a.control_token [])

unfoldable pub status_json : SessionStatusResponse → Bytes
unfolding marshal state_text
status_json st = marshal (
    (codes "session_id", text_value st.session_id)
    ∷ (codes "state", text_value (state_text st.state))
    ∷ omit_empty (codes "model") st.model (
        omit_nil (codes "thinking_enabled") st.thinking_enabled
          (omit_empty (codes "reasoning_effort") st.reasoning_effort [])))

unfoldable pub created_json : SessionCreateResponse → Bytes
unfolding marshal format_d
created_json r = marshal (
    (codes "session_id", text_value r.session_id)
    ∷ (codes "pairing_token", text_value r.pairing_token)
    ∷ (codes "pairing_code", text_value r.pairing_code)
    ∷ (codes "gateway_url", text_value r.gateway_url)
    ∷ (codes "expires_in", number_value (format_d r.expires_in))
    ∷ [])

-- The field `session_id` of an `ApproveResponse`, where an error of the decoding is not looked at.
unfoldable pub session_id_of : Bytes → Bytes
session_id_of json =
    fold_fields set_text (codes "session_id") [] (or_end (first_fields (parse_first json)))

unfoldable pub prompt_json : PromptRequest → Bytes
unfolding marshal
prompt_json req = marshal ((codes "content", text_value req.content) ∷ [])

abbrev pub prompt_of : Fields → Option PromptRequest
prompt_of fs = do content ← text_field (codes "content") fs; some (record { content = content })

unfoldable pub approve_json : ApproveRequest → Bytes
unfolding marshal
approve_json req = marshal (
    omit_empty (codes "pairing_token") req.pairing_token (
      omit_empty (codes "pairing_code") req.pairing_code (
        omit_empty (codes "api_key") req.api_key (
          omit_empty (codes "model") req.model (
            omit_nil (codes "thinking") req.thinking
              (omit_empty (codes "reasoning_effort") req.reasoning_effort []))))))

abbrev pub approve_of : Fields → Option ApproveRequest
approve_of fs = do
  pairing_token ← text_field (codes "pairing_token") fs
  pairing_code ← text_field (codes "pairing_code") fs
  key ← text_field (codes "api_key") fs
  model ← text_field (codes "model") fs
  thinking ← bool_field (codes "thinking") fs
  effort ← text_field (codes "reasoning_effort") fs
  some (record {
    pairing_token = pairing_token;
    pairing_code = pairing_code;
    api_key = key;
    model = model;
    thinking = thinking;
    reasoning_effort = effort;
  })
