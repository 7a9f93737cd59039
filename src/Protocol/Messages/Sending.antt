-- ===== src/Protocol/Messages/Sending.antt =====
-- The events can be sent: their texts stand on one line and fit into the reader's buffer.
use deepseek_project.Base.{
  ◌≡◌, refl, Bytes, codes, [], ◌∷◌, ◌++◌, length, length-append, ◌+◌, ◌≤◌, ◌<◌, trim_space,
  trim_left, trim_left_reversed, is_space_1, is_space_2, is_space_3, All-map, arith,
}
use deepseek_project.Json.Structs.{marshal, members, member, text_value}
use deepseek_project.Json.Structs.RoundTrip.{IsText}
use deepseek_project.Json.Structs.Lines.{
  IsPrinted, marshal-IsPrinted, trim_space-marshal, length-member,
}
use deepseek_project.Protocol.Types.{StreamEvent, token, done, failure}
use deepseek_project.Protocol.Messages.{event_json, event_fields}
use deepseek_project.Protocol.Messages.RoundTrip.{delta_key, reason_key, code_key, message_key}
use deepseek_project.Protocol.Sse.{max_token}
use deepseek_project.Protocol.Sse.RoundTrip.{IsLine, IsSendable}

-- The name under which the gateway sends an event.
abbrev pub event_name : StreamEvent → Bytes
event_name (token delta) = codes "token"
event_name (done reason) = codes "done"
event_name (failure code message) = codes "error"

-- What the gateway writes for an event.
abbrev pub framed : StreamEvent → Bytes × Bytes
framed e = (event_name e, event_json e)

-- Valid UTF-8 whose JSON string fits into the reader's buffer, with the names around it.
abbrev pub IsShort : Bytes → Type 0
IsShort s = IsText s × (length s ≤ 174000)

abbrev pub IsTellable : StreamEvent → Type 0
IsTellable (token delta) = IsShort delta
IsTellable (done reason) = IsShort reason
IsTellable (failure code message) =
    IsText code × IsText message × (length code + length message ≤ 174000)

pub printed-IsLine : (s : Bytes) → IsPrinted s → IsLine s
printed-IsLine s h = All-map _ _ s (λ c p. (λ e. ground arith, λ e. ground arith)) h

json-IsPrinted : (e : StreamEvent) → IsTellable e → IsPrinted (event_json e)
unfolding event_json
json-IsPrinted (token delta) h =
    marshal-IsPrinted (event_fields (token delta)) ((delta_key, h.0), tt)
json-IsPrinted (done reason) h =
    marshal-IsPrinted (event_fields (done reason)) ((reason_key, h.0), tt)
json-IsPrinted (failure code message) h =
    marshal-IsPrinted (event_fields (failure code message))
      ((code_key, h.0), ((message_key, h.1), tt))

json_trimmed : (e : StreamEvent) → trim_space (codes " " ++ event_json e) ≡ event_json e
unfolding event_json
json_trimmed (token delta) = trim_space-marshal (codes "delta") (text_value delta) []
json_trimmed (done reason) = trim_space-marshal (codes "finish_reason") (text_value reason) []
json_trimmed (failure code message) =
    trim_space-marshal (codes "code") (text_value code) ((codes "message", text_value message) ∷ [])

json_fits : (e : StreamEvent) → IsTellable e → length (event_json e) + 6 < max_token
unfolding event_json marshal members
json_fits (token delta) h = omega (
  arith,
  h.1,
  length-member (codes "delta") delta delta_key h.0,
  length-append (member (codes "delta") (text_value delta)) (b'}' ∷ []),
)
json_fits (done reason) h = omega (
  arith,
  h.1,
  length-member (codes "finish_reason") reason reason_key h.0,
  length-append (member (codes "finish_reason") (text_value reason)) (b'}' ∷ []),
)
json_fits (failure code message) h =
    let first = member (codes "code") (text_value code) in
    let second = member (codes "message") (text_value message) in
    omega (
      arith,
      h.2,
      length-member (codes "code") code code_key h.0,
      length-member (codes "message") message message_key h.1,
      length-append second (b'}' ∷ []),
      length-append first (b',' ∷ (second ++ b'}' ∷ [])),
    )

event_name-IsLine : (e : StreamEvent) → IsLine (event_name e)
event_name-IsLine (token delta) = ground arith
event_name-IsLine (done reason) = ground arith
event_name-IsLine (failure code message) = ground arith

name_trimmed : (e : StreamEvent) → trim_space (codes " " ++ event_name e) ≡ event_name e
unfolding trim_space trim_left trim_left_reversed is_space_1 is_space_2 is_space_3
name_trimmed (token delta) = refl
name_trimmed (done reason) = refl
name_trimmed (failure code message) = refl

name_fits : (e : StreamEvent) → length (event_name e) + 7 < max_token
name_fits (token delta) = omega arith
name_fits (done reason) = omega arith
name_fits (failure code message) = omega arith

pub framed-IsSendable : (e : StreamEvent) → IsTellable e → IsSendable (framed e)
framed-IsSendable e h = record {
  name_line = event_name-IsLine e;
  json_line = printed-IsLine (event_json e) (json-IsPrinted e h);
  name_trimmed = name_trimmed e;
  json_trimmed = json_trimmed e;
  name_fits = name_fits e;
  json_fits = json_fits e h;
}
