-- ===== src/Client/Transport.antt =====
-- internal/client/transport.go: the calls of the gateway, but for `Prompt`. Each is the request that is
-- sent and what is made of its answer. The package net/http is a parameter: it brings the answer, or
-- none, and a request with these methods and addresses can be built.
use deepseek_project.Base.{
  ℕ, Bytes, codes, [], ◌++◌, Option, none, some, if◌then◌else◌, ◌==◌, trim_slashes, Result, ok, err,
  ◌>>=◌,
}
use deepseek_project.Protocol.Types.{
  SessionState, SessionCreateResponse, SessionStatusResponse, ApproveRequest,
}
use deepseek_project.Protocol.Messages.{approve_json, prompt_json}
use deepseek_project.Client.{PromptError, read_error_body}

-- `GatewayClient`, with its base address.
pub record GatewayClient : Type 0 where
  pub base_url : Bytes

unfoldable pub new_gateway_client : Bytes → GatewayClient
unfolding trim_slashes
new_gateway_client base_url = record { base_url = trim_slashes base_url }

-- What is sent; `none` is no body.
pub record Outgoing : Type 0 where
  pub method : Bytes
  pub url : Bytes
  pub body : Option Bytes

-- What comes back: nothing, or a status and a body.
pub data Incoming : Type 0 where
  no_answer : Incoming
  answer : ℕ → Bytes → Incoming

pub data CallError : Type 0 where
  unsent bad_body : CallError
  refused : PromptError → CallError

abbrev get : Bytes
get = codes "GET"

abbrev post : Bytes
post = codes "POST"

unfoldable pub outgoing : GatewayClient → Bytes → Bytes → Option Bytes → Outgoing
outgoing c method path body = record { method = method; url = c.base_url ++ path; body = body }

-- `doNoContent`, after the request.
unfoldable pub do_no_content : Incoming → Result CallError (Unit {0})
do_no_content no_answer = err unsent
do_no_content (answer status body) =
    if status == 204 then ok tt else err (refused (read_error_body body status))

abbrev or_bad_body {ℓ} : {A : Type ℓ} → Option A → Result CallError A
or_bad_body none = err bad_body
or_bad_body (some a) = ok a

-- `doJSON`, after the request; `decode` reads the body into the struct `out`.
unfoldable pub do_json {ℓ} : {A : Type ℓ} → (Bytes → Option A) → ℕ → Incoming → Result CallError A
do_json decode want no_answer = err unsent
do_json decode want (answer status body) =
    if status == want
    then or_bad_body (decode body)
    else err (refused (read_error_body body status))

abbrev pub sessions_path : Bytes → Bytes
sessions_path rest = codes "/v1/sessions/" ++ rest

unfoldable pub create_session_request : GatewayClient → Outgoing
unfolding outgoing
create_session_request c = outgoing c post (codes "/v1/sessions") none

unfoldable pub create_session :
    (Bytes → Option SessionCreateResponse) → Incoming → Result CallError SessionCreateResponse
unfolding do_json
create_session decode reply = do_json decode 201 reply

unfoldable pub status_request : GatewayClient → Bytes → Outgoing
unfolding outgoing
status_request c id = outgoing c get (sessions_path id) none

unfoldable pub status_details :
    (Bytes → Option SessionStatusResponse) → Incoming → Result CallError SessionStatusResponse
unfolding do_json
status_details decode reply = do_json decode 200 reply

unfoldable pub status :
    (Bytes → Option SessionStatusResponse) → Incoming → Result CallError SessionState
unfolding status_details
status decode reply = do st ← status_details decode reply; ok st.state

unfoldable pub prompt_outgoing : GatewayClient → Bytes → Bytes → Outgoing
unfolding outgoing
prompt_outgoing c id content =
    outgoing c post (sessions_path (id ++ codes "/prompt"))
      (some (prompt_json (record { content = content })))

unfoldable pub cancel_request : GatewayClient → Bytes → Outgoing
unfolding outgoing
cancel_request c id = outgoing c post (sessions_path (id ++ codes "/cancel")) none

unfoldable pub close_request : GatewayClient → Bytes → Outgoing
unfolding outgoing
close_request c id = outgoing c post (sessions_path (id ++ codes "/close")) none

abbrev token_request : Bytes → ApproveRequest
token_request token = record {
  pairing_token = token;
  pairing_code = [];
  api_key = [];
  model = [];
  thinking = none;
  reasoning_effort = [];
}

unfoldable pub approve_call : GatewayClient → Bytes → Outgoing
unfolding outgoing
approve_call c token =
    outgoing c post (codes "/v1/pair") (some (approve_json (token_request token)))
