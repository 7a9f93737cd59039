-- ===== src/Gateway/Handlers.antt =====
-- internal/gateway/handlers.go: all requests but the prompt.
pub mod Laws
pub mod Bearer
pub mod Pairing
use deepseek_project.Base.{
  ℕ, ◌/◌, ◌+◌, ◌-◌, Bytes, codes, text_eq, List, [], ◌∷◌, Option, none, some, Bool, true, false,
  not, ◌&&◌, ◌||◌, if◌then◌else◌, ltb, leb, length, take, drop, map, Result, ok, err, trim_space,
}
use deepseek_project.Protocol.Types.{
  SessionState, ApproveRequest, SessionStatusResponse, err_upstream, err_pairing_expired,
  err_already_paired, err_not_found, err_too_many_sessions, err_bad_request, err_unauthorized,
  err_invalid_settings, err_not_implemented,
}
use deepseek_project.Protocol.PairCode.{normalize_pair_code, format_pair_code}
use deepseek_project.Provider.Settings.{GenerationSettings, parse_settings}
use deepseek_project.Session.Types.{Manager, SessionError, second}
use deepseek_project.Session.Create.{Draws, create, status, session_settings, control_token, get}
use deepseek_project.Session.Approve.{approve_by_token_with_settings, approve_by_code_with_settings}
use deepseek_project.Session.Prompt.{cancel_generation}
use deepseek_project.Session.Destroy.{destroy, end_by_control_token}
use deepseek_project.Gateway.Limiter.{allow}
use deepseek_project.Gateway.Server.{
  Gateway, Response, Body, created, session_status, approval, write_json, write_error, no_content,
}

abbrev pub with_mgr : Gateway → Manager → Gateway
with_mgr g m = record g { mgr = m }

-- The reply to `Create`.
abbrev pub create_reply : Gateway → Manager × Result SessionError ℕ → Gateway × Response
create_reply g (m, err SessionError.max_sessions) =
    (with_mgr g m, write_error 429 err_too_many_sessions)
create_reply g (m, err e) = (with_mgr g m, write_error 500 err_upstream)
create_reply g (m, ok p) = (
  with_mgr g m,
  write_json 201 (
      created (record {
        session_id = (m.heap p).id;
        pairing_token = (m.heap p).pair_token;
        pairing_code = format_pair_code (m.heap p).pair_code;
        gateway_url = g.gateway_url;
        expires_in = m.cfg.pair_timeout / second;
      })),
)

-- The body is read and not used.
unfoldable pub handle_create : Draws → ℕ → Gateway → Gateway × Response
handle_create d now g =
    let (l, allowed) = allow now g.limiter in
    let g' = record g { limiter = l } in
    if not allowed
    then (g', write_error 429 err_too_many_sessions)
    else create_reply g' (create d now g.mgr)

-- The second switch of `handleApprove`.
abbrev pub approve_error : SessionError → Response
approve_error SessionError.not_found = write_error 404 err_not_found
approve_error SessionError.pairing_expired = write_error 410 err_pairing_expired
approve_error SessionError.already_approved = write_error 409 err_already_paired
approve_error SessionError.invalid_settings = write_error 400 err_invalid_settings
approve_error _ = write_error 500 err_upstream

-- The reply with the session's control token.
abbrev token_reply : Manager → ℕ → Result SessionError Bytes → Response
token_reply m p (err e) = write_error 500 err_upstream
token_reply m p (ok tok) = write_json 200 (
    approval (record { session_id = (m.heap p).id; state = (m.heap p).state; control_token = tok }))

abbrev pub approve_reply : Gateway → Manager × Result SessionError ℕ → Gateway × Response
approve_reply g (m, err e) = (with_mgr g m, approve_error e)
approve_reply g (m, ok p) = (with_mgr g m, token_reply m p (control_token (m.heap p).id m))

-- The first switch of `handleApprove`.
unfoldable pub approve_request :
    ApproveRequest → GenerationSettings → Option (List ℕ) → ℕ → Gateway → Gateway × Response
approve_request req settings draw now g =
    if not (text_eq req.pairing_token [])
    then approve_reply g (approve_by_token_with_settings req.pairing_token settings draw now g.mgr)
    else (if not (text_eq req.pairing_code [])
        then approve_reply g (
            approve_by_code_with_settings (normalize_pair_code req.pairing_code) settings draw now
              g.mgr)
        else (g, write_error 400 err_bad_request))

unfoldable pub handle_approve :
    Option ApproveRequest → Option (List ℕ) → ℕ → Gateway → Gateway × Response
handle_approve none draw now g = (g, write_error 400 err_bad_request)
handle_approve (some req) draw now g =
    elim (parse_settings g.model req.model req.thinking req.reasoning_effort) [
      | err e ↦ (g, write_error 400 err_invalid_settings)
      | ok settings ↦
          if not (text_eq req.api_key [])
          then (g, write_error 501 err_not_implemented)
          else approve_request req settings draw now g
    ]

-- The optional fields of the status.
abbrev status_reply :
    Bytes → SessionState → Result SessionError GenerationSettings → SessionStatusResponse
status_reply id state (err e) = record {
  session_id = id;
  state = state;
  model = [];
  thinking_enabled = none;
  reasoning_effort = [];
}
status_reply id state (ok s) =
    if text_eq s.model []
    then record {
      session_id = id;
      state = state;
      model = [];
      thinking_enabled = none;
      reasoning_effort = [];
    }
    else record {
      session_id = id;
      state = state;
      model = s.model;
      thinking_enabled = some s.thinking_enabled;
      reasoning_effort = s.reasoning_effort;
    }

unfoldable pub handle_status : Bytes → Gateway → Gateway × Response
handle_status id g = elim (status id g.mgr) [
  | err e ↦ (g, write_error 404 err_not_found)
  | ok state ↦
      (g, write_json 200 (session_status (status_reply id state (session_settings id g.mgr))))
]

unfoldable pub handle_close : Bytes → Gateway → Gateway × Response
handle_close id g = elim (get id g.mgr) [
  | none ↦ (g, write_error 404 err_not_found)
  | some p ↦ (with_mgr g (destroy id g.mgr), no_content)
]

-- An ASCII letter in lower case.
abbrev fold : ℕ → ℕ
fold c = if leb b'A' c && leb c b'Z' then c + 32 else c

-- `strings.EqualFold` for the prefix "Bearer ", whose letters are no one else's fold.
abbrev pub equal_fold : Bytes → Bytes → Bool
equal_fold s t = text_eq (map fold s) (map fold t)

unfoldable pub bearer_token : Bytes → Bytes
bearer_token header =
    let prefix = codes "Bearer " in
    if ltb (length prefix) (length header) && equal_fold (take (length prefix) header) prefix
    then trim_space (drop (length prefix) header)
    else []

abbrev pub end_reply : Gateway → Manager × Result SessionError (Unit {0}) → Gateway × Response
end_reply g (m, err SessionError.not_found) = (with_mgr g m, write_error 404 err_not_found)
end_reply g (m, err SessionError.unauthorized) = (with_mgr g m, write_error 403 err_unauthorized)
end_reply g (m, err e) = (with_mgr g m, write_error 500 err_upstream)
end_reply g (m, ok done) = (with_mgr g m, no_content)

-- The second argument is the request's Authorization header, empty if it has none.
unfoldable pub handle_end : Bytes → Bytes → Gateway → Gateway × Response
handle_end id header g =
    let token = bearer_token header in
    if text_eq token []
    then (g, write_error 401 err_unauthorized)
    else end_reply g (end_by_control_token id token g.mgr)

abbrev pub cancel_reply : Gateway → Manager × Result SessionError (Unit {0}) → Gateway × Response
cancel_reply g (m, err e) = (with_mgr g m, write_error 404 err_not_found)
cancel_reply g (m, ok done) = (with_mgr g m, no_content)

unfoldable pub handle_cancel : Bytes → Gateway → Gateway × Response
handle_cancel id g = cancel_reply g (cancel_generation id g.mgr)
