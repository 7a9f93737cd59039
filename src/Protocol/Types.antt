-- ===== src/Protocol/Types.antt =====
-- internal/protocol/types.go: the states of a session, the messages and the error codes.
use deepseek_project.Base.{ℕ, Bytes, codes, Bool, true, false, Option}

pub data SessionState : Type 0 where
  waiting approved active destroyed : SessionState

-- `==` on states.
abbrev pub state_eq : SessionState → SessionState → Bool
state_eq waiting waiting = true
state_eq approved approved = true
state_eq active active = true
state_eq destroyed destroyed = true
state_eq _ _ = false

pub record SessionCreateResponse : Type 0 where
  pub session_id : Bytes
  pub pairing_token : Bytes
  pub pairing_code : Bytes
  pub gateway_url : Bytes
  pub expires_in : ℕ

-- An empty text and an absent flag are left out of the JSON text.
pub record SessionStatusResponse : Type 0 where
  pub session_id : Bytes
  pub state : SessionState
  pub model : Bytes
  pub thinking_enabled : Option Bool
  pub reasoning_effort : Bytes

pub record PromptRequest : Type 0 where
  pub content : Bytes

pub record ApproveRequest : Type 0 where
  pub pairing_token : Bytes
  pub pairing_code : Bytes
  pub api_key : Bytes
  pub model : Bytes
  pub thinking : Option Bool
  pub reasoning_effort : Bytes

pub record ApproveResponse : Type 0 where
  pub session_id : Bytes
  pub state : SessionState
  pub control_token : Bytes

-- The data of the streamed events.
pub data StreamEvent : Type 0 where
  -- `TokenEvent`, with the delta
  token : Bytes → StreamEvent
  -- `DoneEvent`, with the finish reason
  done : Bytes → StreamEvent
  -- `ErrorEvent`, with the code and the message
  failure : Bytes → Bytes → StreamEvent

pub record ErrorBody : Type 0 where
  pub code : Bytes
  pub message : Bytes

abbrev pub err_upstream : Bytes
err_upstream = codes "upstream_error"

abbrev pub err_timeout : Bytes
err_timeout = codes "generation_timeout"

abbrev pub err_pairing_pending : Bytes
err_pairing_pending = codes "pairing_pending"

abbrev pub err_pairing_expired : Bytes
err_pairing_expired = codes "pairing_expired"

abbrev pub err_already_paired : Bytes
err_already_paired = codes "already_approved"

abbrev pub err_not_found : Bytes
err_not_found = codes "not_found"

abbrev pub err_too_many_sessions : Bytes
err_too_many_sessions = codes "too_many_sessions"

abbrev pub err_not_approved : Bytes
err_not_approved = codes "not_approved"

abbrev pub err_bad_request : Bytes
err_bad_request = codes "bad_request"

abbrev pub err_unauthorized : Bytes
err_unauthorized = codes "unauthorized"

abbrev pub err_invalid_settings : Bytes
err_invalid_settings = codes "invalid_settings"

abbrev pub err_not_implemented : Bytes
err_not_implemented = codes "not_implemented"
