-- ===== src/Gateway/Server.antt =====
-- internal/gateway/server.go: the state of the gateway, its configuration and its replies. A request's
-- body enters its handler as what `decodeJSON` returns for it, `none` for an error; the wording of error
-- messages is left out, their codes are kept.
use deepseek_project.Protocol.Messages.{error_json, created_json, status_json, approval_json}
use deepseek_project.Base.{
  ℕ, ◌*◌, Bytes, text_eq, [], ℤ, positive_or, if◌then◌else◌, take, Option, ◌++◌, ◌∷◌, codes,
}
use deepseek_project.Protocol.Types.{SessionCreateResponse, SessionStatusResponse, ApproveResponse}
use deepseek_project.Provider.Settings.{model_v4_flash}
use deepseek_project.Json.Values.{Fields}
use deepseek_project.Json.Structs.{decode_first}
use deepseek_project.Session.Types.{Manager, second}
use deepseek_project.Gateway.Limiter.{CreateLimiter, new_create_limiter}

pub record Config : Type 0 where
  pub model : Bytes
  pub manager : Manager
  pub gen_timeout : ℤ
  pub gateway_url : Bytes
  pub max_prompt_bytes : ℤ

pub record Gateway : Type 0 where
  pub model : Bytes
  pub mgr : Manager
  pub gen_timeout : ℕ
  pub gateway_url : Bytes
  pub max_prompt : ℕ
  pub limiter : CreateLimiter

unfoldable pub new : Config → Gateway
unfolding new_create_limiter
new cfg = record {
  model = if text_eq cfg.model [] then model_v4_flash else cfg.model;
  mgr = cfg.manager;
  gen_timeout = positive_or cfg.gen_timeout (60 * second);
  gateway_url = cfg.gateway_url;
  max_prompt = positive_or cfg.max_prompt_bytes (64 * 1024);
  limiter = new_create_limiter 20 (60 * second);
}

pub data Body : Type 0 where
  empty : Body
  -- `ErrorBody`, with its code
  failed : Bytes → Body
  created : SessionCreateResponse → Body
  session_status : SessionStatusResponse → Body
  approval : ApproveResponse → Body
  healthy : Body

pub record Response : Type 0 where
  pub status : ℕ
  pub body : Body

abbrev pub write_json : ℕ → Body → Response
write_json status body = record { status = status; body = body }

abbrev pub write_error : ℕ → Bytes → Response
write_error status code = write_json status (failed code)

abbrev pub no_content : Response
no_content = record { status = 204; body = empty }

-- What `writeJSON` writes behind the status, where `message` is the wording of an error.
unfoldable pub reply_text : Bytes → Body → Bytes
reply_text message empty = []
reply_text message (failed code) = error_json (record { code = code; message = message }) ++ 10 ∷ []
reply_text message (created r) = created_json r ++ 10 ∷ []
reply_text message (session_status st) = status_json st ++ 10 ∷ []
reply_text message (approval a) = approval_json a ++ 10 ∷ []
reply_text message healthy = codes "{\"status\":\"ok\"}" ++ 10 ∷ []

unfoldable pub handle_health : Gateway → Gateway × Response
handle_health g = (g, write_json 200 healthy)

-- `decodeJSON`, where `read` takes the struct's fields from the members; the body is read up to its
-- first `max_bytes` bytes.
unfoldable pub decode_json {ℓ} : {A : Type ℓ} → (Fields → Option A) → Bytes → ℕ → Option A
unfolding decode_first
decode_json read body max_bytes = decode_first read (take max_bytes body)
