-- ===== src/Gateway/Prompt.antt =====
-- internal/gateway/handlers.go: `handlePrompt` and `streamPrompt`. The handler holds no lock between its
-- calls of the manager, so it is three steps, with other requests between them: `PreparePrompt`, the
-- start of the generation, and its end. What the provider and the two contexts have done meanwhile is
-- the argument of the last step.
pub mod Concluded
pub mod Stream
pub mod Answering
pub mod World
use deepseek_project.Base.{
  ℕ, Bytes, text_eq, List, [], ◌∷◌, ◌++◌, Option, none, some, Bool, true, false, not, if◌then◌else◌,
  map, Result, ok, err, trim_space, codes,
}
use deepseek_project.Protocol.Types.{
  SessionState, waiting, state_eq, PromptRequest, StreamEvent, token, done, failure, err_upstream,
  err_timeout, err_not_found, err_not_approved, err_pairing_pending, err_bad_request,
}
use deepseek_project.Provider.{Message, CompletionRequest, CompletionResult, finish_canceled}
use deepseek_project.Provider.Settings.{GenerationSettings, zero_settings}
use deepseek_project.Session.Types.{Manager, SessionError}
use deepseek_project.Session.Create.{status, session_settings}
use deepseek_project.Session.Prompt.{prepare_prompt, finish_prompt, fail_prompt, set_gen_cancel}
use deepseek_project.Session.Destroy.{destroy}
use deepseek_project.Gateway.Server.{Gateway, Response, write_error}

-- What `handlePrompt` comes to: it has replied, or the prompt is accepted, with the history for the
-- provider.
pub data Accepted : Type 0 where
  replied : Response → Accepted
  accepted : List Message → Accepted

-- `state, _ := g.mgr.Status(id)`: the state is empty for an unknown session, and no state.
abbrev is_waiting : Result SessionError SessionState → Bool
is_waiting (err e) = false
is_waiting (ok s) = state_eq s waiting

-- The switch on the error of `PreparePrompt`.
abbrev pub prepare_error : Bytes → SessionError → Manager → Response
prepare_error id SessionError.not_found m = write_error 404 err_not_found
prepare_error id SessionError.not_approved m =
    write_error 403 (if is_waiting (status id m) then err_pairing_pending else err_not_approved)
prepare_error id e m = write_error 500 err_upstream

-- `settings, _ := g.mgr.SessionSettings(id)`
abbrev settings_or_zero : Result SessionError GenerationSettings → GenerationSettings
settings_or_zero (err e) = zero_settings
settings_or_zero (ok s) = s

abbrev pub prepared :
    Bytes → Gateway → Manager × Result SessionError (List Message) → Gateway × Accepted
prepared id g (m, err e) = (record g { mgr = m }, replied (prepare_error id e m))
prepared id g (m, ok history) = (record g { mgr = m }, accepted history)

-- `handlePrompt`. The body is `none` where it cannot be decoded.
unfoldable pub handle_prompt : Bytes → Option PromptRequest → ℕ → Gateway → Gateway × Accepted
handle_prompt id none now g = (g, replied (write_error 400 err_bad_request))
handle_prompt id (some req) now g =
    let content = trim_space req.content in
    if text_eq content []
    then (g, replied (write_error 400 err_bad_request))
    else prepared id g (prepare_prompt id content now g.mgr)

-- `streamPrompt` up to the call of the provider. `can_flush` says that the writer is an
-- `http.Flusher`, and `generation` is the number of the new context. The result is the provider's
-- request, `none` where the handler returns without a call.
unfoldable pub start_stream :
    Bytes → Bool → ℕ → ℕ → List Message → Gateway → Gateway × Option CompletionRequest
start_stream id can_flush generation now history g =
    if not can_flush
    then (record g { mgr = fail_prompt id now g.mgr }, none)
    else (let m = (set_gen_cancel id generation g.mgr).0 in
        (
          record g { mgr = m },
          some (record { settings = settings_or_zero (session_settings id m); messages = history }),
        ))

-- The generation's context when the provider has returned.
pub data ContextState : Type 0 where
  running deadline_exceeded canceled : ContextState

-- What the provider's call leaves: the deltas that it has sent, its result or error, whether the
-- client has disconnected, and the state of the generation's context.
pub record Streamed : Type 0 where
  pub deltas : List Bytes
  -- an error is given by its message
  pub result : Result Bytes CompletionResult
  pub client_gone : Bool
  pub context : ContextState

-- The events of the stream, in order.
abbrev pub sent : List Bytes → List StreamEvent
sent = map token

-- The last two cases but one of the switch, and its default.
abbrev pub complete :
    Bytes → ContextState → CompletionResult → ℕ → Manager → Manager × List StreamEvent
complete id deadline_exceeded result now m =
    (fail_prompt id now m, failure err_timeout (codes "generation timed out") ∷ [])
complete id canceled result now m =
    (finish_prompt id result.full_text finish_canceled now m, done finish_canceled ∷ [])
complete id running result now m =
    (finish_prompt id result.full_text result.finish_reason now m, done result.finish_reason ∷ [])

abbrev pub conclude :
    Bytes → ContextState → Result Bytes CompletionResult → ℕ → Manager → Manager × List StreamEvent
conclude id context (err message) now m = (fail_prompt id now m, failure err_upstream message ∷ [])
conclude id context (ok result) now m = complete id context result now m

-- The switch at the end of `streamPrompt`.
unfoldable pub end_prompt : Bytes → Streamed → ℕ → Manager → Manager × List StreamEvent
end_prompt id s now m =
    if s.client_gone
    then (destroy id m, sent s.deltas)
    else (let (m', last) = conclude id s.context s.result now m in (m', sent s.deltas ++ last))
