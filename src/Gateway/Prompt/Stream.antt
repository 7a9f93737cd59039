-- ===== src/Gateway/Prompt/Stream.antt =====
-- internal/gateway/handlers.go: one prompt as the handler serves it, alone. What the provider receives, what the client sees, and what the
-- session remembers.
use deepseek_project.Gateway.Prompt.Concluded.{IsConcluded, end_prompt-IsConcluded, end_prompt-idle}
use deepseek_project.Base.{
  ℕ, ◌+◌, ◌≡◌, ◌≢◌, inl, inr, Bytes, List, [], ◌∷◌, ◌++◌, Option, none, some, true, false, arith,
  find, update, Option-cases, Option, ok, trim_space, ap,
}
use deepseek_project.Protocol.Types.{
  waiting, approved, PromptRequest, StreamEvent, err_not_found, err_not_approved,
  err_pairing_pending, err_bad_request, SessionState,
}
use deepseek_project.Provider.{Message}
use deepseek_project.Provider.Settings.{zero_settings}
use deepseek_project.Session.Types.{Manager, store}
use deepseek_project.Session.Create.{status, session_history, session_settings, get}
use deepseek_project.Session.Prompt.{
  prepare_prompt, set_gen_cancel, cancel_generation, user_message, with_cancel, with_prompt,
}
use deepseek_project.Session.Destroy.Laws.{find-destroy, IsErased, destroy-IsErased}
use deepseek_project.Gateway.Server.{Gateway, Response, write_error}
use deepseek_project.Gateway.Handlers.{handle_close, handle_cancel}
use deepseek_project.Gateway.Prompt.{
  replied, accepted, Streamed, handle_prompt, start_stream, end_prompt, sent,
}

-- The state of a session, if there is one.
abbrev pub state_of : Bytes → Manager → Option SessionState
state_of id m = elim (find id m.sessions) [ none ↦ none | some p ↦ some (m.heap p).state ]

-- How a prompt with the trimmed text given is refused, in a given state.
abbrev pub refusal : Bytes → Option SessionState → Response
refusal [] state = write_error 400 err_bad_request
refusal (c ∷ content) none = write_error 404 err_not_found
refusal (c ∷ content) (some waiting) = write_error 403 err_pairing_pending
refusal (c ∷ content) (some _) = write_error 403 err_not_approved

-- A prompt is refused without a change: a blank one as a bad request, one for a session that is not there
-- as not found, one for a session that waits for its pairing with a code that says so, and any other
-- as not approved.
pub handle_prompt_refused :
    (id : Bytes) (req : PromptRequest) (now : ℕ) (g : Gateway) (r : Response)
    → (handle_prompt id (some req) now g).1 ≡ replied r
    → ((handle_prompt id (some req) now g).0 ≡ g)
      × (r ≡ refusal (trim_space req.content) (state_of id g.mgr))
unfolding handle_prompt prepare_prompt status
handle_prompt_refused id req now g r h = elim (Option-cases (find id g.mgr.sessions)) [
  | inl e ↦ ground arith
  | inr (p, e) ↦ ground arith
]

-- The three steps of one prompt, one directly after the other.
module _ (id : Bytes) (req : PromptRequest) (now later generation : ℕ) (g : Gateway) (p : ℕ)
    (nonblank : trim_space req.content ≢ []) (found : find id g.mgr.sessions ≡ some p)
    (idle : (g.mgr.heap p).state ≡ approved) where
  abbrev pub asked : List Message
  asked = (g.mgr.heap p).history ++ user_message (trim_space req.content) ∷ []

  -- A prompt that is not blank, for a session that is approved and idle, is accepted. If the generation
  -- starts with no other request in between, the provider receives the settings that the session was
  -- paired with and the whole conversation, the trimmed prompt at its end.
  pub prompt_request :
      ((handle_prompt id (some req) now g).1 ≡ accepted asked)
      × ((start_stream id true generation later asked (handle_prompt id (some req) now g).0).1
          ≡ some (record { settings = (g.mgr.heap p).settings; messages = asked }))
  unfolding handle_prompt prepare_prompt start_stream set_gen_cancel session_settings store update
  prompt_request = ground arith

  -- The gateway when the provider is called.
  abbrev pub streaming : Gateway
  streaming = (start_stream id true generation later asked (handle_prompt id (some req) now g).0).0

  streaming-found : find id streaming.mgr.sessions ≡ some p
  unfolding handle_prompt prepare_prompt start_stream set_gen_cancel store
  streaming-found = ground arith

  streaming-cell :
      streaming.mgr.heap p
      ≡ with_cancel
          (some generation)
          (with_prompt (trim_space req.content) (now + g.mgr.cfg.idle_timeout) (g.mgr.heap p))
  unfolding handle_prompt prepare_prompt start_stream set_gen_cancel store update
  streaming-cell = ground arith

  before_is : session_history id g.mgr ≡ (g.mgr.heap p).history
  unfolding session_history
  before_is = ground arith

  -- A prompt that is not blank, for a session that is approved and idle, where no other request comes in
  -- between its acceptance, its start and its end: the stream of a client that stays connected has the
  -- deltas and then exactly one last event, which agrees with what the session remembers: after an error event the
  -- history is what it was before the prompt, after a done event it has the prompt and the text that
  -- the provider returned. The session is ready for the next prompt, and no cancel function is kept.
  pub prompt_outcome :
      (s : Streamed) (end : ℕ)
      → s.client_gone ≡ false
      → let k = end_prompt id s end streaming.mgr in
        ((last : List StreamEvent) × (k.1 ≡ sent s.deltas ++ last)
          × IsConcluded (session_history id g.mgr) asked (session_history id k.0) s last)
        × (status id k.0 ≡ ok approved)
        × (((k.0.heap p).gen_cancel) ≡ none)
  prompt_outcome s end here =
      let m = streaming.mgr in
      let asks = ap (λ x. x.history) streaming-cell in
      let i =
        end_prompt-idle id (trim_space req.content) (g.mgr.heap p).history end m p streaming-found
          asks s here in
      (
        rw before_is (
            end_prompt-IsConcluded id (trim_space req.content) (g.mgr.heap p).history end m p
              streaming-found asks s here),
        i.0,
        i.1,
      )

  -- A prompt that is not blank, for a session that is approved and idle, where no other request comes in
  -- between its acceptance, its start and its end: when the client has disconnected, the stream has no
  -- last event, the session is gone, and its generation has been cancelled.
  pub prompt_disconnected :
      (s : Streamed) (end : ℕ)
      → s.client_gone ≡ true
      → let k = end_prompt id s end streaming.mgr in
        (k.1 ≡ sent s.deltas)
        × IsErased id p streaming.mgr k.0
        × (k.0.cancelled ≡ generation ∷ streaming.mgr.cancelled)
  unfolding end_prompt
  prompt_disconnected s end gone =
      let e = destroy-IsErased id p streaming.mgr streaming-found in
      ground (arith, e, streaming-cell, e.stopped)

-- A session that is closed between the acceptance of its prompt and the start of the generation still has
-- its prompt sent to the provider, with settings that are not the session's but all empty, and no request
-- can cancel that generation.
pub closed_still_streams :
    (id : Bytes) (generation later : ℕ) (history : List Message) (g : Gateway)
    → let k = (handle_close id g).0 in
      (start_stream id true generation later history k
        ≡ (k, some (record { settings = zero_settings; messages = history })))
      × (handle_cancel id k ≡ (k, write_error 404 err_not_found))
unfolding handle_close start_stream set_gen_cancel session_settings handle_cancel cancel_generation
    get
closed_still_streams id generation later history g = elim (Option-cases (find id g.mgr.sessions)) [
  | inl e ↦ ground arith
  | inr (p, e) ↦ ground (arith, find-destroy id id g.mgr)
]
