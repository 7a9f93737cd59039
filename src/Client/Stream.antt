-- ===== src/Client/Stream.antt =====
-- What the terminal makes of the events that the gateway sends.
use deepseek_project.Base.{
  Bytes, ◌≡◌, refl, List, [], ◌∷◌, ◌++◌, Option, none, some, map, All, append_assoc, append-nil,
  Bytes-discrete, ℕ_discrete, ap, ◌∙◌,
}
use deepseek_project.Protocol.Types.{StreamEvent, token, done, failure}
use deepseek_project.Protocol.Sse.{Flow, go}
use deepseek_project.Protocol.Sse.RoundTrip.{
  IsSendable, written, dispatch, outcome, read_sse-written,
}
use deepseek_project.Gateway.Prompt.{sent}
use deepseek_project.Protocol.Messages.RoundTrip.{
  decode_token-json, decode_done-json, decode_error-json,
}
use deepseek_project.Protocol.Messages.Sending.{framed, IsTellable, framed-IsSendable}
use deepseek_project.Client.{
  PromptError, reported, too_long, Reading, on_event, prompt, without_stop,
}

-- The terminal shows each delta behind the others.
abbrev pub shows : Bytes → List Bytes → Flow PromptError (List Bytes)
shows delta shown = go (shown ++ delta ∷ [])

-- What the terminal makes of deltas and a last event: what it has shown, the finish reason, the error.
abbrev pub told : List Bytes → StreamEvent → Reading (List Bytes) × Option PromptError
told deltas (token delta) = (record { finish = []; outside = deltas ++ delta ∷ [] }, none)
told deltas (done reason) = (record { finish = reason; outside = deltas }, none)
told deltas (failure code message) =
    (record { finish = []; outside = deltas }, some (reported code message))

dispatch_last :
    (shown : List Bytes) (last : StreamEvent)
    → IsTellable last
    → without_stop shows (
        outcome
          (on_event shows)
          none
          (dispatch (on_event shows) (framed last ∷ []) (record { finish = []; outside = shown })))
      ≡ told shown last
unfolding on_event Bytes-discrete ℕ_discrete
dispatch_last shown (token delta) h = rw (decode_token-json delta h.0) refl
dispatch_last shown (done reason) h = rw (decode_done-json reason h.0) refl
dispatch_last shown (failure code message) h = rw (decode_error-json code message h.0 h.1) refl

dispatch-sent :
    (deltas shown : List Bytes) (last : StreamEvent)
    → All IsTellable (sent deltas ++ last ∷ [])
    → without_stop shows (
        outcome (on_event shows) none (
          dispatch
            (on_event shows)
            (map framed (sent deltas ++ last ∷ []))
            (record { finish = []; outside = shown })))
      ≡ told (shown ++ deltas) last
unfolding on_event Bytes-discrete ℕ_discrete
dispatch-sent [] shown last h = rw (append-nil shown) (dispatch_last shown last h.0)
dispatch-sent (d ∷ deltas) shown last h = rw (decode_token-json d h.0.0) (
    dispatch-sent deltas (shown ++ d ∷ []) last h.1
    ∙ ap (λ x. told x last) (append_assoc shown (d ∷ []) deltas))

-- The events as the gateway writes them.
abbrev pub stream_of : List StreamEvent → Bytes
stream_of events = written (map framed events)

All-IsSendable :
    (events : List StreamEvent) → All IsTellable events → All IsSendable (map framed events)
All-IsSendable [] h = tt
All-IsSendable (e ∷ events) h = (framed-IsSendable e h.0, All-IsSendable events h.1)

-- The terminal that reads the stream of deltas and one last event, as the gateway writes it, shows
-- exactly these deltas in their order, and returns the finish reason of a done event and the code and
-- the message of an error event. The texts are valid UTF-8 and no longer than 174000 bytes.
pub prompt_of_stream :
    (deltas : List Bytes) (last : StreamEvent)
    → All IsTellable (sent deltas ++ last ∷ [])
    → prompt shows 200 (stream_of (sent deltas ++ last ∷ [])) none [] ≡ told deltas last
unfolding prompt
prompt_of_stream deltas last h =
    ap (without_stop shows) (
      read_sse-written (on_event shows) too_long none (map framed (sent deltas ++ last ∷ []))
        (record { finish = []; outside = [] }) (All-IsSendable (sent deltas ++ last ∷ []) h))
    ∙ dispatch-sent deltas [] last h
