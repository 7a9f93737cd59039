-- ===== src/Client/Exchange.antt =====
-- One prompt from the terminal to the model and back: the client of the model's API streams an answer,
-- the gateway sends it and keeps it, and the terminal reads it.
use deepseek_project.Session.Types.{Manager}
use deepseek_project.Session.Prompt.{user_message}
use deepseek_project.Base.{
  ℕ, Bytes, ◌≡◌, ◌≢◌, ◌⊎◌, inl, inr, refl, sym, ap, ◌∙◌, subst, List, [], ◌∷◌, ◌++◌, Option, none,
  some, Bool, true, false, All, find, trim_space, Result, ok, err, ok_inj,
}
use deepseek_project.Protocol.Types.{StreamEvent, done, failure, approved, PromptRequest}
use deepseek_project.Provider.{Message, CompletionResult}
use deepseek_project.Provider.Deepseek.{Choice, StreamError, HttpOutcome, stream_completion}
use deepseek_project.Provider.Deepseek.Stream.{concat, showing, stream_completion-shown}
use deepseek_project.Session.Create.{session_history}
use deepseek_project.Gateway.Server.{Gateway}
use deepseek_project.Gateway.Prompt.{
  Streamed, ContextState, handle_prompt, start_stream, end_prompt, sent,
}
use deepseek_project.Gateway.Prompt.Concluded.{IsConcluded, failed, kept, answered}
use deepseek_project.Gateway.Prompt.Stream.{prompt_outcome}
use deepseek_project.Client.{PromptError, Reading, reported, prompt}
use deepseek_project.Client.Stream.{shows, stream_of, prompt_of_stream}
use deepseek_project.Protocol.Messages.Sending.{IsTellable}

-- The history with the prompt.
abbrev pub prompted_by : PromptRequest → Gateway → ℕ → List Message
prompted_by req g p = (g.mgr.heap p).history ++ user_message (trim_space req.content) ∷ []

-- What the call of the model's API leaves, for the end of the prompt; `message` words its errors.
abbrev pub streamed_by :
    {E : Type 0}
    → (StreamError E → Bytes)
    → ContextState
    → List Bytes × Result (StreamError E) CompletionResult
    → Streamed
streamed_by message context (shown, ok r) = record {
  deltas = shown;
  result = ok r;
  client_gone = false;
  context = context;
}
streamed_by message context (shown, err e) = record {
  deltas = shown;
  result = err (message e);
  client_gone = false;
  context = context;
}

-- The terminal and the session agree: without an error the session remembers the prompt and exactly what
-- the terminal has shown, and with one it has forgotten the prompt.
abbrev pub Agreed :
    List Message → List Message → List Message → Reading (List Bytes) × Option PromptError → Type 0
Agreed before prompted after (r, e) =
    ((e ≡ none) × (after ≡ answered prompted (concat r.outside)))
    ⊎ ((code : Bytes) × (message : Bytes) × (e ≡ some (reported code message)) × (after ≡ before))

concluded-Agreed :
    (before prompted after : List Message) (s : Streamed) (last : List StreamEvent)
    → ((r : CompletionResult) → s.result ≡ ok r → r.full_text ≡ concat s.deltas)
    → All IsTellable (sent s.deltas ++ last)
    → IsConcluded before prompted after s last
    → Agreed before prompted after (prompt shows 200 (stream_of (sent s.deltas ++ last)) none [])
concluded-Agreed before prompted after s _ text h (failed code message e) =
    rw (prompt_of_stream s.deltas (failure code message) h) (inr (code, message, refl, e))
concluded-Agreed before prompted after s _ text h (kept r reason e live same keeps) =
    rw (prompt_of_stream s.deltas (done reason) h)
      (inl (refl, keeps ∙ ap (answered prompted) (text r e)))

events-Agreed :
    (before prompted after : List Message) (s : Streamed) (events last : List StreamEvent)
    → ((r : CompletionResult) → s.result ≡ ok r → r.full_text ≡ concat s.deltas)
    → events ≡ sent s.deltas ++ last
    → All IsTellable events
    → IsConcluded before prompted after s last
    → Agreed before prompted after (prompt shows 200 (stream_of events) none [])
events-Agreed before prompted after s events last text e h c =
    subst (λ l. Agreed before prompted after (prompt shows 200 (stream_of l) none [])) (sym e)
      (concluded-Agreed before prompted after s last text (subst (All IsTellable) e h) c)

module _ {E : Type 0} (message : StreamError E → Bytes) (fails : Bytes → List Bytes → Option E)
    (decode : Bytes → Option (List Choice)) (is_done : ℕ → Bool) where
  stays :
      (context : ContextState) (x : List Bytes × Result (StreamError E) CompletionResult)
      → (streamed_by message context x).client_gone ≡ false
  stays context (shown, ok r) = refl
  stays context (shown, err e) = refl

  streamed_text :
      (context : ContextState) (x : List Bytes × Result (StreamError E) CompletionResult)
      → ((r : CompletionResult) → x.1 ≡ ok r → r.full_text ≡ concat x.0)
      → (r : CompletionResult) → (streamed_by message context x).result ≡ ok r
      → r.full_text ≡ concat (streamed_by message context x).deltas
  streamed_text context (shown, ok q) text r e = text r (ap ok (ok_inj e))
  streamed_text context (shown, err x) text r e = absurd (cc e)

  -- The prompt's handling by the gateway, from the request to the end of the stream: the manager then, and
  -- the events sent. Other requests do not come in between.
  abbrev pub served :
      Bytes
      → PromptRequest
      → ℕ
      → ℕ
      → ℕ
      → ℕ
      → Gateway
      → ℕ
      → HttpOutcome
      → ContextState
      → Manager × List StreamEvent
  served id req now later end generation g p outcome context =
      end_prompt id
        (streamed_by message context (stream_completion (showing fails) decode is_done outcome []))
        end
        (start_stream id true generation later (prompted_by req g p)
          (handle_prompt id (some req) now g).0).0.mgr

  -- One prompt from the terminal to the model and back. For a prompt that is not blank and a session that
  -- is approved and idle, whatever the model's API answers, if the terminal stays connected and no other
  -- request comes in between: where the terminal reports no error, the session remembers the prompt and,
  -- as its answer, exactly the text that the terminal has shown; where it reports one, the session's
  -- history is what it was before. The texts of the events are valid UTF-8 and no longer than 174000
  -- bytes.
  pub exchange-Agreed :
      (id : Bytes) (req : PromptRequest) (now later end generation : ℕ) (g : Gateway) (p : ℕ)
      (outcome : HttpOutcome) (context : ContextState)
      → trim_space req.content ≢ []
      → find id g.mgr.sessions ≡ some p
      → (g.mgr.heap p).state ≡ approved
      → All IsTellable (served id req now later end generation g p outcome context).1
      → Agreed
          (session_history id g.mgr)
          (prompted_by req g p)
          (session_history id (served id req now later end generation g p outcome context).0)
          (prompt shows 200
            (stream_of (served id req now later end generation g p outcome context).1)
            none
            [])
  exchange-Agreed id req now later end generation g p outcome context nonblank found idle sendable =
      let x = stream_completion (showing fails) decode is_done outcome [] in
      let s = streamed_by message context x in
      let o =
        prompt_outcome id req now later generation g p nonblank found idle s end
          (stays context x) in
      let (last, events, concluded) = o.0 in
      events-Agreed (session_history id g.mgr) (prompted_by req g p)
        (session_history id (served id req now later end generation g p outcome context).0) s
        (served id req now later end generation g p outcome context).1 last
        (streamed_text context x (stream_completion-shown fails decode is_done outcome)) events
        sendable concluded
