-- ===== src/Gateway/Prompt/Concluded.antt =====
-- What the last event of a stream says of the prompt.
use deepseek_project.Base.{
  ℕ, ◌≡◌, ◌≢◌, refl, Bytes, List, [], ◌∷◌, ◌++◌, none, some, Bool, true, false, text_eq, arith,
  find, update, ok, if◌then◌else◌, codes, Result, err,
}
use deepseek_project.Protocol.Types.{approved, StreamEvent, done, failure}
use deepseek_project.Provider.{Message, CompletionResult, finish_canceled}
use deepseek_project.Session.Types.{Manager, store}
use deepseek_project.Session.Create.{status, session_history}
use deepseek_project.Session.Prompt.{finish_prompt, fail_prompt, user_message, assistant_message}
use deepseek_project.Session.Prompt.Laws.{remove_last_user-prompt}
use deepseek_project.Gateway.Prompt.{
  Streamed, ContextState, running, deadline_exceeded, canceled, end_prompt, conclude, sent,
  complete, err_upstream, err_timeout,
}

abbrev pub is_canceled : ContextState → Bool
is_canceled canceled = true
is_canceled _ = false

-- The session's history after an answer of which `text` has arrived.
abbrev pub answered : List Message → Bytes → List Message
answered asked text = if text_eq text [] then asked else asked ++ assistant_message text ∷ []

-- The last event says what has become of the prompt: with `error` the session has forgotten it, and with
-- `done` the session remembers it and what has arrived of the answer.
pub data IsConcluded (before asked after : List Message) (s : Streamed)
    : List StreamEvent → Type 0 where
  failed :
      (code message : Bytes)
      → after ≡ before
      → IsConcluded before asked after s (failure code message ∷ [])
  kept :
      (result : CompletionResult) (reason : Bytes)
      → s.result ≡ ok result
      → s.context ≢ deadline_exceeded
      → reason ≡ (if is_canceled s.context then finish_canceled else result.finish_reason)
      → after ≡ answered asked result.full_text
      → IsConcluded before asked after s (done reason ∷ [])

-- The end of a prompt of a client that stays connected, for a session whose last message is the prompt's.
module _ (id content : Bytes) (before : List Message) (end : ℕ) (m : Manager) (p : ℕ)
    (found : find id m.sessions ≡ some p)
    (asks : (m.heap p).history ≡ before ++ user_message content ∷ []) (s : Streamed) where
  forgotten : session_history id (fail_prompt id end m) ≡ before
  unfolding fail_prompt session_history store update
  forgotten = ground (arith, remove_last_user-prompt before content)

  remembered :
      (text reason : Bytes)
      → session_history id (finish_prompt id text reason end m)
        ≡ answered (before ++ user_message content ∷ []) text
  unfolding finish_prompt session_history store update
  remembered text reason = ground arith

  complete-IsConcluded :
      (context : ContextState) (result : CompletionResult)
      → s.context ≡ context
      → s.result ≡ ok result
      → let k = complete id context result end m in
        IsConcluded before (before ++ user_message content ∷ []) (session_history id k.0) s k.1
  complete-IsConcluded deadline_exceeded result c r =
      failed err_timeout (codes "generation timed out") forgotten
  complete-IsConcluded canceled result c r =
      kept result finish_canceled r (λ d. ground arith) (ground arith)
        (remembered result.full_text finish_canceled)
  complete-IsConcluded running result c r =
      kept result result.finish_reason r (λ d. ground arith) (ground arith)
        (remembered result.full_text result.finish_reason)

  conclude-IsConcluded :
      (result : Result Bytes CompletionResult)
      → s.result ≡ result
      → let k = conclude id s.context result end m in
        IsConcluded before (before ++ user_message content ∷ []) (session_history id k.0) s k.1
  conclude-IsConcluded (err message) r = failed err_upstream message forgotten
  conclude-IsConcluded (ok result) r = complete-IsConcluded s.context result refl r

  end_prompt-connected :
      s.client_gone ≡ false
      → let k = conclude id s.context s.result end m in
        end_prompt id s end m ≡ (k.0, sent s.deltas ++ k.1)
  unfolding end_prompt
  end_prompt-connected stays = ground arith

  pub end_prompt-IsConcluded :
      s.client_gone ≡ false
      → let k = end_prompt id s end m in
        (last : List StreamEvent) × (k.1 ≡ sent s.deltas ++ last)
        × IsConcluded before (before ++ user_message content ∷ []) (session_history id k.0) s last
  end_prompt-IsConcluded stays =
      rw (end_prompt-connected stays)
        ((conclude id s.context s.result end m).1, refl, conclude-IsConcluded s.result refl)

  pub end_prompt-idle :
      s.client_gone ≡ false
      → let k = (end_prompt id s end m).0 in
        (status id k ≡ ok approved) × ((k.heap p).gen_cancel ≡ none)
  unfolding end_prompt fail_prompt finish_prompt status store update
  end_prompt-idle stays = ground arith
