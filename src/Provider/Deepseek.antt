-- ===== src/Provider/Deepseek.antt =====
-- internal/provider/deepseek/deepseek.go: the client of the model's API. net/http is a parameter: what the
-- request came to, and the lines of the answer. What each line's text decodes to is an argument, which
-- is the child module's decode_chunk in the program.
pub mod Chunks
pub mod Request
pub mod Stream
use deepseek_project.Base.{
  ℕ, suc, Bytes, codes, text_eq, List, [], ◌∷◌, ◌++◌, Option, none, some, Bool, true, false, not,
  ◌||◌, if◌then◌else◌, Result, ok, err, has_prefix, trim_prefix, trim_space, ◌==◌, trim_slashes,
}
use deepseek_project.Protocol.Sse.{Flow, go, stop, ◌>>=◌, scan_lines, max_token}
use deepseek_project.Provider.{
  Message, CompletionRequest, CompletionResult, finish_stop, finish_canceled,
}
use deepseek_project.Provider.Settings.{
  GenerationSettings, default_generation_settings, valid, model_v4_flash,
}

-- `Client`, and what `New` gives.
pub record ApiClient : Type 0 where
  pub api_key : Bytes
  pub base_url : Bytes
  pub model : Bytes

unfoldable pub new_client : Bytes → ApiClient
new_client api_key = record {
  api_key = api_key;
  base_url = codes "https://api.deepseek.com";
  model = model_v4_flash;
}

-- The address and the headers of the request.
pub record ApiRequest : Type 0 where
  pub url : Bytes
  pub content_type : Bytes
  pub accept : Bytes
  pub authorization : Bytes

unfoldable pub api_request : ApiClient → ApiRequest
api_request c = record {
  url = trim_slashes c.base_url ++ codes "/chat/completions";
  content_type = codes "application/json";
  accept = codes "text/event-stream";
  authorization = codes "Bearer " ++ c.api_key;
}

-- The settings that are sent; `model` is the client's field `Model`.
unfoldable pub effective_settings : Bytes → GenerationSettings → GenerationSettings
effective_settings model settings =
    let default =
      if text_eq model []
      then default_generation_settings
      else record default_generation_settings { model = model } in
    let chosen = if text_eq settings.model [] then default else settings in
    if not (valid chosen) then default_generation_settings else chosen

-- `chatCompletionRequest`, with the type of `thinkingConfig`
pub record ChatRequest : Type 0 where
  pub model : Bytes
  pub messages : List Message
  pub stream : Bool
  pub thinking : Bytes
  pub reasoning_effort : Bytes

unfoldable pub chat_request : Bytes → CompletionRequest → ChatRequest
chat_request model req =
    let s = effective_settings model req.settings in
    record {
      model = s.model;
      messages = req.messages;
      stream = true;
      thinking = if s.thinking_enabled then codes "enabled" else codes "disabled";
      reasoning_effort = if s.thinking_enabled then s.reasoning_effort else [];
    }

-- One choice of a `streamChunk`.
pub record Choice : Type 0 where
  pub content : Bytes
  pub finish_reason : Option Bytes

-- The errors that `StreamCompletion` returns; `callback` is one of `onDelta`.
pub data StreamError (E : Type 0) : Type 0 where
  no_request no_chunk unreadable : StreamError E
  bad_status : ℕ → StreamError E
  callback : E → StreamError E

-- What the request comes to: an error, or an answer with its status, its body, and whether reading the
-- body ends with an error, and has met one when the end marker is read.
pub data HttpOutcome : Type 0 where
  unsent : HttpOutcome
  answered : ℕ → Bytes → Bool → Bool → HttpOutcome

-- The variables `sb` and `finish`, and the state of the callback.
pub record Progress (S : Type 0) : Type 0 where
  pub text : Bytes
  pub finish : Bytes
  pub outside : S

unfoldable pub cancelled : Bytes → Bytes → CompletionResult
cancelled text finish = record {
  full_text = text;
  finish_reason = if text_eq finish finish_stop then finish_canceled else finish;
}

-- `if c.FinishReason != nil && *c.FinishReason != "" { … }`
abbrev pub next_finish : Option Bytes → Bytes → Bytes
next_finish none finish = finish
next_finish (some reason) finish = if text_eq reason [] then finish else reason

-- What follows the loop, at the end of the answer or at the end marker: `broken` is the scanner's error.
unfoldable pub end_of_stream :
    {E S : Type 0} → Bool → Bool → Progress S → S × Result (StreamError E) CompletionResult
end_of_stream broken is_done p =
    if not broken
    then (p.outside, ok (record { full_text = p.text; finish_reason = p.finish }))
    else (if is_done
        then (p.outside, ok (cancelled p.text p.finish))
        else (p.outside, err unreadable))

module _ {E S : Type 0} (on_delta : Bytes → S → Flow E S) (decode : Bytes → Option (List Choice))
    (is_done : ℕ → Bool) where
  -- The variables after the callback.
  abbrev pub written : Choice → Progress S → Flow E S → Flow E (Progress S)
  written c p (go s) = go (record {
    text = p.text ++ c.content;
    finish = next_finish c.finish_reason p.finish;
    outside = s;
  })
  written c p (stop e s) = stop e (record p { outside = s })

  -- One round of the loop over the choices. The callback is not nil.
  unfoldable pub take_choice : Choice → Progress S → Flow E (Progress S)
  take_choice c p =
      if text_eq c.content []
      then go (record p { finish = next_finish c.finish_reason p.finish })
      else written c p (on_delta c.content p.outside)

  unfoldable pub take_choices : List Choice → Progress S → Flow E (Progress S)
  take_choices [] p = go p
  take_choices (c ∷ choices) p = take_choice c p >>= take_choices choices

  -- The end of a round, where `rest` is the loop that goes on.
  abbrev pub after_chunk :
      (Progress S → S × Result (StreamError E) CompletionResult)
      → Flow E (Progress S)
      → S × Result (StreamError E) CompletionResult
  after_chunk rest (go p) = rest p
  after_chunk rest (stop e p) = (p.outside, err (callback e))

  -- `rest` is the loop that goes on.
  abbrev pub decoded :
      (Progress S → S × Result (StreamError E) CompletionResult)
      → Progress S
      → Option (List Choice)
      → S × Result (StreamError E) CompletionResult
  decoded rest p none = (p.outside, err no_chunk)
  decoded rest p (some choices) = after_chunk rest (take_choices choices p)

  -- The loop over the scanned lines and its end. `is_done n` says whether the context is done at round
  -- `n`, `broken` whether the scanner ends with an error, and `broken_early` whether it has met one
  -- when it returns the end marker.
  unfoldable pub read_chunks :
      Bool → Bool → ℕ → List Bytes → Progress S → S × Result (StreamError E) CompletionResult
  read_chunks broken broken_early n [] p = end_of_stream broken (is_done n) p
  read_chunks broken broken_early n (line ∷ lines) p =
      let rest = read_chunks broken broken_early (suc n) lines in
      let trimmed = trim_space line in
      let text = trim_space (trim_prefix trimmed (codes "data:")) in
      if is_done n
      then (p.outside, ok (cancelled p.text p.finish))
      else (if text_eq trimmed [] || not (has_prefix trimmed (codes "data:"))
          then rest p
          else (if text_eq text (codes "[DONE]")
              then end_of_stream broken_early (is_done n) p
              else decoded rest p (decode text)))

  -- `StreamCompletion` from the call of `c.HTTP.Do` on; `s` is the state of the callback.
  unfoldable pub stream_completion : HttpOutcome → S → S × Result (StreamError E) CompletionResult
  stream_completion unsent s = (s, err no_request)
  stream_completion (answered status body broken broken_early) s =
      let (lines, too_long) = scan_lines max_token [] body in
      if status == 200
      then read_chunks (too_long || broken) broken_early 0 lines
          (record { text = []; finish = finish_stop; outside = s })
      else (s, err (bad_status status))
