-- ===== src/Examples/Terminal.antt =====
-- The laws of the terminal and of the API's client, at concrete answers.
use deepseek_project.Base.{
  ℕ, ◌+◌, ◌*◌, ◌≡◌, refl, Bytes, codes, List, [], ◌∷◌, ◌++◌, Option, none, some, Bool, false, ok,
  All, arith, Bytes-discrete, ℕ_discrete, trim_space, trim_left, trim_left_reversed, is_space_1,
  is_space_2, is_space_3, has_prefix, trim_prefix,
}
use deepseek_project.Protocol.Types.{
  token, done, waiting, approved, SessionCreateResponse, SessionStatusResponse,
}
use deepseek_project.Protocol.Sse.{scan_lines, drop_cr}
use deepseek_project.Provider.{CompletionRequest, CompletionResult, finish_stop}
use deepseek_project.Provider.Settings.{zero_settings}
use deepseek_project.Provider.Deepseek.{
  Choice, HttpOutcome, answered, chat_request, stream_completion, read_chunks, end_of_stream,
  take_choice, take_choices,
}
use deepseek_project.Provider.Deepseek.Request.{IsSupported, chat_request-IsSupported}
use deepseek_project.Provider.Deepseek.Stream.{concat, showing, stream_completion-shown}
use deepseek_project.Session.Types.{second}
use deepseek_project.Client.{prompt, tick, wait_approved}
use deepseek_project.Client.Stream.{shows, told, stream_of, prompt_of_stream}
use deepseek_project.Protocol.Messages.Sending.{IsTellable}
use deepseek_project.Json.Strings.RoundTrip.{is_utf8}
use deepseek_project.Json.Utf8.{next_rune}
use deepseek_project.Client.Pairing.{Undecided, verdict, wait_approved_first}

abbrev unknown_request : CompletionRequest
unknown_request = record { settings = zero_settings; messages = [] }

chat_request-IsSupported_example : IsSupported (chat_request (codes "old-model") unknown_request)
chat_request-IsSupported_example = chat_request-IsSupported (codes "old-model") unknown_request

-- Each chunk's text is the delta itself.
abbrev pub plain_chunk : Bytes → Option (List Choice)
plain_chunk text = some (record { content = text; finish_reason = none } ∷ [])

abbrev pub never_fails : Bytes → List Bytes → Option ℕ
never_fails delta shown = none

abbrev pub running : ℕ → Bool
running n = false

abbrev answer : HttpOutcome
answer =
    answered 200 (codes "data: He" ++ (10 ∷ codes "data: y" ++ (10 ∷ codes "data: [DONE]"))) false
      false

abbrev answer_result : CompletionResult
answer_result = record { full_text = codes "Hey"; finish_reason = finish_stop }

answer_read :
    (stream_completion (showing never_fails) plain_chunk running answer []).1 ≡ ok answer_result
unfolding stream_completion read_chunks end_of_stream take_choice take_choices scan_lines drop_cr
    has_prefix trim_prefix trim_space trim_left trim_left_reversed is_space_1 is_space_2 is_space_3
    Bytes-discrete ℕ_discrete
answer_read = refl

stream_completion-shown_example :
    answer_result.full_text
    ≡ concat (stream_completion (showing never_fails) plain_chunk running answer []).0
stream_completion-shown_example =
    stream_completion-shown never_fails plain_chunk running answer answer_result answer_read

pub hey-IsTellable : All IsTellable (token (codes "Hey") ∷ done (codes "stop") ∷ [])
unfolding is_utf8 next_rune
hey-IsTellable = ((refl, omega arith), ((refl, omega arith), tt))

prompt_of_stream_example :
    prompt shows 200 (stream_of (token (codes "Hey") ∷ done (codes "stop") ∷ [])) none []
    ≡ told (codes "Hey" ∷ []) (done (codes "stop"))
prompt_of_stream_example = prompt_of_stream (codes "Hey" ∷ []) (done (codes "stop")) hey-IsTellable

abbrev pub new_session : SessionCreateResponse
new_session = record {
  session_id = codes "s";
  pairing_token = codes "t";
  pairing_code = codes "000 042";
  gateway_url = [];
  expires_in = 120;
}

abbrev pub status_waiting : SessionStatusResponse
status_waiting = record {
  session_id = codes "s";
  state = waiting;
  model = [];
  thinking_enabled = none;
  reasoning_effort = [];
}

abbrev pub status_approved : SessionStatusResponse
status_approved = record status_waiting { state = approved }

Undecided-once : All (Undecided (0 + 120 * second)) (tick (some status_waiting) second ∷ [])
Undecided-once = ground arith

approval_decides : ¬ Undecided (0 + 120 * second) (tick (some status_approved) (2 * second))
approval_decides = ground arith

wait_approved_first_example :
    wait_approved new_session 0
      (tick (some status_waiting) second ∷ tick (some status_approved) (2 * second) ∷ [])
    ≡ some (verdict (some status_approved))
wait_approved_first_example =
    wait_approved_first new_session 0 (2 * second) (tick (some status_waiting) second ∷ []) []
      (some status_approved) Undecided-once approval_decides
