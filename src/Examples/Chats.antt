-- ===== src/Examples/Chats.antt =====
-- The terminal's chat and its requests, and the commands, at concrete inputs.
use deepseek_project.Client.Repl.Race.{cancelled_twice, cancelled_late}
use deepseek_project.Client.Repl.Counts.{asked, closings}
use deepseek_project.Crypto.Base64.{is_url_safe}
use deepseek_project.Base.{
  ℕ, ◌≡◌, ◌≢◌, ◌≤◌, ◌*◌, refl, arith, Bytes, codes, [], ◌∷◌, ◌++◌, Option, none, some, Bool, true,
  false, ok, ℤ, length, ℕ_discrete, suc, Bytes-discrete,
}
use deepseek_project.Json.Utf8.{next_rune}
use deepseek_project.Json.Strings.{escape, escape_head, escape_ascii, is_plain}
use deepseek_project.Json.Strings.RoundTrip.{is_utf8}
use deepseek_project.Json.Structs.{marshal, members, member, marshal_scalar, marshal_string}
use deepseek_project.Protocol.Types.{ErrorBody}
use deepseek_project.Protocol.Messages.{error_json, prompt_json}
use deepseek_project.Provider.{CompletionRequest, finish_stop}
use deepseek_project.Provider.Settings.{zero_settings}
use deepseek_project.Provider.Deepseek.Stream.{concat}
use deepseek_project.Provider.Mock.{mock_reply, stream_completion, last_content}
use deepseek_project.Provider.Mock.Reply.{shows_all, mock-Sends}
use deepseek_project.Session.Types.{second}
use deepseek_project.Config.{Env}
use deepseek_project.Command.{gateway_main, wiring, choose_provider, mock_provider}
use deepseek_project.Command.Laws.{IsWired, gateway_main-IsWired}
use deepseek_project.Gateway.Server.{Gateway}
use deepseek_project.Gateway.Handlers.{handle_status, handle_close, handle_cancel}
use deepseek_project.Gateway.Prompt.{handle_prompt}
use deepseek_project.Gateway.Routes.{Inputs, serve, reply, prompt_reply}
use deepseek_project.Gateway.Routes.Paths.{IsSegment}
use deepseek_project.Client.{reported, read_error_body, tick, wait_approved}
use deepseek_project.Client.Transport.{
  GatewayClient, status_request, cancel_request, close_request, prompt_outgoing,
}
use deepseek_project.Client.Requests.{received, requests_reach, prompt_reaches, reported_error}
use deepseek_project.Client.Pairing.{wait_approved-ends}
use deepseek_project.Client.Repl.{
  Chat, after_wait, react, line, end_of_input, enabled, at_prompt, over, sees_quit, begins, swaps,
  cancelling, finished, Chats, take_line, start_prompt, begin_prompt, handle_interrupt, swap_flag,
  call_cancel, end_prompt, prompts, cancels, streaming, swapped,
}
use deepseek_project.Client.Repl.{here, next, interrupt as user_interrupt}
use deepseek_project.Client.Repl.Laws.{IsTidy, chat-IsTidy, interrupt_ends}
use deepseek_project.Examples.Sessions.{first_draws, zeros_32, gateway_of, one_approved, id_text}
use deepseek_project.Examples.Terminal.{new_session, status_approved, status_waiting}

wait_approved-ends_example :
    wait_approved new_session 0 (tick (some status_waiting) second ∷ tick none (200 * second) ∷ [])
    ≢ none
wait_approved-ends_example =
    wait_approved-ends new_session 0 (200 * second) none (tick (some status_waiting) second ∷ []) []
      (omega arith)

abbrev ready : Chat
ready = after_wait new_session none (ok status_approved)

-- A prompt whose generation is cancelled, and the end of the chat.
abbrev asked_once : Chat
asked_once = react begins (react (line (codes "Hi")) ready)

abbrev about_to_cancel : Chat
about_to_cancel = react swaps (react user_interrupt asked_once)

abbrev cancelled_once : Chat
cancelled_once = react cancelling about_to_cancel

abbrev left : Chat
left = react end_of_input (react (finished (codes "cancelled")) cancelled_once)

to_left : Chats ready left
unfolding after_wait take_line start_prompt begin_prompt handle_interrupt swap_flag call_cancel
    end_prompt Bytes-discrete ℕ_discrete
to_left =
    next
      (next
        (next
          (next (next (next (next here (line (codes "Hi")) refl) begins refl) user_interrupt refl)
            swaps refl)
          cancelling refl)
        (finished (codes "cancelled")) refl)
      end_of_input refl

chat-IsTidy_example : IsTidy left
chat-IsTidy_example = chat-IsTidy new_session none status_approved left to_left

about_state : (about_to_cancel.phase ≡ streaming) × (about_to_cancel.listener ≡ swapped 1)
unfolding after_wait take_line start_prompt begin_prompt handle_interrupt swap_flag Bytes-discrete
    ℕ_discrete
about_state = (refl, refl)

cancelled_twice_example :
    Chats about_to_cancel (cancelled_late [] (codes "Ho") about_to_cancel)
    × ((cancelled_late [] (codes "Ho") about_to_cancel).calls
        ≡ about_to_cancel.calls
          ++ prompts (codes "Ho") ∷ cancels 1 ∷ cancels (suc about_to_cancel.number) ∷ [])
cancelled_twice_example =
    cancelled_twice about_to_cancel 1 [] (codes "Ho") about_state.0 about_state.1
      (λ e. ground arith) (λ e. ground arith)

ready_at_prompt : ready.phase ≡ at_prompt
unfolding after_wait
ready_at_prompt = refl

-- A line is taken after the interrupt; then the chat ends.
abbrev interrupted : Chat
interrupted = react user_interrupt ready

abbrev once_more : Chat
once_more = react (line []) interrupted

to_once_more : Chats interrupted once_more
unfolding after_wait handle_interrupt
to_once_more = next here (line []) refl

once_more_at_prompt : once_more.phase ≡ at_prompt
unfolding after_wait handle_interrupt take_line Bytes-discrete
once_more_at_prompt = refl

interrupt_ends_example :
    (enabled sees_quit once_more ≡ true)
    × ((react sees_quit once_more).phase ≡ over)
    × (asked (react sees_quit once_more).calls ≡ asked once_more.calls)
    × (closings (react sees_quit once_more).calls ≡ suc (closings once_more.calls))
interrupt_ends_example =
    interrupt_ends ready once_more (react sees_quit once_more) ready_at_prompt to_once_more
      once_more_at_prompt here

-- No variable is set.
abbrev bare : Env
bare name = []

abbrev no_duration : Bytes → Option ℤ
no_duration text = none

abbrev no_loopback : Bytes → Bool
no_loopback host = false

mock_starts :
    gateway_main no_duration no_loopback bare true []
    ≡ ok (wiring no_duration no_loopback bare [] mock_provider)
unfolding gateway_main choose_provider
mock_starts = refl

gateway_main-IsWired_example : IsWired (wiring no_duration no_loopback bare [] mock_provider)
gateway_main-IsWired_example =
    gateway_main-IsWired no_duration no_loopback bare true []
      (wiring no_duration no_loopback bare [] mock_provider) mock_starts

abbrev hello : CompletionRequest
hello = record {
  settings = zero_settings;
  messages = record { role = codes "user"; content = codes "Hi" } ∷ [];
}

hello_utf8 : is_utf8 (length (mock_reply hello.messages)) (mock_reply hello.messages) ≡ true
unfolding mock_reply last_content is_utf8 next_rune
hello_utf8 = refl

abbrev never : ℕ → Bool
never n = false

mock-Sends_example :
    let x =
      stream_completion shows_all never hello (record { delays = false; last_req = none }) [] in
    (x.0.last_req ≡ some hello)
    × (x.1.1 ≡ ok (record { full_text = mock_reply hello.messages; finish_reason = finish_stop }))
    × (concat x.1.0 ≡ mock_reply hello.messages)
mock-Sends_example = mock-Sends never hello none hello_utf8

abbrev local : GatewayClient
local = record { base_url = codes "http://localhost:8080" }

abbrev inputs : Inputs
inputs = record { draws = first_draws; draw = some zeros_32; now = 9 }

abbrev gateway : Gateway
gateway = gateway_of one_approved

id-IsSegment : IsSegment id_text
unfolding is_url_safe ℕ_discrete
id-IsSegment = (λ e. ground arith, ground arith)

requests_reach_example :
    (serve (received local (status_request local id_text)) inputs gateway
      ≡ reply (handle_status id_text gateway))
    × (serve (received local (cancel_request local id_text)) inputs gateway
        ≡ reply (handle_cancel id_text gateway))
    × (serve (received local (close_request local id_text)) inputs gateway
        ≡ reply (handle_close id_text gateway))
requests_reach_example = requests_reach local id_text id-IsSegment inputs gateway

hi_text : is_utf8 2 (codes "Hi") ≡ true
unfolding is_utf8 next_rune
hi_text = refl

hi_short : length (prompt_json (record { content = codes "Hi" })) ≤ gateway.max_prompt
unfolding prompt_json marshal members member marshal_scalar marshal_string escape escape_head
    escape_ascii is_plain next_rune
hi_short = omega arith

prompt_reaches_example :
    serve (received local (prompt_outgoing local id_text (codes "Hi"))) inputs gateway
    ≡ prompt_reply id_text
        (handle_prompt id_text (some (record { content = codes "Hi" })) 9 gateway)
prompt_reaches_example =
    prompt_reaches local id_text id-IsSegment inputs gateway (codes "Hi") hi_text hi_short

abbrev gone : ErrorBody
gone = record { code = codes "not_found"; message = codes "session not found" }

gone_code : is_utf8 9 (codes "not_found") ≡ true
unfolding is_utf8 next_rune
gone_code = refl

gone_message : is_utf8 17 (codes "session not found") ≡ true
unfolding is_utf8 next_rune
gone_message = refl

gone_short : length (error_json gone ++ 10 ∷ []) ≤ 4096
unfolding error_json marshal members member marshal_scalar marshal_string escape escape_head
    escape_ascii is_plain next_rune
gone_short = omega arith

reported_error_example :
    read_error_body (error_json gone ++ 10 ∷ []) 404
    ≡ reported (codes "not_found") (codes "session not found")
reported_error_example =
    reported_error gone 404 (λ e. ground arith) (λ e. ground arith) gone_code gone_message
      gone_short
