-- ===== src/Examples/Exchange.antt =====
-- One prompt from the terminal to the model and back, at a concrete answer.
use deepseek_project.Base.{
  ◌≡◌, refl, sym, subst, codes, List, [], ◌∷◌, ◌++◌, none, All, find, put, delete, update,
  Bytes-discrete, ℕ_discrete, trim_space, trim_left, trim_left_reversed, is_space_1, is_space_2,
  is_space_3, has_prefix, trim_prefix, false, ℕ, Bytes,
}
use deepseek_project.Crypto.{new_id, new_token, new_pair_code, format_06d, decimal, low_digits}
use deepseek_project.Crypto.Base64.{encode, symbol}
use deepseek_project.Protocol.Types.{StreamEvent, token, done}
use deepseek_project.Protocol.Sse.{scan_lines, drop_cr}
use deepseek_project.Provider.Settings.{valid, is_model, is_effort}
use deepseek_project.Provider.Deepseek.{
  HttpOutcome, answered, stream_completion, read_chunks, end_of_stream, take_choice, take_choices,
  StreamError,
}
use deepseek_project.Session.Types.{new, store, Manager}
use deepseek_project.Session.Create.{create, fresh_session, insert_session, session_history}
use deepseek_project.Session.Approve.{approve, approve_by_code_with_settings}
use deepseek_project.Session.Prompt.{prepare_prompt, set_gen_cancel}
use deepseek_project.Gateway.Prompt.{handle_prompt, start_stream, end_prompt}
use deepseek_project.Client.{prompt}
use deepseek_project.Client.Stream.{shows, stream_of}
use deepseek_project.Protocol.Messages.Sending.{IsTellable}
use deepseek_project.Client.Exchange.{served, prompted_by, Agreed, exchange-Agreed}
use deepseek_project.Examples.Sessions.{gateway_of, one_approved, id_text}
use deepseek_project.Examples.Prompts.{request, hello_trimmed, gateway_found, gateway_idle}
use deepseek_project.Examples.Terminal.{plain_chunk, never_fails, running, hey-IsTellable}
use deepseek_project.Gateway.Prompt.{running as context_running}

abbrev answer : HttpOutcome
answer = answered 200 (codes "data: Hey" ++ (10 ∷ codes "data: [DONE]")) false false

abbrev reported_error : StreamError ℕ → Bytes
reported_error e = codes "failed"

abbrev exchange : Manager × List StreamEvent
exchange =
    served reported_error never_fails plain_chunk running id_text request 9 10 11 3
      (gateway_of one_approved) 0 answer context_running

exchange_events : exchange.1 ≡ token (codes "Hey") ∷ done (codes "stop") ∷ []
unfolding new create fresh_session insert_session new_id new_token new_pair_code encode symbol
    format_06d decimal low_digits find put delete update store approve_by_code_with_settings approve
    valid is_model is_effort prepare_prompt set_gen_cancel handle_prompt start_stream end_prompt
    stream_completion read_chunks end_of_stream take_choice take_choices scan_lines drop_cr
    has_prefix trim_prefix trim_space trim_left trim_left_reversed is_space_1 is_space_2 is_space_3
    Bytes-discrete ℕ_discrete
exchange_events = refl

exchange-IsTellable : All IsTellable exchange.1
exchange-IsTellable = subst (All IsTellable) (sym exchange_events) hey-IsTellable

exchange-Agreed_example :
    Agreed
      (session_history id_text one_approved)
      (prompted_by request (gateway_of one_approved) 0)
      (session_history id_text exchange.0)
      (prompt shows 200 (stream_of exchange.1) none [])
exchange-Agreed_example =
    exchange-Agreed reported_error never_fails plain_chunk running id_text request 9 10 11 3
      (gateway_of one_approved) 0 answer context_running hello_trimmed gateway_found gateway_idle
      exchange-IsTellable
