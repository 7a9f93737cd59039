-- ===== src/Examples/Prompts.antt =====
-- The laws of a prompt, of the manager's and of the handler's part, at concrete sessions.
use deepseek_project.Base.{
  ◌≡◌, ◌≢◌, ◌<◌, refl, Bytes, codes, List, [], ◌∷◌, none, some, ok, find, true, false, ◌++◌, arith,
  put, delete, update, trim_space, trim_left, trim_left_reversed, is_space_1, is_space_2,
  is_space_3, Bytes-discrete, ℕ_discrete, err,
}
use deepseek_project.Crypto.{new_id, new_token, new_pair_code, format_06d, decimal, low_digits}
use deepseek_project.Crypto.Base64.{encode, symbol}
use deepseek_project.Provider.{Message}
use deepseek_project.Provider.Settings.{valid, is_model, is_effort, zero_settings}
use deepseek_project.Protocol.Types.{
  waiting, approved, destroyed, PromptRequest, StreamEvent, err_pairing_pending, err_not_found,
}
use deepseek_project.Session.Types.{Manager, new, store}
use deepseek_project.Session.Create.{create, fresh_session, insert_session, status, session_history}
use deepseek_project.Session.Approve.{approve, approve_by_code_with_settings}
use deepseek_project.Session.Prompt.{prepare_prompt, set_gen_cancel, user_message}
use deepseek_project.Session.Destroy.Laws.{IsErased}
use deepseek_project.Session.Trace.{here, next, step, prepares}
use deepseek_project.Session.Trace.Reach.{Steps-settings}
use deepseek_project.Gateway.Server.{Gateway, write_error}
use deepseek_project.Gateway.Handlers.{handle_close, handle_cancel}
use deepseek_project.Gateway.Prompt.{
  Streamed, replied, accepted, handle_prompt, start_stream, end_prompt, sent, canceled,
}
use deepseek_project.Gateway.Prompt.Concluded.{IsConcluded}
use deepseek_project.Gateway.Prompt.Stream.{
  state_of, refusal, handle_prompt_refused, prompt_request, prompt_outcome, prompt_disconnected,
  closed_still_streams,
}
use deepseek_project.Examples.Sessions.{gateway_of, one_waiting, one_approved, id_text}

abbrev hello : Bytes
hello = codes "Hi"

abbrev asked : List Message
asked = user_message hello ∷ []

abbrev busy : Manager
busy = (prepare_prompt id_text hello 9 one_approved).0

approved_counted : 0 < one_approved.next
unfolding new create fresh_session insert_session new_id new_token new_pair_code encode symbol
    format_06d decimal low_digits find put delete update store approve_by_code_with_settings approve
    valid is_model is_effort step status prepare_prompt set_gen_cancel handle_prompt trim_space
    trim_left trim_left_reversed is_space_1 is_space_2 is_space_3 Bytes-discrete ℕ_discrete
approved_counted = omega arith

approved_leaves : (one_approved.heap 0).state ≢ waiting
unfolding new create fresh_session insert_session new_id new_token new_pair_code encode symbol
    format_06d decimal low_digits find put delete update store approve_by_code_with_settings approve
    valid is_model is_effort step status prepare_prompt set_gen_cancel handle_prompt trim_space
    trim_left trim_left_reversed is_space_1 is_space_2 is_space_3 Bytes-discrete ℕ_discrete
approved_leaves = λ e. ground arith

busy_lives : ((step 9 (prepares id_text hello) one_approved).heap 0).state ≢ destroyed
unfolding new create fresh_session insert_session new_id new_token new_pair_code encode symbol
    format_06d decimal low_digits find put delete update store approve_by_code_with_settings approve
    valid is_model is_effort step status prepare_prompt set_gen_cancel handle_prompt trim_space
    trim_left trim_left_reversed is_space_1 is_space_2 is_space_3 Bytes-discrete ℕ_discrete
busy_lives = λ e. ground arith

Steps-settings_example :
    let k = step 9 (prepares id_text hello) one_approved in
    ((k.heap 0).state ≢ waiting)
    × ((k.heap 0).settings ≡ (one_approved.heap 0).settings)
    × ((k.heap 0).control_token ≡ (one_approved.heap 0).control_token)
Steps-settings_example =
    Steps-settings one_approved (step 9 (prepares id_text hello) one_approved) 0
      (next here 9 (prepares id_text hello) tt) approved_counted approved_leaves busy_lives

abbrev pub request : PromptRequest
request = record { content = hello }

pending_refused :
    (handle_prompt id_text (some request) 9 (gateway_of one_waiting)).1
    ≡ replied (write_error 403 err_pairing_pending)
unfolding new create fresh_session insert_session new_id new_token new_pair_code encode symbol
    format_06d decimal low_digits find put delete update store approve_by_code_with_settings approve
    valid is_model is_effort step status prepare_prompt set_gen_cancel handle_prompt trim_space
    trim_left trim_left_reversed is_space_1 is_space_2 is_space_3 Bytes-discrete ℕ_discrete
pending_refused = refl

handle_prompt_refused_example :
    ((handle_prompt id_text (some request) 9 (gateway_of one_waiting)).0 ≡ gateway_of one_waiting)
    × (write_error 403 err_pairing_pending
        ≡ refusal (trim_space hello) (state_of id_text (gateway_of one_waiting).mgr))
handle_prompt_refused_example =
    handle_prompt_refused id_text request 9 (gateway_of one_waiting)
      (write_error 403 err_pairing_pending) pending_refused

pub hello_trimmed : trim_space hello ≢ []
unfolding trim_space trim_left trim_left_reversed is_space_1 is_space_2 is_space_3 ℕ_discrete
hello_trimmed = λ e. ground arith

pub gateway_found : find id_text (gateway_of one_approved).mgr.sessions ≡ some 0
unfolding new create fresh_session insert_session new_id new_token new_pair_code encode symbol
    format_06d decimal low_digits find put delete update store approve_by_code_with_settings approve
    valid is_model is_effort step status prepare_prompt set_gen_cancel handle_prompt trim_space
    trim_left trim_left_reversed is_space_1 is_space_2 is_space_3 Bytes-discrete ℕ_discrete
gateway_found = refl

pub gateway_idle : ((gateway_of one_approved).mgr.heap 0).state ≡ approved
unfolding new create fresh_session insert_session new_id new_token new_pair_code encode symbol
    format_06d decimal low_digits find put delete update store approve_by_code_with_settings approve
    valid is_model is_effort step status prepare_prompt set_gen_cancel handle_prompt trim_space
    trim_left trim_left_reversed is_space_1 is_space_2 is_space_3 Bytes-discrete ℕ_discrete
gateway_idle = refl

abbrev asking : List Message
asking = (one_approved.heap 0).history ++ user_message (trim_space hello) ∷ []

abbrev streaming : Gateway
streaming =
    (start_stream id_text true 3 10 asking
      (handle_prompt id_text (some request) 9 (gateway_of one_approved)).0).0

prompt_request_example :
    ((handle_prompt id_text (some request) 9 (gateway_of one_approved)).1 ≡ accepted asking)
    × ((start_stream id_text true 3 10 asking
          (handle_prompt id_text (some request) 9 (gateway_of one_approved)).0).1
        ≡ some (record { settings = (one_approved.heap 0).settings; messages = asking }))
prompt_request_example =
    prompt_request id_text request 9 10 3 (gateway_of one_approved) 0 hello_trimmed gateway_found
      gateway_idle

-- The user has cancelled after one delta.
abbrev cancelled_run : Streamed
cancelled_run = record {
  deltas = codes "He" ∷ [];
  result = ok (record { full_text = codes "He"; finish_reason = codes "stop" });
  client_gone = false;
  context = canceled;
}

prompt_outcome_example :
    let k = end_prompt id_text cancelled_run 11 streaming.mgr in
    ((last : List StreamEvent) × (k.1 ≡ sent (codes "He" ∷ []) ++ last)
      × IsConcluded
          (session_history id_text one_approved)
          asking
          (session_history id_text k.0)
          cancelled_run
          last)
    × (status id_text k.0 ≡ ok approved)
    × ((k.0.heap 0).gen_cancel ≡ none)
prompt_outcome_example =
    prompt_outcome id_text request 9 10 3 (gateway_of one_approved) 0 hello_trimmed gateway_found
      gateway_idle cancelled_run 11 refl

abbrev broken_run : Streamed
broken_run = record {
  deltas = codes "He" ∷ [];
  result = err (codes "context canceled");
  client_gone = true;
  context = canceled;
}

prompt_disconnected_example :
    let k = end_prompt id_text broken_run 11 streaming.mgr in
    (k.1 ≡ sent (codes "He" ∷ []))
    × IsErased id_text 0 streaming.mgr k.0
    × (k.0.cancelled ≡ 3 ∷ streaming.mgr.cancelled)
prompt_disconnected_example =
    prompt_disconnected id_text request 9 10 3 (gateway_of one_approved) 0 hello_trimmed
      gateway_found gateway_idle broken_run 11 refl

closed_still_streams_example :
    let k = (handle_close id_text (gateway_of busy)).0 in
    (start_stream id_text true 3 10 asked k
      ≡ (k, some (record { settings = zero_settings; messages = asked })))
    × (handle_cancel id_text k ≡ (k, write_error 404 err_not_found))
closed_still_streams_example = closed_still_streams id_text 3 10 asked (gateway_of busy)
