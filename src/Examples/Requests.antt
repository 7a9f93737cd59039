-- ===== src/Examples/Requests.antt =====
-- The laws of the requests and of their interleavings, at a gateway with a session or two.
use deepseek_project.Protocol.PairCode.{normalize_pair_code, is_digit, format_pair_code}
use deepseek_project.Base.{
  ◌≡◌, ◌≤◌, refl, Bytes, codes, [], ◌∷◌, some, ok, find, true, ◌↔◌, ◌⊎◌, ◌++◌, arith, put, delete,
  update, Bytes-discrete, ℕ_discrete, trim_space, trim_left, trim_left_reversed, is_space_1,
  is_space_2, is_space_3, ◌*◌, ◌+◌,
}
use deepseek_project.Crypto.{new_id, new_token, new_pair_code, format_06d, decimal, low_digits}
use deepseek_project.Crypto.Base64.{encode, symbol}
use deepseek_project.Provider.Settings.{
  valid, is_model, is_effort, parse_settings, choose_model, choose_effort, base_model,
}
use deepseek_project.Protocol.Types.{PromptRequest, ApproveRequest, SessionCreateResponse}
use deepseek_project.Session.Types.{new, store, second}
use deepseek_project.Session.Create.{create, fresh_session, insert_session, control_token}
use deepseek_project.Session.Approve.{approve, approve_by_code_with_settings}
use deepseek_project.Session.Prompt.{user_message, prepare_prompt}
use deepseek_project.Gateway.Limiter.{new_create_limiter, allow, keep, run}
use deepseek_project.Gateway.Limiter.Window.{count_within, run-within-limit}
use deepseek_project.Gateway.Server.{write_json, created}
use deepseek_project.Gateway.Handlers.{handle_create, handle_approve, handle_end, approve_request}
use deepseek_project.Gateway.Handlers.Laws.{handle_approve_settled, MayEnd, handle_end_iff}
use deepseek_project.Gateway.Handlers.Pairing.{code_request}
use deepseek_project.Gateway.Prompt.{handle_prompt, start_stream}
use deepseek_project.Gateway.Prompt.World.{
  World, Steps, here, next, creates, approves, prompts, starts, prompted,
}
use deepseek_project.Gateway.Prompt.World.Orderly.{IsOrderly, Steps-IsOrderly}
use deepseek_project.Examples.Sessions.{
  gateway_of, config, empty_manager, one_approved, first_draws, zeros_32, id_text, token_text,
  code_text, first_draws-IsUnused, zeros-Fills, one_waiting, waiting-IsValid,
}
use deepseek_project.Session.Validity.Operations.{new-IsValid}

abbrev idle_world : World
idle_world = record { gateway = gateway_of empty_manager; in_flight = [] }

idle-IsOrderly : IsOrderly idle_world
idle-IsOrderly = record {
  serves = record { valid = new-IsValid config; answering = tt };
  apart = tt;
}

abbrev with_session : World
with_session = record idle_world { gateway = (handle_create first_draws 5 idle_world.gateway).0 }

abbrev approval_request : ApproveRequest
approval_request = code_request code_text

abbrev with_controller : World
with_controller = record with_session {
  gateway = (handle_approve (some approval_request) (some zeros_32) 7 with_session.gateway).0;
}

abbrev hello : PromptRequest
hello = record { content = codes "Hi" }

abbrev with_request : World
with_request =
    prompted id_text (handle_prompt id_text (some hello) 9 with_controller.gateway) with_controller

abbrev with_generation : World
with_generation = record with_request {
  gateway =
      (start_stream id_text true 3 10 (user_message (codes "Hi") ∷ []) with_request.gateway).0;
}

in_flight_one : with_request.in_flight ≡ id_text ∷ []
unfolding new create fresh_session insert_session new_id new_token new_pair_code encode symbol
    format_06d decimal low_digits find put delete update store approve_by_code_with_settings approve
    valid is_model is_effort prepare_prompt handle_prompt handle_create handle_approve
    approve_request control_token parse_settings choose_model choose_effort base_model
    normalize_pair_code is_digit format_pair_code allow keep trim_space trim_left trim_left_reversed
    is_space_1 is_space_2 is_space_3 Bytes-discrete ℕ_discrete
in_flight_one = refl

to_generation : Steps idle_world with_generation
to_generation =
    next
      (next
        (next (next here (creates first_draws 5 (first_draws-IsUnused, tt)))
          (approves (some approval_request) (some zeros_32) 7 zeros-Fills))
        (prompts id_text (some hello) 9))
      (starts [] [] id_text 3 10 (user_message (codes "Hi") ∷ []) in_flight_one)

Steps-IsOrderly_example : IsOrderly with_generation
Steps-IsOrderly_example = Steps-IsOrderly idle_world with_generation to_generation idle-IsOrderly

abbrev pub created_reply : SessionCreateResponse
created_reply = record {
  session_id = id_text;
  pairing_token = token_text;
  pairing_code = codes "000 042";
  gateway_url = [];
  expires_in = 120;
}

pub created_reply_sent :
    (handle_create first_draws 5 (gateway_of empty_manager)).1
    ≡ write_json 201 (created created_reply)
unfolding new create fresh_session insert_session new_id new_token new_pair_code encode symbol
    format_06d decimal low_digits find put delete update store approve_by_code_with_settings approve
    valid is_model is_effort prepare_prompt handle_prompt handle_create handle_approve
    approve_request control_token parse_settings choose_model choose_effort base_model
    normalize_pair_code is_digit format_pair_code allow keep trim_space trim_left trim_left_reversed
    is_space_1 is_space_2 is_space_3 Bytes-discrete ℕ_discrete
created_reply_sent = refl

pub token_drawn : new_token (some zeros_32) ≡ ok token_text
unfolding new create fresh_session insert_session new_id new_token new_pair_code encode symbol
    format_06d decimal low_digits find put delete update store approve_by_code_with_settings approve
    valid is_model is_effort prepare_prompt handle_prompt handle_create handle_approve
    approve_request control_token parse_settings choose_model choose_effort base_model
    normalize_pair_code is_digit format_pair_code allow keep trim_space trim_left trim_left_reversed
    is_space_1 is_space_2 is_space_3 Bytes-discrete ℕ_discrete
token_drawn = refl

pub in_time : 60 * second ≤ 5 + (gateway_of empty_manager).mgr.cfg.pair_timeout
unfolding new create fresh_session insert_session new_id new_token new_pair_code encode symbol
    format_06d decimal low_digits find put delete update store approve_by_code_with_settings approve
    valid is_model is_effort prepare_prompt handle_prompt handle_create handle_approve
    approve_request control_token parse_settings choose_model choose_effort base_model
    normalize_pair_code is_digit format_pair_code allow keep trim_space trim_left trim_left_reversed
    is_space_1 is_space_2 is_space_3 Bytes-discrete ℕ_discrete
in_time = omega arith

abbrev wrong_code : ApproveRequest
wrong_code = code_request (codes "999 999")

handle_approve_settled_example :
    ((handle_approve (some wrong_code) (some zeros_32) 7 (gateway_of one_waiting)).1.status ≡ 200)
    ⊎ ((handle_approve (some wrong_code) (some zeros_32) 7 (gateway_of one_waiting)).0
        ≡ gateway_of one_waiting)
handle_approve_settled_example =
    handle_approve_settled (some wrong_code) (some zeros_32) 7 (gateway_of one_waiting)
      waiting-IsValid

abbrev header : Bytes
header = codes "Bearer " ++ token_text

handle_end_iff_example :
    ((handle_end id_text header (gateway_of one_approved)).1.status ≡ 204)
    ↔ MayEnd id_text header (gateway_of one_approved)
handle_end_iff_example = handle_end_iff id_text header (gateway_of one_approved)

run-within-limit_example :
    count_within 10 4 (run (new_create_limiter 2 10) [] (1 ∷ 5 ∷ 6 ∷ 12 ∷ [])) ≤ 2
run-within-limit_example = run-within-limit 2 10 4 (1 ∷ 5 ∷ 6 ∷ 12 ∷ []) (ground arith)
