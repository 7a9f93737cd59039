-- ===== src/Examples/Pairing.antt =====
-- The laws of creation, pairing and the end of a session, at concrete sessions.
use deepseek_project.Crypto.Base64.{encode, symbol}
use deepseek_project.Crypto.{new_id, new_token, new_pair_code, format_06d, decimal, low_digits}
use deepseek_project.Base.{
  ℕ, ◌≡◌, ◌≢◌, refl, inr, none, some, ok, err, find, ◌↔◌, length, ◌<◌, arith, ◌^◌, if◌then◌else◌,
  leb, ℕ_discrete, Bytes-discrete, put, delete, update,
}
use deepseek_project.Provider.Settings.{default_generation_settings, valid, is_model, is_effort}
use deepseek_project.Session.Types.{Manager, SessionError, new, not_found, max_sessions, store}
use deepseek_project.Session.Create.{Draws, create, fresh_session, insert_session}
use deepseek_project.Session.Create.Laws.{create_failed, IsCreated, create-IsCreated}
use deepseek_project.Session.Create.Collision.{collision_loses_code}
use deepseek_project.Session.Approve.{approve_by_code_with_settings, approve}
use deepseek_project.Session.Approve.Laws.{approve_once}
use deepseek_project.Session.Destroy.{destroy, sweep_over, destroy_locked, remove_session}
use deepseek_project.Session.Destroy.Laws.{IsErased, destroy-IsErased}
use deepseek_project.Session.Destroy.Sweep.{sweep_over_iff, own_IsVisit, IsOver}
use deepseek_project.Session.Validity.{IsValid}
use deepseek_project.Session.Trace.{step, approves_code}
use deepseek_project.Session.Trace.Evolution.{Evolves, step-Evolves}
use deepseek_project.Session.Trace.Reach.{Steps-new-IsValid}
use deepseek_project.Examples.Sessions.{
  config, empty_manager, first_draws, one_waiting, one_approved, two_sessions, id_text, second_id,
  token_text, code_text, zeros_32, created_first, approved_first, first_draws-IsUnused, zeros-Fills,
  found_approved, to_two, to_approved, waiting-IsValid, found_first, found_second, same_codes,
}

Steps-new-IsValid_example : IsValid one_approved
Steps-new-IsValid_example = Steps-new-IsValid config one_approved to_approved

create-IsCreated_example : IsCreated first_draws 5 empty_manager one_waiting 0
create-IsCreated_example =
    create-IsCreated first_draws 5 empty_manager 0 first_draws-IsUnused created_first

-- The generator fails at the code.
abbrev no_code : Draws
no_code = record first_draws { code = none }

no_code_fails : (create no_code 5 empty_manager).1 ≡ err SessionError.random
unfolding new create fresh_session insert_session new_id new_token new_pair_code encode symbol
    format_06d decimal low_digits find put delete update store approve_by_code_with_settings approve
    valid is_model is_effort destroy destroy_locked remove_session Bytes-discrete ℕ_discrete
no_code_fails = refl

create_failed_example :
    ((create no_code 5 empty_manager).0 ≡ empty_manager)
    × (SessionError.random ≡ (
        if leb empty_manager.cfg.max_sessions (length empty_manager.sessions)
        then max_sessions
        else SessionError.random))
create_failed_example = create_failed no_code 5 empty_manager SessionError.random no_code_fails

approved_second :
    (approve_by_code_with_settings code_text default_generation_settings
      (some zeros_32)
      9
      two_sessions).1
    ≡ ok 1
unfolding new create fresh_session insert_session new_id new_token new_pair_code encode symbol
    format_06d decimal low_digits find put delete update store approve_by_code_with_settings approve
    valid is_model is_effort destroy destroy_locked remove_session Bytes-discrete ℕ_discrete
approved_second = refl

approve_once_example : ◌≢◌ {A = ℕ} 1 0
approve_once_example =
    approve_once one_waiting two_sessions 0 1 code_text token_text code_text
      default_generation_settings default_generation_settings (some zeros_32) (some zeros_32) 7 9
      waiting-IsValid approved_first to_two (inr approved_second)

waiting_counted : 0 < one_waiting.next
unfolding new create fresh_session insert_session new_id new_token new_pair_code encode symbol
    format_06d decimal low_digits find put delete update store approve_by_code_with_settings approve
    valid is_model is_effort destroy destroy_locked remove_session Bytes-discrete ℕ_discrete
waiting_counted = omega arith

step-Evolves_example : Evolves (one_waiting.heap 0) (one_approved.heap 0)
unfolding approve_by_code_with_settings step
step-Evolves_example =
    step-Evolves 7 (approves_code code_text default_generation_settings (some zeros_32)) one_waiting
      0 zeros-Fills waiting_counted

abbrev gone : Manager
gone = destroy id_text one_approved

destroy-IsErased_example : IsErased id_text 0 one_approved gone
destroy-IsErased_example = destroy-IsErased id_text 0 one_approved found_approved

sweep_over_iff_example :
    (find id_text (sweep_over (10 ^ 12) one_waiting.sessions one_waiting).sessions ≡ some 0)
    ↔ ((find id_text one_waiting.sessions ≡ some 0) × ¬ IsOver (10 ^ 12) (one_waiting.heap 0))
sweep_over_iff_example =
    sweep_over_iff (10 ^ 12) one_waiting.sessions one_waiting id_text 0 waiting-IsValid
      (own_IsVisit one_waiting waiting-IsValid)

collision_loses_code_example :
    let k = destroy id_text two_sessions in
    (find second_id k.sessions ≡ some 1)
    × (k.heap 1 ≡ two_sessions.heap 1)
    × (approve_by_code_with_settings
          (two_sessions.heap 1).pair_code
          default_generation_settings
          (some zeros_32)
          9
          k
        ≡ (k, err not_found))
collision_loses_code_example =
    collision_loses_code id_text second_id 0 1 two_sessions default_generation_settings
      (some zeros_32) 9 found_first found_second (omega arith) same_codes
