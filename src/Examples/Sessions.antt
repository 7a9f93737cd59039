-- ===== src/Examples/Sessions.antt =====
-- One session from its creation to its end, and two with the same code.
use deepseek_project.Gateway.Server.{Gateway}
use deepseek_project.Session.Trace.Reach.{Steps-new-IsValid}
use deepseek_project.Session.Trace.{Steps, here, next, step, creates, approves_code}
use deepseek_project.Session.Validity.{IsValid}
use deepseek_project.Session.Validity.Operations.{Fills, IsUnused}
use deepseek_project.Base.{
  ℕ, ◌≡◌, refl, Bytes, codes, List, [], ◌∷◌, none, some, ok, find, update, pos, Bytes-discrete,
  arith, put, ℕ_discrete, length, subst, ok_inj, delete, some_inj, ◌*◌,
}
use deepseek_project.Crypto.{new_id, new_token, new_pair_code, format_06d, decimal, low_digits}
use deepseek_project.Crypto.Base64.{encode, symbol, AreBytes}
use deepseek_project.Provider.Settings.{
  default_generation_settings, valid, is_model, is_effort, model_v4_flash,
}
use deepseek_project.Protocol.Types.{waiting, approved}
use deepseek_project.Session.Types.{Manager, RawConfig, new, store, second}
use deepseek_project.Session.Create.{Draws, create, fresh_session, insert_session}
use deepseek_project.Session.Approve.{approve, approve_by_code_with_settings}

abbrev pub config : RawConfig
config = record {
  pair_timeout = pos 0;
  idle_timeout = pos 0;
  gen_timeout = pos 0;
  max_sessions = pos 0;
}

abbrev pub zeros_16 : List ℕ
zeros_16 = 0 ∷ 0 ∷ 0 ∷ 0 ∷ 0 ∷ 0 ∷ 0 ∷ 0 ∷ 0 ∷ 0 ∷ 0 ∷ 0 ∷ 0 ∷ 0 ∷ 0 ∷ 0 ∷ []

abbrev pub zeros_32 : List ℕ
zeros_32 =
    0 ∷ 0 ∷ 0 ∷ 0 ∷ 0 ∷ 0 ∷ 0 ∷ 0 ∷ 0 ∷ 0 ∷ 0 ∷ 0 ∷ 0 ∷ 0 ∷ 0 ∷ 0 ∷ 0 ∷ 0 ∷ 0 ∷ 0 ∷ 0 ∷ 0 ∷ 0 ∷ 0
    ∷ 0 ∷ 0 ∷ 0 ∷ 0 ∷ 0 ∷ 0 ∷ 0 ∷ 0 ∷ []

abbrev pub first_draws : Draws
first_draws = record { id = some zeros_16; token = some zeros_32; code = some 42 }

abbrev pub id_text : Bytes
id_text = codes "AAAAAAAAAAAAAAAAAAAAAA"

abbrev pub token_text : Bytes
token_text = codes "AAAAAAAAAAAAAAAAAAAAAAAAAAAAAAAAAAAAAAAAAAA"

abbrev pub code_text : Bytes
code_text = codes "000042"

abbrev pub empty_manager : Manager
empty_manager = new config

abbrev pub one_waiting : Manager
one_waiting = (create first_draws 5 empty_manager).0

pub created_first : (create first_draws 5 empty_manager).1 ≡ ok 0
unfolding new create fresh_session insert_session new_id new_token new_pair_code encode symbol
    format_06d decimal low_digits find put delete update store approve_by_code_with_settings approve
    valid is_model is_effort Bytes-discrete ℕ_discrete
created_first = refl

pub code_of_one : find code_text one_waiting.by_pair_code ≡ some 0
unfolding new create fresh_session insert_session new_id new_token new_pair_code encode symbol
    format_06d decimal low_digits find put delete update store approve_by_code_with_settings approve
    valid is_model is_effort Bytes-discrete ℕ_discrete
code_of_one = refl

abbrev pub one_approved : Manager
one_approved =
    (approve_by_code_with_settings code_text default_generation_settings (some zeros_32) 7
      one_waiting).0

pub approved_first :
    (approve_by_code_with_settings code_text default_generation_settings
      (some zeros_32)
      7
      one_waiting).1
    ≡ ok 0
unfolding new create fresh_session insert_session new_id new_token new_pair_code encode symbol
    format_06d decimal low_digits find put delete update store approve_by_code_with_settings approve
    valid is_model is_effort Bytes-discrete ℕ_discrete
approved_first = refl

zeros_bytes : AreBytes zeros_32 × (length zeros_32 ≡ 32)
zeros_bytes = ground arith

pub zeros-Fills : Fills 32 (some zeros_32)
zeros-Fills = λ b e. subst (λ x. AreBytes x × (length x ≡ 32)) (some_inj e) zeros_bytes

pub first_draws-IsUnused : IsUnused empty_manager first_draws
unfolding new find
first_draws-IsUnused = λ id e. refl

pub found_waiting : find id_text one_waiting.sessions ≡ some 0
unfolding new create fresh_session insert_session new_id new_token new_pair_code encode symbol
    format_06d decimal low_digits find put delete update store approve_by_code_with_settings approve
    valid is_model is_effort Bytes-discrete ℕ_discrete
found_waiting = refl

pub found_approved : find id_text one_approved.sessions ≡ some 0
unfolding new create fresh_session insert_session new_id new_token new_pair_code encode symbol
    format_06d decimal low_digits find put delete update store approve_by_code_with_settings approve
    valid is_model is_effort Bytes-discrete ℕ_discrete
found_approved = refl

pub state_waiting : (one_waiting.heap 0).state ≡ waiting
unfolding new create fresh_session insert_session new_id new_token new_pair_code encode symbol
    format_06d decimal low_digits find put delete update store approve_by_code_with_settings approve
    valid is_model is_effort Bytes-discrete ℕ_discrete
state_waiting = refl

pub state_approved : (one_approved.heap 0).state ≡ approved
unfolding new create fresh_session insert_session new_id new_token new_pair_code encode symbol
    format_06d decimal low_digits find put delete update store approve_by_code_with_settings approve
    valid is_model is_effort Bytes-discrete ℕ_discrete
state_approved = refl

pub to_waiting : Steps empty_manager one_waiting
to_waiting = unfold step in next here 5 (creates first_draws) first_draws-IsUnused

pub waiting-IsValid : IsValid one_waiting
waiting-IsValid = Steps-new-IsValid config one_waiting to_waiting

pub to_approved : Steps empty_manager one_approved
to_approved =
    unfold step in
    next to_waiting 7 (approves_code code_text default_generation_settings (some zeros_32))
      zeros-Fills

pub approved-IsValid : IsValid one_approved
approved-IsValid = Steps-new-IsValid config one_approved to_approved

abbrev pub second_draws : Draws
second_draws = record { id = some (1 ∷ zeros_16); token = some zeros_32; code = some 42 }

abbrev pub second_id : Bytes
second_id = codes "AQAAAAAAAAAAAAAAAAAAAAA"

abbrev pub two_sessions : Manager
two_sessions = (create second_draws 8 one_approved).0

pub found_first : find id_text two_sessions.sessions ≡ some 0
unfolding new create fresh_session insert_session new_id new_token new_pair_code encode symbol
    format_06d decimal low_digits find put delete update store approve_by_code_with_settings approve
    valid is_model is_effort Bytes-discrete ℕ_discrete
found_first = refl

pub found_second : find second_id two_sessions.sessions ≡ some 1
unfolding new create fresh_session insert_session new_id new_token new_pair_code encode symbol
    format_06d decimal low_digits find put delete update store approve_by_code_with_settings approve
    valid is_model is_effort Bytes-discrete ℕ_discrete
found_second = refl

pub same_codes : (two_sessions.heap 0).pair_code ≡ (two_sessions.heap 1).pair_code
unfolding new create fresh_session insert_session new_id new_token new_pair_code encode symbol
    format_06d decimal low_digits find put delete update store approve_by_code_with_settings approve
    valid is_model is_effort Bytes-discrete ℕ_discrete
same_codes = refl

absent_second : find second_id one_approved.sessions ≡ none
unfolding new create fresh_session insert_session new_id new_token new_pair_code encode symbol
    format_06d decimal low_digits find put delete update store approve_by_code_with_settings approve
    valid is_model is_effort Bytes-discrete ℕ_discrete
absent_second = refl

pub second_draws-IsUnused : IsUnused one_approved second_draws
unfolding new_id encode symbol
second_draws-IsUnused =
    λ id e. subst (λ x. find x one_approved.sessions ≡ none) (ok_inj e) absent_second

pub to_two : Steps one_approved two_sessions
to_two = unfold step in next here 8 (creates second_draws) second_draws-IsUnused

-- The gateway that `New` makes of a manager and an otherwise empty configuration.
abbrev pub gateway_of : Manager → Gateway
gateway_of m = record {
  model = model_v4_flash;
  mgr = m;
  gen_timeout = 60 * second;
  gateway_url = [];
  max_prompt = 64 * 1024;
  limiter = record { limit = 20; window = 60 * second; stamps = [] };
}
