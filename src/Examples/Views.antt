-- ===== src/Examples/Views.antt =====
-- The abstract view, the sweeper and the deadlines, at concrete sessions.
use deepseek_project.Session.Trace.Reach.{Steps-IsValid}
use deepseek_project.Session.Validity.{IsValid}
use deepseek_project.Session.Approve.{approve, approve_by_code_with_settings}
use deepseek_project.Crypto.{new_id, new_token, new_pair_code, format_06d, decimal, low_digits}
use deepseek_project.Crypto.Base64.{encode, symbol}
use deepseek_project.Provider.Settings.{valid, is_model, is_effort}
use deepseek_project.Base.{
  ap, sym, ◌∙◌, Bytes, List, ◌∷◌, put, delete, update, Bytes-discrete, ℕ_discrete, ℕ, ◌≡◌, ◌≢◌, ◌<◌,
  refl, arith, [], none, find, some, ◌*◌,
}
use deepseek_project.Session.Types.{Manager, new, resolve, second, store}
use deepseek_project.Session.Create.{create, fresh_session, insert_session}
use deepseek_project.Session.Destroy.{sweep_over, sweep}
use deepseek_project.Session.Destroy.Sweep.{own_IsVisit, IsVisit}
use deepseek_project.Session.Trace.{here, next, step, cancels}
use deepseek_project.Session.Trace.Expiry.{Unapproved, expired_session_goes}
use deepseek_project.Session.Refinement.{Runs}
use deepseek_project.Session.Refinement.Views.{view, sweep_over-order}
use deepseek_project.Session.Refinement.Calls.{Steps-Runs}
use deepseek_project.Examples.Sessions.{
  config, one_waiting, one_approved, two_sessions, id_text, second_id, to_two, to_approved,
  waiting-IsValid, approved-IsValid, state_waiting,
}

Steps-Runs_example : Runs (resolve config) (λ id. none) (view one_approved)
Steps-Runs_example = Steps-Runs config one_approved to_approved

-- The time after every deadline.
abbrev late : ℕ
late = 1000 * second

two-IsValid : IsValid two_sessions
two-IsValid = Steps-IsValid approved-IsValid to_two

-- The two sessions in the other order.
abbrev reversed : List (Bytes × ℕ)
reversed = (second_id, 1) ∷ (id_text, 0) ∷ []

both : two_sessions.sessions ≡ (id_text, 0) ∷ (second_id, 1) ∷ []
unfolding new create fresh_session insert_session new_id new_token new_pair_code encode symbol
    format_06d decimal low_digits find put delete update store approve_by_code_with_settings approve
    valid is_model is_effort Bytes-discrete ℕ_discrete
both = refl

swapped_entries : (j : Bytes) → find j reversed ≡ find j ((id_text, 0) ∷ (second_id, 1) ∷ [])
unfolding find
swapped_entries j = ground arith

reversed-IsVisit : IsVisit reversed two_sessions
unfolding find
reversed-IsVisit = record {
  once = (ground arith, (ground arith, tt));
  entries = λ j. swapped_entries j ∙ ap (find j) (sym both);
}

sweep_over-order_example :
    view (sweep_over late two_sessions.sessions two_sessions) id_text
    ≡ view (sweep_over late reversed two_sessions) id_text
sweep_over-order_example =
    sweep_over-order late two_sessions.sessions reversed two_sessions id_text two-IsValid
      (own_IsVisit two_sessions two-IsValid) reversed-IsVisit

-- A cancellation comes in between, and fails.
abbrev cancelled_waiting : Manager
cancelled_waiting = step late (cancels id_text) one_waiting

waiting_counted : 0 < one_waiting.next
unfolding new create fresh_session insert_session new_id new_token new_pair_code encode symbol
    format_06d decimal low_digits find put delete update store approve_by_code_with_settings approve
    valid is_model is_effort Bytes-discrete ℕ_discrete
waiting_counted = omega arith

waiting_expired : (one_waiting.heap 0).pair_expiry < late
unfolding new create fresh_session insert_session new_id new_token new_pair_code encode symbol
    format_06d decimal low_digits find put delete update store approve_by_code_with_settings approve
    valid is_model is_effort Bytes-discrete ℕ_discrete
waiting_expired = omega arith

expired_session_goes_example :
    Unapproved (cancelled_waiting.heap 0)
    × (find id_text (sweep late cancelled_waiting).sessions ≢ some 0)
expired_session_goes_example =
    expired_session_goes one_waiting cancelled_waiting 0 late late id_text
      (next here late (cancels id_text) tt) waiting-IsValid (omega arith, tt) waiting_counted
      state_waiting waiting_expired (omega arith)
