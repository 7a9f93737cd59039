-- ===== src/Session/Approve.antt =====
-- internal/session/manager.go: pairing.
pub mod Lookup
pub mod Laws
use deepseek_project.Base.{
  ℕ, Bytes, text_eq, List, [], ◌∷◌, Option, none, some, not, if◌then◌else◌, ltb, find, Result, ok,
  err,
}
use deepseek_project.Crypto.{new_token}
use deepseek_project.Protocol.Types.{waiting, approved, state_eq}
use deepseek_project.Provider.Settings.{GenerationSettings, valid, default_generation_settings}
use deepseek_project.Session.Types.{Session, SessionError, Manager, store}

-- The session's memory after its approval.
abbrev pub granted : Bytes → GenerationSettings → Session → Session
granted tok settings s = record s { control_token = tok; settings = settings; state = approved }

unfoldable pub approve :
    ℕ → GenerationSettings → Option (List ℕ) → ℕ → Manager → Manager × Result SessionError ℕ
approve p settings draw now m =
    let s = m.heap p in
    if ltb s.pair_expiry now
    then (m, err SessionError.pairing_expired)
    else (if not (state_eq s.state waiting)
        then (m, err SessionError.already_approved)
        else (if not (valid settings)
            then (m, err SessionError.invalid_settings)
            else (elim (new_token draw) [
              | ok tok ↦ (
                store p (record s { control_token = tok; settings = settings; state = approved }) m,
                ok p,
              )
              | err e ↦ (m, err SessionError.random)
            ])))

-- The loop over the sessions: the first one visited whose pairing token is `token`.
unfoldable pub find_by_token : Bytes → (ℕ → Session) → List (Bytes × ℕ) → Option ℕ
find_by_token token heap [] = none
find_by_token token heap ((id, p) ∷ rest) =
    if text_eq (heap p).pair_token token then some p else find_by_token token heap rest

unfoldable pub approve_by_token_with_settings :
    Bytes → GenerationSettings → Option (List ℕ) → ℕ → Manager → Manager × Result SessionError ℕ
approve_by_token_with_settings token settings draw now m =
    elim (find_by_token token m.heap m.sessions) [
      | none ↦ (m, err SessionError.not_found)
      | some p ↦ approve p settings draw now m
    ]

unfoldable pub approve_by_token :
    Bytes → Option (List ℕ) → ℕ → Manager → Manager × Result SessionError ℕ
approve_by_token token draw now m =
    approve_by_token_with_settings token default_generation_settings draw now m

unfoldable pub approve_by_code_with_settings :
    Bytes → GenerationSettings → Option (List ℕ) → ℕ → Manager → Manager × Result SessionError ℕ
approve_by_code_with_settings code settings draw now m = elim (find code m.by_pair_code) [
  | none ↦ (m, err SessionError.not_found)
  | some p ↦ approve p settings draw now m
]

unfoldable pub approve_by_code :
    Bytes → Option (List ℕ) → ℕ → Manager → Manager × Result SessionError ℕ
approve_by_code code draw now m =
    approve_by_code_with_settings code default_generation_settings draw now m
