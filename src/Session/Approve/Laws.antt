-- ===== src/Session/Approve/Laws.antt =====
-- When pairing succeeds, what it changes, and that it succeeds once.
use deepseek_project.Base.{
  ℕ, ◌<◌, ◌≤◌, ◌≡◌, ◌≢◌, ◌⊎◌, ◌↔◌, inl, inr, Bytes, List, Option, none, some, true, find, update,
  arith, Option-cases, ok, err, is_ok,
}
use deepseek_project.Crypto.{new_token}
use deepseek_project.Protocol.Types.{waiting, approved}
use deepseek_project.Provider.Settings.{GenerationSettings, valid}
use deepseek_project.Session.Types.{Session, Manager, SessionError, store}
use deepseek_project.Session.Approve.{
  granted, approve, approve_by_token_with_settings, approve_by_code_with_settings,
}
use deepseek_project.Session.Validity.{IsValid}
use deepseek_project.Session.Trace.{Steps}
use deepseek_project.Session.Trace.Reach.{Steps-settings}

-- The generator has bytes for a control token, and the session may be approved.
pub record MayApprove (settings : GenerationSettings) (draw : Option (List ℕ)) (now : ℕ)
    (s : Session) : Type 0 where
  pub in_time : now ≤ s.pair_expiry
  pub waits : s.state ≡ waiting
  pub normal : valid settings ≡ true
  pub drawn : draw ≢ none

module _ (settings : GenerationSettings) (draw : Option (List ℕ)) (now : ℕ) (m : Manager) where
  approve_iff :
      (p : ℕ)
      → (is_ok (approve p settings draw now m).1 ≡ true) ↔ MayApprove settings draw now (m.heap p)
  unfolding approve new_token
  approve_iff p = ground arith

  -- Pairing by code succeeds exactly when the code leads to a session that waits, whose pairing has
  -- not expired, with settings in normal form and a working generator.
  pub approve_by_code_iff :
      (code : Bytes)
      → (is_ok (approve_by_code_with_settings code settings draw now m).1 ≡ true)
        ↔ ((p : ℕ) × (find code m.by_pair_code ≡ some p) × MayApprove settings draw now (m.heap p))
  unfolding approve_by_code_with_settings
  approve_by_code_iff code = elim (Option-cases (find code m.by_pair_code)) [
    | inl e ↦ ground arith
    | inr (p, e) ↦ (
      λ h. (p, e, (approve_iff p).0 (ground arith)),
      λ w. ground (arith, (approve_iff w.0).1 w.2, w.1),
    )
  ]

  pub approve_failed :
      (token code : Bytes) (e : SessionError)
      → ((approve_by_token_with_settings token settings draw now m).1 ≡ err e
          → (approve_by_token_with_settings token settings draw now m).0 ≡ m)
        × ((approve_by_code_with_settings code settings draw now m).1 ≡ err e
            → (approve_by_code_with_settings code settings draw now m).0 ≡ m)
  unfolding approve_by_token_with_settings approve_by_code_with_settings approve
  approve_failed token code e = ground arith

pub approve-granted :
    (p : ℕ) (settings : GenerationSettings) (draw : Option (List ℕ)) (now : ℕ) (m : Manager)
    (tok : Bytes)
    → MayApprove settings draw now (m.heap p)
    → new_token draw ≡ ok tok
    → approve p settings draw now m ≡ (store p (granted tok settings (m.heap p)) m, ok p)
unfolding approve
approve-granted p settings draw now m tok may e = ground arith

-- A successful pairing leads, by the code that was given, to a session that is approved with the
-- settings that were given and has the token that the generator made, and changes no other session.
pub approve_by_code_effect :
    (code : Bytes) (settings : GenerationSettings) (draw : Option (List ℕ)) (now : ℕ) (m : Manager)
    (p : ℕ)
    → (approve_by_code_with_settings code settings draw now m).1 ≡ ok p
    → let k = (approve_by_code_with_settings code settings draw now m).0 in
      (find code m.by_pair_code ≡ some p)
      × ((k.heap p).state ≡ approved)
      × ((k.heap p).settings ≡ settings)
      × (new_token draw ≡ ok (k.heap p).control_token)
      × ((q : ℕ) → q ≢ p → k.heap q ≡ m.heap q)
      × (k.sessions ≡ m.sessions)
      × (k.next ≡ m.next)
unfolding approve_by_code_with_settings approve store update
approve_by_code_effect code settings draw now m p h = ground arith

approved_once :
    (m k : Manager) (p q : ℕ) (token code : Bytes) (settings : GenerationSettings)
    (draw : Option (List ℕ)) (now : ℕ)
    → Steps m k
    → p < m.next
    → (m.heap p).state ≢ waiting
    → ((approve_by_token_with_settings token settings draw now k).1 ≡ ok q)
      ⊎ ((approve_by_code_with_settings code settings draw now k).1 ≡ ok q)
    → q ≢ p
unfolding approve_by_code_with_settings approve_by_token_with_settings approve
approved_once m k p q token code settings draw now r h w (inl e) same =
    ground (arith, Steps-settings m k p r h w)
approved_once m k p q token code settings draw now r h w (inr e) same =
    ground (arith, Steps-settings m k p r h w)

-- A pairing credential works once: after a successful pairing by code in a valid manager, and any
-- operations after it, called as their callers guarantee, a pairing by any token or code, with any settings, that succeeds is for another session.
pub approve_once :
    (m k : Manager) (p q : ℕ) (code token' code' : Bytes) (settings settings' : GenerationSettings)
    (draw draw' : Option (List ℕ)) (now now' : ℕ)
    → IsValid m
    → (approve_by_code_with_settings code settings draw now m).1 ≡ ok p
    → Steps (approve_by_code_with_settings code settings draw now m).0 k
    → ((approve_by_token_with_settings token' settings' draw' now' k).1 ≡ ok q)
      ⊎ ((approve_by_code_with_settings code' settings' draw' now' k).1 ≡ ok q)
    → q ≢ p
approve_once m k p q code token' code' settings settings' draw draw' now now' v e r o =
    let f = approve_by_code_effect code settings draw now m p e in
    approved_once _ k p q token' code' settings' draw' now' r
      (omega (arith, f.6, v.stored (m.heap p).id p (v.coded code p f.0).1)) (rw f.1 (λ x. cc)) o
