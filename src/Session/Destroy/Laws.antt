-- ===== src/Session/Destroy/Laws.antt =====
-- What destroying a session does to it, to the maps and to the other sessions.
use deepseek_project.Base.{
  ℕ, ◌≡◌, ◌≢◌, ◌⊎◌, ◌↔◌, inl, inr, Bytes, Bytes-discrete, [], none, some, true, find, update, arith,
  Option-cases, Bool-cases, ok, err, is_ok, find-delete, ite,
}
use deepseek_project.Protocol.Types.{waiting}
use deepseek_project.Session.Types.{Manager, SessionError, not_found, unauthorized}
use deepseek_project.Session.Create.{status, session_settings, control_token, session_history}
use deepseek_project.Session.Destroy.{
  called, remove_session, destroy_locked, destroy, end_by_control_token,
}
use deepseek_project.Session.Validity.{IsWiped, IsValid}

-- Destroying an identifier removes it from the map and leaves every other identifier where it is.
pub find-destroy :
    (id j : Bytes) (m : Manager)
    → find j (destroy id m).sessions ≡ ite (Bytes-discrete id j) none (find j m.sessions)
unfolding destroy destroy_locked remove_session
find-destroy id j m = ground (arith, find-delete id j m.sessions)

-- Every cell but the destroyed session's keeps its content.
pub heap-destroy :
    (id : Bytes) (m : Manager) (q : ℕ)
    → find id m.sessions ≢ some q
    → (destroy id m).heap q ≡ m.heap q
unfolding destroy destroy_locked remove_session update
heap-destroy id m q h = ground arith

-- What is left of the session `p` of `m` in the manager `k`, and what is left of the others.
pub record IsErased (id : Bytes) (p : ℕ) (m k : Manager) : Type 0 where
  pub unknown : status id k ≡ err not_found
  pub no_settings : session_settings id k ≡ err not_found
  pub no_token : control_token id k ≡ err not_found
  pub no_history : session_history id k ≡ []
  pub no_code : find (m.heap p).pair_code k.by_pair_code ≡ none
  pub wiped : IsWiped (k.heap p)
  pub stopped : k.cancelled ≡ called (m.heap p).gen_cancel m.cancelled
  pub entries : (j : Bytes) → j ≢ id → find j k.sessions ≡ find j m.sessions
  pub memory : (q : ℕ) → q ≢ p → k.heap q ≡ m.heap q

-- Destroying a session that the map has erases it: the identifier is unknown to every reading operation, its history
-- reads empty, its pairing code leads nowhere, its memory holds no secret and no history, its running
-- generation has been cancelled, and every other session keeps its entry and its memory.
pub destroy-IsErased :
    (id : Bytes) (p : ℕ) (m : Manager)
    → find id m.sessions ≡ some p
    → IsErased id p m (destroy id m)
unfolding destroy destroy_locked remove_session update status session_settings control_token
    session_history
destroy-IsErased id p m f = record {
  unknown = ground (arith, find-delete id id m.sessions);
  no_settings = ground (arith, find-delete id id m.sessions);
  no_token = ground (arith, find-delete id id m.sessions);
  no_history = ground (arith, find-delete id id m.sessions);
  no_code = ground (arith, find-delete (m.heap p).pair_code (m.heap p).pair_code m.by_pair_code);
  wiped = ground arith;
  stopped = ground arith;
  entries = λ j n. ground (arith, find-delete id j m.sessions);
  memory = λ q n. ground arith;
}

-- The controller ends a session exactly when it exists and the token given is its control token and
-- not empty.
pub end_by_control_token_iff :
    (id token : Bytes) (m : Manager)
    → (is_ok (end_by_control_token id token m).1 ≡ true) ↔ (
        (p : ℕ) × (find id m.sessions ≡ some p) × (token ≢ []) × ((m.heap p).control_token ≡ token))
unfolding end_by_control_token
end_by_control_token_iff id token m = elim (Option-cases (find id m.sessions)) [
  | inl e ↦ ground arith
  | inr (p, e) ↦ (λ h. (p, e, ground arith, ground arith), λ (q, f, t, c). ground arith)
]

-- When it succeeds the session is destroyed, and when it fails nothing changes.
pub end_by_control_token_effect :
    (id token : Bytes) (m : Manager)
    → (((end_by_control_token id token m).1 ≡ ok tt)
        × ((end_by_control_token id token m).0 ≡ destroy id m))
      ⊎ (((e : SessionError) × ((end_by_control_token id token m).1 ≡ err e))
          × ((end_by_control_token id token m).0 ≡ m))
unfolding end_by_control_token destroy
end_by_control_token_effect id token m =
    elim (Bool-cases (is_ok (end_by_control_token id token m).1)) [
      | inl e ↦ inl (ground arith)
      | inr e ↦ inr (ground arith)
    ]

-- No token ends a session of a valid manager that waits for its approval.
pub end_waiting :
    (id token : Bytes) (p : ℕ) (m : Manager)
    → IsValid m
    → find id m.sessions ≡ some p
    → (m.heap p).state ≡ waiting
    → end_by_control_token id token m ≡ (m, err unauthorized)
unfolding end_by_control_token
end_waiting id token p m v f w = ground (arith, (v.sound id p f).uncontrolled w)
