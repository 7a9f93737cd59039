-- ===== src/Session/Prompt.antt =====
-- internal/session/manager.go: one prompt and its generation.
pub mod Laws
use deepseek_project.Base.{
  ℕ, ◌+◌, Bytes, text_eq, List, [], ◌∷◌, ◌++◌, none, some, not, if◌then◌else◌, find, Result, ok,
  err, Option,
}
use deepseek_project.Protocol.Types.{approved, active, state_eq}
use deepseek_project.Provider.{Message, role_user, role_assistant}
use deepseek_project.Session.Types.{SessionError, Manager, store, Session}

abbrev pub user_message : Bytes → Message
user_message content = record { role = role_user; content = content }

abbrev pub assistant_message : Bytes → Message
assistant_message content = record { role = role_assistant; content = content }

-- `if n > 0 && h[n-1].Role == RoleUser { h = h[:n-1] }`
unfoldable pub remove_last_user : List Message → List Message
remove_last_user [] = []
remove_last_user (x ∷ []) = if text_eq x.role role_user then [] else x ∷ []
remove_last_user (x ∷ y ∷ rest) = x ∷ remove_last_user (y ∷ rest)

-- The session's memory after each operation; `deadline` is the new idle deadline.
abbrev pub with_prompt : Bytes → ℕ → Session → Session
with_prompt content deadline s = record s {
  history = s.history ++ user_message content ∷ [];
  state = active;
  idle_deadline = deadline;
}

abbrev pub with_answer : Bytes → ℕ → Session → Session
with_answer text deadline s = record s {
  history = if text_eq text [] then s.history else s.history ++ assistant_message text ∷ [];
  state = approved;
  idle_deadline = deadline;
  gen_cancel = none;
}

abbrev pub without_prompt : ℕ → Session → Session
without_prompt deadline s = record s {
  history = remove_last_user s.history;
  state = approved;
  idle_deadline = deadline;
  gen_cancel = none;
}

abbrev pub with_cancel : Option ℕ → Session → Session
with_cancel cancel s = record s { gen_cancel = cancel }

unfoldable pub prepare_prompt :
    Bytes → Bytes → ℕ → Manager → Manager × Result SessionError (List Message)
prepare_prompt id content now m = elim (find id m.sessions) [
  | none ↦ (m, err SessionError.not_found)
  | some p ↦
      let s = with_prompt content (now + m.cfg.idle_timeout) (m.heap p) in
      if not (state_eq (m.heap p).state approved)
      then (m, err SessionError.not_approved)
      else (store p s m, ok s.history)
]

-- The finish reason is not used.
unfoldable pub finish_prompt : Bytes → Bytes → Bytes → ℕ → Manager → Manager
finish_prompt id text finish_reason now m = elim (find id m.sessions) [
  | none ↦ m
  | some p ↦ store p (with_answer text (now + m.cfg.idle_timeout) (m.heap p)) m
]

unfoldable pub fail_prompt : Bytes → ℕ → Manager → Manager
fail_prompt id now m = elim (find id m.sessions) [
  | none ↦ m
  | some p ↦ store p (without_prompt (now + m.cfg.idle_timeout) (m.heap p)) m
]

unfoldable pub set_gen_cancel : Bytes → ℕ → Manager → Manager × Result SessionError (Unit {0})
set_gen_cancel id cancel m = elim (find id m.sessions) [
  | none ↦ (m, err SessionError.not_found)
  | some p ↦ (store p (with_cancel (some cancel) (m.heap p)) m, ok tt)
]

-- The cancel function is called, and no longer kept.
unfoldable pub cancel_generation : Bytes → Manager → Manager × Result SessionError (Unit {0})
cancel_generation id m = elim (find id m.sessions) [
  | none ↦ (m, err SessionError.not_found)
  | some p ↦ elim (m.heap p).gen_cancel [
    | none ↦ (m, err SessionError.not_active)
    | some g ↦
        (store p (with_cancel none (m.heap p)) (record m { cancelled = g ∷ m.cancelled }), ok tt)
  ]
]
