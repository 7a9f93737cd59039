-- ===== src/Session/Prompt/Laws.antt =====
-- One prompt: what the history holds after it, and when it is refused.
use deepseek_project.Base.{
  ℕ, ◌+◌, ◌≡◌, ◌≢◌, ◌↔◌, inl, inr, Bytes, List, [], ◌∷◌, ◌++◌, some, find, update, arith,
  Option-cases, ok, err, text_eq, if◌then◌else◌, append_assoc,
}
use deepseek_project.Protocol.Types.{approved}
use deepseek_project.Provider.{Message}
use deepseek_project.Session.Types.{Manager, store, not_active, not_approved}
use deepseek_project.Session.Create.{session_history, status}
use deepseek_project.Session.Prompt.{
  prepare_prompt, finish_prompt, fail_prompt, set_gen_cancel, cancel_generation, remove_last_user,
  user_message, assistant_message,
}

pub remove_last_user-prompt :
    (h : List Message) (content : Bytes) → remove_last_user (h ++ user_message content ∷ []) ≡ h
unfolding remove_last_user
remove_last_user-prompt [] content = ground arith
remove_last_user-prompt (x ∷ []) content = ground arith
remove_last_user-prompt (x ∷ y ∷ h) content =
    ground (arith, remove_last_user-prompt (y ∷ h) content)

module _ (id content : Bytes) (m : Manager) where
  -- A prompt is accepted exactly when the session exists and is approved and idle; the provider then
  -- receives the whole history with the new message at its end.
  pub prepare_prompt_iff :
      (now : ℕ) (hist : List Message)
      → ((prepare_prompt id content now m).1 ≡ ok hist) ↔ (
          (p : ℕ) × (find id m.sessions ≡ some p)
          × ((m.heap p).state ≡ approved)
          × (hist ≡ (m.heap p).history ++ user_message content ∷ []))
  unfolding prepare_prompt
  prepare_prompt_iff now hist = elim (Option-cases (find id m.sessions)) [
    | inl e ↦ ground arith
    | inr (p, e) ↦ (λ h. (p, e, ground arith, ground arith), λ w. ground (arith, w.1))
  ]

  -- A prompt for a session that is approved and idle, and is answered, leaves the history with the user's message and, unless the answer is
  -- empty, the answer behind it, and the session ready for the next prompt; no other session changes.
  pub prepare_finish :
      (text reason : Bytes) (now later : ℕ) (p : ℕ)
      → find id m.sessions ≡ some p
      → (m.heap p).state ≡ approved
      → let k = finish_prompt id text reason later (prepare_prompt id content now m).0 in
        (session_history id k
          ≡ session_history id m
            ++ user_message content ∷ (if text_eq text [] then [] else assistant_message text ∷ []))
        × (status id k ≡ ok approved)
        × ((k.heap p).idle_deadline ≡ later + m.cfg.idle_timeout)
        × ((q : ℕ) → q ≢ p → k.heap q ≡ m.heap q)
  unfolding prepare_prompt finish_prompt session_history status store update
  prepare_finish text reason now later p f a = ground (
    arith,
    append_assoc (m.heap p).history (user_message content ∷ []) (assistant_message text ∷ []),
  )

  -- A prompt for a session that is approved and idle, and fails, leaves the history as it was before it, so that the user can try again.
  pub prepare_fail :
      (now later : ℕ) (p : ℕ)
      → find id m.sessions ≡ some p
      → (m.heap p).state ≡ approved
      → let k = fail_prompt id later (prepare_prompt id content now m).0 in
        (session_history id k ≡ session_history id m)
        × (status id k ≡ ok approved)
        × ((q : ℕ) → q ≢ p → k.heap q ≡ m.heap q)
  unfolding prepare_prompt fail_prompt session_history status store update
  prepare_fail now later p f a = ground (arith, remove_last_user-prompt (m.heap p).history content)

-- While a prompt is being answered no other is accepted.
pub prepare_while_active :
    (id content content' : Bytes) (now later : ℕ) (m : Manager) (hist : List Message)
    → (prepare_prompt id content now m).1 ≡ ok hist
    → let k = (prepare_prompt id content now m).0 in
      prepare_prompt id content' later k ≡ (k, err not_approved)
unfolding prepare_prompt store update
prepare_while_active id content content' now later m hist h = ground arith

-- Cancelling calls the registered function once: right after a registration it succeeds and calls
-- exactly that function, and a second attempt finds nothing to cancel and calls nothing.
pub set_cancel_twice :
    (id : Bytes) (g : ℕ) (m : Manager)
    → (set_gen_cancel id g m).1 ≡ ok tt
    → let k = cancel_generation id (set_gen_cancel id g m).0 in
      (k.1 ≡ ok tt)
      × (k.0.cancelled ≡ g ∷ m.cancelled)
      × (cancel_generation id k.0 ≡ (k.0, err not_active))
unfolding set_gen_cancel cancel_generation store update
set_cancel_twice id g m h = ground arith
