-- ===== src/Session/Trace/Evolution.antt =====
-- What one operation may do to one session.
use deepseek_project.Base.{
  ℕ, ◌<◌, ◌≡◌, ◌≢◌, ◌⊎◌, inl, refl, Bytes, List, [], ◌∷◌, true, false, Bool, update, arith, Option,
}
use deepseek_project.Protocol.Types.{SessionState, waiting, approved, active, destroyed}
use deepseek_project.Session.Types.{Session, Manager, store}
use deepseek_project.Session.Create.{Draws, create, insert_session}
use deepseek_project.Session.Approve.{
  approve, approve_by_token_with_settings, approve_by_code_with_settings,
}
use deepseek_project.Session.Prompt.{
  prepare_prompt, finish_prompt, fail_prompt, set_gen_cancel, cancel_generation,
}
use deepseek_project.Session.Destroy.{
  wiped, remove_session, destroy, destroy_locked, end_by_control_token, sweep_one, sweep_over,
  sweep,
}
use deepseek_project.Session.Validity.Operations.{IsAnswering}
use deepseek_project.Session.Trace.{
  Call, creates, approves_token, approves_code, ends, prepares, finishes, fails, cancels, destroys,
  sets_cancel, sweeps, step, Admits, GenerationSettings,
}

-- The state machine: an operation leaves a state, or moves it along an edge.
abbrev pub can_move : SessionState → SessionState → Bool
can_move waiting active = false
can_move approved waiting = false
can_move active waiting = false
can_move destroyed waiting = false
can_move destroyed approved = false
can_move destroyed active = false
can_move _ _ = true

pub record Evolves (s t : Session) : Type 0 where
  pub same_id : t.id ≡ s.id
  pub same_expiry : t.pair_expiry ≡ s.pair_expiry
  pub moves : can_move s.state t.state ≡ true
  pub settings : s.state ≢ waiting → t.state ≢ destroyed → t.settings ≡ s.settings
  pub control_token : s.state ≢ waiting → t.state ≢ destroyed → t.control_token ≡ s.control_token

abbrev Preserves : Manager → Manager → Type 0
Preserves m m' = (p : ℕ) → p < m.next → Evolves (m.heap p) (m'.heap p)

Evolves-refl : (s : Session) → Evolves s s
Evolves-refl s = ground arith

create-Evolves : (d : Draws) (now : ℕ) (m : Manager) → Preserves m (create d now m).0
unfolding create insert_session update
create-Evolves d now m = λ p h. ground arith

approve-Evolves :
    (q : ℕ) (settings : GenerationSettings) (draw : Option (List ℕ)) (now : ℕ) (m : Manager)
    → Preserves m (approve q settings draw now m).0
unfolding approve store update
approve-Evolves q settings draw now m = λ p h. ground arith

approve_by_token-Evolves :
    (token : Bytes) (settings : GenerationSettings) (draw : Option (List ℕ)) (now : ℕ) (m : Manager)
    → Preserves m (approve_by_token_with_settings token settings draw now m).0
unfolding approve_by_token_with_settings approve store update
approve_by_token-Evolves token settings draw now m = λ p h. ground arith

approve_by_code-Evolves :
    (code : Bytes) (settings : GenerationSettings) (draw : Option (List ℕ)) (now : ℕ) (m : Manager)
    → Preserves m (approve_by_code_with_settings code settings draw now m).0
unfolding approve_by_code_with_settings approve store update
approve_by_code-Evolves code settings draw now m = λ p h. ground arith

destroy_locked-Evolves : (id : Bytes) (m : Manager) → Preserves m (destroy_locked id m)
unfolding destroy_locked remove_session update
destroy_locked-Evolves id m = λ p h. ground arith

end_by_control_token-Evolves :
    (id token : Bytes) (m : Manager) → Preserves m (end_by_control_token id token m).0
unfolding end_by_control_token
end_by_control_token-Evolves id token m = λ p h. ground (arith, destroy_locked-Evolves id m p h)

prepare_prompt-Evolves :
    (id content : Bytes) (now : ℕ) (m : Manager) → Preserves m (prepare_prompt id content now m).0
unfolding prepare_prompt store update
prepare_prompt-Evolves id content now m = λ p h. ground arith

finish_prompt-Evolves :
    (id text reason : Bytes) (now : ℕ) (m : Manager)
    → IsAnswering m id
    → Preserves m (finish_prompt id text reason now m)
unfolding finish_prompt store update
finish_prompt-Evolves id text reason now m busy = λ p h. ground (arith, busy p)

fail_prompt-Evolves :
    (id : Bytes) (now : ℕ) (m : Manager) → IsAnswering m id → Preserves m (fail_prompt id now m)
unfolding fail_prompt store update
fail_prompt-Evolves id now m busy = λ p h. ground (arith, busy p)

set_gen_cancel-Evolves : (id : Bytes) (g : ℕ) (m : Manager) → Preserves m (set_gen_cancel id g m).0
unfolding set_gen_cancel store update
set_gen_cancel-Evolves id g m = λ p h. ground arith

cancel_generation-Evolves : (id : Bytes) (m : Manager) → Preserves m (cancel_generation id m).0
unfolding cancel_generation store update
cancel_generation-Evolves id m = λ p h. ground arith

-- A sweep leaves each session as it is, or wiped.
pub sweep_over-wiped :
    (now : ℕ) (l : List (Bytes × ℕ)) (m : Manager) (p : ℕ)
    → ((sweep_over now l m).heap p ≡ m.heap p) ⊎ ((sweep_over now l m).heap p ≡ wiped (m.heap p))
unfolding sweep_over sweep_one destroy_locked remove_session update
sweep_over-wiped now [] m p = inl refl
sweep_over-wiped now ((id, q) ∷ l) m p =
    ground (arith, sweep_over-wiped now l (sweep_one now id q m) p)

sweep-Evolves : (now : ℕ) (m : Manager) → Preserves m (sweep now m)
unfolding sweep
sweep-Evolves now m = λ p h. ground (arith, sweep_over-wiped now m.sessions m p)

-- Every operation, called as its callers guarantee, moves each allocated session along an edge of the
-- state machine or leaves its state, keeps its identifier and pairing deadline, and, once the session
-- is approved, keeps the settings and the control token until the session is destroyed.
pub step-Evolves :
    (now : ℕ) (c : Call) (m : Manager) (p : ℕ)
    → Admits m c
    → p < m.next
    → Evolves (m.heap p) ((step now c m).heap p)
unfolding step destroy
step-Evolves now (creates d) m p a h = create-Evolves d now m p h
step-Evolves now (approves_token token s draw) m p a h =
    approve_by_token-Evolves token s draw now m p h
step-Evolves now (approves_code code s draw) m p a h = approve_by_code-Evolves code s draw now m p h
step-Evolves now (ends id token) m p a h = end_by_control_token-Evolves id token m p h
step-Evolves now (prepares id content) m p a h = prepare_prompt-Evolves id content now m p h
step-Evolves now (finishes id text reason) m p a h =
    finish_prompt-Evolves id text reason now m a p h
step-Evolves now (fails id) m p a h = fail_prompt-Evolves id now m a p h
step-Evolves now (cancels id) m p a h = cancel_generation-Evolves id m p h
step-Evolves now (destroys id) m p a h = destroy_locked-Evolves id m p h
step-Evolves now (sets_cancel id g) m p a h = set_gen_cancel-Evolves id g m p h
step-Evolves now sweeps m p a h = sweep-Evolves now m p h
