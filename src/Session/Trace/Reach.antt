-- ===== src/Session/Trace/Reach.antt =====
-- What holds after any history.
use deepseek_project.Session.Prompt.{
  prepare_prompt, finish_prompt, fail_prompt, cancel_generation, set_gen_cancel,
}
use deepseek_project.Session.Approve.{
  approve, approve_by_token_with_settings, approve_by_code_with_settings,
}
use deepseek_project.Session.Create.{create, insert_session}
use deepseek_project.Base.{ℕ, ◌<◌, ◌≤◌, ◌≡◌, ◌≢◌, refl, arith, Bytes, List, ◌∷◌, [], ◌∙◌}
use deepseek_project.Protocol.Types.{waiting, destroyed}
use deepseek_project.Session.Types.{Manager, RawConfig, new, store}
use deepseek_project.Session.Validity.{IsValid}
use deepseek_project.Session.Validity.Operations.{
  new-IsValid, create-IsValid, approve_by_token-IsValid, approve_by_code-IsValid,
  end_by_control_token-IsValid, prepare_prompt-IsValid, finish_prompt-IsValid, fail_prompt-IsValid,
  set_gen_cancel-IsValid, cancel_generation-IsValid, sweep-IsValid,
}
use deepseek_project.Session.Validity.Updates.{destroy_locked-IsValid}
use deepseek_project.Session.Destroy.{
  destroy, destroy_locked, sweep_over, remove_session, sweep_one, end_by_control_token, sweep,
}
use deepseek_project.Session.Trace.{
  Call, creates, approves_token, approves_code, ends, prepares, finishes, fails, cancels, destroys,
  sets_cancel, sweeps, step, Admits, Steps, here, next, create, approve_by_token_with_settings,
  approve_by_code_with_settings,
}
use deepseek_project.Session.Trace.Evolution.{step-Evolves}

pub step-IsValid :
    (now : ℕ) (c : Call) (m : Manager) → Admits m c → IsValid m → IsValid (step now c m)
unfolding step destroy
step-IsValid now (creates d) m a v = create-IsValid d now m a v
step-IsValid now (approves_token token s draw) m a v =
    approve_by_token-IsValid token s draw now m a v
step-IsValid now (approves_code code s draw) m a v = approve_by_code-IsValid code s draw now m a v
step-IsValid now (ends id token) m a v = end_by_control_token-IsValid id token m v
step-IsValid now (prepares id content) m a v = prepare_prompt-IsValid id content now m v
step-IsValid now (finishes id text reason) m a v = finish_prompt-IsValid id text reason now m a v
step-IsValid now (fails id) m a v = fail_prompt-IsValid id now m a v
step-IsValid now (cancels id) m a v = cancel_generation-IsValid id m v
step-IsValid now (destroys id) m a v = destroy_locked-IsValid m id v
step-IsValid now (sets_cancel id g) m a v = set_gen_cancel-IsValid id g m v
step-IsValid now sweeps m a v = sweep-IsValid now m v

pub Steps-IsValid : {m k : Manager} → IsValid m → Steps m k → IsValid k
Steps-IsValid v here = v
Steps-IsValid v (next {k = j} r now c a) = step-IsValid now c j a (Steps-IsValid v r)

-- After any history of operations, called as their callers guarantee, from a new manager of any
-- configuration, the manager is valid.
pub Steps-new-IsValid : (c : RawConfig) (m : Manager) → Steps (new c) m → IsValid m
Steps-new-IsValid c m r = Steps-IsValid (new-IsValid c) r

destroy_locked-next : (id : Bytes) (m : Manager) → (destroy_locked id m).next ≡ m.next
unfolding destroy_locked remove_session
destroy_locked-next id m = ground arith

sweep_over-next :
    (now : ℕ) (l : List (Bytes × ℕ)) (m : Manager) → (sweep_over now l m).next ≡ m.next
unfolding sweep_over sweep_one
sweep_over-next now [] m = refl
sweep_over-next now ((id, p) ∷ l) m =
    ground (arith, sweep_over-next now l (sweep_one now id p m), destroy_locked-next id m)

destroy_locked-cfg : (id : Bytes) (m : Manager) → (destroy_locked id m).cfg ≡ m.cfg
unfolding destroy_locked remove_session
destroy_locked-cfg id m = ground arith

sweep_over-cfg : (now : ℕ) (l : List (Bytes × ℕ)) (m : Manager) → (sweep_over now l m).cfg ≡ m.cfg
unfolding sweep_over sweep_one
sweep_over-cfg now [] m = refl
sweep_over-cfg now ((id, p) ∷ l) m =
    ground (arith, sweep_over-cfg now l (sweep_one now id p m), destroy_locked-cfg id m)

step-cfg : (now : ℕ) (c : Call) (m : Manager) → (step now c m).cfg ≡ m.cfg
unfolding step destroy create insert_session approve_by_token_with_settings
    approve_by_code_with_settings approve store end_by_control_token prepare_prompt finish_prompt
    fail_prompt cancel_generation set_gen_cancel sweep
step-cfg now (ends id token) m = ground (arith, destroy_locked-cfg id m)
step-cfg now (destroys id) m = ground (arith, destroy_locked-cfg id m)
step-cfg now sweeps m = ground (arith, sweep_over-cfg now m.sessions m)
step-cfg now _ m = ground arith

-- The configuration is the same after any operations.
pub Steps-cfg : {m k : Manager} → Steps m k → k.cfg ≡ m.cfg
Steps-cfg here = refl
Steps-cfg (next {k = j} r now c a) = step-cfg now c j ∙ Steps-cfg r

step-next-le : (now : ℕ) (c : Call) (m : Manager) → m.next ≤ (step now c m).next
unfolding step destroy create insert_session approve_by_token_with_settings
    approve_by_code_with_settings approve store end_by_control_token prepare_prompt finish_prompt
    fail_prompt cancel_generation set_gen_cancel sweep
step-next-le now (ends id token) m = ground (arith, destroy_locked-next id m)
step-next-le now (destroys id) m = ground (arith, destroy_locked-next id m)
step-next-le now sweeps m = ground (arith, sweep_over-next now m.sessions m)
step-next-le now _ m = ground arith

pub Steps-next-le : {m k : Manager} → Steps m k → m.next ≤ k.next
Steps-next-le here = omega arith
Steps-next-le (next {k = j} r now c a) = omega (arith, Steps-next-le r, step-next-le now c j)

-- An allocated session that is destroyed stays destroyed, whatever operations follow.
pub Steps-destroyed :
    (m k : Manager) (p : ℕ)
    → Steps m k
    → p < m.next
    → (m.heap p).state ≡ destroyed
    → (k.heap p).state ≡ destroyed
Steps-destroyed m _ p here h d = d
Steps-destroyed m _ p (next {k = j} r now c a) h d =
    ground (
      arith,
      step-Evolves now c j p a (omega (arith, Steps-next-le r)),
      Steps-destroyed m j p r h d,
    )

-- Approval happens once: an allocated session that no longer waits has, whatever operations follow and
-- unless they destroy it, the settings and the control token that it has now, and does not wait again.
pub Steps-settings :
    (m k : Manager) (p : ℕ)
    → Steps m k
    → p < m.next
    → (m.heap p).state ≢ waiting
    → (k.heap p).state ≢ destroyed
    → ((k.heap p).state ≢ waiting)
      × ((k.heap p).settings ≡ (m.heap p).settings)
      × ((k.heap p).control_token ≡ (m.heap p).control_token)
Steps-settings m _ p here h w d = (w, refl, refl)
Steps-settings m _ p (next {k = j} r now c a) h w d =
    ground
      (arith, step-Evolves now c j p a (omega (arith, Steps-next-le r)), Steps-settings m j p r h w)
