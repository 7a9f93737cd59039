-- ===== src/Gateway/Prompt/Answering.antt =====
-- A session that is answering a prompt goes on answering, or is gone, whatever the manager does for
-- other requests.
use deepseek_project.Provider.{Message}
use deepseek_project.Base.{
  ℕ, ◌≡◌, ◌≢◌, inl, inr, Bytes, List, [], ◌∷◌, Option, find, find-put, find-delete, update, arith,
  ok, Result-cases, Option-cases,
}
use deepseek_project.Crypto.{new_id}
use deepseek_project.Provider.Settings.{GenerationSettings}
use deepseek_project.Session.Types.{Manager, store}
use deepseek_project.Session.Create.{Draws, create, insert_session, fresh_session}
use deepseek_project.Session.Approve.{
  approve, approve_by_token_with_settings, approve_by_code_with_settings,
}
use deepseek_project.Session.Prompt.{
  prepare_prompt, finish_prompt, fail_prompt, set_gen_cancel, cancel_generation,
}
use deepseek_project.Session.Destroy.{
  destroy_locked, remove_session, end_by_control_token, sweep_one, sweep_over, sweep,
}
use deepseek_project.Session.Validity.{IsValid}
use deepseek_project.Session.Validity.Updates.{destroy_locked-IsValid}
use deepseek_project.Session.Validity.Operations.{IsAnswering, fresh_session-id}

pub create-IsAnswering :
    (d : Draws) (now : ℕ) (m : Manager) (j : Bytes)
    → IsValid m
    → new_id d.id ≢ ok j
    → IsAnswering m j
    → IsAnswering (create d now m).0 j
unfolding create insert_session update
create-IsAnswering d now m j v other h = λ q f. elim (Result-cases (fresh_session d now m.cfg)) [
  | inl (s, e) ↦ ground (
    arith,
    h q,
    v.stored j q,
    find-put s.id j m.next m.sessions,
    fresh_session-id d now m.cfg s e,
  )
  | inr (x, e) ↦ ground (arith, h q)
]

pub approve_by_token-IsAnswering :
    (token : Bytes) (settings : GenerationSettings) (draw : Option (List ℕ)) (now : ℕ) (m : Manager)
    (j : Bytes)
    → IsAnswering m j
    → IsAnswering (approve_by_token_with_settings token settings draw now m).0 j
unfolding approve_by_token_with_settings approve store update
approve_by_token-IsAnswering token settings draw now m j h = λ q f. ground (arith, h q)

pub approve_by_code-IsAnswering :
    (code : Bytes) (settings : GenerationSettings) (draw : Option (List ℕ)) (now : ℕ) (m : Manager)
    (j : Bytes)
    → IsAnswering m j
    → IsAnswering (approve_by_code_with_settings code settings draw now m).0 j
unfolding approve_by_code_with_settings approve store update
approve_by_code-IsAnswering code settings draw now m j h = λ q f. ground (arith, h q)

pub destroy_locked-IsAnswering :
    (id : Bytes) (m : Manager) (j : Bytes)
    → IsValid m
    → IsAnswering m j
    → IsAnswering (destroy_locked id m) j
unfolding destroy_locked remove_session update
destroy_locked-IsAnswering id m j v h =
    λ q f. ground (arith, h q, find-delete id j m.sessions, v.named j q, v.named id q)

pub end_by_control_token-IsAnswering :
    (id token : Bytes) (m : Manager) (j : Bytes)
    → IsValid m
    → IsAnswering m j
    → IsAnswering (end_by_control_token id token m).0 j
unfolding end_by_control_token
end_by_control_token-IsAnswering id token m j v h =
    λ q f. ground (arith, h q, destroy_locked-IsAnswering id m j v h q)

pub prepare_prompt-IsAnswering :
    (id content : Bytes) (now : ℕ) (m : Manager) (j : Bytes)
    → IsAnswering m j
    → IsAnswering (prepare_prompt id content now m).0 j
unfolding prepare_prompt store update
prepare_prompt-IsAnswering id content now m j h = λ q f. ground (arith, h q)

-- The session whose prompt has been accepted is answering.
pub prepared-IsAnswering :
    (id content : Bytes) (now : ℕ) (m : Manager) (hist : List Message)
    → (prepare_prompt id content now m).1 ≡ ok hist
    → IsAnswering (prepare_prompt id content now m).0 id
unfolding prepare_prompt store update
prepared-IsAnswering id content now m hist e = λ q f. ground arith

-- A session that is answering accepts no prompt.
pub answering_refuses :
    (id content : Bytes) (now : ℕ) (m : Manager) (hist : List Message)
    → IsAnswering m id
    → (prepare_prompt id content now m).1 ≢ ok hist
unfolding prepare_prompt
answering_refuses id content now m hist h e = elim (Option-cases (find id m.sessions)) [
  | inl n ↦ ground arith
  | inr (p, f) ↦ ground (arith, h p f)
]

pub finish_prompt-IsAnswering :
    (id text reason : Bytes) (now : ℕ) (m : Manager) (j : Bytes)
    → IsValid m
    → j ≢ id
    → IsAnswering m j
    → IsAnswering (finish_prompt id text reason now m) j
unfolding finish_prompt store update
finish_prompt-IsAnswering id text reason now m j v n h =
    λ q f. ground (arith, h q, v.named j q, v.named id q)

pub fail_prompt-IsAnswering :
    (id : Bytes) (now : ℕ) (m : Manager) (j : Bytes)
    → IsValid m
    → j ≢ id
    → IsAnswering m j
    → IsAnswering (fail_prompt id now m) j
unfolding fail_prompt store update
fail_prompt-IsAnswering id now m j v n h = λ q f. ground (arith, h q, v.named j q, v.named id q)

pub set_gen_cancel-IsAnswering :
    (id : Bytes) (g : ℕ) (m : Manager) (j : Bytes)
    → IsAnswering m j
    → IsAnswering (set_gen_cancel id g m).0 j
unfolding set_gen_cancel store update
set_gen_cancel-IsAnswering id g m j h = λ q f. ground (arith, h q)

pub cancel_generation-IsAnswering :
    (id : Bytes) (m : Manager) (j : Bytes)
    → IsAnswering m j
    → IsAnswering (cancel_generation id m).0 j
unfolding cancel_generation store update
cancel_generation-IsAnswering id m j h = λ q f. ground (arith, h q)

pub sweep_over-IsAnswering :
    (now : ℕ) (l : List (Bytes × ℕ)) (m : Manager) (j : Bytes)
    → IsValid m
    → IsAnswering m j
    → IsAnswering (sweep_over now l m) j
unfolding sweep_over sweep_one
sweep_over-IsAnswering now [] m j v h = h
sweep_over-IsAnswering now ((id, p) ∷ l) m j v h =
    sweep_over-IsAnswering now l (sweep_one now id p m) j
      (ground (arith, destroy_locked-IsValid m id v))
      λ q f. ground (arith, h q, destroy_locked-IsAnswering id m j v h q)

pub sweep-IsAnswering :
    (now : ℕ) (m : Manager) (j : Bytes) → IsValid m → IsAnswering m j → IsAnswering (sweep now m) j
unfolding sweep
sweep-IsAnswering now m j v h = sweep_over-IsAnswering now m.sessions m j v h
