-- ===== src/Session/Refinement/Calls.antt =====
-- Each call of the manager means on its view what the specification says.
use deepseek_project.Base.{
  ℕ, ◌≡◌, inl, inr, Bytes, Option, List, none, some, find, arith, refl, Option-cases, Result-cases,
  ◌+◌, leb, length, Bool-cases, subst, append-nil, Bytes-discrete, ap, ◌∷◌, [],
}
use deepseek_project.Provider.Settings.{GenerationSettings}
use deepseek_project.Session.Types.{Manager, RawConfig, new, store, resolve, Session}
use deepseek_project.Session.Create.{Draws, create, fresh_session}
use deepseek_project.Session.Approve.{
  approve, approve_by_token_with_settings, approve_by_code_with_settings, find_by_token, granted,
}
use deepseek_project.Session.Approve.Lookup.{find_by_token_sound, find_by_token_complete}
use deepseek_project.Session.Prompt.{
  prepare_prompt, finish_prompt, fail_prompt, set_gen_cancel, cancel_generation, with_prompt,
  with_answer, with_cancel,
}
use deepseek_project.Session.Destroy.{destroy, end_by_control_token, sweep, destroy_locked}
use deepseek_project.Session.Destroy.Sweep.{own_IsVisit}
use deepseek_project.Session.Validity.{IsValid}
use deepseek_project.Session.Validity.Operations.{IsUnused, fresh_session-id}
use deepseek_project.Session.Trace.{
  Call, creates, approves_token, approves_code, ends, prepares, finishes, fails, cancels, destroys,
  sets_cancel, sweeps, step, Admits, Steps, here, next,
}
use deepseek_project.Session.Trace.Reach.{Steps-new-IsValid, Steps-cfg}
use deepseek_project.Session.Refinement.{
  change, told, released, left_by, paired, Entered, Means, Runs, start, then_call, new_token,
  answered, withdrawn,
}
use deepseek_project.Session.Refinement.Views.{
  view, view-store, view-insert, view-remove, view_absent, view_same, view-sweep_over,
}

view-prepare :
    (id content : Bytes) (now : ℕ) (m : Manager) (j : Bytes)
    → IsValid m
    → view (prepare_prompt id content now m).0 j
      ≡ change id (told content (now + m.cfg.idle_timeout)) (view m) j
unfolding prepare_prompt
view-prepare id content now m j v = elim (Option-cases (find id m.sessions)) [
  | inl e ↦ ground (arith, view_absent m id (told content (now + m.cfg.idle_timeout)) j e)
  | inr (p, e) ↦
      let s = with_prompt content (now + m.cfg.idle_timeout) (m.heap p) in
      let f = told content (now + m.cfg.idle_timeout) in
      ground (arith, view_same m id p f j e, view-store m id p s f j v e)
]

answer_is :
    (text : Bytes) (deadline : ℕ) (s : Session)
    → answered text deadline s ≡ with_answer text deadline s
unfolding Bytes-discrete
answer_is [] deadline s = rw (append-nil s.history) refl
answer_is (c ∷ text) deadline s = refl

view-finish :
    (id text reason : Bytes) (now : ℕ) (m : Manager) (j : Bytes)
    → IsValid m
    → view (finish_prompt id text reason now m) j
      ≡ change id (λ s. some (answered text (now + m.cfg.idle_timeout) s)) (view m) j
unfolding finish_prompt
view-finish id text reason now m j v = elim (Option-cases (find id m.sessions)) [
  | inl e ↦ rw (e, finish_prompt) (view_absent m id _ j e)
  | inr (p, e) ↦
      rw (e, finish_prompt)
        (view-store m id p _ _ j v e
          (ap some (answer_is text (now + m.cfg.idle_timeout) (m.heap p))))
]

view-fail :
    (id : Bytes) (now : ℕ) (m : Manager) (j : Bytes)
    → IsValid m
    → view (fail_prompt id now m) j
      ≡ change id (λ s. some (withdrawn (now + m.cfg.idle_timeout) s)) (view m) j
unfolding fail_prompt
view-fail id now m j v = elim (Option-cases (find id m.sessions)) [
  | inl e ↦ rw (e, fail_prompt) (view_absent m id _ j e)
  | inr (p, e) ↦ rw (e, fail_prompt) (view-store m id p _ _ j v e refl)
]

view-set_cancel :
    (id : Bytes) (g : ℕ) (m : Manager) (j : Bytes)
    → IsValid m
    → view (set_gen_cancel id g m).0 j ≡ change id (λ s. some (with_cancel (some g) s)) (view m) j
unfolding set_gen_cancel
view-set_cancel id g m j v = elim (Option-cases (find id m.sessions)) [
  | inl e ↦ rw (e, set_gen_cancel) (view_absent m id _ j e)
  | inr (p, e) ↦ rw (e, set_gen_cancel) (view-store m id p _ _ j v e refl)
]

view-cancel :
    (id : Bytes) (m : Manager) (j : Bytes)
    → IsValid m
    → view (cancel_generation id m).0 j ≡ change id released (view m) j
unfolding cancel_generation
view-cancel id m j v = elim (Option-cases (find id m.sessions)) [
  | inl e ↦ rw (e, cancel_generation) (view_absent m id released j e)
  | inr (p, e) ↦ elim (Option-cases (m.heap p).gen_cancel) [
    | inl n ↦ rw (e, cancel_generation, n) (view_same m id p released j e (ground arith))
    | inr (g, n) ↦
        rw (e, cancel_generation, n)
          (unfold view store in
            view-store m id p (with_cancel none (m.heap p)) released j v e (ground arith))
  ]
]

view-end :
    (id token : Bytes) (m : Manager) (j : Bytes)
    → IsValid m
    → view (end_by_control_token id token m).0 j ≡ change id (left_by token) (view m) j
unfolding end_by_control_token destroy_locked
view-end id token m j v = elim (Option-cases (find id m.sessions)) [
  | inl e ↦ ground (arith, view_absent m id (left_by token) j e)
  | inr (p, e) ↦
      ground (arith, view_same m id p (left_by token) j e, view-remove m id p (left_by token) j v e)
]

view-approve :
    (id : Bytes) (p : ℕ) (settings : GenerationSettings) (draw : Option (List ℕ)) (now : ℕ)
    (m : Manager) (j : Bytes)
    → IsValid m
    → find id m.sessions ≡ some p
    → view (approve p settings draw now m).0 j ≡ change id (paired settings draw now) (view m) j
unfolding approve
view-approve id p settings draw now m j v e =
    let s = m.heap p in
    let f = paired settings draw now in
    elim (Result-cases (new_token draw)) [
      | inl (tok, d) ↦
          ground (arith, view_same m id p f j e, view-store m id p (granted tok settings s) f j v e)
      | inr (x, d) ↦ ground (arith, view_same m id p f j e)
    ]

view-create :
    (d : Draws) (now : ℕ) (m : Manager)
    → IsUnused m d
    → IsValid m
    → Entered (fresh_session d now m.cfg) (view m) (view (create d now m).0)
unfolding create
view-create d now m unused v = elim (Result-cases (fresh_session d now m.cfg)) [
  | inl (s, e) ↦ elim (Bool-cases (leb m.cfg.max_sessions (length m.sessions))) [
    | inl full ↦ rw (e, full) (inl (λ j. refl))
    | inr room ↦
        rw (e, room)
          (inr (
            unfold view in ground (arith, unused s.id (fresh_session-id d now m.cfg s e)),
            λ j. view-insert m s j v,
          ))
  ]
  | inr (x, e) ↦ rw e (ground arith)
]

view-approve_token :
    (token : Bytes) (settings : GenerationSettings) (draw : Option (List ℕ)) (now : ℕ) (m : Manager)
    → IsValid m
    → Means now m.cfg
        (approves_token token settings draw)
        (view m)
        (view (approve_by_token_with_settings token settings draw now m).0)
unfolding approve_by_token_with_settings
view-approve_token token settings draw now m v =
    elim (Option-cases (find_by_token token m.heap m.sessions)) [
      | inl e ↦ inl (
        λ j. rw (e, approve_by_token_with_settings) refl,
        λ id s f t. (elim (Option-cases (find id m.sessions)) [
          | inl n ↦ unfold view in ground (arith, f)
          | inr (p, g) ↦
              find_by_token_complete token m.heap id m.sessions p g
                (unfold view in ground (arith, f)) e
        ]),
      )
      | inr (p, e) ↦
          let (id, f, t) = find_by_token_sound token m.heap m.sessions p v.keyed e in
          inr (
            id,
            m.heap p,
            unfold view in ground (arith, f),
            t,
            λ j.
                rw (e, approve_by_token_with_settings)
                  (view-approve id p settings draw now m j v f),
          )
    ]

view-approve_code :
    (code : Bytes) (settings : GenerationSettings) (draw : Option (List ℕ)) (now : ℕ) (m : Manager)
    → IsValid m
    → Means now m.cfg
        (approves_code code settings draw)
        (view m)
        (view (approve_by_code_with_settings code settings draw now m).0)
unfolding approve_by_code_with_settings
view-approve_code code settings draw now m v = elim (Option-cases (find code m.by_pair_code)) [
  | inl e ↦ inl (λ j. rw (e, approve_by_code_with_settings) refl)
  | inr (p, e) ↦
      let (same, live) = v.coded code p e in
      inr (
        (m.heap p).id,
        m.heap p,
        unfold view in ground (arith, live),
        same,
        λ j.
            rw (e, approve_by_code_with_settings)
              (view-approve (m.heap p).id p settings draw now m j v live),
      )
]

view-destroys :
    (id : Bytes) (m : Manager) (j : Bytes)
    → IsValid m
    → view (destroy id m) j ≡ change id (λ s. none) (view m) j
unfolding destroy destroy_locked
view-destroys id m j v = elim (Option-cases (find id m.sessions)) [
  | inl e ↦ rw (e, destroy, destroy_locked) (view_absent m id _ j e)
  | inr (p, e) ↦ rw (e, destroy, destroy_locked) (view-remove m id p _ j v e refl)
]

-- In a valid manager every operation, called as its callers guarantee, has on the manager's view the
-- effect that its specification allows.
pub step-Means :
    (now : ℕ) (c : Call) (m : Manager)
    → Admits m c
    → IsValid m
    → Means now m.cfg c (view m) (view (step now c m))
unfolding step
step-Means now (creates d) m a v = view-create d now m a v
step-Means now (approves_token token s draw) m a v = view-approve_token token s draw now m v
step-Means now (approves_code code s draw) m a v = view-approve_code code s draw now m v
step-Means now (ends id token) m a v = λ j. view-end id token m j v
step-Means now (prepares id content) m a v = λ j. view-prepare id content now m j v
step-Means now (finishes id text reason) m a v = λ j. view-finish id text reason now m j v
step-Means now (fails id) m a v = λ j. view-fail id now m j v
step-Means now (cancels id) m a v = λ j. view-cancel id m j v
step-Means now (destroys id) m a v = λ j. view-destroys id m j v
step-Means now (sets_cancel id g) m a v = λ j. view-set_cancel id g m j v
step-Means now sweeps m a v =
    λ j. unfold sweep in view-sweep_over now m.sessions m j v (own_IsVisit m v)

-- Every history of the manager, its operations called as their callers guarantee, is on its views a
-- history that the specification allows, from no session on.
pub Steps-Runs :
    (c : RawConfig) (m : Manager) → Steps (new c) m → Runs (resolve c) (λ id. none) (view m)
unfolding new view find
Steps-Runs c _ here = start
Steps-Runs c _ (next {k = k} r now call a) = then_call (Steps-Runs c k r) now call (
    subst (λ g. Means now g call (view k) (view (step now call k))) (Steps-cfg r)
      (step-Means now call k a (Steps-new-IsValid c k r)))
