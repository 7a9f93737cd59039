-- ===== src/Session/Trace/Expiry.antt =====
-- A session that is not approved in time.
use deepseek_project.Base.{
  ℕ, ◌<◌, ◌≤◌, ◌≡◌, ◌≢◌, ◌⊎◌, inl, inr, Bytes, some, find, update, arith, ◌∙◌, refl,
}
use deepseek_project.Protocol.Types.{waiting, destroyed}
use deepseek_project.Session.Types.{Session, Manager, store}
use deepseek_project.Session.Create.{create, insert_session}
use deepseek_project.Session.Approve.{
  approve, approve_by_token_with_settings, approve_by_code_with_settings,
}
use deepseek_project.Session.Prompt.{
  prepare_prompt, finish_prompt, fail_prompt, set_gen_cancel, cancel_generation,
}
use deepseek_project.Session.Destroy.{
  destroy, destroy_locked, remove_session, end_by_control_token, sweep,
}
use deepseek_project.Session.Destroy.Sweep.{sweep_over_iff, own_IsVisit}
use deepseek_project.Session.Validity.{IsValid}
use deepseek_project.Session.Trace.{
  Call, ends, finishes, fails, destroys, sweeps, step, Admits, Steps, here, next,
}
use deepseek_project.Session.Trace.Evolution.{step-Evolves, sweep_over-wiped}
use deepseek_project.Session.Trace.Reach.{Steps-IsValid, Steps-next-le}

-- The session waits, or is gone.
abbrev pub Unapproved : Session → Type 0
Unapproved s = (s.state ≡ waiting) ⊎ (s.state ≡ destroyed)

destroy_locked-Unapproved :
    (id : Bytes) (m : Manager) (p : ℕ)
    → (m.heap p).state ≡ waiting
    → Unapproved ((destroy_locked id m).heap p)
unfolding destroy_locked remove_session update
destroy_locked-Unapproved id m p w = ground arith

-- A session that waits beyond its deadline is not approved by one more operation.
step-Unapproved :
    (now : ℕ) (c : Call) (m : Manager) (p : ℕ)
    → Admits m c
    → p < m.next
    → (m.heap p).state ≡ waiting
    → (m.heap p).pair_expiry < now
    → Unapproved ((step now c m).heap p)
unfolding step destroy create insert_session approve_by_token_with_settings
    approve_by_code_with_settings approve store end_by_control_token prepare_prompt finish_prompt
    fail_prompt cancel_generation set_gen_cancel sweep update
step-Unapproved now (ends id token) m p a h w x = ground (arith, destroy_locked-Unapproved id m p w)
step-Unapproved now (destroys id) m p a h w x = destroy_locked-Unapproved id m p w
step-Unapproved now sweeps m p a h w x = ground (arith, sweep_over-wiped now m.sessions m p)
step-Unapproved now (finishes id text reason) m p a h w x = ground (arith, a p)
step-Unapproved now (fails id) m p a h w x = ground (arith, a p)
step-Unapproved now _ m p a h w x = ground arith

-- Every operation of the history happens at this time or later.
abbrev pub Since : {m k : Manager} → ℕ → Steps m k → Type 0
Since t here = Unit
Since t (next r now c a) = (t ≤ now) × Since t r

-- A session that waits beyond its deadline is never approved, whatever operations follow.
pub Steps-Unapproved :
    (m k : Manager) (p t : ℕ) (r : Steps m k)
    → Since t r
    → p < m.next
    → (m.heap p).state ≡ waiting
    → (m.heap p).pair_expiry < t
    → Unapproved (k.heap p) × ((k.heap p).pair_expiry ≡ (m.heap p).pair_expiry)
Steps-Unapproved m _ p t here since h w x = (inl w, refl)
Steps-Unapproved m _ p t (next {k = j} r now c a) since h w x =
    let (u, e) = Steps-Unapproved m j p t r since.1 h w x in
    let v = step-Evolves now c j p a (omega (arith, Steps-next-le r)) in
    (
      elim u [
        | inl waits ↦
            step-Unapproved now c j p a (omega (arith, Steps-next-le r)) waits
              (omega (arith, e, since.0))
        | inr gone ↦ inr (ground (arith, v.moves))
      ],
      v.same_expiry ∙ e,
    )

-- A session that waits beyond its pairing deadline: whatever operations follow, called as their callers
-- guarantee, it is never approved, and the next sweep leaves it under no identifier.
pub expired_session_goes :
    (m k : Manager) (p t now : ℕ) (id : Bytes) (r : Steps m k)
    → IsValid m
    → Since t r
    → p < m.next
    → (m.heap p).state ≡ waiting
    → (m.heap p).pair_expiry < t
    → t ≤ now
    → Unapproved (k.heap p) × (find id (sweep now k).sessions ≢ some p)
unfolding sweep
expired_session_goes m k p t now id r valid since h w x later =
    let v = Steps-IsValid valid r in
    let (u, e) = Steps-Unapproved m k p t r since h w x in
    (
      u,
      λ found.
          let (f, not_over) = (sweep_over_iff now k.sessions k id p v (own_IsVisit k v)).0 found in
          elim u [
            | inl waits ↦ not_over (inl (waits, omega (arith, e)))
            | inr gone ↦ (v.sound id p f).alive gone
          ],
    )
