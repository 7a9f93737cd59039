-- ===== src/Gateway/Prompt/World/Requests.antt =====
-- Each request but a prompt serves the prompts in flight.
use deepseek_project.Protocol.Types.{ApproveRequest}
use deepseek_project.Gateway.Prompt.World.Serves.{
  Serves, create-Serves, approve_by_token-Serves, approve_by_code-Serves, destroy-Serves,
  end_by_control_token-Serves, cancel_generation-Serves,
}
use deepseek_project.Gateway.Limiter.{allow}
use deepseek_project.Provider.Settings.{parse_settings}
use deepseek_project.Protocol.PairCode.{normalize_pair_code}
use deepseek_project.Base.{
  ℕ, ◌≡◌, ◌≢◌, refl, Bytes, List, [], Option, none, some, arith, All, ok, err, text_eq,
  Result-cases, inl, inr, subst, Bool-cases, sym, Result,
}
use deepseek_project.Crypto.{new_id}
use deepseek_project.Session.Types.{Manager, SessionError}
use deepseek_project.Session.Create.{Draws, create}
use deepseek_project.Session.Validity.Operations.{Fills, IsUnused}
use deepseek_project.Gateway.Server.{Gateway}
use deepseek_project.Gateway.Handlers.{
  handle_create, handle_approve, approve_request, handle_close, handle_end, handle_cancel,
  bearer_token, create_reply, approve_reply,
}
use deepseek_project.Gateway.Prompt.{GenerationSettings}

create_reply-mgr :
    (g : Gateway) (r : Manager × Result SessionError ℕ) → (create_reply g r).0.mgr ≡ r.0
create_reply-mgr g (m, ok p) = refl
create_reply-mgr g (m, err SessionError.max_sessions) = refl
create_reply-mgr g (m, err _) = refl

approve_reply-mgr :
    (g : Gateway) (r : Manager × Result SessionError ℕ) → (approve_reply g r).0.mgr ≡ r.0
approve_reply-mgr g (m, ok p) = refl
approve_reply-mgr g (m, err e) = refl

module _ (l : List Bytes) (g : Gateway) (s : Serves l g.mgr) where
  pub handle_create-Serves :
      (d : Draws) (now : ℕ)
      → IsUnused g.mgr d
      → All (λ j. new_id d.id ≢ ok j) l
      → Serves l (handle_create d now g).0.mgr
  unfolding handle_create
  handle_create-Serves d now unused others = elim (Bool-cases (allow now g.limiter).1) [
    | inl e ↦ rw e (
        subst (Serves l)
          (sym (
            create_reply-mgr (record g { limiter = (allow now g.limiter).0 }) (create d now g.mgr)))
          (create-Serves l d now g.mgr unused others s))
    | inr e ↦ rw e s
  ]

  pub approve_request-Serves :
      (req : ApproveRequest) (settings : GenerationSettings) (draw : Option (List ℕ)) (now : ℕ)
      → Fills 32 draw
      → Serves l (approve_request req settings draw now g).0.mgr
  unfolding approve_request
  approve_request-Serves req settings draw now fills =
      elim (Bool-cases (text_eq req.pairing_token [])) [
        | inr e ↦ rw e (
            subst (Serves l) (sym (approve_reply-mgr g _))
              (approve_by_token-Serves l g.mgr s req.pairing_token settings draw now fills))
        | inl e ↦ rw e (elim (Bool-cases (text_eq req.pairing_code [])) [
          | inr f ↦ rw f (
              subst (Serves l) (sym (approve_reply-mgr g _)) (
                approve_by_code-Serves l g.mgr s (normalize_pair_code req.pairing_code) settings
                  draw now fills))
          | inl f ↦ rw f s
        ])
      ]

  pub handle_approve-Serves :
      (body : Option ApproveRequest) (draw : Option (List ℕ)) (now : ℕ)
      → Fills 32 draw
      → Serves l (handle_approve body draw now g).0.mgr
  unfolding handle_approve
  handle_approve-Serves none draw now fills = s
  handle_approve-Serves (some req) draw now fills =
      elim (Result-cases (parse_settings g.model req.model req.thinking req.reasoning_effort)) [
        | inl (settings, e) ↦ ground (arith, approve_request-Serves req settings draw now fills)
        | inr (x, e) ↦ ground arith
      ]

  pub handle_close-Serves : (id : Bytes) → Serves l (handle_close id g).0.mgr
  unfolding handle_close
  handle_close-Serves id = ground (arith, destroy-Serves l g.mgr s id)

  pub handle_end-Serves : (id header : Bytes) → Serves l (handle_end id header g).0.mgr
  unfolding handle_end
  handle_end-Serves id header =
      ground (arith, end_by_control_token-Serves l g.mgr s id (bearer_token header))

  pub handle_cancel-Serves : (id : Bytes) → Serves l (handle_cancel id g).0.mgr
  unfolding handle_cancel
  handle_cancel-Serves id = ground (arith, cancel_generation-Serves l g.mgr s id)
