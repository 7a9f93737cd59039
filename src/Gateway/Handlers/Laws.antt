-- ===== src/Gateway/Handlers/Laws.antt =====
-- What each request guarantees on every branch.
use deepseek_project.Protocol.PairCode.{normalize_pair_code}
use deepseek_project.Session.Create.{control_token}
use deepseek_project.Session.Types.{store}
use deepseek_project.Session.Approve.Lookup.{find_by_token_sound}
use deepseek_project.Session.Approve.{
  approve, approve_by_code_with_settings, approve_by_token_with_settings, find_by_token,
}
use deepseek_project.Session.Validity.{IsValid}
use deepseek_project.Base.{
  ℕ, ◌≡◌, ◌≢◌, ◌⊎◌, ◌↔◌, inl, inr, Bytes, List, [], Option, some, arith, find, Option-cases, update,
  Bool-cases, Result-cases, refl, not, text_eq, none,
}
use deepseek_project.Protocol.Types.{ApproveRequest}
use deepseek_project.Session.Destroy.{destroy, end_by_control_token}
use deepseek_project.Gateway.Server.{Gateway}
use deepseek_project.Gateway.Handlers.{
  handle_approve, handle_end, bearer_token, approve_reply, approve_request, Response,
  GenerationSettings, parse_settings,
}

-- A pairing request that carries an API key is refused, with 501 if its settings are in order and 400
-- otherwise, and uses up nothing: the gateway stays as it was.
pub handle_approve_key :
    (req : ApproveRequest) (draw : Option (List ℕ)) (now : ℕ) (g : Gateway)
    → req.api_key ≢ []
    → ((handle_approve (some req) draw now g).0 ≡ g)
      × (((handle_approve (some req) draw now g).1.status ≡ 501)
          ⊎ ((handle_approve (some req) draw now g).1.status ≡ 400))
unfolding handle_approve
handle_approve_key req draw now g key = ground arith

-- The request has a token, and it is the control token of the session.
pub record MayEnd (id header : Bytes) (g : Gateway) : Type 0 where
  pub cell : ℕ
  pub found : find id g.mgr.sessions ≡ some cell
  pub given : bearer_token header ≢ []
  pub right : (g.mgr.heap cell).control_token ≡ bearer_token header

-- The controller's request to end a session is answered with 204 exactly when the header carries a
-- token that is the control token of the session.
pub handle_end_iff :
    (id header : Bytes) (g : Gateway)
    → ((handle_end id header g).1.status ≡ 204) ↔ MayEnd id header g
unfolding handle_end end_by_control_token
handle_end_iff id header g = elim (Option-cases (find id g.mgr.sessions)) [
  | inl e ↦ (λ h. ground arith, λ m. ground (arith, m.found))
  | inr (p, e) ↦ (
    λ h. record { cell = p; found = e; given = ground arith; right = ground arith },
    λ m. ground (arith, m.found, m.right, m.given),
  )
]

-- The controller's request to end a session is either answered with 204, and the session is destroyed,
-- or answered with another status, and nothing changes.
pub handle_end_effect :
    (id header : Bytes) (g : Gateway)
    → (((handle_end id header g).1.status ≡ 204)
        × ((handle_end id header g).0.mgr ≡ destroy id g.mgr))
      ⊎ (((handle_end id header g).1.status ≢ 204) × ((handle_end id header g).0 ≡ g))
unfolding handle_end end_by_control_token destroy
handle_end_effect id header g = elim (Option-cases (find id g.mgr.sessions)) [
  | inl e ↦ ground arith
  | inr (p, e) ↦ ground arith
]

-- The reply to a pairing that has gone well is 200; one that has failed leaves the manager as it was.
abbrev Settled : Gateway → Gateway × Response → Type 0
Settled g r = (r.1.status ≡ 200) ⊎ (r.0 ≡ g)

by_code-Settled :
    (code : Bytes) (settings : GenerationSettings) (draw : Option (List ℕ)) (now : ℕ) (g : Gateway)
    → IsValid g.mgr
    → Settled g (approve_reply g (approve_by_code_with_settings code settings draw now g.mgr))
unfolding approve_by_code_with_settings approve store update control_token
by_code-Settled code settings draw now g v = elim (Option-cases (find code g.mgr.by_pair_code)) [
  | inl e ↦ ground arith
  | inr (p, e) ↦ ground (arith, (v.coded code p e).1)
]

by_token-Settled :
    (token : Bytes) (settings : GenerationSettings) (draw : Option (List ℕ)) (now : ℕ) (g : Gateway)
    → IsValid g.mgr
    → Settled g (approve_reply g (approve_by_token_with_settings token settings draw now g.mgr))
unfolding approve_by_token_with_settings approve store update control_token
by_token-Settled token settings draw now g v =
    elim (Option-cases (find_by_token token g.mgr.heap g.mgr.sessions)) [
      | inl e ↦ ground arith
      | inr (p, e) ↦
          let (id, f, t) = find_by_token_sound token g.mgr.heap g.mgr.sessions p v.keyed e in
          ground (arith, f, v.named id p f)
    ]

approve_request-Settled :
    (req : ApproveRequest) (settings : GenerationSettings) (draw : Option (List ℕ)) (now : ℕ)
    (g : Gateway)
    → IsValid g.mgr
    → Settled g (approve_request req settings draw now g)
unfolding approve_request
approve_request-Settled req settings draw now g v =
    elim (Bool-cases (not (text_eq req.pairing_token []))) [
      | inl e ↦ rw e (by_token-Settled req.pairing_token settings draw now g v)
      | inr e ↦ rw e (elim (Bool-cases (not (text_eq req.pairing_code []))) [
        | inl c ↦
            rw c (by_code-Settled (normalize_pair_code req.pairing_code) settings draw now g v)
        | inr c ↦ rw c (inr refl)
      ])
    ]

-- In a gateway with a valid manager, a pairing request is either answered with 200 or uses up nothing: the
-- gateway stays as it was.
pub handle_approve_settled :
    (body : Option ApproveRequest) (draw : Option (List ℕ)) (now : ℕ) (g : Gateway)
    → IsValid g.mgr
    → ((handle_approve body draw now g).1.status ≡ 200) ⊎ ((handle_approve body draw now g).0 ≡ g)
unfolding handle_approve
handle_approve_settled none draw now g v = inr refl
handle_approve_settled (some req) draw now g v =
    elim (Result-cases (parse_settings g.model req.model req.thinking req.reasoning_effort)) [
      | inl (s, e) ↦ ground (arith, approve_request-Settled req s draw now g v)
      | inr (x, e) ↦ ground arith
    ]
