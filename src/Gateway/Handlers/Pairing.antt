-- ===== src/Gateway/Handlers/Pairing.antt =====
-- The whole of a pairing: the code that the terminal shows approves its session, and the token that the
-- controller receives ends it.
use deepseek_project.Base.{
  ℕ, ◌+◌, ◌<◌, ◌≤◌, ◌≡◌, ◌≢◌, inl, inr, refl, sym, ◌∙◌, ap, subst, Bytes, List, [], ◌∷◌, Option,
  none, some, true, arith, find, update, Result-cases, ok, length, is_ok, ok_inj,
}
use deepseek_project.Crypto.{new_token, code_limit, new_pair_code, new_id}
use deepseek_project.Crypto.Laws.{new_pair_code_shape}
use deepseek_project.Protocol.Types.{ApproveRequest, SessionCreateResponse, waiting, approved}
use deepseek_project.Protocol.PairCode.{
  normalize_pair_code, format_pair_code, normalize-format_of_AreDigits,
}
use deepseek_project.Provider.Settings.{GenerationSettings, parse_settings, valid}
use deepseek_project.Provider.Settings.Laws.{parse_settings-valid, parse_settings_iff}
use deepseek_project.Session.Types.{store}
use deepseek_project.Session.Create.{Draws, create, control_token}
use deepseek_project.Session.Create.Laws.{create-IsCreated}
use deepseek_project.Session.Approve.{approve_by_code_with_settings, granted}
use deepseek_project.Session.Approve.Laws.{MayApprove, approve-granted}
use deepseek_project.Session.Validity.Operations.{IsUnused}
use deepseek_project.Gateway.Server.{Gateway, Response, write_json, created, approval}
use deepseek_project.Gateway.Handlers.{
  handle_create, handle_approve, approve_request, approve_reply,
}

-- A request with a code and nothing else.
abbrev pub code_request : Bytes → ApproveRequest
code_request code = record {
  pairing_token = [];
  pairing_code = code;
  api_key = [];
  model = [];
  thinking = none;
  reasoning_effort = [];
}

new_token_drawn : (draw : Option (List ℕ)) (tok : Bytes) → new_token draw ≡ ok tok → draw ≢ none
unfolding new_token
new_token_drawn draw tok e = ground arith

-- A request with a code alone has settings, and they are valid.
plain_settings :
    (default : Bytes)
    → (s : GenerationSettings) × (parse_settings default [] none [] ≡ ok s) × (valid s ≡ true)
plain_settings default = elim (Result-cases (parse_settings default [] none [])) [
  | inl (s, e) ↦ (s, e, parse_settings-valid default [] none [] s e)
  | inr (x, e) ↦
      absurd (cc ((parse_settings_iff default [] none []).1 (inl refl, inr (inl refl)), ap is_ok e))
]

abbrev pub approved_reply : Bytes → Bytes → Response
approved_reply id tok =
    write_json 200 (approval (record { session_id = id; state = approved; control_token = tok }))

granted_reply :
    (g : Gateway) (p : ℕ) (id tok : Bytes) (settings : GenerationSettings)
    → find id g.mgr.sessions ≡ some p
    → (g.mgr.heap p).id ≡ id
    → (approve_reply g (store p (granted tok settings (g.mgr.heap p)) g.mgr, ok p)).1
      ≡ approved_reply id tok
unfolding store update control_token
granted_reply g p id tok settings i same = ground arith

-- Pairing by a code alone, where the code leads to a session that may be approved.
handle_approve_code :
    (code : Bytes) (draw : Option (List ℕ)) (now : ℕ) (g : Gateway) (p : ℕ) (id tok : Bytes)
    → code ≢ []
    → find (normalize_pair_code code) g.mgr.by_pair_code ≡ some p
    → find id g.mgr.sessions ≡ some p
    → (g.mgr.heap p).id ≡ id
    → now ≤ (g.mgr.heap p).pair_expiry
    → (g.mgr.heap p).state ≡ waiting
    → new_token draw ≡ ok tok
    → (handle_approve (some (code_request code)) draw now g).1 ≡ approved_reply id tok
unfolding handle_approve approve_request approve_by_code_with_settings
handle_approve_code code draw now g p id tok n f i same t w d =
    let (s, e, v) = plain_settings g.model in
    let may : MayApprove s draw now (g.mgr.heap p) = record {
      in_time = t;
      waits = w;
      normal = v;
      drawn = new_token_drawn draw tok d;
    } in
    ground (arith, approve-granted p s draw now g.mgr tok may d, granted_reply g p id tok s i same)

-- What a reply of 201 says of the creation.
record Announces (d : Draws) (now : ℕ) (g : Gateway) (r : SessionCreateResponse) (p : ℕ)
    : Type 0 where
  made : (create d now g.mgr).1 ≡ ok p
  kept : (handle_create d now g).0.mgr ≡ (create d now g.mgr).0
  id : r.session_id ≡ ((create d now g.mgr).0.heap p).id
  code : r.pairing_code ≡ format_pair_code ((create d now g.mgr).0.heap p).pair_code

handle_create-Announces :
    (d : Draws) (now : ℕ) (g : Gateway) (r : SessionCreateResponse)
    → (handle_create d now g).1 ≡ write_json 201 (created r)
    → (p : ℕ) × Announces d now g r p
unfolding handle_create
handle_create-Announces d now g r h = elim (Result-cases (create d now g.mgr).1) [
  | inl (p, e) ↦ (p, ground arith)
  | inr (x, e) ↦ absurd (ground arith)
]

format-ne-nil : (code : Bytes) → length code ≡ 6 → format_pair_code code ≢ []
unfolding format_pair_code
format-ne-nil [] h = absurd (omega (arith, h))
format-ne-nil (c ∷ code) h = ground arith

-- The code drawn for a new session is as it was after it has been displayed and typed.
drawn_code :
    (d : Draws) (n : ℕ)
    → d.code ≡ some n
    → n < code_limit
    → (code : Bytes) → new_pair_code d.code ≡ ok code
    → (length code ≡ 6) × (normalize_pair_code (format_pair_code code) ≡ code)
drawn_code d n drawn small code e =
    let (made, i, length_6, digits, value) = new_pair_code_shape n small in
    let same : made ≡ code = ok_inj (sym i ∙ ap new_pair_code (sym drawn) ∙ e) in
    subst (λ c. (length c ≡ 6) × (normalize_pair_code (format_pair_code c) ≡ c)) same
      (length_6, normalize-format_of_AreDigits made digits)

-- The code in the reply has six digits.
pub announced_digits :
    (d : Draws) (n now : ℕ) (g : Gateway) (r : SessionCreateResponse)
    → IsUnused g.mgr d
    → d.code ≡ some n
    → n < code_limit
    → (handle_create d now g).1 ≡ write_json 201 (created r)
    → length (normalize_pair_code r.pairing_code) ≡ 6
announced_digits d n now g r unused drawn small h =
    let (p, a) = handle_create-Announces d now g r h in
    let c = create-IsCreated d now g.mgr p unused a.made in
    let six = drawn_code d n drawn small (((create d now g.mgr).0.heap p).pair_code) c.code in
    rw (a.code, six.1) six.0

pub announced_id :
    (d : Draws) (now : ℕ) (g : Gateway) (r : SessionCreateResponse)
    → IsUnused g.mgr d
    → (handle_create d now g).1 ≡ write_json 201 (created r)
    → new_id d.id ≡ ok r.session_id
announced_id d now g r unused h =
    let (p, a) = handle_create-Announces d now g r h in
    let c = create-IsCreated d now g.mgr p unused a.made in c.drawn ∙ ap ok (sym (a.id ∙ c.named))

nonempty : (x : Bytes) → normalize_pair_code x ≢ [] → x ≢ []
unfolding normalize_pair_code
nonempty [] n = absurd (n refl)
nonempty (c ∷ x) n = λ e. ground arith

by_digits :
    (x y : Bytes) (settings : GenerationSettings) (draw : Option (List ℕ)) (now : ℕ) (g : Gateway)
    → x ≢ []
    → y ≢ []
    → normalize_pair_code x ≡ normalize_pair_code y
    → approve_request (code_request x) settings draw now g
      ≡ approve_request (code_request y) settings draw now g
unfolding approve_request
by_digits x y settings draw now g n k e = ground arith

-- Only the digits of a code matter.
pub approve_same_digits :
    (x y : Bytes) (draw : Option (List ℕ)) (now : ℕ) (g : Gateway)
    → normalize_pair_code x ≢ []
    → normalize_pair_code x ≡ normalize_pair_code y
    → handle_approve (some (code_request x)) draw now g
      ≡ handle_approve (some (code_request y)) draw now g
unfolding handle_approve
approve_same_digits x y draw now g n e =
    let k = nonempty y (λ z. n (e ∙ z)) in
    elim (Result-cases (parse_settings g.model [] none [])) [
      | inl (s, r) ↦ ground (arith, by_digits x y s draw now g (nonempty x n) k e)
      | inr (z, r) ↦ ground arith
    ]

-- A session that is created is approved by the code that the gateway has returned for display, typed as
-- it is displayed, until the pairing expires; the reply names the session and carries the new control
-- token. (The identifier drawn is unused, the code drawn is below a million, and the
-- generator has delivered the token.)
pub create_then_approve :
    (d : Draws) (n now later : ℕ) (g : Gateway) (r : SessionCreateResponse) (draw : Option (List ℕ))
    (tok : Bytes)
    → IsUnused g.mgr d
    → d.code ≡ some n
    → n < code_limit
    → (handle_create d now g).1 ≡ write_json 201 (created r)
    → later ≤ now + g.mgr.cfg.pair_timeout
    → new_token draw ≡ ok tok
    → (handle_approve (some (code_request r.pairing_code)) draw later (handle_create d now g).0).1
      ≡ approved_reply r.session_id tok
create_then_approve d n now later g r draw tok unused drawn small h t token =
    let (p, a) = handle_create-Announces d now g r h in
    let c = create-IsCreated d now g.mgr p unused a.made in
    let six = drawn_code d n drawn small (((create d now g.mgr).0.heap p).pair_code) c.code in
    handle_approve_code r.pairing_code draw later (handle_create d now g).0 p r.session_id tok
      (subst (λ x. x ≢ []) (sym a.code) (format-ne-nil _ six.0))
      (rw (a.code, a.kept, six.1) c.by_code) (rw (a.id, a.kept, c.named) c.by_id)
      (rw (a.kept) (sym a.id)) (rw (a.kept, c.expires) t) (rw (a.kept) c.pending) token
