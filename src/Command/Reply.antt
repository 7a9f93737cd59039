-- ===== src/Command/Reply.antt =====
-- cmd/dsgateway/main.go: what `runApprove` reads of the gateway's reply.
use deepseek_project.Crypto.Base64.{is_url_safe}
use deepseek_project.Crypto.Laws.{new_id_shape, new_token_shape}
use deepseek_project.Base.{
  ℕ, ◌≡◌, refl, sym, ◌∙◌, subst, Bytes, Bytes-discrete, ℕ_discrete, codes, List, [], ◌∷◌, ◌++◌,
  Option, none, some, All, All-map, arith, ok, true, ok_inj,
}
use deepseek_project.Json.Utf8.{next_rune}
use deepseek_project.Json.Strings.RoundTrip.{is_utf8}
use deepseek_project.Json.Structs.{text_value, fold_fields, names, fold_name, fold_letter}
use deepseek_project.Json.Structs.RoundTrip.{IsText, ascii-IsText, parse_first-marshal}
use deepseek_project.Crypto.{new_token, new_id}
use deepseek_project.Protocol.Types.{approved}
use deepseek_project.Protocol.Messages.{approval_json, session_id_of, state_text}
use deepseek_project.Session.Validity.Operations.{Fills}

session_id-IsText : IsText (codes "session_id")
unfolding is_utf8 next_rune
session_id-IsText = refl

state-IsText : IsText (codes "state")
unfolding is_utf8 next_rune
state-IsText = refl

control_token-IsText : IsText (codes "control_token")
unfolding is_utf8 next_rune
control_token-IsText = refl

approved-IsText : IsText (codes "APPROVED")
unfolding is_utf8 next_rune
approved-IsText = refl

-- What the command reads of a reply that approves.
pub approval_read :
    (id tok rest : Bytes)
    → IsText id
    → IsText tok
    → session_id_of
        (approval_json (record { session_id = id; state = approved; control_token = tok }) ++ rest)
      ≡ id
unfolding session_id_of approval_json state_text fold_fields names fold_name fold_letter
    Bytes-discrete ℕ_discrete
approval_read id [] rest hi ht =
    rw
      (parse_first-marshal (codes "session_id") (text_value id)
        ((codes "state", text_value (codes "APPROVED")) ∷ []) rest session_id-IsText hi
        ((state-IsText, approved-IsText), tt))
      refl
approval_read id (c ∷ tok) rest hi ht =
    rw
      (parse_first-marshal (codes "session_id") (text_value id)
        ((codes "state", text_value (codes "APPROVED"))
          ∷ (codes "control_token", text_value (c ∷ tok))
          ∷ [])
        rest session_id-IsText hi
        ((state-IsText, approved-IsText), ((control_token-IsText, ht), tt)))
      refl

-- A text of URL-safe bytes is valid UTF-8.
url_safe-IsText : (s : Bytes) → All (λ c. is_url_safe c ≡ true) s → IsText s
unfolding is_url_safe
url_safe-IsText s h = ascii-IsText s (All-map _ _ s (λ c e. ground arith) h)

pub new_id-IsText :
    (draw : Option (List ℕ)) (id : Bytes) → Fills 16 draw → new_id draw ≡ ok id → IsText id
new_id-IsText none id h e = absurd (unfold new_id in ground arith)
new_id-IsText (some b) id h e =
    let (x, is, n, safe) = new_id_shape b (h b refl).0 (h b refl).1 in
    subst IsText (ok_inj (sym is ∙ e)) (url_safe-IsText x safe)

pub new_token-IsText :
    (draw : Option (List ℕ)) (tok : Bytes) → Fills 32 draw → new_token draw ≡ ok tok → IsText tok
new_token-IsText none tok h e = absurd (unfold new_token in ground arith)
new_token-IsText (some b) tok h e =
    let (x, is, n, safe) = new_token_shape b (h b refl).0 (h b refl).1 in
    subst IsText (ok_inj (sym is ∙ e)) (url_safe-IsText x safe)
