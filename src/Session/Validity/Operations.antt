-- ===== src/Session/Validity/Operations.antt =====
-- Each operation keeps a manager valid.
use deepseek_project.Base.{
  ℕ, ◌+◌, ◌≡◌, inl, inr, refl, Bytes, List, [], ◌∷◌, Option, some, none, length, find, arith,
  Option-cases, Result-cases, ok,
}
use deepseek_project.Crypto.{new_id, new_token}
use deepseek_project.Crypto.Laws.{new_token-ne-nil}
use deepseek_project.Crypto.Base64.{AreBytes}
use deepseek_project.Protocol.Types.{active}
use deepseek_project.Provider.Settings.{GenerationSettings}
use deepseek_project.Session.Types.{Session, Config, Manager, RawConfig, new}
use deepseek_project.Session.Create.{Draws, fresh_session, create}
use deepseek_project.Session.Approve.{
  granted, approve, find_by_token, approve_by_token_with_settings, approve_by_code_with_settings,
}
use deepseek_project.Session.Approve.Lookup.{find_by_token_sound}
use deepseek_project.Session.Prompt.{
  with_prompt, with_answer, without_prompt, with_cancel, prepare_prompt, finish_prompt, fail_prompt,
  set_gen_cancel, cancel_generation,
}
use deepseek_project.Session.Destroy.{end_by_control_token, sweep_one, sweep_over, sweep}
use deepseek_project.Session.Validity.{IsSound, IsValid}
use deepseek_project.Session.Validity.Updates.{
  store-IsValid, insert_session-IsValid, destroy_locked-IsValid,
}

pub new-IsValid : (c : RawConfig) → IsValid (new c)
unfolding new find
new-IsValid c = record {
  named = λ i q h. cc;
  stored = λ i q h. cc;
  sound = λ i q h. cc;
  coded = λ i q h. cc;
  keyed = tt;
  code_keyed = tt;
  bounded = omega arith;
  erased = λ q h. absurd (omega arith);
}

-- `rand.Read` fills its whole buffer, of `n` bytes, when it returns no error.
abbrev pub Fills : ℕ → Option (List ℕ) → Type 0
Fills n draw = (b : List ℕ) → draw ≡ some b → AreBytes b × (length b ≡ n)

-- No session of the manager has the identifier that is drawn.
abbrev pub IsUnused : Manager → Draws → Type 0
IsUnused m d = (id : Bytes) → new_id d.id ≡ ok id → find id m.sessions ≡ none

fresh_session-IsSound :
    (d : Draws) (now : ℕ) (cfg : Config) (s : Session) → fresh_session d now cfg ≡ ok s → IsSound s
unfolding fresh_session
fresh_session-IsSound d now cfg s h = ground arith

pub fresh_session-id :
    (d : Draws) (now : ℕ) (cfg : Config) (s : Session)
    → fresh_session d now cfg ≡ ok s
    → new_id d.id ≡ ok s.id
unfolding fresh_session
fresh_session-id d now cfg s h = ground arith

pub create-IsValid :
    (d : Draws) (now : ℕ) (m : Manager) → IsUnused m d → IsValid m → IsValid (create d now m).0
unfolding create
create-IsValid d now m unused v = elim (Result-cases (fresh_session d now m.cfg)) [
  | inl (s, e) ↦ ground (
    arith,
    insert_session-IsValid m s v (unused s.id (fresh_session-id d now m.cfg s e)),
    fresh_session-IsSound d now m.cfg s e,
  )
  | inr (x, e) ↦ ground arith
]

approve-IsValid :
    (id : Bytes) (p : ℕ) (settings : GenerationSettings) (draw : Option (List ℕ)) (now : ℕ)
    (m : Manager)
    → Fills 32 draw
    → find id m.sessions ≡ some p
    → IsValid m
    → IsValid (approve p settings draw now m).0
unfolding approve
approve-IsValid id p settings draw now m fills f v = elim (Result-cases (new_token draw)) [
  | inl (tok, e) ↦ ground (
    arith,
    v.sound id p f,
    new_token-ne-nil draw tok fills e,
    store-IsValid m id p (granted tok settings (m.heap p)) v f refl refl,
  )
  | inr (x, e) ↦ ground arith
]

pub approve_by_token-IsValid :
    (token : Bytes) (settings : GenerationSettings) (draw : Option (List ℕ)) (now : ℕ) (m : Manager)
    → Fills 32 draw
    → IsValid m
    → IsValid (approve_by_token_with_settings token settings draw now m).0
unfolding approve_by_token_with_settings
approve_by_token-IsValid token settings draw now m fills v =
    elim (Option-cases (find_by_token token m.heap m.sessions)) [
      | inl e ↦ ground arith
      | inr (p, e) ↦
          let (id, f, _) = find_by_token_sound token m.heap m.sessions p v.keyed e in
          ground (arith, approve-IsValid id p settings draw now m fills f v)
    ]

pub approve_by_code-IsValid :
    (code : Bytes) (settings : GenerationSettings) (draw : Option (List ℕ)) (now : ℕ) (m : Manager)
    → Fills 32 draw
    → IsValid m
    → IsValid (approve_by_code_with_settings code settings draw now m).0
unfolding approve_by_code_with_settings
approve_by_code-IsValid code settings draw now m fills v =
    elim (Option-cases (find code m.by_pair_code)) [
      | inl e ↦ ground arith
      | inr (p, e) ↦
          ground (
            arith,
            approve-IsValid (m.heap p).id p settings draw now m fills (v.coded code p e).1 v,
          )
    ]

pub end_by_control_token-IsValid :
    (id token : Bytes) (m : Manager) → IsValid m → IsValid (end_by_control_token id token m).0
unfolding end_by_control_token
end_by_control_token-IsValid id token m v = ground (arith, destroy_locked-IsValid m id v)

pub prepare_prompt-IsValid :
    (id content : Bytes) (now : ℕ) (m : Manager)
    → IsValid m
    → IsValid (prepare_prompt id content now m).0
unfolding prepare_prompt
prepare_prompt-IsValid id content now m v = elim (Option-cases (find id m.sessions)) [
  | inl e ↦ ground arith
  | inr (p, e) ↦ ground (
    arith,
    v.sound id p e,
    store-IsValid m id p (with_prompt content (now + m.cfg.idle_timeout) (m.heap p)) v e refl refl,
  )
]

-- The session is answering a prompt, or is gone.
abbrev pub IsAnswering : Manager → Bytes → Type 0
IsAnswering m id = (p : ℕ) → find id m.sessions ≡ some p → (m.heap p).state ≡ active

pub finish_prompt-IsValid :
    (id text reason : Bytes) (now : ℕ) (m : Manager)
    → IsAnswering m id
    → IsValid m
    → IsValid (finish_prompt id text reason now m)
unfolding finish_prompt
finish_prompt-IsValid id text reason now m busy v = elim (Option-cases (find id m.sessions)) [
  | inl e ↦ ground arith
  | inr (p, e) ↦ ground (
    arith,
    v.sound id p e,
    busy p e,
    store-IsValid m id p (with_answer text (now + m.cfg.idle_timeout) (m.heap p)) v e refl refl,
  )
]

pub fail_prompt-IsValid :
    (id : Bytes) (now : ℕ) (m : Manager)
    → IsAnswering m id
    → IsValid m
    → IsValid (fail_prompt id now m)
unfolding fail_prompt
fail_prompt-IsValid id now m busy v = elim (Option-cases (find id m.sessions)) [
  | inl e ↦ ground arith
  | inr (p, e) ↦ ground (
    arith,
    v.sound id p e,
    busy p e,
    store-IsValid m id p (without_prompt (now + m.cfg.idle_timeout) (m.heap p)) v e refl refl,
  )
]

pub set_gen_cancel-IsValid :
    (id : Bytes) (g : ℕ) (m : Manager) → IsValid m → IsValid (set_gen_cancel id g m).0
unfolding set_gen_cancel
set_gen_cancel-IsValid id g m v = elim (Option-cases (find id m.sessions)) [
  | inl e ↦ ground arith
  | inr (p, e) ↦
      ground (
        arith,
        v.sound id p e,
        store-IsValid m id p (with_cancel (some g) (m.heap p)) v e refl refl,
      )
]

cancelled-IsValid : (m : Manager) (l : List ℕ) → IsValid m → IsValid (record m { cancelled = l })
cancelled-IsValid m l v = record {
  named = v.named;
  stored = v.stored;
  sound = v.sound;
  coded = v.coded;
  keyed = v.keyed;
  code_keyed = v.code_keyed;
  bounded = v.bounded;
  erased = v.erased;
}

pub cancel_generation-IsValid :
    (id : Bytes) (m : Manager) → IsValid m → IsValid (cancel_generation id m).0
unfolding cancel_generation
cancel_generation-IsValid id m v = elim (Option-cases (find id m.sessions)) [
  | inl e ↦ ground arith
  | inr (p, e) ↦ elim (Option-cases (m.heap p).gen_cancel) [
    | inl n ↦ ground arith
    | inr (g, c) ↦
        let v' = cancelled-IsValid m (g ∷ m.cancelled) v in
        let s = with_cancel none (m.heap p) in
        ground (arith, v.sound id p e, store-IsValid _ id p s v' e refl refl)
  ]
]

pub sweep_over-IsValid :
    (now : ℕ) (l : List (Bytes × ℕ)) (m : Manager) → IsValid m → IsValid (sweep_over now l m)
unfolding sweep_over sweep_one
sweep_over-IsValid now [] m v = v
sweep_over-IsValid now ((id, p) ∷ l) m v =
    sweep_over-IsValid now l (sweep_one now id p m) (ground (arith, destroy_locked-IsValid m id v))

pub sweep-IsValid : (now : ℕ) (m : Manager) → IsValid m → IsValid (sweep now m)
unfolding sweep
sweep-IsValid now m v = sweep_over-IsValid now m.sessions m v
