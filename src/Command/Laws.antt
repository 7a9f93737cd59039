-- ===== src/Command/Laws.antt =====
-- What the gateway's command starts, and whom its address lets in.
use deepseek_project.Base.{
  ℕ, zero, suc, ◌≡◌, ◌≢◌, ◌<◌, ◌⊎◌, inl, inr, refl, Bytes, [], ◌∷◌, ◌++◌, Option, none, some, Bool,
  false, ℤ, pos, arith, All, ok, positive_or, Result-cases, ok_inj, ◌∙◌, sym, negsuc, subst,
  All-append,
}
use deepseek_project.Config.{Env, api_key}
use deepseek_project.Session.Types.{new as new_manager}
use deepseek_project.Session.Validity.{IsValid}
use deepseek_project.Session.Validity.Operations.{new-IsValid}
use deepseek_project.Gateway.Server.{new as new_gateway}
use deepseek_project.Command.{
  split_last, split_host_port, manager_config, gateway_main, Wiring, choose_provider,
  ProviderChoice, deepseek_client, has, plain_host, wiring,
}

-- Text without colons and brackets.
abbrev pub IsPlain : Bytes → Type 0
IsPlain = All (λ c. (c ≢ b':') × (c ≢ b'[') × (c ≢ b']'))

split_last-none : (s : Bytes) → IsPlain s → split_last b':' s ≡ none
unfolding split_last
split_last-none [] h = refl
split_last-none (c ∷ s) h = ground (arith, split_last-none s h.1)

split_last-colon :
    (host port : Bytes) → IsPlain port → split_last b':' (host ++ b':' ∷ port) ≡ some (host, port)
unfolding split_last
split_last-colon [] port h = rw (split_last-none port h) refl
split_last-colon (c ∷ host) port h = rw (split_last-colon host port h) refl

has_none : (d : ℕ) (s : Bytes) → IsPlain s → (d ≡ b':') ⊎ (d ≡ b'[') ⊎ (d ≡ b']') → has d s ≡ false
has_none d [] h e = refl
has_none d (c ∷ s) h e = ground (arith, has_none d s h.1 e)

plain_host-IsPlain :
    (host port : Bytes) → IsPlain host → IsPlain port → plain_host host port ≡ some host
plain_host-IsPlain host port h k =
    let both = All-append _ host port h k in
    rw
      (
        has_none b':' host h (inl refl),
        has_none b'[' (host ++ port) both (inr (inl refl)),
        has_none b']' (host ++ port) both (inr (inr refl)),
      )
      refl

-- An address of a host and a port, without colons and brackets in them, has this host.
pub split_host_port-join :
    (host port : Bytes)
    → IsPlain host
    → IsPlain port
    → split_host_port (host ++ b':' ∷ port) ≡ some host
unfolding split_host_port
split_host_port-join [] port h k = rw (split_last-colon [] port k) (plain_host-IsPlain [] port h k)
split_host_port-join (c ∷ host) port h k =
    let e = plain_host-IsPlain (c ∷ host) port h k in
    rw (split_last-colon (c ∷ host) port k) (ground (arith, e))

-- A positive duration or number, after the defaults of the manager.
positive_or-positive : (x : ℤ) (n : ℕ) → 0 < positive_or x (suc n)
positive_or-positive (pos zero) n = omega arith
positive_or-positive (pos (suc x)) n = omega arith
positive_or-positive (negsuc x) n = omega arith

-- What holds of the parts that are started.
pub record IsWired (w : Wiring) : Type 0 where
  pub valid : IsValid w.gateway.mgr
  pub empty : w.gateway.mgr.sessions ≡ []
  pub same_timeout : w.gateway.gen_timeout ≡ w.gateway.mgr.cfg.gen_timeout
  pub room : 0 < w.gateway.mgr.cfg.max_sessions
  pub waits : 0 < w.gateway.mgr.cfg.pair_timeout
  pub idles : 0 < w.gateway.mgr.cfg.idle_timeout
  pub keyed : (key model : Bytes) → w.provider ≡ deepseek_client key model → key ≢ []
  pub a_model : w.gateway.model ≢ []

choose_provider-keyed :
    (getenv : Env) (mock_mode : Bool) (p : ProviderChoice) (key model : Bytes)
    → choose_provider getenv mock_mode ≡ ok p
    → p ≡ deepseek_client key model
    → key ≢ []
unfolding choose_provider api_key
choose_provider-keyed getenv mock_mode p key model e same = ground arith

module _ (parse_duration : Bytes → Option ℤ) (is_loopback_ip : Bytes → Bool) where
  wiring-IsWired :
      (getenv : Env) (mock_mode : Bool) (listen : Bytes) (p : ProviderChoice)
      → choose_provider getenv mock_mode ≡ ok p
      → IsWired (wiring parse_duration is_loopback_ip getenv listen p)
  unfolding wiring new_gateway new_manager manager_config
  wiring-IsWired getenv mock_mode listen p e = record {
    valid = new-IsValid (manager_config parse_duration is_loopback_ip getenv);
    empty = refl;
    same_timeout = refl;
    room = positive_or-positive _ 7;
    waits = positive_or-positive _ _;
    idles = positive_or-positive _ _;
    keyed = λ key model same. choose_provider-keyed getenv mock_mode p key model e same;
    a_model = ground arith;
  }

  gateway_main-provider :
      (getenv : Env) (mock_mode : Bool) (listen : Bytes) (p : ProviderChoice)
      → choose_provider getenv mock_mode ≡ ok p
      → gateway_main parse_duration is_loopback_ip getenv mock_mode listen
        ≡ ok (wiring parse_duration is_loopback_ip getenv listen p)
  unfolding gateway_main
  gateway_main-provider getenv mock_mode listen p e = rw e refl

  -- A gateway that is started, whatever the environment and the flags, has an empty manager in good order,
  -- with room for a session and positive timeouts; the server and the manager have the same time limit
  -- for a generation; there is a default model; and the API's client, if it is used, has a key.
  pub gateway_main-IsWired :
      (getenv : Env) (mock_mode : Bool) (listen : Bytes) (w : Wiring)
      → gateway_main parse_duration is_loopback_ip getenv mock_mode listen ≡ ok w
      → IsWired w
  unfolding gateway_main
  gateway_main-IsWired getenv mock_mode listen w h =
      elim (Result-cases (choose_provider getenv mock_mode)) [
        | inl (p, e) ↦
            subst IsWired (ok_inj (sym (gateway_main-provider getenv mock_mode listen p e) ∙ h))
              (wiring-IsWired getenv mock_mode listen p e)
        | inr (x, e) ↦ ground arith
      ]
