-- ===== src/Command/Address.antt =====
-- cmd/dsgateway/main.go and cmd/ds/main.go: the gateway's address in the environment.
use deepseek_project.Base.{
  ◌≡◌, refl, ap, ◌∙◌, Bytes, codes, [], ◌∷◌, ◌++◌, trim_slashes, drop_slashes, append_assoc,
  drop-length, length, drop, Bytes-discrete, ℕ_discrete, reverse-append,
}
use deepseek_project.Gateway.Server.{Gateway}
use deepseek_project.Gateway.Routes.{
  Inputs, not_routed, serve, route, segments, unmatched, cut, are_clean, unescape_all,
}
use deepseek_project.Client.Transport.{GatewayClient, new_gateway_client}
use deepseek_project.Client.Requests.{received, serve_routed}
use deepseek_project.Config.{Env, gateway_url}
use deepseek_project.Command.{approve_outgoing, terminal_client}

abbrev at_url : Bytes → GatewayClient
at_url url = record { base_url = url }

trimmed_client :
    (getenv : Env) → terminal_client getenv [] ≡ at_url (trim_slashes (gateway_url getenv))
unfolding terminal_client new_gateway_client Bytes-discrete
trimmed_client getenv = refl

-- The terminal's client has the address of the environment, if no slash ends it.
pub own_client :
    (getenv : Env)
    → trim_slashes (gateway_url getenv) ≡ gateway_url getenv
    → terminal_client getenv [] ≡ record { base_url = gateway_url getenv }
own_client getenv tidy = trimmed_client getenv ∙ ap at_url tidy

trim-slash : (url : Bytes) → trim_slashes (url ++ b'/' ∷ []) ≡ trim_slashes url
unfolding trim_slashes drop_slashes ℕ_discrete
trim-slash url = rw (reverse-append url (b'/' ∷ [])) refl

url_of_slash :
    (getenv : Env) (url : Bytes)
    → getenv (codes "DS_GATEWAY_URL") ≡ url ++ b'/' ∷ []
    → gateway_url getenv ≡ url ++ b'/' ∷ []
unfolding gateway_url Bytes-discrete
url_of_slash getenv [] e = rw e refl
url_of_slash getenv (c ∷ url) e = rw e refl

not_found : route (codes "POST") (codes "//v1/pair") ≡ unmatched
unfolding route segments are_clean unescape_all cut Bytes-discrete ℕ_discrete
not_found = refl

-- If the address in the environment ends in a slash, the terminal talks to the gateway at the address
-- without it, but what `dsgateway approve` posts there reaches no handler, and the gateway is as it
-- was.
pub slash-not_routed :
    (getenv : Env) (url typed : Bytes) (i : Inputs) (g : Gateway)
    → trim_slashes url ≡ url
    → getenv (codes "DS_GATEWAY_URL") ≡ url ++ b'/' ∷ []
    → (terminal_client getenv [] ≡ record { base_url = url })
      × (serve (received (terminal_client getenv []) (approve_outgoing getenv typed)) i g
          ≡ (g, not_routed))
unfolding approve_outgoing cut ℕ_discrete
slash-not_routed getenv url typed i g tidy e =
    let is = url_of_slash getenv url e in
    let own : terminal_client getenv [] ≡ at_url url =
      trimmed_client getenv
      ∙ ap (λ u. at_url (trim_slashes u)) is
      ∙ ap at_url (trim-slash url ∙ tidy) in
    (
      own,
      rw own (
          serve_routed (received (at_url url) (approve_outgoing getenv typed)) (codes "//v1/pair")
            unmatched i g
            (ap (cut b'#') (
              ap (λ u. drop (length url) (u ++ codes "/v1/pair")) is
              ∙ ap (drop (length url)) (append_assoc url (b'/' ∷ []) (codes "/v1/pair"))
              ∙ drop-length url (codes "//v1/pair")))
            not_found),
    )
