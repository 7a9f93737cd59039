-- ===== src/Command.antt =====
-- cmd/dsgateway/main.go and cmd/ds/main.go: how the commands put the parts together, and the subcommand
-- `approve`. The flags, the environment and the answers of the network are arguments.
pub mod Laws
pub mod Address
pub mod Body
pub mod Reply
pub mod Approval
use deepseek_project.Base.{
  ℕ, suc, ◌+◌, ◌-◌, ◌*◌, Bytes, codes, text_eq, List, [], ◌∷◌, ◌++◌, Option, none, some, Bool, true,
  false, not, ◌&&◌, ◌||◌, if◌then◌else◌, ◌==◌, length, take, drop, ℤ, pos, Result, ok, err, ◌>>=◌,
}
use deepseek_project.Json.Values.{Fields}
use deepseek_project.Json.Structs.{fold_fields, set_text, marshal}
use deepseek_project.Protocol.Types.{ErrorBody, ApproveRequest}
use deepseek_project.Protocol.PairCode.{normalize_pair_code}
use deepseek_project.Protocol.Messages.{error_body, approve_json, session_id_of}
use deepseek_project.Session.Types.{RawConfig, Manager, second}
use deepseek_project.Config.{
  Env, ConfigError, api_key, model, gateway_url, listen_addr, duration, int,
}
use deepseek_project.Session.Types.{new as new_manager}
use deepseek_project.Gateway.Server.{Gateway}
use deepseek_project.Gateway.Server.{new as new_gateway}
use deepseek_project.Client.Transport.{
  GatewayClient, new_gateway_client, Incoming, no_answer, answer, Outgoing,
}

-- The texts before and behind the last byte that is `d`.
unfoldable pub split_last : ℕ → Bytes → Option (Bytes × Bytes)
split_last d [] = none
split_last d (c ∷ s) = elim (split_last d s) [
  | some (before, after) ↦ some (c ∷ before, after)
  | none ↦ if c == d then some ([], s) else none
]

-- The texts before and behind the first byte that is `d`.
unfoldable pub split_first : ℕ → Bytes → Option (Bytes × Bytes)
split_first d [] = none
split_first d (c ∷ s) = elim (c == d) [
  | true ↦ some ([], s)
  | false ↦ elim (split_first d s) [ some (before, after) ↦ some (c ∷ before, after) | none ↦ none ]
]

abbrev pub has : ℕ → Bytes → Bool
has d [] = false
has d (c ∷ s) = c == d || has d s

-- The host between brackets, where the bracket closes just before the last colon.
abbrev bracketed : Bytes → Option (Bytes × Bytes) → Option Bytes
bracketed port none = none
bracketed port (some (host, rest)) =
    if text_eq rest (b':' ∷ port) && not (has b'[' (host ++ rest)) && not (has b']' rest)
    then some host
    else none

abbrev pub plain_host : Bytes → Bytes → Option Bytes
plain_host host port =
    if has b':' host || has b'[' (host ++ port) || has b']' (host ++ port) then none else some host

abbrev host_of : Bytes → Option (Bytes × Bytes) → Option Bytes
host_of addr none = none
host_of [] (some (before, port)) = plain_host before port
host_of (c ∷ addr) (some (before, port)) =
    if c == b'[' then bracketed port (split_first b']' addr) else plain_host before port

-- `net.SplitHostPort`: the host.
unfoldable pub split_host_port : Bytes → Option Bytes
unfolding split_last split_first
split_host_port addr = host_of addr (split_last b':' addr)

-- `is_loopback_ip` is what `net.ParseIP` and `IsLoopback` say of a host.
unfoldable pub is_loopback_addr : (Bytes → Bool) → Bytes → Bool
unfolding split_host_port
is_loopback_addr is_loopback_ip addr = elim (split_host_port addr) [
  | none ↦ false
  | some host ↦ if text_eq host (codes "localhost") then true else is_loopback_ip host
]

-- The provider that the gateway uses: the mock, or the API's client with its key and its model.
pub data ProviderChoice : Type 0 where
  mock_provider : ProviderChoice
  deepseek_client : Bytes → Bytes → ProviderChoice

unfoldable pub choose_provider : Env → Bool → Result ConfigError ProviderChoice
unfolding api_key model
choose_provider getenv true = ok mock_provider
choose_provider getenv false = do key ← api_key getenv; ok (deepseek_client key (model getenv))

-- What `main` of dsgateway starts.
pub record Wiring : Type 0 where
  pub provider : ProviderChoice
  pub addr : Bytes
  pub warns : Bool
  pub gateway : Gateway

module _ (parse_duration : Bytes → Option ℤ) (is_loopback_ip : Bytes → Bool) where
  abbrev setting : Env → Bytes → ℕ → ℤ
  setting getenv key default = duration parse_duration getenv key (pos default)

  unfoldable pub manager_config : Env → RawConfig
  unfolding duration int
  manager_config getenv = record {
    pair_timeout = setting getenv (codes "DS_PAIR_TIMEOUT") (120 * second);
    idle_timeout = setting getenv (codes "DS_IDLE_TIMEOUT") (5 * (60 * second));
    gen_timeout = setting getenv (codes "DS_GEN_TIMEOUT") (60 * second);
    max_sessions = int getenv (codes "DS_MAX_SESSIONS") (pos 8);
  }

  -- The parts of the gateway, with the provider given; `listen` is the flag.
  unfoldable pub wiring : Env → Bytes → ProviderChoice → Wiring
  unfolding manager_config is_loopback_addr model gateway_url listen_addr new_gateway new_manager
      duration
  wiring getenv listen provider = record {
    provider = provider;
    addr = listen_addr getenv listen;
    warns = not (is_loopback_addr is_loopback_ip (listen_addr getenv listen));
    gateway = new_gateway (record {
      model = model getenv;
      manager = new_manager (manager_config getenv);
      gen_timeout = setting getenv (codes "DS_GEN_TIMEOUT") (60 * second);
      gateway_url = gateway_url getenv;
      max_prompt_bytes = pos 0;
    });
  }

  -- `main` of dsgateway up to the server's start; an error ends it with status 1. The flags are `-mock`
  -- and `-listen`.
  unfoldable pub gateway_main : Env → Bool → Bytes → Result ConfigError Wiring
  unfolding choose_provider wiring
  gateway_main getenv mock_mode listen = do
    provider ← choose_provider getenv mock_mode
    ok (wiring getenv listen provider)

-- How the subcommand `approve` ends: its status, and what it prints, on the error output if the status is
-- not 0.
pub record Exit : Type 0 where
  pub status : ℕ
  pub words : Bytes

abbrev pub line : Bytes → Bytes
line text = text ++ 10 ∷ []

-- What is posted, for at least three arguments.
unfoldable pub approve_body : Bytes → Bytes
unfolding normalize_pair_code approve_json
approve_body code = approve_json (record {
  pairing_token = [];
  pairing_code = normalize_pair_code code;
  api_key = [];
  model = [];
  thinking = none;
  reasoning_effort = [];
})

unfoldable pub approve_outgoing : Env → Bytes → Outgoing
unfolding gateway_url approve_body
approve_outgoing getenv code = record {
  method = codes "POST";
  url = gateway_url getenv ++ codes "/v1/pair";
  body = some (approve_body code);
}

-- The subcommand after the post; `failure` is the message of an error without an answer.
unfoldable pub approve_ended : Bytes → Incoming → Exit
unfolding error_body session_id_of
approve_ended failure no_answer = record { status = 1; words = line (codes "approve: " ++ failure) }
approve_ended failure (answer status body) =
    if status == 200
    then record { status = 0; words = line (codes "Approved session " ++ session_id_of body) }
    else (let b = error_body body in
        record {
          status = 1;
          words = line (codes "approve failed: " ++ (b.code ++ (codes ": " ++ b.message)));
        })

-- `runApprove` with the command's arguments; `post` is what comes back for what is sent.
unfoldable pub run_approve : Env → (Outgoing → Incoming) → Bytes → List Bytes → Exit
unfolding approve_outgoing approve_ended
run_approve getenv post failure (program ∷ command ∷ code ∷ more) =
    approve_ended failure (post (approve_outgoing getenv code))
run_approve getenv post failure _ = record {
  status = 2;
  words = line (codes "usage: dsgateway approve <code>");
}

-- `main` of ds: the client of the gateway that the flag `-remote` names, or the environment.
unfoldable pub terminal_client : Env → Bytes → GatewayClient
unfolding gateway_url new_gateway_client
terminal_client getenv remote =
    new_gateway_client (if text_eq remote [] then gateway_url getenv else remote)
