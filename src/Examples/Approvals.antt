-- ===== src/Examples/Approvals.antt =====
-- The operator's command, at a session that has just been created.
use deepseek_project.Command.Address.{slash-not_routed}
use deepseek_project.Gateway.Server.{Gateway}
use deepseek_project.Base.{
  ◌*◌, ◌≡◌, refl, Bytes, codes, [], ◌∷◌, ◌++◌, some, Bytes-discrete, ℕ_discrete, trim_slashes,
  drop_slashes,
}
use deepseek_project.Session.Types.{second}
use deepseek_project.Gateway.Handlers.{handle_create}
use deepseek_project.Gateway.Routes.{Inputs, serve, not_routed}
use deepseek_project.Client.Transport.{GatewayClient}
use deepseek_project.Client.Requests.{received}
use deepseek_project.Config.{Env}
use deepseek_project.Command.{approve_outgoing, terminal_client}
use deepseek_project.Examples.Sessions.{gateway_of, empty_manager, first_draws, zeros_32}

abbrev unset : Env
unset name = []

abbrev in_a_minute : Inputs
in_a_minute = record { draws = first_draws; draw = some zeros_32; now = 60 * second }

abbrev typed_code : Bytes
typed_code = codes "000-042"

abbrev of_terminal : GatewayClient
of_terminal = terminal_client unset []

abbrev with_first : Gateway
with_first = (handle_create first_draws 5 (gateway_of empty_manager)).0

abbrev local : Bytes
local = codes "http://localhost:8080"

abbrev with_slash : Env
with_slash name = local ++ b'/' ∷ []

local_tidy : trim_slashes local ≡ local
unfolding trim_slashes drop_slashes Bytes-discrete ℕ_discrete
local_tidy = refl

slash-not_routed_example :
    (terminal_client with_slash [] ≡ record { base_url = local })
    × (serve
          (received (terminal_client with_slash []) (approve_outgoing with_slash typed_code))
          in_a_minute
          with_first
        ≡ (with_first, not_routed))
slash-not_routed_example =
    slash-not_routed with_slash local typed_code in_a_minute with_first local_tidy refl
