-- ===== src/Provider/Deepseek/Request.antt =====
-- What the API is asked for.
use deepseek_project.Base.{Bytes, codes, ◌≡◌, ◌⊎◌, true, [], arith, Bytes-discrete, if◌then◌else◌}
use deepseek_project.Provider.{CompletionRequest}
use deepseek_project.Provider.Settings.{
  GenerationSettings, valid, is_model, is_effort, default_generation_settings,
}
use deepseek_project.Provider.Settings.Laws.{IsSupportedModel, IsSupportedEffort}
use deepseek_project.Provider.Deepseek.{effective_settings, chat_request, ChatRequest}

default_valid : valid default_generation_settings ≡ true
unfolding valid is_model is_effort Bytes-discrete
default_valid = ground arith

effective_settings-valid :
    (model : Bytes) (s : GenerationSettings) → valid (effective_settings model s) ≡ true
unfolding effective_settings
effective_settings-valid model s = ground (arith, default_valid)

-- A request that the API documents: a supported model, and either thinking with a supported effort or
-- no thinking and no effort.
abbrev pub IsSupported : ChatRequest → Type 0
IsSupported r =
    IsSupportedModel r.model
    × (((r.thinking ≡ codes "enabled") × IsSupportedEffort r.reasoning_effort)
        ⊎ ((r.thinking ≡ codes "disabled") × (r.reasoning_effort ≡ [])))

-- Whatever the settings of the request and the model of the client are, valid or not, the API is only
-- asked for a supported model, with thinking and a supported effort or without thinking and effort.
pub chat_request-IsSupported :
    (model : Bytes) (req : CompletionRequest) → IsSupported (chat_request model req)
unfolding chat_request valid is_model is_effort
chat_request-IsSupported model req = ground (arith, effective_settings-valid model req.settings)

-- Settings in normal form are sent as they are: model, thinking and effort, with the whole conversation,
-- and the answer is asked for as a stream.
pub chat_request-settings :
    (model : Bytes) (req : CompletionRequest)
    → valid req.settings ≡ true
    → chat_request model req ≡ record {
      model = req.settings.model;
      messages = req.messages;
      stream = true;
      thinking = if req.settings.thinking_enabled then codes "enabled" else codes "disabled";
      reasoning_effort = req.settings.reasoning_effort;
    }
unfolding chat_request effective_settings valid is_model Bytes-discrete
chat_request-settings model req v = ground arith
