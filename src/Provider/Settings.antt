-- ===== src/Provider/Settings.antt =====
-- internal/provider/settings.go: the generation settings of a session.
pub mod Laws
use deepseek_project.Base.{
  Bytes, codes, text_eq, Bool, true, false, ◌||◌, if◌then◌else◌, Option, none, some, [], Result, ok,
  err, ◌>>=◌,
}

abbrev pub model_v4_flash : Bytes
model_v4_flash = codes "deepseek-v4-flash"

abbrev pub model_v4_pro : Bytes
model_v4_pro = codes "deepseek-v4-pro"

abbrev pub reasoning_low : Bytes
reasoning_low = codes "low"

abbrev pub reasoning_high : Bytes
reasoning_high = codes "high"

abbrev pub reasoning_max : Bytes
reasoning_max = codes "max"

pub record GenerationSettings : Type 0 where
  pub model : Bytes
  pub thinking_enabled : Bool
  pub reasoning_effort : Bytes

-- `GenerationSettings{}`
abbrev pub zero_settings : GenerationSettings
zero_settings = record { model = []; thinking_enabled = false; reasoning_effort = [] }

abbrev pub default_generation_settings : GenerationSettings
default_generation_settings = record {
  model = model_v4_flash;
  thinking_enabled = true;
  reasoning_effort = reasoning_high;
}

-- `case ModelV4Flash, ModelV4Pro:`
unfoldable pub is_model : Bytes → Bool
is_model m = text_eq m model_v4_flash || text_eq m model_v4_pro

-- `case ReasoningLow, ReasoningHigh, ReasoningMax:`
unfoldable pub is_effort : Bytes → Bool
is_effort e = text_eq e reasoning_low || text_eq e reasoning_high || text_eq e reasoning_max

unfoldable pub valid : GenerationSettings → Bool
valid s =
    if is_model s.model
    then (if s.thinking_enabled
        then is_effort s.reasoning_effort
        else text_eq s.reasoning_effort [])
    else false

pub data SettingsError : Type 0 where
  unsupported_model unsupported_effort : Bytes → SettingsError

-- The configured default, or the product default where that is empty or no model.
unfoldable pub base_model : Bytes → Bytes
base_model default =
    if text_eq default []
    then model_v4_flash
    else (if is_model default then default else model_v4_flash)

unfoldable pub choose_model : Bytes → Bytes → Result SettingsError Bytes
choose_model default raw =
    if text_eq raw []
    then ok (base_model default)
    else (if is_model raw then ok raw else err (unsupported_model raw))

abbrev pub choose_thinking : Option Bool → Bool
choose_thinking none = true
choose_thinking (some t) = t

unfoldable pub choose_effort : Bool → Bytes → Result SettingsError Bytes
choose_effort thinking raw =
    if thinking
    then (if text_eq raw []
        then ok reasoning_high
        else (if is_effort raw then ok raw else err (unsupported_effort raw)))
    else ok []

unfoldable pub parse_settings :
    Bytes → Bytes → Option Bool → Bytes → Result SettingsError GenerationSettings
parse_settings default model_raw thinking effort_raw = do
  model ← choose_model default model_raw
  effort ← choose_effort (choose_thinking thinking) effort_raw
  ok (record {
    model = model;
    thinking_enabled = choose_thinking thinking;
    reasoning_effort = effort;
  })
