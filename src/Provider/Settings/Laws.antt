-- ===== src/Provider/Settings/Laws.antt =====
-- What the parsed settings guarantee.
use deepseek_project.Base.{
  Bytes, codes, none, ◌≡◌, ◌⊎◌, ◌↔◌, Bool, true, false, Option, some, [], ok, is_ok, arith,
  Bytes-discrete,
}
use deepseek_project.Provider.Settings.{
  GenerationSettings, is_model, is_effort, valid, base_model, choose_model, choose_effort,
  parse_settings, model_v4_flash, reasoning_high,
}

flash-is_model : is_model model_v4_flash ≡ true
unfolding is_model Bytes-discrete
flash-is_model = ground arith

high-is_effort : is_effort reasoning_high ≡ true
unfolding is_effort Bytes-discrete
high-is_effort = ground arith

no_effort : is_effort [] ≡ false
unfolding is_effort Bytes-discrete
no_effort = ground arith

no_model : is_model [] ≡ false
unfolding is_model Bytes-discrete
no_model = ground arith

pub base_model-is_model : (d : Bytes) → is_model (base_model d) ≡ true
unfolding base_model
base_model-is_model d = ground (arith, flash-is_model)

choose_model-is_model : (d m : Bytes) (r : Bytes) → choose_model d m ≡ ok r → is_model r ≡ true
unfolding choose_model
choose_model-is_model d m r h = ground (arith, base_model-is_model d)

choose_effort-valid :
    (e : Bytes) (t : Bool) (r m : Bytes)
    → is_model m ≡ true
    → choose_effort t e ≡ ok r
    → valid (record { model = m; thinking_enabled = t; reasoning_effort = r }) ≡ true
unfolding choose_effort valid
choose_effort-valid e t r m q h = ground (arith, high-is_effort)

-- Settings that the parser returns are in the normal form that `Valid` tests, whatever the gateway's
-- configured default model is.
pub parse_settings-valid :
    (default model_raw : Bytes) (thinking : Option Bool) (effort_raw : Bytes)
    (s : GenerationSettings)
    → parse_settings default model_raw thinking effort_raw ≡ ok s
    → valid s ≡ true
unfolding parse_settings
parse_settings-valid d m t e s h = grind (arith, choose_model-is_model, choose_effort-valid)

-- A model and an effort of those that the product supports.
abbrev pub IsSupportedModel : Bytes → Type 0
IsSupportedModel m = (m ≡ codes "deepseek-v4-flash") ⊎ (m ≡ codes "deepseek-v4-pro")

abbrev pub IsSupportedEffort : Bytes → Type 0
IsSupportedEffort e = (e ≡ codes "low") ⊎ (e ≡ codes "high") ⊎ (e ≡ codes "max")

-- A model that is empty or supported, and an effort that is empty or supported unless thinking is
-- switched off.
abbrev pub IsAccepted : Bytes → Option Bool → Bytes → Type 0
IsAccepted m t e =
    ((m ≡ []) ⊎ IsSupportedModel m) × ((t ≡ some false) ⊎ (e ≡ []) ⊎ IsSupportedEffort e)

-- The parser accepts exactly the requests with a model that is empty or supported, and an effort that is
-- empty or supported unless thinking is switched off.
pub parse_settings_iff :
    (default model_raw : Bytes) (thinking : Option Bool) (effort_raw : Bytes)
    → (is_ok (parse_settings default model_raw thinking effort_raw) ≡ true)
      ↔ IsAccepted model_raw thinking effort_raw
unfolding parse_settings choose_model choose_effort is_model is_effort
parse_settings_iff d m none e = ground arith
parse_settings_iff d m (some t) e = ground arith

-- Settings in normal form are parsed, from their three parts, to themselves.
pub parse_settings_roundtrip :
    (default : Bytes) (s : GenerationSettings)
    → valid s ≡ true
    → parse_settings default s.model (some s.thinking_enabled) s.reasoning_effort ≡ ok s
unfolding parse_settings choose_model choose_effort valid
parse_settings_roundtrip d s h = ground (arith, no_model, no_effort)
