-- ===== src/Session/Trace.antt =====
-- Histories of the manager: its operations in any order that the gateway can produce.
pub mod Evolution
pub mod Reach
pub mod Expiry
use deepseek_project.Base.{ℕ, ◌≡◌, Bytes, List, Option, some, ok, find}
use deepseek_project.Provider.Settings.{GenerationSettings}
use deepseek_project.Session.Types.{Manager, RawConfig, new}
use deepseek_project.Session.Create.{Draws, create}
use deepseek_project.Session.Approve.{approve_by_token_with_settings, approve_by_code_with_settings}
use deepseek_project.Session.Prompt.{
  prepare_prompt, finish_prompt, fail_prompt, set_gen_cancel, cancel_generation,
}
use deepseek_project.Session.Destroy.{destroy, end_by_control_token, sweep}
use deepseek_project.Session.Validity.Operations.{Fills, IsUnused, IsAnswering}

pub data Call : Type 0 where
  creates : Draws → Call
  approves_token approves_code : Bytes → GenerationSettings → Option (List ℕ) → Call
  ends prepares : Bytes → Bytes → Call
  finishes : Bytes → Bytes → Bytes → Call
  fails cancels destroys : Bytes → Call
  sets_cancel : Bytes → ℕ → Call
  sweeps : Call

unfoldable pub step : ℕ → Call → Manager → Manager
step now (creates d) m = (create d now m).0
step now (approves_token token s draw) m = (approve_by_token_with_settings token s draw now m).0
step now (approves_code code s draw) m = (approve_by_code_with_settings code s draw now m).0
step now (ends id token) m = (end_by_control_token id token m).0
step now (prepares id content) m = (prepare_prompt id content now m).0
step now (finishes id text reason) m = finish_prompt id text reason now m
step now (fails id) m = fail_prompt id now m
step now (cancels id) m = (cancel_generation id m).0
step now (destroys id) m = destroy id m
step now (sets_cancel id g) m = (set_gen_cancel id g m).0
step now sweeps m = sweep now m

-- What the callers and the generator guarantee: reads fill their buffers, identifiers do not repeat
-- among the live sessions, and a prompt is finished or failed only while it is being answered.
abbrev pub Admits : Manager → Call → Type 0
Admits m (creates d) = IsUnused m d
Admits m (approves_token token s draw) = Fills 32 draw
Admits m (approves_code code s draw) = Fills 32 draw
Admits m (finishes id text reason) = IsAnswering m id
Admits m (fails id) = IsAnswering m id
Admits m _ = Unit

pub data Steps (m : Manager) : Manager → Type 0 where
  here : Steps m m
  next : {k : Manager} → Steps m k → (now : ℕ) (c : Call) → Admits k c → Steps m (step now c k)
