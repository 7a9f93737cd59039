-- ===== src/Session/Types.antt =====
-- internal/session/session.go and the types of manager.go. Pointers to sessions are numbers, and the
-- heap gives what they denote: the two maps of a manager share their sessions.
use deepseek_project.Base.{ℕ, ◌*◌, ◌^◌, Bytes, List, [], Option, none, update, ℤ, positive_or}
use deepseek_project.Protocol.Types.{SessionState, destroyed}
use deepseek_project.Provider.{Message}
use deepseek_project.Provider.Settings.{GenerationSettings, zero_settings}

pub data SessionError : Type 0 where
  not_found max_sessions pairing_expired already_approved not_approved : SessionError
  not_active unauthorized invalid_settings : SessionError
  -- an error of crypto/rand
  random : SessionError

-- Times are nanoseconds. The function `genCancel` is the number of the generation that it cancels.
pub record Session : Type 0 where
  pub id : Bytes
  pub state : SessionState
  pub pair_token : Bytes
  pub pair_code : Bytes
  pub pair_expiry : ℕ
  pub idle_deadline : ℕ
  pub history : List Message
  pub api_key : Bytes
  pub control_token : Bytes
  pub settings : GenerationSettings
  pub gen_cancel : Option ℕ

-- `time.Second`
abbrev pub second : ℕ
second = 10 ^ 9

-- What a caller writes: any signed durations and counts.
pub record RawConfig : Type 0 where
  pub pair_timeout : ℤ
  pub idle_timeout : ℤ
  pub gen_timeout : ℤ
  pub max_sessions : ℤ

pub record Config : Type 0 where
  pub pair_timeout : ℕ
  pub idle_timeout : ℕ
  pub gen_timeout : ℕ
  pub max_sessions : ℕ

-- `sessions` and `by_pair_code` hold pointers below `next`. `cancelled` lists the generations whose
-- cancel function the manager has called, the last one first.
pub record Manager : Type 0 where
  pub heap : ℕ → Session
  pub next : ℕ
  pub sessions : List (Bytes × ℕ)
  pub by_pair_code : List (Bytes × ℕ)
  pub cfg : Config
  pub cancelled : List ℕ

-- What cells hold that were never allocated. No pointer of a manager leads there.
abbrev blank : Session
blank = record {
  id = [];
  state = destroyed;
  pair_token = [];
  pair_code = [];
  pair_expiry = 0;
  idle_deadline = 0;
  history = [];
  api_key = [];
  control_token = [];
  settings = zero_settings;
  gen_cancel = none;
}

abbrev pub resolve : RawConfig → Config
resolve c = record {
  pair_timeout = positive_or c.pair_timeout (120 * second);
  idle_timeout = positive_or c.idle_timeout (5 * (60 * second));
  gen_timeout = positive_or c.gen_timeout (60 * second);
  max_sessions = positive_or c.max_sessions 8;
}

unfoldable pub new : RawConfig → Manager
new c = record {
  heap = λ _. blank;
  next = 0;
  sessions = [];
  by_pair_code = [];
  cfg = resolve c;
  cancelled = [];
}

-- `*p = s`
unfoldable pub store : ℕ → Session → Manager → Manager
store p s m = record m { heap = update m.heap p s }
