-- ===== src/Session/Create.antt =====
-- internal/session/manager.go: `Create` and the operations that only read. Each operation of the
-- manager holds its lock from the start to the return, so it is one step. The clock's time and the
-- generator's results are arguments.
pub mod Laws
pub mod Collision
use deepseek_project.Base.{
  ℕ, suc, ◌+◌, Bytes, List, [], Option, none, some, if◌then◌else◌, leb, length, find, put, update,
  Result, ok, err, ◌>>=◌,
}
use deepseek_project.Crypto.{RandError, new_id, new_token, new_pair_code}
use deepseek_project.Protocol.Types.{SessionState, waiting}
use deepseek_project.Provider.{Message}
use deepseek_project.Provider.Settings.{GenerationSettings, zero_settings}
use deepseek_project.Session.Types.{Session, SessionError, Config, Manager}

-- What the generator returns to one `Create`.
pub record Draws : Type 0 where
  pub id : Option (List ℕ)
  pub token : Option (List ℕ)
  pub code : Option ℕ

abbrev pub or_random {ℓ} : {A : Type ℓ} → Result RandError A → Result SessionError A
or_random (ok a) = ok a
or_random (err e) = err SessionError.random

-- The session that `Create` makes.
unfoldable pub fresh_session : Draws → ℕ → Config → Result SessionError Session
fresh_session d now cfg = do
  id ← or_random (new_id d.id)
  token ← or_random (new_token d.token)
  code ← or_random (new_pair_code d.code)
  ok (record {
    id = id;
    state = waiting;
    pair_token = token;
    pair_code = code;
    pair_expiry = now + cfg.pair_timeout;
    idle_deadline = now + cfg.idle_timeout;
    history = [];
    api_key = [];
    control_token = [];
    settings = zero_settings;
    gen_cancel = none;
  })

-- Allocates the session and enters it in both maps.
unfoldable pub insert_session : Session → Manager → Manager
insert_session s m = record m {
  heap = update m.heap m.next s;
  next = suc m.next;
  sessions = put s.id m.next m.sessions;
  by_pair_code = put s.pair_code m.next m.by_pair_code;
}

unfoldable pub create : Draws → ℕ → Manager → Manager × Result SessionError ℕ
create d now m =
    if leb m.cfg.max_sessions (length m.sessions)
    then (m, err SessionError.max_sessions)
    else (elim (fresh_session d now m.cfg) [
      | ok s ↦ (insert_session s m, ok m.next)
      | err e ↦ (m, err e)
    ])

unfoldable pub session_history : Bytes → Manager → List Message
session_history id m = elim (find id m.sessions) [ none ↦ [] | some p ↦ (m.heap p).history ]

unfoldable pub get : Bytes → Manager → Option ℕ
get id m = find id m.sessions

unfoldable pub status : Bytes → Manager → Result SessionError SessionState
status id m = elim (find id m.sessions) [
  | none ↦ err SessionError.not_found
  | some p ↦ ok (m.heap p).state
]

unfoldable pub session_settings : Bytes → Manager → Result SessionError GenerationSettings
session_settings id m = elim (find id m.sessions) [
  | none ↦ err SessionError.not_found
  | some p ↦ ok (m.heap p).settings
]

unfoldable pub control_token : Bytes → Manager → Result SessionError Bytes
control_token id m = elim (find id m.sessions) [
  | none ↦ err SessionError.not_found
  | some p ↦ ok (m.heap p).control_token
]
