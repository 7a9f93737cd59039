-- ===== src/Session/Destroy.antt =====
-- internal/session/manager.go: the ways in which a session ends.
pub mod Laws
pub mod Sweep
use deepseek_project.Base.{
  ℕ, Bytes, text_eq, List, [], ◌∷◌, Option, none, some, Bool, false, not, ◌||◌, if◌then◌else◌, ltb,
  find, delete, update, Result, ok, err,
}
use deepseek_project.Protocol.Types.{waiting, approved, destroyed}
use deepseek_project.Provider.Settings.{zero_settings}
use deepseek_project.Session.Types.{Session, SessionError, Manager}

-- What `destroyLocked` leaves in the session's memory.
abbrev pub wiped : Session → Session
wiped s = record s {
  state = destroyed;
  pair_token = [];
  pair_code = [];
  history = [];
  api_key = [];
  control_token = [];
  settings = zero_settings;
  gen_cancel = none;
}

-- `if f != nil { f() }`
abbrev pub called : Option ℕ → List ℕ → List ℕ
called none calls = calls
called (some g) calls = g ∷ calls

-- The body of `destroyLocked` for the session that it has found: a running generation is
-- cancelled, the memory wiped, and both entries deleted.
unfoldable pub remove_session : Bytes → ℕ → Manager → Manager
remove_session id p m = record m {
  heap = update m.heap p (wiped (m.heap p));
  sessions = delete id m.sessions;
  by_pair_code = delete (m.heap p).pair_code m.by_pair_code;
  cancelled = called (m.heap p).gen_cancel m.cancelled;
}

unfoldable pub destroy_locked : Bytes → Manager → Manager
destroy_locked id m = elim (find id m.sessions) [ none ↦ m | some p ↦ remove_session id p m ]

unfoldable pub destroy : Bytes → Manager → Manager
destroy id m = destroy_locked id m

-- `subtle.ConstantTimeCompare` is 1 for equal texts.
unfoldable pub end_by_control_token :
    Bytes → Bytes → Manager → Manager × Result SessionError (Unit {0})
end_by_control_token id token m = elim (find id m.sessions) [
  | none ↦ (m, err SessionError.not_found)
  | some p ↦
      if text_eq token [] || not (text_eq (m.heap p).control_token token)
      then (m, err SessionError.unauthorized)
      else (destroy_locked id m, ok tt)
]

-- The switch of `Sweep`.
abbrev pub is_expired : ℕ → Session → Bool
is_expired now s = elim s.state [
  | waiting ↦ ltb s.pair_expiry now
  | approved ↦ ltb s.idle_deadline now
  | _ ↦ false
]

unfoldable pub sweep_one : ℕ → Bytes → ℕ → Manager → Manager
sweep_one now id p m = if is_expired now (m.heap p) then destroy_locked id m else m

-- The loop of `Sweep` over the entries that are visited.
unfoldable pub sweep_over : ℕ → List (Bytes × ℕ) → Manager → Manager
sweep_over now [] m = m
sweep_over now ((id, p) ∷ rest) m = sweep_over now rest (sweep_one now id p m)

unfoldable pub sweep : ℕ → Manager → Manager
sweep now m = sweep_over now m.sessions m

-- What the goroutine of `StartSweeper` receives: a tick, with the clock's time, or the context's end.
pub data SweeperEvent : Type 0 where
  ticks : ℕ → SweeperEvent
  context_ends : SweeperEvent

-- `StartSweeper`, over what it receives.
unfoldable pub start_sweeper : List SweeperEvent → Manager → Manager
unfolding sweep
start_sweeper [] m = m
start_sweeper (ticks now ∷ events) m = start_sweeper events (sweep now m)
start_sweeper (context_ends ∷ events) m = m
