-- ===== src/Session/Validity.antt =====
-- When a manager is in good order.
pub mod Updates
pub mod Operations
use deepseek_project.Base.{
  ℕ, ◌<◌, ◌≤◌, ◌≡◌, ◌≢◌, ◌⊎◌, Bytes, [], true, some, none, length, find, IsMap,
}
use deepseek_project.Protocol.Types.{waiting, approved, active, destroyed}
use deepseek_project.Provider.Settings.{valid, zero_settings}
use deepseek_project.Session.Types.{Session, Manager}

-- A session that the maps hold.
pub record IsSound (s : Session) : Type 0 where
  pub alive : s.state ≢ destroyed
  -- no controller before approval, and one from then on
  pub uncontrolled : s.state ≡ waiting → s.control_token ≡ []
  pub controlled : s.state ≢ waiting → s.control_token ≢ []
  pub settled : s.state ≢ waiting → valid s.settings ≡ true
  -- no prompt before approval
  pub silent : s.state ≡ waiting → s.history ≡ []
  pub keyless : s.api_key ≡ []

-- A session that the maps no longer hold.
pub record IsWiped (s : Session) : Type 0 where
  pub state : s.state ≡ destroyed
  pub pair_token : s.pair_token ≡ []
  pub pair_code : s.pair_code ≡ []
  pub history : s.history ≡ []
  pub api_key : s.api_key ≡ []
  pub control_token : s.control_token ≡ []
  pub settings : s.settings ≡ zero_settings
  pub gen_cancel : s.gen_cancel ≡ none

-- `p` is the session that the map has under its own identifier.
abbrev pub IsLive : Manager → ℕ → Type 0
IsLive m p = find (m.heap p).id m.sessions ≡ some p

pub record IsValid (m : Manager) : Type 0 where
  pub named : (id : Bytes) (p : ℕ) → find id m.sessions ≡ some p → (m.heap p).id ≡ id
  pub stored : (id : Bytes) (p : ℕ) → find id m.sessions ≡ some p → p < m.next
  pub sound : (id : Bytes) (p : ℕ) → find id m.sessions ≡ some p → IsSound (m.heap p)
  pub coded :
      (code : Bytes) (p : ℕ)
      → find code m.by_pair_code ≡ some p
      → ((m.heap p).pair_code ≡ code) × IsLive m p
  pub keyed : IsMap m.sessions
  pub code_keyed : IsMap m.by_pair_code
  pub bounded : length m.sessions ≤ m.cfg.max_sessions
  -- nothing of a session survives outside the map
  pub erased : (p : ℕ) → p < m.next → IsLive m p ⊎ IsWiped (m.heap p)
