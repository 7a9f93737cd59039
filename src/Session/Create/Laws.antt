-- ===== src/Session/Create/Laws.antt =====
-- When a session is created, and how it is reached.
use deepseek_project.Base.{
  ℕ, suc, ◌+◌, ◌<◌, ◌≡◌, ◌≢◌, ◌↔◌, inl, inr, Bytes, [], none, some, true, find, update, arith,
  Result-cases, ok, err, is_ok, find-put, length, length-put_fresh, leb, if◌then◌else◌,
}
use deepseek_project.Crypto.{new_id, new_token, new_pair_code}
use deepseek_project.Protocol.Types.{waiting}
use deepseek_project.Session.Types.{Session, Manager, SessionError, max_sessions}
use deepseek_project.Session.Create.{
  Draws, fresh_session, insert_session, create, status, session_history, control_token, Config,
}
use deepseek_project.Session.Validity.Operations.{IsUnused, fresh_session-id}

-- A session is created exactly when there is room and the generator delivers all three values.
pub create_iff :
    (d : Draws) (now : ℕ) (m : Manager)
    → (is_ok (create d now m).1 ≡ true) ↔ (
        (length m.sessions < m.cfg.max_sessions)
        × (d.id ≢ none)
        × (d.token ≢ none)
        × (d.code ≢ none))
unfolding create fresh_session new_id new_token new_pair_code
create_iff d now m = ground arith

fresh_session-random :
    (d : Draws) (now : ℕ) (cfg : Config) (e : SessionError)
    → fresh_session d now cfg ≡ err e
    → e ≡ SessionError.random
unfolding fresh_session
fresh_session-random d now cfg e h = ground arith

-- A creation that fails changes nothing; it says that there is no room exactly where there is none, and
-- otherwise that the generator has failed.
pub create_failed :
    (d : Draws) (now : ℕ) (m : Manager) (e : SessionError)
    → (create d now m).1 ≡ err e
    → ((create d now m).0 ≡ m)
      × (e ≡ (
          if leb m.cfg.max_sessions (length m.sessions) then max_sessions else SessionError.random))
unfolding create
create_failed d now m e h = elim (Result-cases (fresh_session d now m.cfg)) [
  | inl (s, f) ↦ ground arith
  | inr (x, f) ↦ ground (arith, fresh_session-random d now m.cfg x f)
]

-- The new session `s` under its pointer `p`, from the manager `m` before to `k` after.
pub record IsCreated (d : Draws) (now : ℕ) (m k : Manager) (p : ℕ) : Type 0 where
  pub id : Bytes
  pub drawn : new_id d.id ≡ ok id
  pub token : new_token d.token ≡ ok (k.heap p).pair_token
  pub code : new_pair_code d.code ≡ ok (k.heap p).pair_code
  pub named : (k.heap p).id ≡ id
  pub by_id : find id k.sessions ≡ some p
  pub by_code : find (k.heap p).pair_code k.by_pair_code ≡ some p
  pub pending : (k.heap p).state ≡ waiting
  pub waits : status id k ≡ ok waiting
  pub silent : session_history id k ≡ []
  pub no_control : control_token id k ≡ ok []
  pub expires : (k.heap p).pair_expiry ≡ now + m.cfg.pair_timeout
  pub idles : (k.heap p).idle_deadline ≡ now + m.cfg.idle_timeout
  pub counted : length k.sessions ≡ suc (length m.sessions)
  pub entries : (j : Bytes) → j ≢ id → find j k.sessions ≡ find j m.sessions
  pub memory : (q : ℕ) → q ≢ p → k.heap q ≡ m.heap q

insert_session-IsCreated :
    (d : Draws) (now : ℕ) (m : Manager) (s : Session)
    → fresh_session d now m.cfg ≡ ok s
    → find s.id m.sessions ≡ none
    → IsCreated d now m (insert_session s m) m.next
unfolding insert_session update fresh_session status session_history control_token
insert_session-IsCreated d now m s e f = record {
  id = s.id;
  drawn = ground arith;
  token = ground arith;
  code = ground arith;
  named = ground arith;
  by_id = ground (arith, find-put s.id s.id m.next m.sessions);
  by_code = ground (arith, find-put s.pair_code s.pair_code m.next m.by_pair_code);
  pending = ground arith;
  waits = ground (arith, find-put s.id s.id m.next m.sessions);
  silent = ground (arith, find-put s.id s.id m.next m.sessions);
  no_control = ground (arith, find-put s.id s.id m.next m.sessions);
  expires = ground arith;
  idles = ground arith;
  counted = length-put_fresh s.id m.next m.sessions f;
  entries = λ j n. ground (arith, find-put s.id j m.next m.sessions);
  memory = λ q n. ground arith;
}

-- A session that is created, under an identifier that is unused, waits for its approval, without a controller and with an empty history,
-- is found by its identifier and by its code, has the deadlines that the configuration sets, and
-- leaves every other session as it was.
pub create-IsCreated :
    (d : Draws) (now : ℕ) (m : Manager) (p : ℕ)
    → IsUnused m d
    → (create d now m).1 ≡ ok p
    → IsCreated d now m (create d now m).0 p
unfolding create
create-IsCreated d now m p unused h = elim (Result-cases (fresh_session d now m.cfg)) [
  | inl (s, e) ↦
      ground (
        arith,
        insert_session-IsCreated d now m s e (unused s.id (fresh_session-id d now m.cfg s e)),
      )
  | inr (x, e) ↦ ground arith
]
