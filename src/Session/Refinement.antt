-- ===== src/Session/Refinement.antt =====
-- An abstract view of the manager of internal/session/manager.go, without pointers and without the
-- map of pairing codes: a partial function from identifiers to sessions. Each call has a meaning
-- there, a relation between the views before and after it.
pub mod Views
pub mod Calls
use deepseek_project.Provider.{Message}
use deepseek_project.Base.{
  ℕ, ◌+◌, ◌≡◌, ◌⊎◌, Bytes, Bytes-discrete, text_eq, List, [], ◌∷◌, Option, none, some, Bool, not,
  ◌&&◌, ◌||◌, if◌then◌else◌, ltb, ite, ok, err, Result, ◌++◌, codes,
}
use deepseek_project.Base.Options.{◌>>=◌}
use deepseek_project.Crypto.{RandError, new_token}
use deepseek_project.Protocol.Types.{waiting, approved, state_eq, active}
use deepseek_project.Provider.Settings.{GenerationSettings, valid}
use deepseek_project.Session.Types.{Session, SessionError, Config}
use deepseek_project.Session.Create.{Draws, fresh_session}
use deepseek_project.Session.Prompt.{remove_last_user, with_cancel}
use deepseek_project.Session.Destroy.{is_expired}
use deepseek_project.Session.Trace.{
  Call, creates, approves_token, approves_code, ends, prepares, finishes, fails, cancels, destroys,
  sets_cancel, sweeps,
}

abbrev pub View : Type 0
View = Bytes → Option Session

-- One session of the view is replaced or removed, or stays absent.
unfoldable pub change : Bytes → (Session → Option Session) → View → View
change id f a j = ite (Bytes-discrete id j) (a j >>= f) (a j)

-- A session is entered under its identifier.
unfoldable pub enter : Session → View → View
enter s a j = ite (Bytes-discrete s.id j) (some s) (a j)

-- What the calls mean for the one session that they name, written out here: what a prompt, its answer and
-- its failure leave.
abbrev asked : Bytes → ℕ → Session → Session
asked content deadline s = record s {
  history = s.history ++ record { role = codes "user"; content = content } ∷ [];
  state = active;
  idle_deadline = deadline;
}

-- An answer without a text is not remembered.
abbrev pub reply_of : Bytes → List Message
reply_of [] = []
reply_of (c ∷ text) = record { role = codes "assistant"; content = c ∷ text } ∷ []

abbrev pub answered : Bytes → ℕ → Session → Session
answered text deadline s = record s {
  history = s.history ++ reply_of text;
  state = approved;
  idle_deadline = deadline;
  gen_cancel = none;
}

abbrev pub withdrawn : ℕ → Session → Session
withdrawn deadline s = record s {
  history = remove_last_user s.history;
  state = approved;
  idle_deadline = deadline;
  gen_cancel = none;
}

abbrev pub told : Bytes → ℕ → Session → Option Session
told content deadline s = some (if state_eq s.state approved then asked content deadline s else s)

abbrev pub released : Session → Option Session
released s = elim s.gen_cancel [ none ↦ some s | some g ↦ some (with_cancel none s) ]

abbrev pub left_by : Bytes → Session → Option Session
left_by token s = if text_eq token [] || not (text_eq s.control_token token) then some s else none

abbrev pub kept : ℕ → Session → Option Session
kept now s = if is_expired now s then none else some s

abbrev pub paired : GenerationSettings → Option (List ℕ) → ℕ → Session → Option Session
paired settings draw now s =
    if not (ltb s.pair_expiry now) && state_eq s.state waiting && valid settings
    then (elim (new_token draw) [
      | ok tok ↦ some (record s { control_token = tok; settings = settings; state = approved })
      | err e ↦ some s
    ])
    else some s

-- The views agree.
infix 50 ◌≗◌
abbrev pub ◌≗◌ : View → View → Type 0
a ≗ b = (j : Bytes) → a j ≡ b j

abbrev Entered : Result SessionError Session → View → View → Type 0
Entered (ok s) a b = (b ≗ a) ⊎ ((a s.id ≡ none) × (b ≗ enter s a))
Entered (err e) a b = b ≗ a

-- Some session of the view with the credential is the one that is paired. A creation may be refused
-- for want of room. A pairing code that two sessions have shared may lead nowhere.
abbrev pub Means : ℕ → Config → Call → View → View → Type 0
Means now cfg (creates d) a b = Entered (fresh_session d now cfg) a b
Means now cfg (approves_token token settings draw) a b =
    ((b ≗ a) × ((id : Bytes) (s : Session) → a id ≡ some s → ¬ (s.pair_token ≡ token)))
    ⊎ ((id : Bytes) × (s : Session) × (a id ≡ some s)
        × (s.pair_token ≡ token)
        × (b ≗ change id (paired settings draw now) a))
Means now cfg (approves_code code settings draw) a b =
    (b ≗ a)
    ⊎ ((id : Bytes) × (s : Session) × (a id ≡ some s)
        × (s.pair_code ≡ code)
        × (b ≗ change id (paired settings draw now) a))
Means now cfg (ends id token) a b = b ≗ change id (left_by token) a
Means now cfg (prepares id content) a b = b ≗ change id (told content (now + cfg.idle_timeout)) a
Means now cfg (finishes id text reason) a b =
    b ≗ change id (λ s. some (answered text (now + cfg.idle_timeout) s)) a
Means now cfg (fails id) a b = b ≗ change id (λ s. some (withdrawn (now + cfg.idle_timeout) s)) a
Means now cfg (cancels id) a b = b ≗ change id released a
Means now cfg (destroys id) a b = b ≗ change id (λ s. none) a
Means now cfg (sets_cancel id g) a b = b ≗ change id (λ s. some (with_cancel (some g) s)) a
Means now cfg sweeps a b = b ≗ (λ j. a j >>= kept now)

-- Histories of views.
pub data Runs (cfg : Config) (a : View) : View → Type 0 where
  start : Runs cfg a a
  then_call :
      {b c : View} → Runs cfg a b → (now : ℕ) (call : Call) → Means now cfg call b c → Runs cfg a c
