-- ===== src/Client.antt =====
-- internal/client: the terminal's side. transport.go's `Prompt`, qr.go's payload, and of cli.go the wait
-- for the approval and the display of the settings. net/http is a parameter: the status and the body
-- of the answer.
pub mod Status
pub mod Transport
pub mod Requests
pub mod Repl
pub mod Stream
pub mod Pairing
pub mod Exchange
use deepseek_project.Base.{
  ℕ, ◌+◌, ◌*◌, Bytes, codes, text_eq, List, [], ◌∷◌, ◌++◌, Option, none, some, Bool, true, false,
  if◌then◌else◌, ltb, ◌==◌, Result, ok, err, take,
}
use deepseek_project.Crypto.{format_d}
use deepseek_project.Protocol.Types.{
  SessionState, approved, ErrorBody, destroyed, SessionCreateResponse, SessionStatusResponse,
}
use deepseek_project.Protocol.PairCode.{normalize_pair_code}
use deepseek_project.Protocol.Messages.{decode_token, decode_done, decode_error, error_body}
use deepseek_project.Client.Status.{status_text}
use deepseek_project.Protocol.Sse.{Flow, go, stop, read_sse}
use deepseek_project.Session.Types.{second}

-- `stop_reading` is `errStopReading`; `reported` carries the code and the message of an error event or
-- an error body.
pub data PromptError : Type 0 where
  stop_reading bad_event too_long unreadable output_failed : PromptError
  reported : Bytes → Bytes → PromptError

-- An error body has at most 4096 bytes that are read.
unfoldable pub read_error_body : Bytes → ℕ → PromptError
read_error_body body status =
    let b = error_body (take 4096 body) in
    reported (if text_eq b.code [] then codes "http_" ++ format_d status else b.code)
      (if text_eq b.message [] then status_text status else b.message)

-- The variable `finish`, and what the callback `onDelta` has changed.
pub record Reading (S : Type 0) : Type 0 where
  pub finish : Bytes
  pub outside : S

module _ {S : Type 0} (on_delta : Bytes → S → Flow PromptError S) where
  abbrev pub after_delta : Reading S → Flow PromptError S → Flow PromptError (Reading S)
  after_delta r (go s) = go (record r { outside = s })
  after_delta r (stop e s) = stop e (record r { outside = s })

  -- The cases of the callback.
  abbrev pub token_event : Reading S → Option Bytes → Flow PromptError (Reading S)
  token_event r none = stop bad_event r
  token_event r (some delta) = after_delta r (on_delta delta r.outside)

  abbrev pub done_event : Reading S → Option Bytes → Flow PromptError (Reading S)
  done_event r none = stop bad_event r
  done_event r (some reason) = stop stop_reading (record r { finish = reason })

  abbrev pub error_event : Reading S → Option ErrorBody → Flow PromptError (Reading S)
  error_event r none = stop bad_event r
  error_event r (some b) = stop (reported b.code b.message) r

  -- The callback that `Prompt` gives to `ReadSSE`. The callback `onDelta` is not nil.
  unfoldable pub on_event : Bytes → Bytes → Reading S → Flow PromptError (Reading S)
  on_event event json r =
      if text_eq event (codes "token")
      then token_event r (decode_token json)
      else (if text_eq event (codes "done")
          then done_event r (decode_done json)
          else (if text_eq event (codes "error") then error_event r (decode_error json) else go r))

  -- `if errors.Is(err, errStopReading) { err = nil }`
  abbrev pub without_stop : Reading S × Option PromptError → Reading S × Option PromptError
  without_stop (r, some stop_reading) = (r, none)
  without_stop (r, e) = (r, e)

  -- `Prompt` from the answer on: its status, its body and the error that reading it ends with.
  unfoldable pub prompt : ℕ → Bytes → Option PromptError → S → Reading S × Option PromptError
  prompt status body end_error s =
      let start : Reading S = record { finish = []; outside = s } in
      if status == 200
      then without_stop (read_sse on_event too_long end_error body start)
      else (start, some (read_error_body body status))

unfoldable pub pairing_payload_string : SessionCreateResponse → Bytes
pairing_payload_string s = codes "dsremote://pair?v=1&code=" ++ normalize_pair_code s.pairing_code

-- The errors of `waitApproved`.
pub data WaitError : Type 0 where
  cancelled cancelled_by_user session_destroyed pairing_expired : WaitError

-- What one round of the loop receives: the end of the context, an interrupt, or a tick, with the answer to
-- `StatusDetails` (`none` for an error) and the time after it.
pub data Signal : Type 0 where
  done interrupt : Signal
  tick : Option SessionStatusResponse → ℕ → Signal

-- The end of a round without a decisive status; `rest` is the loop that goes on.
abbrev pub unless_expired :
    ℕ
    → ℕ
    → Option (Result WaitError SessionStatusResponse)
    → Option (Result WaitError SessionStatusResponse)
unless_expired deadline now rest = if ltb deadline now then some (err pairing_expired) else rest

abbrev pub judged :
    ℕ
    → Option SessionStatusResponse
    → ℕ
    → Option (Result WaitError SessionStatusResponse)
    → Option (Result WaitError SessionStatusResponse)
judged deadline none now rest = unless_expired deadline now rest
judged deadline (some st) now rest = elim st.state [
  | approved ↦ some (ok st)
  | destroyed ↦ some (err session_destroyed)
  | _ ↦ unless_expired deadline now rest
]

-- The loop of `waitApproved` over what it receives; `none` where it still waits.
unfoldable pub wait_loop : ℕ → List Signal → Option (Result WaitError SessionStatusResponse)
wait_loop deadline [] = none
wait_loop deadline (done ∷ signals) = some (err cancelled)
wait_loop deadline (interrupt ∷ signals) = some (err cancelled_by_user)
wait_loop deadline (tick st now ∷ signals) = judged deadline st now (wait_loop deadline signals)

unfoldable pub wait_approved :
    SessionCreateResponse → ℕ → List Signal → Option (Result WaitError SessionStatusResponse)
wait_approved sess now signals = wait_loop (now + sess.expires_in * second) signals

-- The switch on the effort.
abbrev pub thinking_name : Option Bool → Bytes → Bytes
thinking_name (some true) effort =
    if text_eq effort (codes "low")
    then codes "Low"
    else (if text_eq effort (codes "max") then codes "Max" else codes "High")
thinking_name _ effort = codes "Off"

-- " · Thinking ", whose dot is two bytes.
abbrev pub thinking_label : Bytes
thinking_label = codes " " ++ (0xc2 ∷ 0xb7 ∷ codes " Thinking ")

unfoldable pub format_effective_settings : Option SessionStatusResponse → Bytes
format_effective_settings none = []
format_effective_settings (some st) =
    if text_eq st.model []
    then []
    else ((if text_eq st.model (codes "deepseek-v4-pro")
          then codes "DeepSeek V4 Pro"
          else codes "DeepSeek V4 Flash")
        ++ (thinking_label ++ thinking_name st.thinking_enabled st.reasoning_effort))
