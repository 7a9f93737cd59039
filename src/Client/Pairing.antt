-- ===== src/Client/Pairing.antt =====
-- How long the terminal waits for its approval.
use deepseek_project.Base.{
  ℕ, ◌+◌, ◌*◌, ◌≤◌, ◌≡◌, ◌≢◌, refl, Bytes, codes, List, [], ◌∷◌, ◌++◌, Option, none, some, arith,
  All, Result, ok, err, ap, ◌∙◌, ◌<◌,
}
use deepseek_project.Protocol.Types.{
  approved, destroyed, SessionCreateResponse, SessionStatusResponse,
}
use deepseek_project.Protocol.PairCode.{
  AreDigits, format_pair_code, normalize_pair_code, normalize-format_of_AreDigits,
}
use deepseek_project.Session.Types.{second}
use deepseek_project.Client.{
  Signal, tick, interrupt, WaitError, pairing_expired, wait_loop, wait_approved,
  pairing_payload_string, session_destroyed,
}
use deepseek_project.Client.{done as context_done}

-- A tick in time that decides nothing: the gateway does not answer, or the session waits (or answers a
-- prompt already).
abbrev pub Undecided : ℕ → Signal → Type 0
Undecided deadline (tick none now) = now ≤ deadline
Undecided deadline (tick (some st) now) =
    (now ≤ deadline) × (st.state ≢ approved) × (st.state ≢ destroyed)
Undecided deadline _ = ⊥

wait-Undecided :
    (deadline : ℕ) (before after : List Signal)
    → All (Undecided deadline) before
    → wait_loop deadline (before ++ after) ≡ wait_loop deadline after
unfolding wait_loop
wait-Undecided deadline [] after h = refl
wait-Undecided deadline (tick none now ∷ before) after h =
    ground (arith, wait-Undecided deadline before after h.1)
wait-Undecided deadline (tick (some st) now ∷ before) after h =
    ground (arith, wait-Undecided deadline before after h.1)
wait-Undecided deadline (interrupt ∷ before) after h = absurd h.0
wait-Undecided deadline (context_done ∷ before) after h = absurd h.0

-- How a tick that decides ends the wait.
abbrev pub verdict : Option SessionStatusResponse → Result WaitError SessionStatusResponse
verdict none = err pairing_expired
verdict (some st) = elim st.state [
  | approved ↦ ok st
  | destroyed ↦ err session_destroyed
  | _ ↦ err pairing_expired
]

-- After any ticks in time that decide nothing, the next tick that decides ends the wait: with the session's
-- status if it is approved, as destroyed if it is that, and else, the deadline being over, as expired.
pub wait_approved_first :
    (sess : SessionCreateResponse) (start now : ℕ) (before after : List Signal)
    (reply : Option SessionStatusResponse)
    → All (Undecided (start + sess.expires_in * second)) before
    → ¬ Undecided (start + sess.expires_in * second) (tick reply now)
    → wait_approved sess start (before ++ tick reply now ∷ after) ≡ some (verdict reply)
unfolding wait_approved wait_loop
wait_approved_first sess start now before after none undecided decides =
    wait-Undecided (start + sess.expires_in * second) before (tick none now ∷ after) undecided
    ∙ ground arith
wait_approved_first sess start now before after (some st) undecided decides =
    wait-Undecided (start + sess.expires_in * second) before (tick (some st) now ∷ after) undecided
    ∙ ground arith

-- The payload of the QR code ends with the digits of the pairing code as they were drawn, though the
-- terminal received it in the form for display.
pub pairing_payload_of_code :
    (sess : SessionCreateResponse) (code : Bytes)
    → AreDigits code
    → sess.pairing_code ≡ format_pair_code code
    → pairing_payload_string sess ≡ codes "dsremote://pair?v=1&code=" ++ code
unfolding pairing_payload_string
pairing_payload_of_code sess code digits shown =
    ap (λ c. codes "dsremote://pair?v=1&code=" ++ normalize_pair_code c) shown
    ∙ ap (λ c. codes "dsremote://pair?v=1&code=" ++ c) (normalize-format_of_AreDigits code digits)

wait_loop-ends :
    (deadline now : ℕ) (reply : Option SessionStatusResponse) (before after : List Signal)
    → deadline < now
    → wait_loop deadline (before ++ tick reply now ∷ after) ≢ none
unfolding wait_loop
wait_loop-ends deadline now none [] after late = ground arith
wait_loop-ends deadline now (some st) [] after late = ground arith
wait_loop-ends deadline now reply (tick none then ∷ before) after late =
    ground (arith, wait_loop-ends deadline now reply before after late)
wait_loop-ends deadline now reply (tick (some st) then ∷ before) after late =
    ground (arith, wait_loop-ends deadline now reply before after late)
wait_loop-ends deadline now reply (interrupt ∷ before) after late = λ e. cc
wait_loop-ends deadline now reply (context_done ∷ before) after late = λ e. cc

-- The wait ends: whatever it receives before, and whatever the gateway answers, it is over at the first
-- tick after the deadline, or earlier.
pub wait_approved-ends :
    (sess : SessionCreateResponse) (start now : ℕ) (reply : Option SessionStatusResponse)
    (before after : List Signal)
    → start + sess.expires_in * second < now
    → wait_approved sess start (before ++ tick reply now ∷ after) ≢ none
unfolding wait_approved
wait_approved-ends sess start now reply before after late =
    wait_loop-ends (start + sess.expires_in * second) now reply before after late
