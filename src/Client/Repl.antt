-- ===== src/Client/Repl.antt =====
-- internal/client/cli.go: `REPL`. The run is a sequence of events: what the terminal's line reader, the
-- interrupts, the context and the gateway bring, and the steps of the two goroutines that read and
-- write the same atomic variables, in the order in which they happen. The calls of the client and the
-- output are recorded.
pub mod Words
pub mod Counts
pub mod Kept
pub mod Laws
pub mod Race
use deepseek_project.Client.Repl.Words.{newline, instructions, wait_words, greeting}
use deepseek_project.Base.{
  ℕ, zero, suc, ◌*◌, ◌+◌, Bytes, codes, text_eq, List, [], ◌∷◌, ◌++◌, Option, none, some, Bool,
  true, false, not, ◌&&◌, ◌||◌, if◌then◌else◌, ◌==◌, Result, ok, err, trim_space, ◌≡◌,
}
use deepseek_project.Crypto.{format_d}
use deepseek_project.Protocol.Types.{SessionCreateResponse, SessionStatusResponse}
use deepseek_project.Client.{
  WaitError, cancelled, cancelled_by_user, session_destroyed, pairing_expired,
  format_effective_settings,
}

-- A call of the client for the session. A cancellation is recorded with the number of the prompt whose
-- flag `cancelled` it has set.
pub data ClientCall : Type 0 where
  prompts : Bytes → ClientCall
  cancels : ℕ → ClientCall
  closes : ClientCall

-- Where the chat loop is: at the prompt, between the two stores of `doPrompt` (with the line), in
-- `doPrompt` until the last store, or at its end.
pub data Phase : Type 0 where
  at_prompt streaming over : Phase
  starting : Bytes → Phase

-- Where the goroutine for interrupts is: at its `select`, after the load of `streaming` as true, after the
-- swap that has set the flag (with the number of the prompt), or returned.
pub data Listener : Type 0 where
  selecting loaded returned : Listener
  swapped : ℕ → Listener

-- `quit` says that the channel is closed, `stop` is the atomic flag `cancelled`; the atomic flag
-- `streaming` is set in the phase of that name. `number` counts the prompts that have begun.
pub record Chat : Type 0 where
  pub phase : Phase
  pub listener : Listener
  pub number : ℕ
  pub stop : Bool
  pub quit : Bool
  pub calls : List ClientCall
  pub out : Bytes

-- What happens next. The first four are steps of the goroutine that handles interrupts: it receives an
-- interrupt and loads `streaming`, swaps the flag, calls `Cancel`, or finds the context done. The
-- others are steps of the chat loop: it finds the channel `quit` closed, a line, the end of the input,
-- sets `streaming` and calls `Prompt`, or finds that `Prompt` has shown a delta or has returned, with
-- the finish reason or the words of the error.
pub data Event : Type 0 where
  interrupt swaps cancelling context_done : Event
  sees_quit end_of_input begins : Event
  line : Bytes → Event
  delta : Bytes → Event
  finished : Bytes → Event
  failed : Bytes → Event

abbrev say : Bytes → Chat → Chat
say text c = record c { out = c.out ++ text }

-- `fmt.Fprintln(r.out, text)`
abbrev println : Bytes → Chat → Chat
println text c = say (text ++ newline) c

abbrev call : ClientCall → Chat → Chat
call x c = record c { calls = c.calls ++ x ∷ [] }

-- `teardown`, and the return from `Run`.
unfoldable pub teardown : Chat → Chat
teardown c = println (codes "Session destroyed.") (call closes (record c { phase = over }))

-- The next round of the loop.
abbrev pub next_round : Chat → Chat
next_round c = say (codes "You > ") (record c { phase = at_prompt })

-- The first store of `doPrompt`.
unfoldable pub start_prompt : Bytes → Chat → Chat
start_prompt content c = record c { phase = starting content; stop = false; number = suc c.number }

-- The second store, and `doPrompt` up to the call of `Prompt`.
unfoldable pub begin_prompt : Bytes → Chat → Chat
begin_prompt content c =
    call (prompts content) (say (codes "DeepSeek > ") (record c { phase = streaming }))

-- The rest of `doPrompt`.
unfoldable pub end_prompt : Bytes → Chat → Chat
end_prompt finish c =
    let shown = println [] c in
    next_round
      (if text_eq finish (codes "cancelled") then println (codes "[cancelled]") shown else shown)

unfoldable pub fail_prompt : Bytes → Chat → Chat
fail_prompt words c = next_round (println (newline ++ (codes "Error: " ++ words)) c)

-- The switch on a line.
unfoldable pub take_line : Bytes → Chat → Chat
unfolding teardown start_prompt
take_line text c =
    if text_eq text (codes "/exit")
    then teardown c
    else (if text_eq text [] then next_round c else start_prompt text c)

-- The goroutine that handles an interrupt: `streaming.Load()`.
unfoldable pub handle_interrupt : Chat → Chat
handle_interrupt c = elim c.phase [
  | streaming ↦ record c { listener = loaded }
  | _ ↦ record c { quit = true }
]

-- `cancelled.Swap(true)`
unfoldable pub swap_flag : Chat → Chat
swap_flag c =
    if c.stop
    then record c { listener = selecting }
    else record c { listener = swapped c.number; stop = true }

-- The call of `Cancel`.
unfoldable pub call_cancel : Chat → Chat
call_cancel c = elim c.listener [
  | swapped n ↦ call (cancels n) (record c { listener = selecting })
  | _ ↦ c
]

-- The step `begins`.
abbrev pub begin_from : Phase → Chat → Chat
begin_from (starting content) c = begin_prompt content c
begin_from _ c = c

-- When an event can happen: the loop receives only where it waits for it.
abbrev pub enabled : Event → Chat → Bool
enabled interrupt c = elim c.listener [ selecting ↦ true | _ ↦ false ]
enabled swaps c = elim c.listener [ loaded ↦ true | _ ↦ false ]
enabled cancelling c = elim c.listener [ swapped n ↦ true | _ ↦ false ]
enabled context_done c = elim c.listener [ selecting ↦ true | _ ↦ false ]
enabled sees_quit c = elim c.phase [ at_prompt ↦ c.quit | _ ↦ false ]
enabled end_of_input c = elim c.phase [ at_prompt ↦ true | _ ↦ false ]
enabled begins c = elim c.phase [ starting content ↦ true | _ ↦ false ]
enabled (line text) c = elim c.phase [ at_prompt ↦ true | _ ↦ false ]
enabled (delta text) c = elim c.phase [ streaming ↦ true | _ ↦ false ]
enabled (finished reason) c = elim c.phase [ streaming ↦ true | _ ↦ false ]
enabled (failed words) c = elim c.phase [ streaming ↦ true | _ ↦ false ]

abbrev pub react : Event → Chat → Chat
react interrupt c = handle_interrupt c
react swaps c = swap_flag c
react cancelling c = call_cancel c
react context_done c = record c { quit = true; listener = returned }
react sees_quit c = teardown c
react end_of_input c = teardown c
react begins c = begin_from c.phase c
react (line text) c = take_line text c
react (delta text) c = say text c
react (finished reason) c = end_prompt reason c
react (failed words) c = fail_prompt words c

pub data Chats (c : Chat) : Chat → Type 0 where
  here : Chats c c
  next : {d : Chat} → Chats c d → (e : Event) → enabled e d ≡ true → Chats c (react e d)

-- `Run` after the wait: the chat begins, or the session is closed and the error returned.
unfoldable pub after_wait :
    SessionCreateResponse
    → Option (Result Bytes Bytes)
    → Result WaitError SessionStatusResponse
    → Chat
unfolding instructions wait_words greeting
after_wait sess qr (err e) = record {
  phase = over;
  listener = returned;
  number = 0;
  stop = false;
  quit = false;
  calls = closes ∷ [];
  out =
      instructions sess qr
      ++ (newline ++ (wait_words e ++ (newline ++ (codes "Session destroyed." ++ newline))));
}
after_wait sess qr (ok st) = next_round (record {
  phase = at_prompt;
  listener = selecting;
  number = 0;
  stop = false;
  quit = false;
  calls = [];
  out = instructions sess qr ++ greeting st;
})

-- `readLines`: the lines that are sent, until the channel is closed.
abbrev last_line : Bytes → List Bytes
last_line [] = []
last_line (c ∷ s) = trim_space (c ∷ s) ∷ []

unfoldable pub read_lines : Bytes → Bytes → List Bytes
unfolding trim_space
read_lines read [] = last_line read
read_lines read (c ∷ input) = elim (c == 10) [
  | true ↦ trim_space (read ++ c ∷ []) ∷ read_lines [] input
  | false ↦ read_lines (read ++ c ∷ []) input
]
