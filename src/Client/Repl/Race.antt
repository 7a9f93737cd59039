-- ===== src/Client/Repl/Race.antt =====
-- internal/client/cli.go: how the goroutine for interrupts and `doPrompt` can take turns.
use deepseek_project.Base.{
  ℕ, suc, ◌≡◌, ◌≢◌, Bytes, codes, List, [], ◌∷◌, ◌++◌, false, arith, append_assoc, ap, ◌∙◌,
}
use deepseek_project.Client.Repl.{
  prompts, cancels, at_prompt, starting, streaming, selecting, loaded, swapped, Chat, interrupt,
  swaps, cancelling, begins, line, finished, start_prompt, begin_prompt, end_prompt, take_line,
  handle_interrupt, swap_flag, call_cancel, react, Chats, here, next, ClientCall,
}

-- The chat after the prompt's end, a line and its two stores.
abbrev asked_next : Bytes → Bytes → Chat → Chat
asked_next reason text c = react begins (react (line text) (react (finished reason) c))

abbrev pub cancelled_late : Bytes → Bytes → Chat → Chat
cancelled_late reason text c =
    react cancelling (react swaps (react interrupt (react cancelling (asked_next reason text c))))

ended_state :
    (reason : Bytes) (c : Chat)
    → let d = react (finished reason) c in
      (d.phase ≡ at_prompt)
      × (d.listener ≡ c.listener)
      × (d.number ≡ c.number)
      × (d.calls ≡ c.calls)
unfolding end_prompt
ended_state reason c = ground arith

line_state :
    (text : Bytes) (c : Chat)
    → text ≢ []
    → text ≢ codes "/exit"
    → let d = react (line text) c in
      (d.phase ≡ starting text)
      × (d.listener ≡ c.listener)
      × (d.number ≡ suc c.number)
      × (d.stop ≡ false)
      × (d.calls ≡ c.calls)
unfolding take_line start_prompt
line_state text c n e = ground arith

begins_state :
    (text : Bytes) (c : Chat)
    → c.phase ≡ starting text
    → let d = react begins c in
      (d.phase ≡ streaming)
      × (d.listener ≡ c.listener)
      × (d.number ≡ c.number)
      × (d.stop ≡ c.stop)
      × (d.calls ≡ c.calls ++ prompts text ∷ [])
unfolding begin_prompt
begins_state text c e = ground arith

cancel_state :
    (n : ℕ) (c : Chat)
    → c.listener ≡ swapped n
    → let d = react cancelling c in
      (d.phase ≡ c.phase)
      × (d.listener ≡ selecting)
      × (d.number ≡ c.number)
      × (d.stop ≡ c.stop)
      × (d.calls ≡ c.calls ++ cancels n ∷ [])
unfolding call_cancel
cancel_state n c e = ground arith

again_state :
    (c : Chat)
    → c.phase ≡ streaming
    → c.stop ≡ false
    → let d = react swaps (react interrupt c) in
      (d.listener ≡ swapped c.number)
      × (d.calls ≡ c.calls)
      × ((react interrupt c).listener ≡ loaded)
unfolding handle_interrupt swap_flag
again_state c e s = ground arith

joined :
    (calls : List ClientCall) (x y z : ClientCall)
    → ((calls ++ x ∷ []) ++ y ∷ []) ++ z ∷ [] ≡ calls ++ x ∷ y ∷ z ∷ []
joined calls x y z = simp (append_assoc)

-- A cancellation that is late can fall on the next prompt: in a chat that is in a prompt, where an interrupt
-- has set the flag and `Cancel` has not been called yet, the prompt can end and a further line be sent
-- before that call; the call then stands behind the new prompt, and a further interrupt calls
-- `Cancel` for it once more. (The line is neither empty nor "/exit".)
pub cancelled_twice :
    (c : Chat) (n : ℕ) (reason text : Bytes)
    → c.phase ≡ streaming
    → c.listener ≡ swapped n
    → text ≢ []
    → text ≢ codes "/exit"
    → Chats c (cancelled_late reason text c)
      × ((cancelled_late reason text c).calls
          ≡ c.calls ++ prompts text ∷ cancels n ∷ cancels (suc c.number) ∷ [])
cancelled_twice c n reason text e l filled stays =
    let c1 = react (finished reason) c in
    let c2 = react (line text) c1 in
    let c3 = react begins c2 in
    let c4 = react cancelling c3 in
    let s1 = ended_state reason c in
    let s2 = line_state text c1 filled stays in
    let s3 = begins_state text c2 s2.0 in
    let s4 = cancel_state n c3 (s3.1 ∙ s2.1 ∙ s1.1 ∙ l) in
    let s5 = again_state c4 (s4.0 ∙ s3.0) (s4.3 ∙ s3.3 ∙ s2.3) in
    let s6 = cancel_state c4.number (react swaps (react interrupt c4)) s5.0 in
    let number = s4.2 ∙ s3.2 ∙ s2.2 ∙ ap suc s1.2 in
    let asks = s3.4 ∙ ap (λ x. x ++ prompts text ∷ []) (s2.4 ∙ s1.3) in
    let once = s5.1 ∙ s4.4 ∙ ap (λ x. x ++ cancels n ∷ []) asks in
    (
      next
          (next
            (next
              (next
                (next
                  (next (next here (finished reason) (ground (arith, e))) (line text)
                    (ground (arith, s1.0)))
                  begins (ground (arith, s2.0)))
                cancelling (ground (arith, s3.1, s2.1, s1.1, l)))
              interrupt (ground (arith, s4.1)))
            swaps (ground (arith, s5.2)))
          cancelling (ground (arith, s5.0)),
      s6.4
          ∙ ap (λ x. x ++ cancels c4.number ∷ []) once
          ∙ ap (λ m. ((c.calls ++ prompts text ∷ []) ++ cancels n ∷ []) ++ cancels m ∷ []) number
          ∙ joined c.calls (prompts text) (cancels n) (cancels (suc c.number)),
    )
