-- ===== src/Client/Repl/Laws.antt =====
-- How a chat ends, and how often the client cancels.
use deepseek_project.Client.Repl.Kept.{IsKept, react-IsKept, swapped_of}
use deepseek_project.Client.Repl.Counts.{
  closings, asked, cancellations, closings-append, asked-append,
}
use deepseek_project.Base.{
  ℕ, suc, ◌+◌, ◌≡◌, ◌≤◌, ◌<◌, refl, Bytes, Option, true, Result, ok, arith, ◌∙◌,
}
use deepseek_project.Protocol.Types.{SessionCreateResponse, SessionStatusResponse}
use deepseek_project.Client.Repl.{
  cancels, closes, at_prompt, starting, over, Chat, Event, interrupt, swaps, cancelling,
  context_done, sees_quit, end_of_input, begins, line, delta, finished, failed, teardown,
  start_prompt, begin_prompt, end_prompt, fail_prompt, take_line, handle_interrupt, swap_flag,
  call_cancel, enabled, react, Chats, here, next, after_wait,
}

-- The session is closed when the chat is over and not before, each prompt that has begun has its number,
-- and each of them, and nothing else, is cancelled once at most.
pub record IsTidy (c : Chat) : Type 0 where
  pub closed_at_end : closings c.calls ≡ (elim c.phase [ over ↦ 1 | _ ↦ 0 ])
  pub numbered : asked c.calls + (elim c.phase [ starting content ↦ 1 | _ ↦ 0 ]) ≡ c.number
  pub cancelled_once : (n : ℕ) → cancellations n c.calls ≤ 1
  pub of_prompts : (n : ℕ) → c.number < n → cancellations n c.calls ≡ 0
  pub not_before : cancellations 0 c.calls ≡ 0

kept-IsTidy : (c : Chat) → IsKept c → IsTidy c
kept-IsTidy c k = record {
  closed_at_end = k.closed;
  numbered = k.numbered;
  cancelled_once = λ n. omega (arith, k.once n);
  of_prompts = λ n h. omega (arith, k.later n h);
  not_before = omega (arith, k.none_before);
}

Chats-IsKept : {c d : Chat} → IsKept c → Chats c d → IsKept d
Chats-IsKept k here = k
Chats-IsKept k (next {d = d} r e h) = react-IsKept e d h (Chats-IsKept k r)

-- Whatever the user, the context and the gateway do after the approval, and however the two goroutines
-- take turns: the session is closed exactly when the chat ends, exactly once; the prompts are numbered
-- as they begin; and for each of them, and for nothing else, `Cancel` is called once at most. (A call
-- is for the prompt whose flag `cancelled` its interrupt has set.)
pub chat-IsTidy :
    (sess : SessionCreateResponse) (qr : Option (Result Bytes Bytes)) (st : SessionStatusResponse)
    (c : Chat)
    → Chats (after_wait sess qr (ok st)) c
    → IsTidy c
unfolding after_wait
chat-IsTidy sess qr st c r = kept-IsTidy c (
    Chats-IsKept
      (record {
        closed = refl;
        numbered = refl;
        once = λ n. omega arith;
        later = λ n h. refl;
        free = λ h. refl;
        none_before = refl;
        begun = tt;
        heard = tt;
      })
      r)

-- What the loop has done, at the end.
record IsOver (c d : Chat) : Type 0 where
  still : d.phase ≡ over
  asks : asked d.calls ≡ asked c.calls
  closes_once : closings d.calls ≡ closings c.calls

react-over : (e : Event) (c : Chat) → enabled e c ≡ true → c.phase ≡ over → IsOver c (react e c)
unfolding handle_interrupt swap_flag call_cancel
react-over interrupt c h o = ground arith
react-over swaps c h o = ground arith
react-over cancelling c h o =
    let (m, e) = swapped_of c.listener h in
    ground (arith, e, asked-append c.calls (cancels m), closings-append c.calls (cancels m))
react-over context_done c h o = ground arith
react-over sees_quit c h o = absurd (ground arith)
react-over end_of_input c h o = absurd (ground arith)
react-over begins c h o = absurd (ground arith)
react-over (line text) c h o = absurd (ground arith)
react-over (delta text) c h o = absurd (ground arith)
react-over (finished reason) c h o = absurd (ground arith)
react-over (failed words) c h o = absurd (ground arith)

Chats-over : {c d : Chat} → c.phase ≡ over → Chats c d → IsOver c d
Chats-over {c} o here = record { still = o; asks = refl; closes_once = refl }
Chats-over {c} o (next {d = d} r e h) =
    let before = Chats-over o r in
    let after = react-over e d h before.still in
    record {
      still = after.still;
      asks = after.asks ∙ before.asks;
      closes_once = after.closes_once ∙ before.closes_once;
    }

react-quit : (e : Event) (c : Chat) → c.quit ≡ true → (react e c).quit ≡ true
unfolding handle_interrupt swap_flag call_cancel teardown take_line start_prompt begin_prompt
    end_prompt fail_prompt
react-quit interrupt c q = ground arith
react-quit swaps c q = ground arith
react-quit cancelling c q = ground arith
react-quit context_done c q = refl
react-quit sees_quit c q = q
react-quit end_of_input c q = q
react-quit begins c q = ground arith
react-quit (line text) c q = ground arith
react-quit (delta text) c q = q
react-quit (finished reason) c q = ground arith
react-quit (failed words) c q = q

Chats-quit : {c d : Chat} → c.quit ≡ true → Chats c d → d.quit ≡ true
Chats-quit q here = q
Chats-quit q (next {d = d} r e h) = react-quit e d (Chats-quit q r)

-- After an interrupt at the prompt: whenever the loop stands at the prompt, it can see that the chat is to
-- end. Once it has seen it, then whatever happens, also to interrupts that are still handled, the
-- chat stays over, no further prompt is sent, and the session is closed by exactly one more call. (A
-- line that is there already may be taken first.)
pub interrupt_ends :
    (c d e : Chat)
    → c.phase ≡ at_prompt
    → Chats (react interrupt c) d
    → d.phase ≡ at_prompt
    → Chats (react sees_quit d) e
    → (enabled sees_quit d ≡ true)
      × (e.phase ≡ over)
      × (asked e.calls ≡ asked d.calls)
      × (closings e.calls ≡ suc (closings d.calls))
interrupt_ends c d e at r here_again s =
    let q = Chats-quit {c = react interrupt c} (unfold handle_interrupt in ground arith) r in
    let o = Chats-over {c = react sees_quit d} (unfold teardown in refl) s in
    (
      ground arith,
      o.still,
      unfold teardown in omega (arith, o.asks, asked-append d.calls closes),
      unfold teardown in omega (arith, o.closes_once, closings-append d.calls closes),
    )
