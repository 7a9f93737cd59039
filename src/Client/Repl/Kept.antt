-- ===== src/Client/Repl/Kept.antt =====
-- What every step of the chat keeps.
use deepseek_project.Client.Repl.Counts.{
  closings, asked, cancellations, one_if, closings-append, asked-append, cancellations-append,
}
use deepseek_project.Base.{
  ℕ, suc, ◌+◌, ◌≡◌, ◌≤◌, ◌<◌, refl, Bytes, codes, [], ◌++◌, true, false, arith, if◌then◌else◌,
  subst, ◌⊎◌, inl, inr, Bool, text_eq, sym,
}
use deepseek_project.Client.Repl.{
  prompts, cancels, closes, at_prompt, starting, streaming, over, selecting, loaded, swapped,
  returned, Chat, Event, interrupt, swaps, cancelling, context_done, sees_quit, end_of_input,
  begins, line, delta, finished, failed, teardown, start_prompt, begin_prompt, end_prompt,
  fail_prompt, take_line, handle_interrupt, swap_flag, call_cancel, begin_from, enabled, react,
  next_round, Phase, Listener,
}

-- The cancellations of the prompt `n` that have been or will be called.
abbrev pub taken : ℕ → Chat → ℕ
taken n c = cancellations n c.calls + (elim c.listener [ swapped m ↦ one_if n m | _ ↦ 0 ])

-- A prompt has begun where the loop, and the listener, are in one.
abbrev pub HasBegun : ℕ → Phase → Type 0
HasBegun n (starting content) = 0 < n
HasBegun n streaming = 0 < n
HasBegun n _ = Unit

abbrev pub HasHeard : ℕ → Listener → Type 0
HasHeard n loaded = 0 < n
HasHeard n _ = Unit

-- What the steps keep: a flag that is not set has not been taken.
pub record IsKept (c : Chat) : Type 0 where
  pub closed : closings c.calls ≡ (elim c.phase [ over ↦ 1 | _ ↦ 0 ])
  pub numbered : asked c.calls + (elim c.phase [ starting content ↦ 1 | _ ↦ 0 ]) ≡ c.number
  pub once : (n : ℕ) → taken n c ≤ 1
  pub later : (n : ℕ) → c.number < n → taken n c ≡ 0
  pub free : c.stop ≡ false → taken c.number c ≡ 0
  pub none_before : taken 0 c ≡ 0
  pub begun : HasBegun c.number c.phase
  pub heard : HasHeard c.number c.listener

teardown-IsKept : (c : Chat) → c.phase ≡ at_prompt → IsKept c → IsKept (teardown c)
unfolding teardown
teardown-IsKept c e k = record {
  closed = ground (arith, k.closed, closings-append c.calls closes);
  numbered = ground (arith, k.numbered, asked-append c.calls closes);
  once = λ n. ground (arith, k.once n, cancellations-append n c.calls closes);
  later = λ n h. ground (arith, k.later n h, cancellations-append n c.calls closes);
  free = λ h. ground (arith, k.free h, cancellations-append c.number c.calls closes);
  none_before = ground (arith, k.none_before, cancellations-append 0 c.calls closes);
  begun = tt;
  heard = k.heard;
}

begin_prompt-IsKept :
    (content : Bytes) (c : Chat)
    → c.phase ≡ starting content
    → IsKept c
    → IsKept (begin_prompt content c)
unfolding begin_prompt
begin_prompt-IsKept content c e k =
    let x = prompts content in
    record {
      closed = ground (arith, k.closed, closings-append c.calls x);
      numbered = ground (arith, k.numbered, asked-append c.calls x);
      once = λ n. ground (arith, k.once n, cancellations-append n c.calls x);
      later = λ n h. ground (arith, k.later n h, cancellations-append n c.calls x);
      free = λ h. ground (arith, k.free h, cancellations-append c.number c.calls x);
      none_before = ground (arith, k.none_before, cancellations-append 0 c.calls x);
      begun = subst (HasBegun c.number) e k.begun;
      heard = k.heard;
    }

still_heard : (n : ℕ) (l : Listener) → HasHeard n l → HasHeard (suc n) l
still_heard n loaded h = omega (arith, h)
still_heard n selecting h = tt
still_heard n returned h = tt
still_heard n (swapped m) h = tt

start_prompt-IsKept :
    (content : Bytes) (c : Chat) → c.phase ≡ at_prompt → IsKept c → IsKept (start_prompt content c)
unfolding start_prompt
start_prompt-IsKept content c e k = record {
  closed = ground (arith, k.closed);
  numbered = ground (arith, k.numbered);
  once = k.once;
  later = λ n h. k.later n (omega (arith, h));
  free = λ h. k.later (suc c.number) (omega arith);
  none_before = k.none_before;
  begun = omega arith;
  heard = still_heard c.number c.listener k.heard;
}

next_round-IsKept :
    (c : Chat) → c.phase ≡ at_prompt ⊎ c.phase ≡ streaming → IsKept c → IsKept (next_round c)
next_round-IsKept c n k = record {
  closed = ground (arith, k.closed);
  numbered = ground (arith, k.numbered);
  once = k.once;
  later = k.later;
  free = k.free;
  none_before = k.none_before;
  begun = tt;
  heard = k.heard;
}

take_line-IsKept :
    (text : Bytes) (c : Chat) → c.phase ≡ at_prompt → IsKept c → IsKept (take_line text c)
unfolding take_line
take_line-IsKept text c e k =
    ground
      (arith, teardown-IsKept c e k, start_prompt-IsKept text c e k, next_round-IsKept c (inl e) k)

handle_interrupt-IsKept :
    (c : Chat) → c.listener ≡ selecting → IsKept c → IsKept (handle_interrupt c)
unfolding handle_interrupt
handle_interrupt-IsKept c e k = record {
  closed = ground (arith, k.closed);
  numbered = ground (arith, k.numbered);
  once = λ n. ground (arith, e, k.once n);
  later = λ n h. ground (arith, e, k.later n);
  free = λ h. ground (arith, e, k.free);
  none_before = ground (arith, e, k.none_before);
  begun = ground (arith, k.begun);
  heard = ground (arith, e, k.begun);
}

swap_flag-IsKept : (c : Chat) → c.listener ≡ loaded → IsKept c → IsKept (swap_flag c)
unfolding swap_flag
swap_flag-IsKept c e k = record {
  closed = ground (arith, k.closed);
  numbered = ground (arith, k.numbered);
  once = λ n. ground (arith, e, k.once n, k.free);
  later = λ n h. ground (arith, e, k.later n);
  free = λ h. ground (arith, e, k.free);
  none_before = ground (arith, e, k.none_before, k.heard);
  begun = ground (arith, k.begun);
  heard = ground (arith, e, k.heard);
}

call_cancel-IsKept : (c : Chat) (m : ℕ) → c.listener ≡ swapped m → IsKept c → IsKept (call_cancel c)
unfolding call_cancel
call_cancel-IsKept c m e k =
    let x = cancels m in
    record {
      closed = ground (arith, e, k.closed, closings-append c.calls x);
      numbered = ground (arith, e, k.numbered, asked-append c.calls x);
      once = λ n. ground (arith, e, k.once n, cancellations-append n c.calls x);
      later = λ n h. ground (arith, e, k.later n, cancellations-append n c.calls x);
      free = λ h. ground (arith, e, k.free, cancellations-append c.number c.calls x);
      none_before = ground (arith, e, k.none_before, cancellations-append 0 c.calls x);
      begun = ground (arith, e, k.begun);
      heard = ground (arith, e, k.heard);
    }

-- A chat that differs in its output.
say-IsKept : (text : Bytes) (c : Chat) → IsKept c → IsKept (record c { out = text })
say-IsKept text c k = record {
  closed = k.closed;
  numbered = k.numbered;
  once = k.once;
  later = k.later;
  free = k.free;
  none_before = k.none_before;
  begun = k.begun;
  heard = k.heard;
}

context_done-IsKept : (c : Chat) → c.listener ≡ selecting → IsKept c → IsKept (react context_done c)
context_done-IsKept c e k = record {
  closed = k.closed;
  numbered = k.numbered;
  once = λ n. ground (arith, e, k.once n);
  later = λ n h. ground (arith, e, k.later n);
  free = λ h. ground (arith, e, k.free);
  none_before = ground (arith, e, k.none_before);
  begun = k.begun;
  heard = tt;
}

-- The step that is next for a goroutine tells where it is.
pub swapped_of :
    (l : Listener) → (elim l [ swapped n ↦ true | _ ↦ false ]) ≡ true → (m : ℕ) × (l ≡ swapped m)
swapped_of (swapped m) h = (m, refl)
swapped_of selecting h = absurd (ground arith)
swapped_of loaded h = absurd (ground arith)
swapped_of returned h = absurd (ground arith)

starting_of :
    (x : Phase)
    → (elim x [ starting content ↦ true | _ ↦ false ]) ≡ true
    → (content : Bytes) × (x ≡ starting content)
starting_of (starting content) h = (content, refl)
starting_of at_prompt h = absurd (ground arith)
starting_of streaming h = absurd (ground arith)
starting_of over h = absurd (ground arith)

begins-IsKept : (c : Chat) → enabled begins c ≡ true → IsKept c → IsKept (react begins c)
begins-IsKept c h k =
    let (content, e) = starting_of c.phase h in
    subst (λ x. IsKept (begin_from x c)) (sym e) (begin_prompt-IsKept content c e k)

ended-IsKept :
    (b : Bool) (t u : Bytes) (c : Chat)
    → c.phase ≡ streaming
    → IsKept c
    → IsKept (next_round (if b then record c { out = t } else record c { out = u }))
ended-IsKept true t u c e k = next_round-IsKept (record c { out = t }) (inr e) (say-IsKept t c k)
ended-IsKept false t u c e k = next_round-IsKept (record c { out = u }) (inr e) (say-IsKept u c k)

pub react-IsKept : (e : Event) (c : Chat) → enabled e c ≡ true → IsKept c → IsKept (react e c)
unfolding end_prompt fail_prompt
react-IsKept interrupt c h k = handle_interrupt-IsKept c (ground arith) k
react-IsKept swaps c h k = swap_flag-IsKept c (ground arith) k
react-IsKept cancelling c h k = let (m, e) = swapped_of c.listener h in call_cancel-IsKept c m e k
react-IsKept context_done c h k = context_done-IsKept c (ground arith) k
react-IsKept sees_quit c h k = teardown-IsKept c (ground arith) k
react-IsKept end_of_input c h k = teardown-IsKept c (ground arith) k
react-IsKept begins c h k = begins-IsKept c h k
react-IsKept (line text) c h k = take_line-IsKept text c (ground arith) k
react-IsKept (delta text) c h k = say-IsKept (c.out ++ text) c k
react-IsKept (finished reason) c h k =
    ended-IsKept (text_eq reason (codes "cancelled")) _ _ c (ground arith) k
react-IsKept (failed words) c h k = ended-IsKept true _ [] c (ground arith) k
