-- ===== src/Provider/Deepseek/Stream.antt =====
-- What has been streamed is what is returned.
use deepseek_project.Base.{
  ℕ, suc, Bytes, codes, ◌≡◌, refl, List, [], ◌∷◌, ◌++◌, Option, none, some, Bool, true, false,
  Result, ok, err, not, ◌||◌, text_eq, has_prefix, trim_prefix, trim_space, Bool-cases, inl, inr,
  append_assoc, append-nil, sym, ok-ne-err, ap, ok_inj, ◌∙◌, ◌==◌,
}
use deepseek_project.Protocol.Sse.{Flow, go, stop, ◌>>=◌, scan_lines, max_token}
use deepseek_project.Provider.{CompletionResult, finish_stop}
use deepseek_project.Provider.Deepseek.{
  Choice, StreamError, Progress, HttpOutcome, unsent, answered, cancelled, end_of_stream,
  take_choice, take_choices, read_chunks, stream_completion, after_chunk, decoded, written,
}

-- The deltas as one text.
abbrev pub concat : List Bytes → Bytes
concat [] = []
concat (d ∷ deltas) = d ++ concat deltas

pub concat-append :
    (deltas : List Bytes) (d : Bytes) → concat (deltas ++ d ∷ []) ≡ concat deltas ++ d
concat-append [] d = append-nil d
concat-append (x ∷ deltas) d = rw (concat-append deltas d) (sym (append_assoc x (concat deltas) d))

-- A callback that shows the deltas, in order; `fails` says when it cannot, and with which error.
abbrev pub showing :
    {E : Type 0} → (Bytes → List Bytes → Option E) → Bytes → List Bytes → Flow E (List Bytes)
showing fails d shown = elim (fails d shown) [ none ↦ go (shown ++ d ∷ []) | some e ↦ stop e shown ]

abbrev InStep : Progress (List Bytes) → Type 0
InStep p = p.text ≡ concat p.outside

abbrev GoesInStep : {E : Type 0} → Flow E (Progress (List Bytes)) → Type 0
GoesInStep (go p) = InStep p
GoesInStep (stop e p) = Unit

-- A result with a text has the text that was shown.
abbrev Agrees : {E : Type 0} → List Bytes × Result (StreamError E) CompletionResult → Type 0
Agrees (shown, ok r) = r.full_text ≡ concat shown
Agrees (shown, err e) = Unit

text_of_Agrees :
    {E : Type 0} (x : List Bytes × Result (StreamError E) CompletionResult) (r : CompletionResult)
    → Agrees x
    → x.1 ≡ ok r
    → r.full_text ≡ concat x.0
text_of_Agrees (shown, ok q) r a h = ap (λ x. x.full_text) (sym (ok_inj h)) ∙ a
text_of_Agrees (shown, err e) r a h = absurd (ok-ne-err (sym h))

module _ {E : Type 0} (fails : Bytes → List Bytes → Option E)
    (decode : Bytes → Option (List Choice)) (is_done : ℕ → Bool) where
  written-GoesInStep :
      (c : Choice) (p : Progress (List Bytes)) (failure : Option E)
      → InStep p
      → GoesInStep (
          written
            (showing fails)
            decode
            is_done
            c
            p
            (elim failure [ none ↦ go (p.outside ++ c.content ∷ []) | some e ↦ stop e p.outside ]))
  written-GoesInStep c p none h = rw (concat-append p.outside c.content, h) refl
  written-GoesInStep c p (some e) h = tt

  take_choice-GoesInStep :
      (c : Choice) (p : Progress (List Bytes))
      → InStep p
      → GoesInStep (take_choice (showing fails) decode is_done c p)
  unfolding take_choice
  take_choice-GoesInStep c p h = elim (Bool-cases (text_eq c.content [])) [
    | inl e ↦ rw e h
    | inr n ↦ rw n (written-GoesInStep c p (fails c.content p.outside) h)
  ]

  take_choices-GoesInStep :
      (choices : List Choice) (p : Progress (List Bytes))
      → InStep p
      → GoesInStep (take_choices (showing fails) decode is_done choices p)
  unfolding take_choices
  take_choices-GoesInStep [] p h = h
  take_choices-GoesInStep (c ∷ choices) p h =
      goes_on (take_choices-GoesInStep choices) (take_choice (showing fails) decode is_done c p)
        (take_choice-GoesInStep c p h)
    where
      goes_on :
          ((q : Progress (List Bytes))
            → InStep q
            → GoesInStep (take_choices (showing fails) decode is_done choices q))
          → (r : Flow E (Progress (List Bytes))) → GoesInStep r
          → GoesInStep (r >>= take_choices (showing fails) decode is_done choices)
      goes_on rest (go q) g = rest q g
      goes_on rest (stop e q) g = tt

  end_of_stream-Agrees :
      (broken is_over : Bool) (p : Progress (List Bytes))
      → InStep p
      → Agrees (end_of_stream {E = E} broken is_over p)
  unfolding end_of_stream cancelled
  end_of_stream-Agrees false is_over p h = h
  end_of_stream-Agrees true true p h = h
  end_of_stream-Agrees true false p h = tt

  decoded-Agrees :
      (rest : Progress (List Bytes) → List Bytes × Result (StreamError E) CompletionResult)
      (p : Progress (List Bytes)) (choices : Option (List Choice))
      → ((q : Progress (List Bytes)) → InStep q → Agrees (rest q))
      → InStep p
      → Agrees (decoded (showing fails) decode is_done rest p choices)
  decoded-Agrees rest p none go_on h = tt
  decoded-Agrees rest p (some choices) go_on h =
      after (take_choices (showing fails) decode is_done choices p)
        (take_choices-GoesInStep choices p h)
    where
      after :
          (r : Flow E (Progress (List Bytes)))
          → GoesInStep r
          → Agrees (after_chunk (showing fails) decode is_done rest r)
      after (go q) g = go_on q g
      after (stop e q) g = tt

  read_chunks-Agrees :
      (broken broken_early : Bool) (n : ℕ) (lines : List Bytes) (p : Progress (List Bytes))
      → InStep p
      → Agrees (read_chunks (showing fails) decode is_done broken broken_early n lines p)
  unfolding read_chunks cancelled
  read_chunks-Agrees broken early n [] p h = end_of_stream-Agrees broken (is_done n) p h
  read_chunks-Agrees broken early n (line ∷ lines) p h =
      let trimmed = trim_space line in
      let text = trim_space (trim_prefix trimmed (codes "data:")) in
      let go_on = read_chunks-Agrees broken early (suc n) lines in
      elim (Bool-cases (is_done n)) [
        | inl d ↦ rw d h
        | inr d ↦
            rw d
              (elim (Bool-cases (text_eq trimmed [] || not (has_prefix trimmed (codes "data:")))) [
                | inl e ↦ rw e (go_on p h)
                | inr e ↦ rw e (elim (Bool-cases (text_eq text (codes "[DONE]"))) [
                  | inl t ↦ rw t (end_of_stream-Agrees early false p h)
                  | inr t ↦ rw t (
                      decoded-Agrees
                        (read_chunks (showing fails) decode is_done broken early (suc n) lines) p
                        (decode text) go_on h)
                ])
              ])
      ]

  completion-Agrees :
      (outcome : HttpOutcome) → Agrees (stream_completion (showing fails) decode is_done outcome [])
  unfolding stream_completion
  completion-Agrees unsent = tt
  completion-Agrees (answered status body broken early) =
      let (lines, too_long) = scan_lines max_token [] body in
      elim (Bool-cases (status == 200)) [
        | inl e ↦ rw e (
            read_chunks-Agrees (too_long || broken) early 0 lines
              (record { text = []; finish = finish_stop; outside = [] }) refl)
        | inr e ↦ rw e tt
      ]

  -- Whatever the API answers, and whenever the callback fails or the context is cancelled: if a result is
  -- returned, its text is exactly the deltas that were shown, in their order.
  pub stream_completion-shown :
      (outcome : HttpOutcome) (r : CompletionResult)
      → (stream_completion (showing fails) decode is_done outcome []).1 ≡ ok r
      → r.full_text ≡ concat (stream_completion (showing fails) decode is_done outcome []).0
  stream_completion-shown outcome r =
      text_of_Agrees (stream_completion (showing fails) decode is_done outcome []) r
        (completion-Agrees outcome)
