-- ===== src/Provider/Deepseek/Chunks/Answer.antt =====
-- internal/provider/deepseek/deepseek.go: an answer of the API, from its bytes to what the callback gets
-- and what is returned.
use deepseek_project.Provider.Deepseek.Chunks.Lines.{
  IsSent, answer_of, chunk_lines, scan_answer, chunk-Ends,
}
use deepseek_project.Base.{
  ℕ, suc, ◌≡◌, refl, ◌∙◌, Bytes, codes, List, [], ◌∷◌, ◌++◌, Option, Bool, false, Result, ok,
  append_assoc, append-nil, arith, All, text_eq, trim_space, trim_left, trim_left_reversed,
  is_space_1, is_space_2, is_space_3, has_prefix, trim_prefix, Bytes-discrete, ℕ_discrete,
  if◌then◌else◌,
}
use deepseek_project.Json.Structs.Lines.{trim_space_braces, trim_space_brace}
use deepseek_project.Protocol.Sse.{Flow, go, stop}
use deepseek_project.Provider.{CompletionResult, finish_stop}
use deepseek_project.Provider.Deepseek.{
  Choice, StreamError, Progress, answered, end_of_stream, take_choice, take_choices, read_chunks,
  stream_completion, after_chunk, next_finish,
}
use deepseek_project.Provider.Deepseek.Stream.{concat}
use deepseek_project.Provider.Deepseek.Chunks.{decode_chunk}
use deepseek_project.Provider.Deepseek.Chunks.Laws.{chunk_text, IsChoice, decode_chunk-text}

-- The contents that are not empty.
abbrev pub contents : List Choice → List Bytes
contents [] = []
contents (c ∷ cs) =
    let rest = contents cs in if text_eq c.content [] then rest else c.content ∷ rest

-- The last reason that is given, or `finish`.
abbrev pub finish_after : List Choice → Bytes → Bytes
finish_after [] finish = finish
finish_after (c ∷ cs) finish = finish_after cs (next_finish c.finish_reason finish)

module _ {E : Type 0} (is_done : ℕ → Bool) (on_delta : Bytes → List Bytes → Flow E (List Bytes))
    (running : (n : ℕ) → is_done n ≡ false) where
  read_chunk :
      (n : ℕ) (c : Choice) (lines : List Bytes) (p : Progress (List Bytes))
      → IsChoice c
      → read_chunks on_delta decode_chunk is_done false false n
          ((codes "data: " ++ chunk_text c) ∷ lines)
          p
        ≡ after_chunk on_delta decode_chunk is_done
            (read_chunks on_delta decode_chunk is_done false false (suc n) lines)
            (take_choices on_delta decode_chunk is_done (c ∷ []) p)
  unfolding read_chunks has_prefix trim_prefix Bytes-discrete ℕ_discrete
  read_chunk n c lines p h =
      let (s, e) = chunk-Ends c in
      let whole : trim_space (codes "data: " ++ chunk_text c) ≡ codes "data: " ++ chunk_text c =
        rw e (trim_space_brace b'd' b'a' b't' (codes "a: {" ++ s) (omega arith) (omega arith)) in
      let json : trim_space (codes " " ++ chunk_text c) ≡ chunk_text c =
        rw e (trim_space_braces s) in
      rw (running n, whole, json, decode_chunk-text c h) refl

  read_blank :
      (n : ℕ) (lines : List Bytes) (p : Progress (List Bytes))
      → read_chunks on_delta decode_chunk is_done false false n ([] ∷ lines) p
        ≡ read_chunks on_delta decode_chunk is_done false false (suc n) lines p
  unfolding read_chunks trim_space trim_left trim_left_reversed Bytes-discrete
  read_blank n lines p = rw (running n) refl

  read_marker :
      (n : ℕ) (lines : List Bytes) (p : Progress (List Bytes))
      → read_chunks on_delta decode_chunk is_done false false n (codes "data: [DONE]" ∷ lines) p
        ≡ (p.outside, ok (record { full_text = p.text; finish_reason = p.finish }))
  unfolding read_chunks end_of_stream has_prefix trim_prefix trim_space trim_left trim_left_reversed
      is_space_1 is_space_2 is_space_3 Bytes-discrete ℕ_discrete
  read_marker n lines p = rw (running n) refl

-- A callback that shows the deltas and does not fail.
abbrev pub shown : {E : Type 0} → Bytes → List Bytes → Flow E (List Bytes)
shown delta seen = go (seen ++ delta ∷ [])

module _ {E : Type 0} (is_done : ℕ → Bool) (running : (n : ℕ) → is_done n ≡ false) where
  -- What is returned behind the choices.
  abbrev told :
      List Choice → Progress (List Bytes) → List Bytes × Result (StreamError E) CompletionResult
  told cs p = (
    p.outside ++ contents cs,
    ok (record {
      full_text = p.text ++ concat (contents cs);
      finish_reason = finish_after cs p.finish;
    }),
  )

  told_after :
      (content : Bytes) (reason : Option Bytes) (cs : List Choice) (p : Progress (List Bytes))
      → let c : Choice = record { content = content; finish_reason = reason } in
        after_chunk shown decode_chunk is_done
          (told cs)
          (take_choices shown decode_chunk is_done (c ∷ []) p)
        ≡ told (c ∷ cs) p
  unfolding take_choices take_choice Bytes-discrete
  told_after [] reason cs p = refl
  told_after (x ∷ s) reason cs p =
      rw
        (
          append_assoc p.outside ((x ∷ s) ∷ []) (contents cs),
          append_assoc p.text (x ∷ s) (concat (contents cs)),
        )
        refl

  after_chunk_ext :
      (f g : Progress (List Bytes) → List Bytes × Result (StreamError E) CompletionResult)
      (x : Flow E (Progress (List Bytes)))
      → ((q : Progress (List Bytes)) → f q ≡ g q)
      → after_chunk shown decode_chunk is_done f x ≡ after_chunk shown decode_chunk is_done g x
  after_chunk_ext f g (go q) h = h q
  after_chunk_ext f g (stop e q) h = refl

  read_answer :
      (n : ℕ) (cs : List Choice) (p : Progress (List Bytes))
      → All IsSent cs
      → read_chunks shown decode_chunk is_done false false n (chunk_lines cs) p ≡ told cs p
  read_answer n [] p h =
      rw (append-nil p.outside, append-nil p.text) (read_marker is_done shown running n ([] ∷ []) p)
  read_answer n (c ∷ cs) p (h, hs) =
      read_chunk is_done shown running n c ([] ∷ chunk_lines cs) p h.0
      ∙ after_chunk_ext
          (read_chunks shown decode_chunk is_done false false (suc n) ([] ∷ chunk_lines cs))
          (told cs) (take_choices shown decode_chunk is_done (c ∷ []) p)
          (λ q.
            read_blank is_done shown running (suc n) (chunk_lines cs) q
            ∙ read_answer (suc (suc n)) cs q hs)
      ∙ told_after c.content c.finish_reason cs p

  -- An answer of the API that is a chunk for each of the choices `cs` and the end marker, where the context is
  -- not done: the callback is shown the contents that are not empty, one after the other, and what is
  -- returned has them as one text and the last reason that was given, or "stop". The texts are valid
  -- UTF-8, and each chunk fits into the scanner's buffer.
  pub stream_completion-answer :
      (cs : List Choice)
      → All IsSent cs
      → stream_completion {E = E} shown decode_chunk is_done
          (answered 200 (answer_of cs) false false)
          []
        ≡ (
          contents cs,
          ok (record {
            full_text = concat (contents cs);
            finish_reason = finish_after cs finish_stop;
          }),
        )
  unfolding stream_completion
  stream_completion-answer cs h =
      rw (scan_answer cs h)
        (read_answer 0 cs (record { text = []; finish = finish_stop; outside = [] }) h)
