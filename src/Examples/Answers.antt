-- ===== src/Examples/Answers.antt =====
-- An answer of the model's API, from its bytes on.
use deepseek_project.Json.Structs.RoundTrip.{IsText}
use deepseek_project.Base.{
  ℕ, ◌≡◌, refl, codes, [], ◌∷◌, none, some, ok, arith, false, subst, some_inj, Bytes-discrete,
}
use deepseek_project.Json.Utf8.{next_rune}
use deepseek_project.Json.Strings.{escape}
use deepseek_project.Json.Strings.RoundTrip.{is_utf8}
use deepseek_project.Json.Structs.{marshal_string}
use deepseek_project.Provider.Deepseek.{Choice, answered, stream_completion}
use deepseek_project.Provider.Deepseek.Chunks.{decode_chunk}
use deepseek_project.Provider.Deepseek.Chunks.Lines.{IsSent, answer_of}
use deepseek_project.Provider.Deepseek.Chunks.Answer.{shown, stream_completion-answer}
use deepseek_project.Examples.Terminal.{running}

abbrev hello : Choice
hello = record { content = codes "Hello"; finish_reason = none }

abbrev cut_off : Choice
cut_off = record { content = []; finish_reason = some (codes "length") }

hello-IsSent : IsSent hello
unfolding is_utf8 next_rune marshal_string escape
hello-IsSent = ((refl, λ r e. absurd (ground arith)), omega arith)

cut_off-IsSent : IsSent cut_off
unfolding is_utf8 next_rune marshal_string escape
cut_off-IsSent = ((refl, λ r e. subst IsText (some_inj e) refl), omega arith)

stream_completion-answer_example :
    stream_completion {E = ℕ} shown decode_chunk running
      (answered 200 (answer_of (hello ∷ cut_off ∷ [])) false false)
      []
    ≡ (
      codes "Hello" ∷ [],
      ok (record { full_text = codes "Hello"; finish_reason = codes "length" }),
    )
unfolding Bytes-discrete
stream_completion-answer_example =
    stream_completion-answer running (λ n. refl) (hello ∷ cut_off ∷ [])
      (hello-IsSent, (cut_off-IsSent, tt))
