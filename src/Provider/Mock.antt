-- ===== src/Provider/Mock.antt =====
-- internal/provider/mock/mock.go: the provider for tests. The context's end is seen only where there is a
-- delay; `is_done n` says whether it comes before the delay of round `n` is over.
pub mod Reply
use deepseek_project.Base.{
  ℕ, zero, suc, ◌+◌, Bytes, codes, List, [], ◌∷◌, ◌++◌, Option, none, some, Bool, true, false, ◌&&◌,
  if◌then◌else◌, length, Result, ok, err,
}
use deepseek_project.Json.Utf8.{Head, ended, one, two, three, four, invalid, next_rune, replacement}
use deepseek_project.Protocol.Sse.{Flow, go, stop}
use deepseek_project.Provider.{
  Message, CompletionRequest, CompletionResult, finish_stop, finish_canceled,
}

-- `Provider`: whether there is a delay, and the last request.
pub record MockProvider : Type 0 where
  pub delays : Bool
  pub last_req : Option CompletionRequest

unfoldable pub last_request : MockProvider → Option CompletionRequest
last_request p = p.last_req

-- The content of the last message, empty if there is none.
unfoldable pub last_content : List Message → Bytes
last_content [] = []
last_content (x ∷ []) = x.content
last_content (x ∷ y ∷ messages) = last_content (y ∷ messages)

unfoldable pub mock_reply : List Message → Bytes
unfolding last_content
mock_reply messages = codes "mock reply to: " ++ (last_content messages ++ 10 ∷ [])

-- `string(ch)` for the first character, and the rest.
unfoldable pub first_rune : Head → Option (Bytes × Bytes)
first_rune ended = none
first_rune (one a r) = some (a ∷ [], r)
first_rune (two a b r) = some (a ∷ b ∷ [], r)
first_rune (three a b c r) = some (a ∷ b ∷ c ∷ [], r)
first_rune (four a b c d r) = some (a ∷ b ∷ c ∷ d ∷ [], r)
first_rune (invalid r) = some (replacement, r)

module _ {E S : Type 0} (on_delta : Bytes → S → Flow E S) (delays : Bool) (is_done : ℕ → Bool) where
  -- After the callback, which is not nil; `rest` is the loop that goes on.
  abbrev pub sent_one :
      (S → S × Result E CompletionResult) → Flow E S → S × Result E CompletionResult
  sent_one rest (go s) = rest s
  sent_one rest (stop e s) = (s, err e)

  -- One round, for a character and what follows it; `sb` is what has been written.
  abbrev pub round :
      (ℕ → Bytes → Bytes → S → S × Result E CompletionResult)
      → ℕ
      → Bytes
      → S
      → Option (Bytes × Bytes)
      → S × Result E CompletionResult
  round rest n sb s none = (s, ok (record { full_text = sb; finish_reason = finish_stop }))
  round rest n sb s (some (ch, text)) =
      if delays && is_done n
      then (s, ok (record { full_text = sb; finish_reason = finish_canceled }))
      else sent_one (rest (suc n) (sb ++ ch) text) (on_delta ch s)

  -- The loop over the characters. The fuel is the length of the text, at most.
  unfoldable pub send_runes : ℕ → ℕ → Bytes → Bytes → S → S × Result E CompletionResult
  unfolding next_rune first_rune
  send_runes zero n sb text s = (s, ok (record { full_text = sb; finish_reason = finish_stop }))
  send_runes (suc fuel) n sb text s = round (send_runes fuel) n sb s (first_rune (next_rune text))

-- `StreamCompletion`
unfoldable pub stream_completion :
    {E S : Type 0}
    → (Bytes → S → Flow E S)
    → (ℕ → Bool)
    → CompletionRequest
    → MockProvider
    → S
    → MockProvider × (S × Result E CompletionResult)
unfolding send_runes mock_reply
stream_completion on_delta is_done req p s =
    let reply = mock_reply req.messages in
    (
      record p { last_req = some req },
      send_runes on_delta p.delays is_done (length reply) 0 [] reply s,
    )
