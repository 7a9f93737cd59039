-- ===== src/Provider/Mock/Reply.antt =====
-- The mock's reply arrives character by character, and whole.
use deepseek_project.Base.{
  ℕ, zero, suc, ◌≡◌, refl, sym, ap, ◌∙◌, Bytes, List, [], ◌∷◌, ◌++◌, Option, some, Bool, true,
  false, length, ok, append_assoc, append-nil,
}
use deepseek_project.Json.Utf8.{Head, ended, one, two, three, four, invalid, next_rune}
use deepseek_project.Json.Strings.RoundTrip.{is_utf8, valid_head, Shows, next_rune-Shows}
use deepseek_project.Protocol.Sse.{Flow, go}
use deepseek_project.Provider.{CompletionRequest, finish_stop}
use deepseek_project.Provider.Deepseek.Stream.{concat, concat-append}
use deepseek_project.Provider.Mock.{mock_reply, first_rune, round, send_runes, stream_completion}

-- A callback that shows every delta.
abbrev pub shows_all : Bytes → List Bytes → Flow (Unit {0}) (List Bytes)
shows_all d shown = go (shown ++ d ∷ [])

-- The loop without a delay, from a text on: what is shown then, and the text that is returned.
abbrev Sends : ℕ → Bytes → Type 0
Sends fuel text =
    (n : ℕ) (sb : Bytes) (shown : List Bytes) (is_done : ℕ → Bool)
    → sb ≡ concat shown
    → let x = send_runes shows_all false is_done fuel n sb text shown in
      (x.1 ≡ ok (record { full_text = sb ++ text; finish_reason = finish_stop }))
      × (concat x.0 ≡ sb ++ text)

-- One more character.
character-Sends :
    (fuel : ℕ) (ch r text : Bytes)
    → text ≡ ch ++ r
    → Sends fuel r
    → (n : ℕ) (sb : Bytes) (shown : List Bytes) (is_done : ℕ → Bool) → sb ≡ concat shown
    → let x = send_runes shows_all false is_done fuel (suc n) (sb ++ ch) r (shown ++ ch ∷ []) in
      (x.1 ≡ ok (record { full_text = sb ++ text; finish_reason = finish_stop }))
      × (concat x.0 ≡ sb ++ text)
character-Sends fuel ch r text e ih n sb shown is_done same =
    let rest =
      ih (suc n) (sb ++ ch) (shown ++ ch ∷ []) is_done
        (ap (λ t. t ++ ch) same ∙ sym (concat-append shown ch)) in
    rw (e, sym (append_assoc sb ch r)) rest

head-Sends :
    (fuel : ℕ) (x : Head) (text : Bytes)
    → Shows text x
    → valid_head (is_utf8 fuel) x ≡ true
    → ((r : Bytes) → is_utf8 fuel r ≡ true → Sends fuel r)
    → (n : ℕ) (sb : Bytes) (shown : List Bytes) (is_done : ℕ → Bool) → sb ≡ concat shown
    → let y =
        round shows_all false is_done
          (send_runes shows_all false is_done fuel)
          n
          sb
          shown
          (first_rune x) in
      (y.1 ≡ ok (record { full_text = sb ++ text; finish_reason = finish_stop }))
      × (concat y.0 ≡ sb ++ text)
unfolding first_rune
head-Sends fuel ended text e h ih n sb shown is_done same = rw (e, append-nil sb) (refl, sym same)
head-Sends fuel (one a r) text (e, lt) h ih n sb shown is_done same =
    character-Sends fuel (a ∷ []) r text e (ih r h) n sb shown is_done same
head-Sends fuel (two a b r) text (e, is) h ih n sb shown is_done same =
    character-Sends fuel (a ∷ b ∷ []) r text e (ih r h) n sb shown is_done same
head-Sends fuel (three a b c r) text (e, is) h ih n sb shown is_done same =
    character-Sends fuel (a ∷ b ∷ c ∷ []) r text e (ih r h) n sb shown is_done same
head-Sends fuel (four a b c d r) text (e, is) h ih n sb shown is_done same =
    character-Sends fuel (a ∷ b ∷ c ∷ d ∷ []) r text e (ih r h) n sb shown is_done same
head-Sends fuel (invalid r) text e h ih n sb shown is_done same = cc

send_runes-Sends : (fuel : ℕ) (text : Bytes) → is_utf8 fuel text ≡ true → Sends fuel text
unfolding send_runes is_utf8
send_runes-Sends zero [] h n sb shown is_done same = rw (append-nil sb) (refl, sym same)
send_runes-Sends zero (a ∷ text) h n sb shown is_done same = cc
send_runes-Sends (suc fuel) text h n sb shown is_done same =
    head-Sends fuel (next_rune text) text (next_rune-Shows text) h (send_runes-Sends fuel) n sb
      shown is_done same

-- The mock without a delay answers a conversation, whose reply is valid UTF-8, with the whole reply: the
-- deltas that are shown are together the text that is returned, and the request is kept.
pub mock-Sends :
    (is_done : ℕ → Bool) (req : CompletionRequest) (last : Option CompletionRequest)
    → is_utf8 (length (mock_reply req.messages)) (mock_reply req.messages) ≡ true
    → let x =
        stream_completion shows_all is_done req (record { delays = false; last_req = last }) [] in
      (x.0.last_req ≡ some req)
      × (x.1.1 ≡ ok (record { full_text = mock_reply req.messages; finish_reason = finish_stop }))
      × (concat x.1.0 ≡ mock_reply req.messages)
unfolding stream_completion
mock-Sends is_done req last h =
    let reply = mock_reply req.messages in
    let x = send_runes-Sends (length reply) reply h 0 [] [] is_done refl in (refl, x.0, x.1)
