-- ===== src/Provider/Deepseek/Chunks/Laws.antt =====
-- internal/provider/deepseek/deepseek.go: the chunks that the API sends are read.
use deepseek_project.Json.Strings.{escape}
use deepseek_project.Base.{
  ℕ, suc, ◌+◌, ◌≡◌, refl, ap, ◌∙◌, Bytes, codes, [], ◌∷◌, ◌++◌, Option, none, some, length, arith,
  Bytes-discrete, ℕ_discrete, ◌-◌, ◌≤◌,
}
use deepseek_project.Json.Utf8.{next_rune}
use deepseek_project.Json.Strings.RoundTrip.{is_utf8}
use deepseek_project.Json.Values.{
  Value, null, text, array, object, Fields, end, field, nil, cons, parse, parse_first, parse_value,
  parse_members, parse_elements, member_from, members_after, members_from, elements_from,
  element_from, elements_after, skip_space, value_from, expect, literal,
}
use deepseek_project.Json.Structs.{
  text_value, marshal_string, fold_fields, all_fit, names, fold_name, fold_letter, marshal_scalar,
}
use deepseek_project.Json.Structs.RoundTrip.{
  IsText, parse_text-marshal, skip_space-string, parse_value-scalar,
}
use deepseek_project.Provider.Deepseek.{Choice}
use deepseek_project.Provider.Deepseek.Chunks.{decode_chunk, set_items, fit_items, choices_of}

abbrev pub reason_text : Option Bytes → Bytes
reason_text none = codes "null"
reason_text (some reason) = marshal_string reason

abbrev reason_value : Option Bytes → Value
reason_value none = null
reason_value (some reason) = text reason

-- A key and the text of its value.
abbrev pub entry : Bytes → Bytes → Bytes
entry key rest = marshal_string key ++ b':' ∷ rest

-- A member, whose value stands in front of `r`.
member_from-entry :
    (value : Bytes → Option (Value × Bytes)) (more : Bytes → Option (Fields × Bytes))
    (key s r : Bytes) (v : Value)
    → IsText key
    → value (skip_space s) ≡ some (v, r)
    → member_from value more (entry key s) ≡ members_after more key v (skip_space r)
unfolding member_from expect
member_from-entry value more key s r v hk e =
    rw (skip_space-string key (b':' ∷ s), parse_text-marshal key (b':' ∷ s) hk)
      (unfold skip_space in rw e refl)

parse_value-reason :
    (n : ℕ) (reason : Option Bytes) (rest : Bytes)
    → ((r : Bytes) → reason ≡ some r → IsText r)
    → parse_value (suc n) (reason_text reason ++ rest) ≡ some (reason_value reason, rest)
unfolding marshal_string marshal_scalar
parse_value-reason n none rest h = unfold parse_value value_from literal in refl
parse_value-reason n (some r) rest h = parse_value-scalar n (text_value r) rest (h r refl)

object_value :
    (n : ℕ) (key s r : Bytes) (fs : Fields)
    → member_from (parse_value n) (parse_members n) (entry key s) ≡ some (fs, r)
    → parse_value (suc (suc n)) (b'{' ∷ entry key s) ≡ some (object fs, r)
unfolding parse_value parse_members value_from members_from skip_space marshal_string
object_value n key s r fs e = rw e refl

abbrev last_member : Bytes → Value → Fields
last_member key v = field key v end

member_last :
    (n : ℕ) (key s r : Bytes) (v : Value)
    → IsText key
    → parse_value n (skip_space s) ≡ some (v, b'}' ∷ r)
    → member_from (parse_value n) (parse_members n) (entry key s) ≡ some (field key v end, r)
member_last n key s r v hk e =
    member_from-entry (parse_value n) (parse_members n) key s (b'}' ∷ r) v hk e
    ∙ unfold members_after skip_space in refl

member_next :
    (n : ℕ) (key s k t r : Bytes) (v : Value) (fs : Fields)
    → IsText key
    → parse_value (suc n) (skip_space s) ≡ some (v, b',' ∷ entry k t)
    → member_from (parse_value n) (parse_members n) (entry k t) ≡ some (fs, r)
    → member_from (parse_value (suc n)) (parse_members (suc n)) (entry key s)
      ≡ some (field key v fs, r)
member_next n key s k t r v fs hk e more =
    member_from-entry (parse_value (suc n)) (parse_members (suc n)) key s (b',' ∷ entry k t) v hk e
    ∙ unfold members_after skip_space parse_members in rw more refl

-- The texts of `delta`, of a choice and of a chunk with one choice, in front of `rest`.
abbrev pub delta_text : Bytes → Bytes → Bytes
delta_text content rest = b'{' ∷ entry (codes "content") (marshal_string content ++ b'}' ∷ rest)

abbrev after_brace : Choice → Bytes → Bytes
after_brace c rest = entry (codes "delta") (
    delta_text c.content
      (b',' ∷ entry (codes "finish_reason") (reason_text c.finish_reason ++ b'}' ∷ rest)))

abbrev pub choice_text : Choice → Bytes → Bytes
choice_text c rest = b'{' ∷ after_brace c rest

abbrev pub chunk_text : Choice → Bytes
chunk_text c = b'{' ∷ entry (codes "choices") (b'[' ∷ choice_text c (codes "]}"))

pub content_key : IsText (codes "content")
unfolding is_utf8 next_rune
content_key = refl

pub delta_key : IsText (codes "delta")
unfolding is_utf8 next_rune
delta_key = refl

pub reason_key : IsText (codes "finish_reason")
unfolding is_utf8 next_rune
reason_key = refl

pub choices_key : IsText (codes "choices")
unfolding is_utf8 next_rune
choices_key = refl

delta_value :
    (n : ℕ) (content rest : Bytes)
    → IsText content
    → parse_value (suc (suc (suc n))) (delta_text content rest)
      ≡ some (object (field (codes "content") (text content) end), rest)
unfolding marshal_string marshal_scalar
delta_value n content rest h =
    object_value (suc n) (codes "content") (marshal_string content ++ b'}' ∷ rest) rest
      (field (codes "content") (text content) end)
      (member_last (suc n) (codes "content") (marshal_string content ++ b'}' ∷ rest) rest
        (text content) content_key
        (ap (parse_value (suc n)) (skip_space-string content (b'}' ∷ rest))
          ∙ parse_value-scalar n (text_value content) (b'}' ∷ rest) h))

skip_space-reason :
    (reason : Option Bytes) (rest : Bytes)
    → skip_space (reason_text reason ++ rest) ≡ reason_text reason ++ rest
skip_space-reason none rest = unfold skip_space in refl
skip_space-reason (some r) rest = skip_space-string r rest

-- The texts of a choice are valid UTF-8.
abbrev pub IsChoice : Choice → Type 0
IsChoice c = IsText c.content × ((r : Bytes) → c.finish_reason ≡ some r → IsText r)

abbrev choice_fields : Choice → Fields
choice_fields c =
    field (codes "delta") (object (field (codes "content") (text c.content) end))
      (field (codes "finish_reason") (reason_value c.finish_reason) end)

choice_value :
    (n : ℕ) (c : Choice) (rest : Bytes)
    → IsChoice c
    → parse_value (suc (suc (suc (suc (suc n))))) (choice_text c rest)
      ≡ some (object (choice_fields c), rest)
choice_value n c rest (h, k) =
    let reason = reason_text c.finish_reason ++ b'}' ∷ rest in
    let behind = b',' ∷ entry (codes "finish_reason") reason in
    object_value (suc (suc (suc n))) (codes "delta") (delta_text c.content behind) rest
      (choice_fields c)
      (member_next (suc (suc n)) (codes "delta") (delta_text c.content behind)
        (codes "finish_reason") reason rest (object (field (codes "content") (text c.content) end))
        (field (codes "finish_reason") (reason_value c.finish_reason) end) delta_key
        (unfold skip_space in delta_value n c.content behind h)
        (member_last (suc (suc n)) (codes "finish_reason") reason rest
          (reason_value c.finish_reason) reason_key
          (ap (parse_value (suc (suc n))) (skip_space-reason c.finish_reason (b'}' ∷ rest))
            ∙ parse_value-reason (suc n) c.finish_reason (b'}' ∷ rest) k)))

array_value :
    (n : ℕ) (s r : Bytes) (v : Value)
    → parse_value n (b'{' ∷ s) ≡ some (v, b']' ∷ r)
    → parse_value (suc (suc n)) (b'[' ∷ b'{' ∷ s) ≡ some (array (cons v nil), r)
unfolding parse_value parse_elements value_from elements_from element_from elements_after skip_space
array_value n s r v e = rw e refl

abbrev chunk_fields : Choice → Fields
chunk_fields c = field (codes "choices") (array (cons (object (choice_fields c)) nil)) end

chunk_value :
    (n : ℕ) (c : Choice)
    → IsChoice c
    → parse_value (suc (suc (suc (suc (suc (suc (suc (suc (suc n))))))))) (chunk_text c)
      ≡ some (object (chunk_fields c), [])
chunk_value n c h =
    let choices = b'[' ∷ choice_text c (codes "]}") in
    let m = suc (suc (suc (suc (suc n)))) in
    object_value (suc (suc m)) (codes "choices") choices [] (chunk_fields c) (
      member_last (suc (suc m)) (codes "choices") choices []
        (array (cons (object (choice_fields c)) nil)) choices_key
        (unfold skip_space in
          array_value m (after_brace c (codes "]}")) (codes "}") (object (choice_fields c))
            (choice_value n c (codes "]}") h)))

length-choices : (s : Bytes) → 8 ≤ length (entry (codes "choices") s)
unfolding marshal_string escape
length-choices s = omega arith

enough : (n : ℕ) → 9 ≤ n → n + 1 ≡ suc (suc (suc (suc (suc (suc (suc (suc (suc (n - 8)))))))))
enough n h = omega (arith, h)

chunk_first :
    (c : Choice) → IsChoice c → parse_first (chunk_text c) ≡ some (object (chunk_fields c), [])
unfolding parse_first skip_space
chunk_first c h =
    let s = chunk_text c in
    ap (λ n. parse_value n s)
      (enough (length s) (omega (arith, length-choices (b'[' ∷ choice_text c (codes "]}")))))
    ∙ chunk_value (length s - 8) c h

one_choice :
    (content : Bytes) (reason : Option Bytes)
    → let c : Choice = record { content = content; finish_reason = reason } in
      choices_of (chunk_fields c) ≡ some (c ∷ [])
unfolding set_items fit_items fold_fields all_fit names fold_name fold_letter Bytes-discrete
    ℕ_discrete
one_choice content none = refl
one_choice content (some reason) = refl

-- A chunk with one choice, as the API sends it but without the members that are not read, decodes to that
-- choice. Its texts are valid UTF-8.
pub decode_chunk-text : (c : Choice) → IsChoice c → decode_chunk (chunk_text c) ≡ some (c ∷ [])
unfolding decode_chunk parse
decode_chunk-text c h =
    rw (chunk_first c h) (unfold skip_space in one_choice c.content c.finish_reason)
