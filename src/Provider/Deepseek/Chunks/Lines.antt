-- ===== src/Provider/Deepseek/Chunks/Lines.antt =====
-- internal/provider/deepseek/deepseek.go: the lines of an answer of the API, as the scanner returns them.
use deepseek_project.Protocol.Messages.Sending.{printed-IsLine}
use deepseek_project.Base.{
  ◌+◌, ◌<◌, ◌≡◌, refl, ap, ◌∙◌, Bytes, codes, List, [], ◌∷◌, ◌++◌, Option, none, some, false,
  length, append_assoc, arith, All, All-append, sym,
}
use deepseek_project.Json.Structs.{marshal_string}
use deepseek_project.Json.Structs.RoundTrip.{IsText}
use deepseek_project.Json.Structs.Lines.{IsPrinted, marshal_string-IsPrinted}
use deepseek_project.Protocol.Sse.{scan_lines, max_token, newline, with_line}
use deepseek_project.Protocol.Sse.RoundTrip.{IsLine, scan_line}
use deepseek_project.Provider.Deepseek.{Choice}
use deepseek_project.Provider.Deepseek.Chunks.Laws.{
  chunk_text, IsChoice, choices_key, delta_key, content_key, reason_key, reason_text,
}

-- The lines of an answer and its bytes: a chunk for each choice, and the end marker, each before an empty
-- line.
abbrev pub chunk_lines : List Choice → List Bytes
chunk_lines [] = codes "data: [DONE]" ∷ [] ∷ []
chunk_lines (c ∷ cs) = (codes "data: " ++ chunk_text c) ∷ [] ∷ chunk_lines cs

abbrev pub answer_text : List Bytes → Bytes
answer_text [] = []
answer_text (line ∷ lines) = line ++ newline ∷ answer_text lines

abbrev pub answer_of : List Choice → Bytes
answer_of cs = answer_text (chunk_lines cs)

-- A chunk that the scanner's buffer holds, whose texts are valid UTF-8.
abbrev pub IsSent : Choice → Type 0
IsSent c = IsChoice c × (length (chunk_text c) + 6 < max_token)

-- A text that a brace ends.
abbrev Ends : Bytes → Type 0
Ends s = (t : Bytes) × (s ≡ t ++ b'}' ∷ [])

behind-Ends : (k s : Bytes) → Ends s → Ends (k ++ s)
behind-Ends k s (t, e) = (k ++ t, ap (λ x. k ++ x) e ∙ sym (append_assoc k t (b'}' ∷ [])))

pub chunk-Ends : (c : Choice) → (s : Bytes) × (chunk_text c ≡ b'{' ∷ (s ++ b'}' ∷ []))
chunk-Ends c =
    let (s, e) = behind-Ends (marshal_string (codes "choices")) _ (
      behind-Ends (codes ":[{") _ (
        behind-Ends (marshal_string (codes "delta")) _ (
          behind-Ends (codes ":{") _ (
            behind-Ends (marshal_string (codes "content")) _ (
              behind-Ends (codes ":") _ (
                behind-Ends (marshal_string c.content) _ (
                  behind-Ends (codes "},") _ (
                    behind-Ends (marshal_string (codes "finish_reason")) _ (
                      behind-Ends (codes ":") _
                        (behind-Ends (reason_text c.finish_reason) _ (codes "}]", refl))))))))))) in
    (s, ap (λ x. b'{' ∷ x) e)

reason_text-IsPrinted :
    (reason : Option Bytes)
    → ((r : Bytes) → reason ≡ some r → IsText r)
    → IsPrinted (reason_text reason)
reason_text-IsPrinted none h = ground arith
reason_text-IsPrinted (some r) h = marshal_string-IsPrinted r (h r refl)

string_then :
    (t k s : Bytes)
    → IsText t
    → IsPrinted k
    → IsPrinted s
    → IsPrinted (marshal_string t ++ (k ++ s))
string_then t k s h hk hs =
    All-append _ (marshal_string t) (k ++ s) (marshal_string-IsPrinted t h) (All-append _ k s hk hs)

chunk-IsPrinted : (c : Choice) → IsChoice c → IsPrinted (chunk_text c)
chunk-IsPrinted c (h, k) = (
  omega arith,
  string_then (codes "choices") (codes ":[{") _ choices_key (ground arith) (
      string_then (codes "delta") (codes ":{") _ delta_key (ground arith) (
        string_then (codes "content") (codes ":") _ content_key (ground arith) (
          string_then c.content (codes "},") _ h (ground arith) (
            string_then (codes "finish_reason") (codes ":") _ reason_key (ground arith) (
              All-append _ (reason_text c.finish_reason) _ (reason_text-IsPrinted c.finish_reason k)
                (ground arith)))))),
)

sent-IsLine : (c : Choice) → IsChoice c → IsLine (codes "data: " ++ chunk_text c)
sent-IsLine c h =
    All-append _ (codes "data: ") (chunk_text c) (ground arith)
      (printed-IsLine (chunk_text c) (chunk-IsPrinted c h))

pub scan_answer :
    (cs : List Choice)
    → All IsSent cs
    → scan_lines max_token [] (answer_of cs) ≡ (chunk_lines cs, false)
scan_answer [] h =
    scan_line max_token (codes "data: [DONE]") (newline ∷ []) (ground arith) (omega arith)
    ∙ ap (with_line (codes "data: [DONE]"))
        (scan_line max_token [] [] tt (omega arith) ∙ unfold scan_lines in refl)
scan_answer (c ∷ cs) (h, hs) =
    scan_line max_token (codes "data: " ++ chunk_text c) (newline ∷ answer_of cs)
      (sent-IsLine c h.0) (omega (arith, h.1))
    ∙ ap (with_line (codes "data: " ++ chunk_text c)) (
        scan_line max_token [] (answer_of cs) tt (omega arith)
        ∙ ap (with_line []) (scan_answer cs hs))
