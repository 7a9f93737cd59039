-- ===== src/Provider/Deepseek/Chunks.antt =====
-- internal/provider/deepseek/deepseek.go: a `streamChunk`, read from its JSON text. Members that stand
-- twice write to the same fields. Where `choices` stands three times in a chunk, what the third finds
-- behind the end of the second is left out.
pub mod Laws
pub mod Lines
pub mod Answer
use deepseek_project.Base.{
  Bytes, codes, List, [], ◌∷◌, Option, none, some, Bool, true, false, ◌&&◌, if◌then◌else◌,
}
use deepseek_project.Json.Values.{Value, null, text, array, object, Items, nil, cons, Fields}
use deepseek_project.Json.Structs.{set_text, fits_text, fold_fields, all_fit, unmarshal}
use deepseek_project.Provider.Deepseek.{Choice}

-- The field `Delta`, of which only the content is read.
abbrev set_delta : Value → Bytes → Bytes
set_delta (object fs) content = fold_fields set_text (codes "content") content fs
set_delta _ content = content

abbrev fits_delta : Value → Bool
fits_delta (object fs) = all_fit fits_text (codes "content") fs
fits_delta null = true
fits_delta _ = false

-- A field of the type `*string`.
abbrev set_reason : Value → Option Bytes → Option Bytes
set_reason (text t) current = some t
set_reason null current = none
set_reason _ current = current

abbrev set_choice : Value → Choice → Choice
set_choice (object fs) c = record {
  content = fold_fields set_delta (codes "delta") c.content fs;
  finish_reason = fold_fields set_reason (codes "finish_reason") c.finish_reason fs;
}
set_choice _ c = c

abbrev fits_choice : Value → Bool
fits_choice (object fs) =
    all_fit fits_delta (codes "delta") fs && all_fit fits_text (codes "finish_reason") fs
fits_choice null = true
fits_choice _ = false

abbrev no_choice : Choice
no_choice = record { content = []; finish_reason = none }

-- The elements that are there are written to, and those behind the array's end are dropped.
unfoldable pub set_items : Items → List Choice → List Choice
set_items nil current = []
set_items (cons v vs) [] = set_choice v no_choice ∷ set_items vs []
set_items (cons v vs) (c ∷ current) = set_choice v c ∷ set_items vs current

unfoldable pub fit_items : Items → Bool
fit_items nil = true
fit_items (cons v vs) = fits_choice v && fit_items vs

abbrev set_choices : Value → List Choice → List Choice
set_choices (array vs) current = set_items vs current
set_choices null current = []
set_choices _ current = current

abbrev fits_choices : Value → Bool
fits_choices (array vs) = fit_items vs
fits_choices null = true
fits_choices _ = false

abbrev pub choices_of : Fields → Option (List Choice)
choices_of fs =
    if all_fit fits_choices (codes "choices") fs
    then some (fold_fields set_choices (codes "choices") [] fs)
    else none

-- `json.Unmarshal([]byte(data), &ch)`
unfoldable pub decode_chunk : Bytes → Option (List Choice)
decode_chunk json = unmarshal choices_of json
