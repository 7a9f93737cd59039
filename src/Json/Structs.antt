-- ===== src/Json/Structs.antt =====
-- A struct of scalar fields as a JSON text, and its fields read from a text.
pub mod RoundTrip
pub mod Lines
use deepseek_project.Base.{
  ℕ, ◌+◌, Bytes, codes, List, [], ◌∷◌, ◌++◌, Option, none, some, Bool, true, false, ◌&&◌, ◌||◌,
  if◌then◌else◌, leb, length, text_eq, ◌==◌,
}
use deepseek_project.Base.Options.{◌>>=◌}
use deepseek_project.Json.Strings.{quote, escape}
use deepseek_project.Json.Values.{
  Value, null, bool, number, text, object, Fields, end, field, parse, parse_first,
}

unfoldable pub marshal_string : Bytes → Bytes
marshal_string s = quote ∷ (escape (length s) s ++ quote ∷ [])

-- A scalar field's value. A number is given by its digits.
pub data Scalar : Type 0 where
  text_value : Bytes → Scalar
  bool_value : Bool → Scalar
  number_value : Bytes → Scalar

abbrev pub value_of : Scalar → Value
value_of (text_value s) = text s
value_of (bool_value b) = bool b
value_of (number_value ds) = number ds

unfoldable pub marshal_scalar : Scalar → Bytes
unfolding marshal_string
marshal_scalar (text_value s) = marshal_string s
marshal_scalar (bool_value true) = codes "true"
marshal_scalar (bool_value false) = codes "false"
marshal_scalar (number_value ds) = ds

unfoldable pub member : Bytes → Scalar → Bytes
unfolding marshal_string marshal_scalar
member key value = marshal_string key ++ b':' ∷ marshal_scalar value

-- The members and the closing brace, for at least one member.
unfoldable pub members : Bytes → Scalar → List (Bytes × Scalar) → Bytes
unfolding member
members key value [] = member key value ++ b'}' ∷ []
members key value ((k, v) ∷ more) = member key value ++ b',' ∷ members k v more

-- `json.Marshal` of a struct whose fields that are not omitted are these, in their order.
unfoldable pub marshal : List (Bytes × Scalar) → Bytes
unfolding members
marshal [] = codes "{}"
marshal ((key, value) ∷ more) = b'{' ∷ members key value more

-- A key for the comparison with a field's name, which ignores the case of the letters. Two
-- characters outside ASCII fold to the letters s and k.
unfoldable pub fold_letter : ℕ → ℕ
fold_letter c = if leb b'A' c && leb c b'Z' then c + 32 else c

unfoldable pub fold_name : Bytes → Bytes
unfolding fold_letter
fold_name [] = []
fold_name (a ∷ []) = fold_letter a ∷ []
fold_name (a ∷ b ∷ []) = elim (a == 0xc5 && b == 0xbf) [
  | true ↦ b's' ∷ []
  | false ↦ fold_letter a ∷ fold_name (b ∷ [])
]
fold_name (a ∷ b ∷ c ∷ s) = elim (a == 0xc5 && b == 0xbf) [
  | true ↦ b's' ∷ fold_name (c ∷ s)
  | false ↦ elim (a == 0xe2 && b == 0x84 && c == 0xaa) [
    | true ↦ b'k' ∷ fold_name s
    | false ↦ fold_letter a ∷ fold_name (b ∷ c ∷ s)
  ]
]

-- The key of a member names the field `name`, which is in lower case.
unfoldable pub names : Bytes → Bytes → Bool
unfolding fold_name
names key name = text_eq (fold_name key) name

-- A text field after a member that names it: null and a value of another type leave it.
abbrev pub set_text : Value → Bytes → Bytes
set_text (text t) current = t
set_text _ current = current

-- A field of the type `*bool`.
abbrev pub set_bool : Value → Option Bool → Option Bool
set_bool (bool b) current = some b
set_bool null current = none
set_bool _ current = current

abbrev pub fits_text : Value → Bool
fits_text (text t) = true
fits_text null = true
fits_text _ = false

abbrev pub fits_bool : Value → Bool
fits_bool (bool b) = true
fits_bool null = true
fits_bool _ = false

-- A field after all members.
unfoldable pub fold_fields {ℓ} : {A : Type ℓ} → (Value → A → A) → Bytes → A → Fields → A
unfolding names
fold_fields set name current end = current
fold_fields set name current (field key v fs) =
    fold_fields set name (if names key name then set v current else current) fs

-- No member that names the field has a value of another type.
unfoldable pub all_fit : (Value → Bool) → Bytes → Fields → Bool
unfolding names
all_fit fits name end = true
all_fit fits name (field key v fs) =
    (if names key name then fits v else true) && all_fit fits name fs

-- The members that a value brings to a struct; `none` for a value that is no object.
abbrev pub fields_of : Value → Option Fields
fields_of (object fs) = some fs
fields_of null = some end
fields_of _ = none

unfoldable pub text_field : Bytes → Fields → Option Bytes
unfolding fold_fields all_fit
text_field name fs =
    if all_fit fits_text name fs then some (fold_fields set_text name [] fs) else none

unfoldable pub bool_field : Bytes → Fields → Option (Option Bool)
unfolding fold_fields all_fit
bool_field name fs =
    if all_fit fits_bool name fs then some (fold_fields set_bool name none fs) else none

-- `json.Unmarshal` into a struct, whose fields `read` takes from the members.
abbrev pub unmarshal {ℓ} : {A : Type ℓ} → (Fields → Option A) → Bytes → Option A
unmarshal read s = do v ← parse s; fs ← fields_of v; read fs

abbrev pub first_fields : Option (Value × Bytes) → Option Fields
first_fields none = none
first_fields (some (v, r)) = fields_of v

-- `json.NewDecoder(r).Decode` of a struct; what stands behind the first value is not read.
unfoldable pub decode_first {ℓ} : {A : Type ℓ} → (Fields → Option A) → Bytes → Option A
unfolding parse_first
decode_first read s = do fs ← first_fields (parse_first s); read fs
