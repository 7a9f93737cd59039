-- ===== src/Json/Values.antt =====
-- The values of JSON, and reading one from a text. The package's limit on the depth is left out.
use deepseek_project.Base.{
  ℕ, zero, suc, ◌+◌, Bytes, codes, [], ◌∷◌, ◌++◌, Option, none, some, Bool, true, false, ◌&&◌, ◌||◌,
  if◌then◌else◌, leb, ◌==◌, length, has_prefix, drop,
}
use deepseek_project.Base.Options.{◌>>=◌}
use deepseek_project.Json.Strings.{quote, unquote}

-- A number is kept as its text.
mutual
  pub data Value : Type 0 where
    null : Value
    bool : Bool → Value
    number : Bytes → Value
    text : Bytes → Value
    array : Items → Value
    object : Fields → Value

  pub data Items : Type 0 where
    nil : Items
    cons : Value → Items → Items

  pub data Fields : Type 0 where
    end : Fields
    field : Bytes → Value → Fields → Fields

unfoldable pub is_space : ℕ → Bool
is_space c = c == 0x20 || c == 0x09 || c == 0x0a || c == 0x0d

unfoldable pub skip_space : Bytes → Bytes
unfolding is_space
skip_space [] = []
skip_space (c ∷ s) = let rest = skip_space s in if is_space c then rest else c ∷ s

unfoldable pub is_digit : ℕ → Bool
is_digit c = leb b'0' c && leb c b'9'

abbrev before : ℕ → Bytes × Bytes → Bytes × Bytes
before c (ds, r) = (c ∷ ds, r)

-- The digits at the front, and the rest.
unfoldable pub digits : Bytes → Bytes × Bytes
unfolding is_digit
digits [] = ([], [])
digits (c ∷ s) = let more = before c (digits s) in if is_digit c then more else ([], c ∷ s)

-- At least one digit.
abbrev some_digits : Bytes × Bytes → Option (Bytes × Bytes)
some_digits ([], r) = none
some_digits (d ∷ ds, r) = some (d ∷ ds, r)

-- `0`, or digits that do not begin with it.
unfoldable pub whole : Bytes → Option (Bytes × Bytes)
unfolding digits
whole [] = none
whole (c ∷ s) = if c == b'0' then some (c ∷ [], s) else some_digits (digits (c ∷ s))

unfoldable pub fraction : Bytes → Option (Bytes × Bytes)
unfolding digits
fraction [] = some ([], [])
fraction (c ∷ s) =
    if c == b'.' then (do (ds, r) ← some_digits (digits s); some (c ∷ ds, r)) else some ([], c ∷ s)

-- A sign, if there is one.
abbrev sign : Bytes → Bytes × Bytes
sign [] = ([], [])
sign (c ∷ s) = if c == b'+' || c == b'-' then (c ∷ [], s) else ([], c ∷ s)

unfoldable pub exponent : Bytes → Option (Bytes × Bytes)
unfolding digits
exponent [] = some ([], [])
exponent (c ∷ s) =
    if c == b'e' || c == b'E'
    then (do (ds, r) ← some_digits (digits (sign s).1); some (c ∷ ((sign s).0 ++ ds), r))
    else some ([], c ∷ s)

abbrev minus : Bytes → Bytes × Bytes
minus [] = ([], [])
minus (c ∷ s) = if c == b'-' then (c ∷ [], s) else ([], c ∷ s)

unfoldable pub parse_number : Bytes → Option (Value × Bytes)
unfolding whole fraction exponent
parse_number s = do
  (ds, r) ← whole (minus s).1
  (fs, r') ← fraction r
  (es, r'') ← exponent r'
  some (number ((minus s).0 ++ (ds ++ (fs ++ es))), r'')

-- The value `v` where the text goes on with `word`.
unfoldable pub literal : Bytes → Value → Bytes → Option (Value × Bytes)
unfolding has_prefix
literal word v s = if has_prefix s word then some (v, drop (length word) s) else none

-- A string, from its opening quote on.
unfoldable pub parse_text : Bytes → Option (Bytes × Bytes)
unfolding unquote
parse_text [] = none
parse_text (c ∷ s) = if c == quote then unquote (length s + 1) s else none

unfoldable pub expect : ℕ → Bytes → Option Bytes
expect c [] = none
expect c (d ∷ s) = if c == d then some s else none

abbrev as_text : Option (Bytes × Bytes) → Option (Value × Bytes)
as_text none = none
as_text (some (t, r)) = some (text t, r)

abbrev as_array : Option (Items × Bytes) → Option (Value × Bytes)
as_array none = none
as_array (some (xs, r)) = some (array xs, r)

abbrev as_object : Option (Fields × Bytes) → Option (Value × Bytes)
as_object none = none
as_object (some (fs, r)) = some (object fs, r)

-- A value, where the two functions read what follows an opening bracket and brace.
unfoldable pub value_from :
    (Bytes → Option (Items × Bytes))
    → (Bytes → Option (Fields × Bytes))
    → Bytes
    → Option (Value × Bytes)
unfolding literal parse_text parse_number
value_from elements members [] = none
value_from elements members (c ∷ s) =
    if c == b'{'
    then as_object (members s)
    else (if c == b'['
        then as_array (elements s)
        else (if c == quote
            then as_text (parse_text (c ∷ s))
            else (if c == b'n'
                then literal (codes "null") null (c ∷ s)
                else (if c == b't'
                    then literal (codes "true") (bool true) (c ∷ s)
                    else (if c == b'f'
                        then literal (codes "false") (bool false) (c ∷ s)
                        else parse_number (c ∷ s))))))

-- After a member: the end, or a comma and more members.
unfoldable pub members_after :
    (Bytes → Option (Fields × Bytes)) → Bytes → Value → Bytes → Option (Fields × Bytes)
members_after more k v [] = none
members_after more k v (c ∷ s) =
    if c == b'}'
    then some (field k v end, s)
    else (if c == b',' then (do (fs, r) ← more s; some (field k v fs, r)) else none)

-- One member and what follows it.
unfoldable pub member_from :
    (Bytes → Option (Value × Bytes))
    → (Bytes → Option (Fields × Bytes))
    → Bytes
    → Option (Fields × Bytes)
unfolding skip_space parse_text expect members_after
member_from value more s = do
  (k, r) ← parse_text (skip_space s)
  r' ← expect b':' (skip_space r)
  (v, r'') ← value (skip_space r')
  members_after more k v (skip_space r'')

-- What follows an opening brace.
unfoldable pub members_from : (Bytes → Option (Fields × Bytes)) → Bytes → Option (Fields × Bytes)
members_from more [] = none
members_from more (c ∷ s) = if c == b'}' then some (end, s) else more (c ∷ s)

unfoldable pub elements_after :
    (Bytes → Option (Items × Bytes)) → Value → Bytes → Option (Items × Bytes)
elements_after more v [] = none
elements_after more v (c ∷ s) =
    if c == b']'
    then some (cons v nil, s)
    else (if c == b',' then (do (xs, r) ← more s; some (cons v xs, r)) else none)

unfoldable pub element_from :
    (Bytes → Option (Value × Bytes))
    → (Bytes → Option (Items × Bytes))
    → Bytes
    → Option (Items × Bytes)
unfolding skip_space elements_after
element_from value more s = do (v, r) ← value (skip_space s); elements_after more v (skip_space r)

unfoldable pub elements_from : (Bytes → Option (Items × Bytes)) → Bytes → Option (Items × Bytes)
elements_from more [] = none
elements_from more (c ∷ s) = if c == b']' then some (nil, s) else more (c ∷ s)

-- Fuel above the length of the text is enough: each step reads a byte.
unfoldable mutual
  unfolding value_from member_from members_from element_from elements_from skip_space

  pub parse_value : ℕ → Bytes → Option (Value × Bytes)
  parse_value zero s = none
  parse_value (suc n) s =
      value_from (λ r. elements_from (parse_elements n) (skip_space r))
        (λ r. members_from (parse_members n) (skip_space r)) s

  pub parse_members : ℕ → Bytes → Option (Fields × Bytes)
  parse_members zero s = none
  parse_members (suc n) s = member_from (parse_value n) (parse_members n) s

  pub parse_elements : ℕ → Bytes → Option (Items × Bytes)
  parse_elements zero s = none
  parse_elements (suc n) s = element_from (parse_value n) (parse_elements n) s

-- The first value of a text, as a `json.Decoder` reads it, and the rest.
unfoldable pub parse_first : Bytes → Option (Value × Bytes)
unfolding skip_space
parse_first s = parse_value (length s + 1) (skip_space s)

abbrev alone : Option (Value × Bytes) → Option Value
alone none = none
alone (some (v, [])) = some v
alone (some (v, c ∷ r)) = none

-- A text that is one value, as `json.Unmarshal` reads it.
unfoldable pub parse : Bytes → Option Value
unfolding parse_first skip_space
parse s = do (v, r) ← parse_first s; alone (some (v, skip_space r))
