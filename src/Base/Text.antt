-- ===== src/Base/Text.antt =====
-- Go's strings package, as far as the program uses it.
use Prim.Native.Nat.{ℕ}
use mathlib.Core.Bool.{Bool, true, false, ◌&&◌, ◌||◌}
use mathlib.Core.List.{[], ◌∷◌, reverse}
use deepseek_project.Base.Tests.{leb, ◌==◌, if◌then◌else◌}
use deepseek_project.Base.Lists.{length, drop}
use deepseek_project.Base.Strings.{Bytes}

-- `strings.HasPrefix(s, prefix)`
unfoldable pub has_prefix : Bytes → Bytes → Bool
has_prefix s [] = true
has_prefix [] (p ∷ prefix) = false
has_prefix (c ∷ s) (p ∷ prefix) = c == p && has_prefix s prefix

-- `strings.TrimPrefix(s, prefix)`
unfoldable pub trim_prefix : Bytes → Bytes → Bytes
trim_prefix s prefix = if has_prefix s prefix then drop (length prefix) s else s

-- The white space of Unicode in UTF-8: of one byte, of two and of three.
unfoldable pub is_space_1 : ℕ → Bool
is_space_1 a = a == 0x20 || (leb 0x09 a && leb a 0x0d)

unfoldable pub is_space_2 : ℕ → ℕ → Bool
is_space_2 a b = a == 0xc2 && (b == 0x85 || b == 0xa0)

unfoldable pub is_space_3 : ℕ → ℕ → ℕ → Bool
is_space_3 a b c =
    (a == 0xe1 && b == 0x9a && c == 0x80)
    || (a == 0xe2
        && b == 0x80
        && ((leb 0x80 c && leb c 0x8a) || c == 0xa8 || c == 0xa9 || c == 0xaf))
    || (a == 0xe2 && b == 0x81 && c == 0x9f)
    || (a == 0xe3 && b == 0x80 && c == 0x80)

-- Drops the white space at the front.
unfoldable pub trim_left : Bytes → Bytes
trim_left [] = []
trim_left (a ∷ []) = if is_space_1 a then [] else a ∷ []
trim_left (a ∷ b ∷ []) = elim (is_space_1 a) [
  | true ↦ trim_left (b ∷ [])
  | false ↦ if is_space_2 a b then [] else a ∷ b ∷ []
]
trim_left (a ∷ b ∷ c ∷ s) = elim (is_space_1 a) [
  | true ↦ trim_left (b ∷ c ∷ s)
  | false ↦ elim (is_space_2 a b) [
    | true ↦ trim_left (c ∷ s)
    | false ↦ elim (is_space_3 a b c) [ true ↦ trim_left s | false ↦ a ∷ b ∷ c ∷ s ]
  ]
]

-- The same on a reversed text, whose characters have their bytes in the other order.
unfoldable pub trim_left_reversed : Bytes → Bytes
trim_left_reversed [] = []
trim_left_reversed (a ∷ []) = if is_space_1 a then [] else a ∷ []
trim_left_reversed (b ∷ a ∷ []) = elim (is_space_1 b) [
  | true ↦ trim_left_reversed (a ∷ [])
  | false ↦ if is_space_2 a b then [] else b ∷ a ∷ []
]
trim_left_reversed (c ∷ b ∷ a ∷ s) = elim (is_space_1 c) [
  | true ↦ trim_left_reversed (b ∷ a ∷ s)
  | false ↦ elim (is_space_2 b c) [
    | true ↦ trim_left_reversed (a ∷ s)
    | false ↦ elim (is_space_3 a b c) [ true ↦ trim_left_reversed s | false ↦ c ∷ b ∷ a ∷ s ]
  ]
]

-- `strings.TrimSpace(s)`
unfoldable pub trim_space : Bytes → Bytes
trim_space s = reverse (trim_left_reversed (reverse (trim_left s)))

-- `strings.TrimRight(s, "/")`
unfoldable pub drop_slashes : Bytes → Bytes
drop_slashes [] = []
drop_slashes (c ∷ s) = let rest = drop_slashes s in if c == b'/' then rest else c ∷ s

unfoldable pub trim_slashes : Bytes → Bytes
trim_slashes s = reverse (drop_slashes (reverse s))
