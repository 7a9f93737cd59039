-- ===== src/Base/Strings.antt =====
-- A Go string is a sequence of bytes.
use Prim.Native.Char.{code}
use Prim.Native.String.{String}
use Prim.Native.Nat.{ℕ}
use mathlib.Core.Path.{◌≡◌, refl}
use mathlib.Core.Logic.{ite}
use mathlib.Core.Bool.{Bool, true, false}
use mathlib.Core.List.{List, [], ◌∷◌}
use native.Mathlib.Decide.{ℕ_discrete}

abbrev pub Bytes : Type 0
Bytes = List ℕ

-- The bytes of an ASCII literal.
abbrev pub codes : String → Bytes
codes String.[] = []
codes (String.◌∷◌ c s) = code c ∷ codes s

unfoldable pub Bytes-discrete : Discrete Bytes
Bytes-discrete = hlevel ℕ_discrete

-- `==` on strings.
abbrev pub text_eq : Bytes → Bytes → Bool
text_eq a b = ite (Bytes-discrete a b) true false

text_eq_same : text_eq (codes "deepseek-v4-flash") (codes "deepseek-v4-flash") ≡ true
unfolding Bytes-discrete ℕ_discrete
text_eq_same = refl
