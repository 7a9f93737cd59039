-- ===== src/Config/Laws.antt =====
-- The configuration never has a duration or a number that is not positive, unless by its default.
use deepseek_project.Base.{
  ℕ, zero, suc, ◌≡◌, ◌≢◌, ◌⊎◌, inl, inr, refl, Bytes, Bytes-discrete, [], Option, none, some, ℤ,
  pos, negsuc, arith,
}
use deepseek_project.Config.{Env, duration, int, scan_int, if_positive}

-- A value that is read, or the default.
abbrev pub IsRead : (Bytes → Option ℤ) → Bytes → ℤ → ℤ → Type 0
IsRead read text default value =
    (value ≡ default)
    ⊎ ((n : ℕ) × (value ≡ pos (suc n)) × (text ≢ []) × (read text ≡ some (pos (suc n))))

if_positive-cases :
    (o : Option ℤ) (default : ℤ)
    → (if_positive o default ≡ default)
      ⊎ ((n : ℕ) × (if_positive o default ≡ pos (suc n)) × (o ≡ some (pos (suc n))))
if_positive-cases none default = inl refl
if_positive-cases (some (pos zero)) default = inl refl
if_positive-cases (some (pos (suc n))) default = inr (n, refl, refl)
if_positive-cases (some (negsuc n)) default = inl refl

pub duration-IsRead :
    (parse_duration : Bytes → Option ℤ) (getenv : Env) (key : Bytes) (default : ℤ)
    → IsRead parse_duration (getenv key) default (duration parse_duration getenv key default)
unfolding duration
duration-IsRead parse_duration getenv key default = elim (Bytes-discrete (getenv key) []) [
  | yes e ↦ inl (ground arith)
  | no filled ↦ elim (if_positive-cases (parse_duration (getenv key)) default) [
    | inl e ↦ inl (ground arith)
    | inr (n, e, r) ↦ inr (n, ground arith, filled, r)
  ]
]

pub int-IsRead :
    (getenv : Env) (key : Bytes) (default : ℤ)
    → IsRead scan_int (getenv key) default (int getenv key default)
unfolding int
int-IsRead getenv key default = elim (Bytes-discrete (getenv key) []) [
  | yes e ↦ inl (ground arith)
  | no filled ↦ elim (if_positive-cases (scan_int (getenv key)) default) [
    | inl e ↦ inl (ground arith)
    | inr (n, e, r) ↦ inr (n, ground arith, filled, r)
  ]
]
