-- ===== src/Gateway/Limiter.antt =====
-- internal/gateway/ratelimit.go: the limit on session creations.
pub mod Window
use deepseek_project.Base.{
  ℕ, ◌+◌, List, [], ◌∷◌, ◌++◌, Bool, true, false, if◌then◌else◌, ltb, leb, length,
}

pub record CreateLimiter : Type 0 where
  pub limit : ℕ
  pub window : ℕ
  pub stamps : List ℕ

unfoldable pub new_create_limiter : ℕ → ℕ → CreateLimiter
new_create_limiter limit window = record { limit = limit; window = window; stamps = [] }

-- The loop of `Allow`: the stamps after `now - window`. The test is `t.After(now.Add(-window))` with
-- the window on the other side, since times here do not go below 0.
unfoldable pub keep : ℕ → ℕ → List ℕ → List ℕ
keep window now [] = []
keep window now (t ∷ stamps) =
    let rest = keep window now stamps in if ltb now (t + window) then t ∷ rest else rest

-- The lock is held from the reading of the clock to the return.
unfoldable pub allow : ℕ → CreateLimiter → CreateLimiter × Bool
allow now l =
    let kept = keep l.window now l.stamps in
    if leb l.limit (length kept)
    then (record l { stamps = kept }, false)
    else (record l { stamps = kept ++ now ∷ [] }, true)

-- The calls at the times given; the times of those that were allowed, the last one first.
unfoldable pub run : CreateLimiter → List ℕ → List ℕ → List ℕ
run l granted [] = granted
run l granted (now ∷ times) =
    let (l', ok) = allow now l in run l' (if ok then now ∷ granted else granted) times
