-- ===== src/Base/Heap.antt =====
-- A heap: what each pointer denotes.
use Prim.Native.Nat.{ℕ}
use mathlib.Core.Path.{◌≡◌}
use mathlib.Core.Logic.{ite, ◌≢◌}
use native.Mathlib.Omega.{arith}
use native.Mathlib.Decide.{ℕ_discrete}

module _ {ℓ} {A : Type ℓ} where
  -- `*p = a`
  unfoldable pub update : (ℕ → A) → ℕ → A → ℕ → A
  update h p a q = ite (ℕ_discrete p q) a (h q)

  pub update_same : (h : ℕ → A) (p : ℕ) (a : A) → update h p a p ≡ a
  unfolding update
  update_same h p a = ground arith

  pub update_other : (h : ℕ → A) (p q : ℕ) (a : A) → p ≢ q → update h p a q ≡ h q
  unfolding update
  update_other h p q a n = ground arith
