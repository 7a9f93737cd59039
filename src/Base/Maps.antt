-- ===== src/Base/Maps.antt =====
-- Go maps with string keys as association lists. The order of the list is one of the orders in
-- which `range` may visit the map.
use mathlib.Core.Path.{◌≡◌, refl}
use mathlib.Core.Logic.{ite}
use mathlib.Core.List.{List, [], ◌∷◌}
use mathlib.Core.Option.{Option, none, some}
use native.Mathlib.Omega.{arith}
use Prim.Native.Nat.{suc, ◌≤◌}
use deepseek_project.Base.Lists.{length}
use deepseek_project.Base.Strings.{Bytes, Bytes-discrete}

module _ {ℓ} {V : Type ℓ} where
  -- `v, ok := m[k]`
  unfoldable pub find : Bytes → List (Bytes × V) → Option V
  find k [] = none
  find k ((j, v) ∷ m) = ite (Bytes-discrete j k) (some v) (find k m)

  -- `m[k] = v`
  unfoldable pub put : Bytes → V → List (Bytes × V) → List (Bytes × V)
  put k v [] = (k, v) ∷ []
  put k v ((j, w) ∷ m) = ite (Bytes-discrete j k) ((k, v) ∷ m) ((j, w) ∷ put k v m)

  -- `delete(m, k)`
  unfoldable pub delete : Bytes → List (Bytes × V) → List (Bytes × V)
  delete k [] = []
  delete k ((j, v) ∷ m) = ite (Bytes-discrete j k) (delete k m) ((j, v) ∷ delete k m)

  -- A key stands once.
  abbrev pub IsMap : List (Bytes × V) → Type ℓ
  IsMap [] = Unit
  IsMap ((k, v) ∷ m) = (find k m ≡ none) × IsMap m

  pub find-put :
      (k j : Bytes) (v : V) (m : List (Bytes × V))
      → find j (put k v m) ≡ ite (Bytes-discrete k j) (some v) (find j m)
  unfolding find put
  find-put k j v [] = refl
  find-put k j v ((i, w) ∷ m) = ground (arith, find-put k j v m)

  pub find-delete :
      (k j : Bytes) (m : List (Bytes × V))
      → find j (delete k m) ≡ ite (Bytes-discrete k j) none (find j m)
  unfolding find delete
  find-delete k j [] = ground arith
  find-delete k j ((i, w) ∷ m) = ground (arith, find-delete k j m)

  pub put-IsMap : (k : Bytes) (v : V) (m : List (Bytes × V)) → IsMap m → IsMap (put k v m)
  unfolding put find
  put-IsMap k v [] h = (refl, tt)
  put-IsMap k v ((i, w) ∷ m) h = ground (arith, put-IsMap k v m h.1, find-put k i v m)

  pub delete-IsMap : (k : Bytes) (m : List (Bytes × V)) → IsMap m → IsMap (delete k m)
  unfolding delete
  delete-IsMap k [] h = tt
  delete-IsMap k ((i, w) ∷ m) h = ground (arith, delete-IsMap k m h.1, find-delete k i m)

  pub length-put_fresh :
      (k : Bytes) (v : V) (m : List (Bytes × V))
      → find k m ≡ none
      → length (put k v m) ≡ suc (length m)
  unfolding find put
  length-put_fresh k v [] h = refl
  length-put_fresh k v ((i, w) ∷ m) h = ground (arith, length-put_fresh k v m)

  pub length-put-le :
      (k : Bytes) (v : V) (m : List (Bytes × V)) → length (put k v m) ≤ suc (length m)
  unfolding put
  length-put-le k v [] = omega arith
  length-put-le k v ((i, w) ∷ m) = ground (arith, length-put-le k v m)

  pub length-delete-le : (k : Bytes) (m : List (Bytes × V)) → length (delete k m) ≤ length m
  unfolding delete
  length-delete-le k [] = omega arith
  length-delete-le k ((i, w) ∷ m) = ground (arith, length-delete-le k m)

  pub delete_absent : (k : Bytes) (m : List (Bytes × V)) → find k m ≡ none → delete k m ≡ m
  unfolding find delete
  delete_absent k [] h = refl
  delete_absent k ((i, w) ∷ m) h = ground (arith, delete_absent k m)

  pub length-delete :
      (k : Bytes) (v : V) (m : List (Bytes × V))
      → IsMap m
      → find k m ≡ some v
      → suc (length (delete k m)) ≡ length m
  unfolding find delete
  length-delete k v [] u h = cc
  length-delete k v ((i, w) ∷ m) u h = ground (arith, length-delete k v m u.1, delete_absent k m)
