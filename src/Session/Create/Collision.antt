-- ===== src/Session/Create/Collision.antt =====
-- Two live sessions with one pairing code: the six digits may repeat while a session lives.
use deepseek_project.Base.{
  ℕ, ◌≡◌, ◌≢◌, Bytes, List, Option, some, find, arith, find-delete, err, update,
}
use deepseek_project.Provider.Settings.{GenerationSettings}
use deepseek_project.Session.Types.{Manager, not_found}
use deepseek_project.Session.Approve.{approve_by_code_with_settings}
use deepseek_project.Session.Destroy.{destroy, destroy_locked, remove_session}

-- Destroying one of two live sessions that have the same pairing code makes the other unreachable by the
-- code, though it stays in the map as it was, whichever of the two the code led to.
pub collision_loses_code :
    (id id' : Bytes) (p q : ℕ) (m : Manager) (settings : GenerationSettings)
    (draw : Option (List ℕ)) (now : ℕ)
    → find id m.sessions ≡ some p
    → find id' m.sessions ≡ some q
    → p ≢ q
    → (m.heap p).pair_code ≡ (m.heap q).pair_code
    → let k = destroy id m in
      (find id' k.sessions ≡ some q)
      × (k.heap q ≡ m.heap q)
      × (approve_by_code_with_settings (m.heap q).pair_code settings draw now k
          ≡ (k, err not_found))
unfolding destroy destroy_locked remove_session approve_by_code_with_settings update
collision_loses_code id id' p q m settings draw now f g n same = ground (
  arith,
  find-delete id id' m.sessions,
  find-delete (m.heap p).pair_code (m.heap q).pair_code m.by_pair_code,
)
