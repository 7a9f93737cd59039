-- ===== src/Session/Refinement/Views.antt =====
-- The manager's view, and how the changes of the maps and of the heap show in it.
use deepseek_project.Base.{
  ℕ, ◌≡◌, inl, inr, Bytes, Option, none, some, find, update, arith, Option-cases, find-put,
  find-delete, List, sym, ◌∙◌,
}
use deepseek_project.Base.Options.{◌>>=◌}
use deepseek_project.Session.Types.{Session, Manager, store}
use deepseek_project.Session.Create.{insert_session}
use deepseek_project.Session.Destroy.{remove_session, sweep_over}
use deepseek_project.Session.Destroy.Sweep.{find-sweep, IsVisit}
use deepseek_project.Session.Trace.Evolution.{sweep_over-wiped}
use deepseek_project.Session.Validity.{IsValid}
use deepseek_project.Session.Validity.Operations.{sweep_over-IsValid}
use deepseek_project.Session.Refinement.{View, change, enter, kept}

-- The sessions that the manager's map has.
unfoldable pub view : Manager → View
view m id = elim (find id m.sessions) [ none ↦ none | some p ↦ some (m.heap p) ]

pub view-store :
    (m : Manager) (id : Bytes) (p : ℕ) (s : Session) (f : Session → Option Session) (j : Bytes)
    → IsValid m
    → find id m.sessions ≡ some p
    → f (m.heap p) ≡ some s
    → view (store p s m) j ≡ change id f (view m) j
unfolding view change store update
view-store m id p s f j v h e = ground (arith, v.named id p h, v.named j p)

pub view-insert :
    (m : Manager) (s : Session) (j : Bytes)
    → IsValid m
    → view (insert_session s m) j ≡ enter s (view m) j
unfolding view enter insert_session update
view-insert m s j v = elim (Option-cases (find j m.sessions)) [
  | inl e ↦ ground (arith, find-put s.id j m.next m.sessions)
  | inr (q, e) ↦ ground (arith, v.stored j q e, find-put s.id j m.next m.sessions)
]

pub view-remove :
    (m : Manager) (id : Bytes) (p : ℕ) (f : Session → Option Session) (j : Bytes)
    → IsValid m
    → find id m.sessions ≡ some p
    → f (m.heap p) ≡ none
    → view (remove_session id p m) j ≡ change id f (view m) j
unfolding view change remove_session update
view-remove m id p f j v e n = elim (Option-cases (find j m.sessions)) [
  | inl g ↦ ground (arith, find-delete id j m.sessions)
  | inr (q, g) ↦ ground (arith, find-delete id j m.sessions, v.named id p e, v.named j q g)
]

-- A call that names no session changes nothing.
pub view_absent :
    (m : Manager) (id : Bytes) (f : Session → Option Session) (j : Bytes)
    → find id m.sessions ≡ none
    → view m j ≡ change id f (view m) j
unfolding view change
view_absent m id f j h = ground arith

-- A call that leaves the session that it names.
pub view_same :
    (m : Manager) (id : Bytes) (p : ℕ) (f : Session → Option Session) (j : Bytes)
    → find id m.sessions ≡ some p
    → f (m.heap p) ≡ some (m.heap p)
    → view m j ≡ change id f (view m) j
unfolding view change
view_same m id p f j h e = ground arith

-- A session that a sweep leaves in the map keeps its memory.
heap-sweep_over :
    (now : ℕ) (l : List (Bytes × ℕ)) (m : Manager) (j : Bytes) (p : ℕ)
    → IsValid m
    → find j (sweep_over now l m).sessions ≡ some p
    → (sweep_over now l m).heap p ≡ m.heap p
heap-sweep_over now l m j p v f =
    ground (arith, sweep_over-wiped now l m p, (sweep_over-IsValid now l m v).sound j p f)

-- A sweep leaves of each session of the view what its deadlines leave, whatever the order of the
-- visit.
pub view-sweep_over :
    (now : ℕ) (l : List (Bytes × ℕ)) (m : Manager) (j : Bytes)
    → IsValid m
    → IsVisit l m
    → view (sweep_over now l m) j ≡ view m j >>= kept now
unfolding view
view-sweep_over now l m j v visit = elim (Option-cases (find j m.sessions)) [
  | inl e ↦ ground (arith, find-sweep now l m j v visit)
  | inr (p, e) ↦ ground (arith, find-sweep now l m j v visit, heap-sweep_over now l m j p v)
]

-- In a valid manager the order in which `Sweep` visits the sessions does not matter: after any two
-- visits the manager has the same sessions, with the same memory.
pub sweep_over-order :
    (now : ℕ) (l l' : List (Bytes × ℕ)) (m : Manager) (j : Bytes)
    → IsValid m
    → IsVisit l m
    → IsVisit l' m
    → view (sweep_over now l m) j ≡ view (sweep_over now l' m) j
sweep_over-order now l l' m j v a b =
    view-sweep_over now l m j v a ∙ sym (view-sweep_over now l' m j v b)
