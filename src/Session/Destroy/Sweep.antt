-- ===== src/Session/Destroy/Sweep.antt =====
-- The sweep destroys exactly the expired sessions, in whatever order it visits them.
use deepseek_project.Base.{
  ℕ, ◌<◌, ◌≡◌, ◌≢◌, inl, inr, refl, Bytes, Bytes-discrete, List, [], ◌∷◌, Option, none, some, find,
  update, arith, Option-cases, find-delete, ite, IsMap, if◌then◌else◌, sym, ◌∙◌, ◌↔◌, ◌⊎◌,
}
use deepseek_project.Session.Types.{Session, Manager}
use deepseek_project.Session.Destroy.{
  is_expired, remove_session, destroy_locked, sweep_one, sweep_over, waiting, approved,
}
use deepseek_project.Session.Validity.{IsValid}
use deepseek_project.Session.Validity.Updates.{destroy_locked-IsValid}

-- What is left of an entry.
abbrev pub survivor : ℕ → (ℕ → Session) → Option ℕ → Option ℕ
survivor now heap none = none
survivor now heap (some p) = if is_expired now (heap p) then none else some p

-- The entries that a visit may meet: each is an entry of the map.
abbrev pub Within : List (Bytes × ℕ) → Manager → Type 0
Within l m = (id : Bytes) (p : ℕ) → find id l ≡ some p → find id m.sessions ≡ some p

sweep_one-IsValid :
    (now : ℕ) (id : Bytes) (p : ℕ) (m : Manager) → IsValid m → IsValid (sweep_one now id p m)
unfolding sweep_one
sweep_one-IsValid now id p m v = ground (arith, destroy_locked-IsValid m id v)

find-sweep_one :
    (now : ℕ) (id : Bytes) (p : ℕ) (m : Manager) (j : Bytes)
    → find id m.sessions ≡ some p
    → find j (sweep_one now id p m).sessions
      ≡ ite (Bytes-discrete id j) (survivor now m.heap (some p)) (find j m.sessions)
unfolding sweep_one destroy_locked remove_session
find-sweep_one now id p m j f = ground (arith, find-delete id j m.sessions)

heap-sweep_one :
    (now : ℕ) (id : Bytes) (p : ℕ) (m : Manager) (q : ℕ)
    → find id m.sessions ≡ some p
    → p ≢ q
    → (sweep_one now id p m).heap q ≡ m.heap q
unfolding sweep_one destroy_locked remove_session update
heap-sweep_one now id p m q f n = ground arith

abbrev after_visit : ℕ → (ℕ → Session) → Option ℕ → Option ℕ → Option ℕ
after_visit now heap none old = old
after_visit now heap (some p) old = survivor now heap (some p)

Within-tail :
    (now : ℕ) (id : Bytes) (p : ℕ) (l : List (Bytes × ℕ)) (m : Manager)
    → IsMap ((id, p) ∷ l)
    → Within ((id, p) ∷ l) m
    → find id m.sessions ≡ some p
    → Within l (sweep_one now id p m)
unfolding find
Within-tail now id p l m u w f j q h = ground (arith, w j q, find-sweep_one now id p m j f)

first_entry : (id : Bytes) (p : ℕ) (l : List (Bytes × ℕ)) → find id ((id, p) ∷ l) ≡ some p
unfolding find
first_entry id p l = ground arith

-- An entry further on is another session's.
other_cell :
    (id j : Bytes) (p q : ℕ) (l : List (Bytes × ℕ)) (m : Manager)
    → IsValid m
    → IsMap ((id, p) ∷ l)
    → Within ((id, p) ∷ l) m
    → find id m.sessions ≡ some p
    → find j l ≡ some q
    → p ≢ q
unfolding find
other_cell id j p q l m v u w f g same = ground (arith, w j q, v.named id p f, v.named j q)

after_first :
    (now : ℕ) (id j : Bytes) (p : ℕ) (l : List (Bytes × ℕ)) (m : Manager) (r : Option ℕ)
    → IsValid m
    → IsMap ((id, p) ∷ l)
    → Within ((id, p) ∷ l) m
    → find id m.sessions ≡ some p
    → r
      ≡ after_visit now
          (sweep_one now id p m).heap
          (find j l)
          (find j (sweep_one now id p m).sessions)
    → r ≡ after_visit now m.heap (find j ((id, p) ∷ l)) (find j m.sessions)
unfolding find
after_first now id j p l m r v u w f ih = elim (Option-cases (find j l)) [
  | inl e ↦ ground (arith, find-sweep_one now id p m j f)
  | inr (q, e) ↦
      let other = other_cell id j p q l m v u w f e in
      ground (arith, find-sweep_one now id p m j f, heap-sweep_one now id p m q f other)
]

-- After a visit of some entries of the map, those that were visited are left where they have not
-- expired, and the others are as they were.
find-sweep_over :
    (now : ℕ) (l : List (Bytes × ℕ)) (m : Manager) (j : Bytes)
    → IsValid m
    → IsMap l
    → Within l m
    → find j (sweep_over now l m).sessions ≡ after_visit now m.heap (find j l) (find j m.sessions)
unfolding sweep_over
find-sweep_over now [] m j v u w = unfold find in refl
find-sweep_over now ((id, p) ∷ l) m j v u w =
    let f = w id p (first_entry id p l) in
    after_first now id j p l m _ v u w f (
      find-sweep_over now l (sweep_one now id p m) j (sweep_one-IsValid now id p m v) u.1
        (Within-tail now id p l m u w f))

-- An order in which `range` may visit the sessions: each entry once.
pub record IsVisit (l : List (Bytes × ℕ)) (m : Manager) : Type 0 where
  pub once : IsMap l
  pub entries : (j : Bytes) → find j l ≡ find j m.sessions

-- A sweep leaves of the map what it leaves of each entry, whatever the order of the visit.
pub find-sweep :
    (now : ℕ) (l : List (Bytes × ℕ)) (m : Manager) (j : Bytes)
    → IsValid m
    → IsVisit l m
    → find j (sweep_over now l m).sessions ≡ survivor now m.heap (find j m.sessions)
find-sweep now l m j v visit = ground (
  arith,
  visit.entries j,
  find-sweep_over now l m j v visit.once (λ i q h. sym (visit.entries i) ∙ h),
)

-- A session that waits beyond its pairing deadline, or is approved and idle beyond its idle deadline.
abbrev pub IsOver : ℕ → Session → Type 0
IsOver now s =
    ((s.state ≡ waiting) × (s.pair_expiry < now)) ⊎ ((s.state ≡ approved) × (s.idle_deadline < now))

-- In a valid manager, whatever the order in which the sweep visits the sessions, a session stays in the
-- map exactly if it does not wait beyond its pairing deadline and is not idle, after its approval, beyond
-- its idle deadline. So one that is answering a prompt stays.
pub sweep_over_iff :
    (now : ℕ) (l : List (Bytes × ℕ)) (m : Manager) (j : Bytes) (p : ℕ)
    → IsValid m
    → IsVisit l m
    → (find j (sweep_over now l m).sessions ≡ some p)
      ↔ ((find j m.sessions ≡ some p) × ¬ IsOver now (m.heap p))
sweep_over_iff now l m j p v visit = elim (Option-cases (find j m.sessions)) [
  | inl e ↦ ground (arith, find-sweep now l m j v visit)
  | inr (q, e) ↦ ground (arith, find-sweep now l m j v visit)
]

-- `sweep` is such a visit.
pub own_IsVisit : (m : Manager) → IsValid m → IsVisit m.sessions m
own_IsVisit m v = record { once = v.keyed; entries = λ j. refl }
