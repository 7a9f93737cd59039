-- ===== src/Session/Validity/Updates.antt =====
-- The three ways in which operations change the maps and the heap keep a manager valid.
use deepseek_project.Base.{
  ℕ, ◌<◌, ◌≡◌, inl, inr, Bytes, some, none, length, find, find-put, find-delete, put-IsMap,
  delete-IsMap, length-put_fresh, length-delete-le, update, arith, Option-cases,
}
use deepseek_project.Session.Types.{Session, Manager, store}
use deepseek_project.Session.Create.{insert_session}
use deepseek_project.Session.Destroy.{remove_session, destroy_locked}
use deepseek_project.Session.Validity.{IsSound, IsValid}

-- A new content for a live session, with the same identifier and pairing code.
pub store-IsValid :
    (m : Manager) (id : Bytes) (p : ℕ) (s : Session)
    → IsValid m
    → find id m.sessions ≡ some p
    → s.id ≡ (m.heap p).id
    → s.pair_code ≡ (m.heap p).pair_code
    → IsSound s
    → IsValid (store p s m)
unfolding store update
store-IsValid m id p s v f same_id same_code sound = record {
  named = λ i q h. ground (arith, v.named i q h);
  stored = v.stored;
  sound = λ i q h. ground (arith, v.sound i q h);
  coded = λ c q h. ground (arith, v.coded c q h);
  keyed = v.keyed;
  code_keyed = v.code_keyed;
  bounded = v.bounded;
  erased = λ q h. ground (arith, v.erased q h, v.named id p f);
}

-- A session under an identifier that the map does not have.
pub insert_session-IsValid :
    (m : Manager) (s : Session)
    → IsValid m
    → find s.id m.sessions ≡ none
    → length m.sessions < m.cfg.max_sessions
    → IsSound s
    → IsValid (insert_session s m)
unfolding insert_session update
insert_session-IsValid m s v absent room sound = record {
  named = λ i q h. ground (arith, v.named i q, v.stored i q, find-put s.id i m.next m.sessions);
  stored = λ i q h. ground (arith, v.stored i q, find-put s.id i m.next m.sessions);
  sound = λ i q h. ground (arith, v.sound i q, v.stored i q, find-put s.id i m.next m.sessions);
  coded = λ c q h. ground (
    arith,
    v.coded c q,
    v.stored (m.heap q).id q,
    find-put s.pair_code c m.next m.by_pair_code,
    find-put s.id (m.heap q).id m.next m.sessions,
    find-put s.id s.id m.next m.sessions,
  );
  keyed = put-IsMap s.id m.next m.sessions v.keyed;
  code_keyed = put-IsMap s.pair_code m.next m.by_pair_code v.code_keyed;
  bounded = omega (arith, length-put_fresh s.id m.next m.sessions absent);
  erased = λ q h. ground (
    arith,
    v.erased q,
    find-put s.id (m.heap q).id m.next m.sessions,
    find-put s.id s.id m.next m.sessions,
  );
}

pub remove_session-IsValid :
    (m : Manager) (id : Bytes) (p : ℕ)
    → IsValid m
    → find id m.sessions ≡ some p
    → IsValid (remove_session id p m)
unfolding remove_session update
remove_session-IsValid m id p v f = record {
  named = λ i q h. ground (arith, v.named i q, v.named id p f, find-delete id i m.sessions);
  stored = λ i q h. ground (arith, v.stored i q, find-delete id i m.sessions);
  sound = λ i q h.
      ground (arith, v.sound i q, v.named i q, v.named id p f, find-delete id i m.sessions);
  coded = λ c q h. ground (
    arith,
    v.coded c q,
    v.named id p f,
    find-delete (m.heap p).pair_code c m.by_pair_code,
    find-delete id (m.heap q).id m.sessions,
  );
  keyed = delete-IsMap id m.sessions v.keyed;
  code_keyed = delete-IsMap (m.heap p).pair_code m.by_pair_code v.code_keyed;
  bounded = omega (arith, length-delete-le id m.sessions, v.bounded);
  erased =
      λ q h. ground (arith, v.erased q h, v.named id p f, find-delete id (m.heap q).id m.sessions);
}

pub destroy_locked-IsValid : (m : Manager) (id : Bytes) → IsValid m → IsValid (destroy_locked id m)
unfolding destroy_locked
destroy_locked-IsValid m id v = elim (Option-cases (find id m.sessions)) [
  | inl e ↦ rw (e, destroy_locked) v
  | inr (p, e) ↦ rw (e, destroy_locked) (remove_session-IsValid m id p v e)
]
