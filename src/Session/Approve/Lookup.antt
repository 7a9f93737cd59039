-- ===== src/Session/Approve/Lookup.antt =====
-- What the loop over the sessions finds.
use deepseek_project.Base.{
  ℕ, ◌≡◌, ◌≢◌, Bytes, Bytes-discrete, List, [], ◌∷◌, some, none, find, IsMap, arith,
}
use deepseek_project.Session.Types.{Session}
use deepseek_project.Session.Approve.{find_by_token}

-- Another entry stays where it is under a new key.
find-cons :
    (i j : Bytes) (p q : ℕ) (l : List (Bytes × ℕ))
    → find j l ≡ none
    → find i l ≡ some p
    → find i ((j, q) ∷ l) ≡ some p
unfolding find
find-cons i j p q l absent h = ground arith

-- The session found stands in the map and has the token.
pub find_by_token_sound :
    (token : Bytes) (heap : ℕ → Session) (l : List (Bytes × ℕ)) (p : ℕ)
    → IsMap l
    → find_by_token token heap l ≡ some p
    → (id : Bytes) × (find id l ≡ some p) × ((heap p).pair_token ≡ token)
unfolding find_by_token
find_by_token_sound token heap [] p u h = cc
find_by_token_sound token heap ((j, q) ∷ l) p u h =
    elim (Bytes-discrete (heap q).pair_token token) [
      | yes e ↦ (j, unfold find in ground arith, ground arith)
      | no n ↦
          let (id, f, t) = find_by_token_sound token heap l p u.1 (ground arith) in
          (id, find-cons id j p q l u.0 f, t)
    ]

-- A token that some session of the map has is found.
pub find_by_token_complete :
    (token : Bytes) (heap : ℕ → Session) (id : Bytes) (l : List (Bytes × ℕ)) (p : ℕ)
    → find id l ≡ some p
    → (heap p).pair_token ≡ token
    → find_by_token token heap l ≢ none
unfolding find_by_token find
find_by_token_complete token heap id [] p f t = cc
find_by_token_complete token heap id ((j, q) ∷ l) p f t =
    ground (arith, find_by_token_complete token heap id l p)
