-- ===== src/Gateway/Routes/Paths.antt =====
-- The paths that the terminal asks for lead to the handlers that it means.
use deepseek_project.Crypto.Base64.{is_url_safe}
use deepseek_project.Base.{
  ◌≡◌, ◌≢◌, refl, ap, ◌∙◌, Bytes, Bytes-discrete, ℕ_discrete, codes, [], ◌∷◌, ◌++◌, All, arith, ℕ,
  true, false, All-map, some, All-append, text_eq,
}
use deepseek_project.Gateway.Routes.{
  gets_status, prompts, cancels, closes, ends, segments, route, route_from, cut, unescape, is_dots,
  are_clean, unescape_all, route_segments,
}

-- An identifier that stands in a path as it is, as those that are drawn.
abbrev pub IsSegment : Bytes → Type 0
IsSegment s = (s ≢ []) × All (λ c. is_url_safe c ≡ true) s

abbrev pub Without : ℕ → Bytes → Type 0
Without d = All (λ c. c ≢ d)

safe-Without :
    (d : ℕ) (s : Bytes) → is_url_safe d ≡ false → All (λ c. is_url_safe c ≡ true) s → Without d s
safe-Without d s n h = All-map _ _ s (λ c e. λ is. cc) h

pub cut-Without : (d : ℕ) (s : Bytes) → Without d s → cut d s ≡ s
unfolding cut
cut-Without d [] h = refl
cut-Without d (c ∷ s) h = ground (arith, cut-Without d s h.1)

unescape-Without : (s : Bytes) → Without b'%' s → unescape s ≡ some s
unfolding unescape
unescape-Without [] h = refl
unescape-Without (c ∷ []) h = ground arith
unescape-Without (c ∷ l ∷ []) h = ground arith
unescape-Without (c ∷ l ∷ m ∷ s) h = ground (arith, unescape-Without (l ∷ m ∷ s) h.1)

no_dots : (s : Bytes) → s ≢ [] → Without b'.' s → is_dots s ≡ false
unfolding Bytes-discrete ℕ_discrete
no_dots [] n h = absurd (n refl)
no_dots (c ∷ s) n h = ground arith

not_nil : (s : Bytes) → s ≢ [] → text_eq s [] ≡ false
unfolding Bytes-discrete
not_nil [] n = absurd (n refl)
not_nil (c ∷ s) n = refl

-- No byte of an identifier has a meaning in a path.
record IsPlain (s : Bytes) : Type 0 where
  slash : Without b'/' s
  query : Without b'?' s
  fragment : Without b'#' s
  percent : Without b'%' s
  dot : Without b'.' s

segment-IsPlain : (s : Bytes) → IsSegment s → IsPlain s
unfolding is_url_safe ℕ_discrete
segment-IsPlain s h = record {
  slash = safe-Without b'/' s refl h.1;
  query = safe-Without b'?' s refl h.1;
  fragment = safe-Without b'#' s refl h.1;
  percent = safe-Without b'%' s refl h.1;
  dot = safe-Without b'.' s refl h.1;
}

segment_end :
    (s rest : Bytes) → All (λ c. c ≢ b'/') s → segments (s ++ b'/' ∷ rest) ≡ s ∷ segments rest
unfolding segments
segment_end [] rest h = refl
segment_end (c ∷ s) rest h = ground (arith, segment_end s rest h.1)

segment_whole : (s : Bytes) → All (λ c. c ≢ b'/') s → segments s ≡ s ∷ []
unfolding segments
segment_whole [] h = refl
segment_whole (c ∷ s) h = ground (arith, segment_whole s h.1)

abbrev pub sessions_path : Bytes
sessions_path = codes "/v1/sessions/"

-- The segments below the sessions' path, for an identifier and an action.
id_segments :
    (id : Bytes)
    → Without b'/' id
    → segments (sessions_path ++ id) ≡ [] ∷ codes "v1" ∷ codes "sessions" ∷ id ∷ []
unfolding segments
id_segments id h = rw (segment_whole id h) refl

action_segments :
    (id action : Bytes)
    → Without b'/' id
    → All (λ c. c ≢ b'/') action
    → segments (sessions_path ++ (id ++ b'/' ∷ action))
      ≡ [] ∷ codes "v1" ∷ codes "sessions" ∷ id ∷ action ∷ []
unfolding segments
action_segments id action h k = rw (segment_end id action h, segment_whole action k) refl

-- Where the segments below the sessions' path lead.
one_id :
    (id : Bytes)
    → id ≢ []
    → let path = [] ∷ codes "v1" ∷ codes "sessions" ∷ id ∷ [] in
      (route_from (codes "GET") path ≡ gets_status id)
      × (route_from (codes "DELETE") path ≡ ends id)
unfolding Bytes-discrete ℕ_discrete
one_id [] h = absurd (h refl)
one_id (c ∷ id) h = (refl, refl)

id_and_action :
    (id : Bytes)
    → id ≢ []
    → let to = λ (action : Bytes).
      route_from (codes "POST") ([] ∷ codes "v1" ∷ codes "sessions" ∷ id ∷ action ∷ []) in
      (to (codes "prompt") ≡ prompts id)
      × (to (codes "cancel") ≡ cancels id)
      × (to (codes "close") ≡ closes id)
unfolding Bytes-discrete ℕ_discrete
id_and_action [] h = absurd (h refl)
id_and_action (c ∷ id) h = (refl, refl, refl)

-- These segments are clean and decode to themselves.
decoded_one :
    (method id : Bytes)
    → IsSegment id
    → let path = [] ∷ codes "v1" ∷ codes "sessions" ∷ id ∷ [] in
      route_segments method path ≡ route_from method path
unfolding are_clean unescape_all Bytes-discrete ℕ_discrete
decoded_one method id h =
    let p = segment-IsPlain id h in rw (no_dots id h.0 p.dot, unescape-Without id p.percent) refl

clean_two :
    (id action : Bytes)
    → IsSegment id
    → IsSegment action
    → are_clean (codes "v1" ∷ codes "sessions" ∷ id ∷ action ∷ []) ≡ true
unfolding are_clean Bytes-discrete ℕ_discrete
clean_two id action h k =
    rw
      (
        not_nil id h.0,
        no_dots id h.0 (segment-IsPlain id h).dot,
        no_dots action k.0 (segment-IsPlain action k).dot,
      )
      refl

decoded_two :
    (method id action : Bytes)
    → IsSegment id
    → IsSegment action
    → let path = [] ∷ codes "v1" ∷ codes "sessions" ∷ id ∷ action ∷ [] in
      route_segments method path ≡ route_from method path
unfolding unescape_all Bytes-discrete ℕ_discrete
decoded_two method id action h k =
    rw
      (
        clean_two id action h k,
        unescape-Without id (segment-IsPlain id h).percent,
        unescape-Without action (segment-IsPlain action k).percent,
      )
      refl

route_one_id :
    (method id : Bytes)
    → IsSegment id
    → route method (sessions_path ++ id)
      ≡ route_from method ([] ∷ codes "v1" ∷ codes "sessions" ∷ id ∷ [])
unfolding route
route_one_id method id h =
    let p = segment-IsPlain id h in
    ap (λ t. route_segments method (segments t))
      (cut-Without b'?' (sessions_path ++ id)
        (All-append _ sessions_path id (ground arith) p.query))
    ∙ ap (route_segments method) (id_segments id p.slash)
    ∙ decoded_one method id h

route_id_action :
    (method id action : Bytes)
    → IsSegment id
    → IsSegment action
    → route method (sessions_path ++ (id ++ b'/' ∷ action))
      ≡ route_from method ([] ∷ codes "v1" ∷ codes "sessions" ∷ id ∷ action ∷ [])
unfolding route
route_id_action method id action h k =
    let p = segment-IsPlain id h in
    let q = segment-IsPlain action k in
    let rest = All-append _ id (b'/' ∷ action) p.query (omega arith, q.query) in
    ap (λ t. route_segments method (segments t))
      (cut-Without b'?' (sessions_path ++ (id ++ b'/' ∷ action))
        (All-append _ sessions_path (id ++ b'/' ∷ action) (ground arith) rest))
    ∙ ap (route_segments method) (action_segments id action p.slash q.slash)
    ∙ decoded_two method id action h k

actions-AreSegments :
    IsSegment (codes "prompt") × IsSegment (codes "cancel") × IsSegment (codes "close")
unfolding is_url_safe ℕ_discrete
actions-AreSegments = (
  (λ e. ground arith, ground arith),
  (λ e. ground arith, ground arith),
  (λ e. ground arith, ground arith),
)

-- The paths that the terminal builds from a session's identifier, whose bytes are those of the identifiers
-- that are drawn, lead to the handlers of that session: its status, its end, a prompt, the
-- cancellation and the closing.
pub route_of_session :
    (id : Bytes)
    → IsSegment id
    → (route (codes "GET") (sessions_path ++ id) ≡ gets_status id)
      × (route (codes "DELETE") (sessions_path ++ id) ≡ ends id)
      × (route (codes "POST") (sessions_path ++ (id ++ codes "/prompt")) ≡ prompts id)
      × (route (codes "POST") (sessions_path ++ (id ++ codes "/cancel")) ≡ cancels id)
      × (route (codes "POST") (sessions_path ++ (id ++ codes "/close")) ≡ closes id)
route_of_session id h =
    let one = one_id id h.0 in
    let two = id_and_action id h.0 in
    let (a, b, c) = actions-AreSegments in
    let post = codes "POST" in
    (
      route_one_id (codes "GET") id h ∙ one.0,
      route_one_id (codes "DELETE") id h ∙ one.1,
      route_id_action post id (codes "prompt") h a ∙ two.0,
      route_id_action post id (codes "cancel") h b ∙ two.1,
      route_id_action post id (codes "close") h c ∙ two.2,
    )

-- What the terminal sends for such a session is not cut at a fragment.
pub no_fragment :
    (id rest : Bytes)
    → IsSegment id
    → Without b'#' rest
    → cut b'#' (sessions_path ++ (id ++ rest)) ≡ sessions_path ++ (id ++ rest)
no_fragment id rest h k = cut-Without b'#' (sessions_path ++ (id ++ rest)) (
    All-append _ sessions_path (id ++ rest) (ground arith)
      (All-append _ id rest (segment-IsPlain id h).fragment k))
