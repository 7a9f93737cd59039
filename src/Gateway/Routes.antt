-- ===== src/Gateway/Routes.antt =====
-- internal/gateway/server.go: `Handler`, the routes. Of the package net/http, as of Go 1.22: the path is
-- the target of a request up to its query. A path that is not clean is answered by a redirect; otherwise
-- its segments, decoded, and the method choose the pattern; HEAD goes where GET goes, and `{id}` matches
-- one segment that is not empty. The replies that are no handler's (a target that is not valid, a
-- redirect, an unknown path, a wrong method) are `unmatched`.
pub mod Paths
use deepseek_project.Base.Options.{◌>>=◌}
use deepseek_project.Base.{
  ℕ, Bytes, codes, text_eq, List, [], ◌∷◌, Option, none, some, Bool, true, false, not, ◌&&◌, ◌||◌,
  if◌then◌else◌, ◌==◌, leb, ◌-◌, ◌+◌, ◌*◌,
}
use deepseek_project.Protocol.Messages.{prompt_of, approve_of}
use deepseek_project.Session.Create.{Draws}
use deepseek_project.Gateway.Server.{Gateway, Response, decode_json, handle_health}
use deepseek_project.Gateway.Handlers.{
  handle_create, handle_approve, handle_status, handle_close, handle_end, handle_cancel,
}
use deepseek_project.Gateway.Prompt.{Accepted, replied, handle_prompt}

-- The handlers, with the identifier in the path.
pub data Route : Type 0 where
  creates approves is_healthy unmatched : Route
  gets_status prompts cancels closes ends : Bytes → Route

-- The segments of a path: the texts between its slashes.
abbrev first_segment : ℕ → List Bytes → List Bytes
first_segment c [] = (c ∷ []) ∷ []
first_segment c (s ∷ more) = (c ∷ s) ∷ more

unfoldable pub segments : Bytes → List Bytes
segments [] = [] ∷ []
segments (c ∷ path) =
    let rest = segments path in if c == b'/' then [] ∷ rest else first_segment c rest

abbrev is_get : Bytes → Bool
is_get method = text_eq method (codes "GET") || text_eq method (codes "HEAD")

-- The paths of one and of two segments below "/v1".
abbrev route_one : Bytes → Bytes → Route
route_one method a =
    if text_eq method (codes "POST")
    then (if text_eq a (codes "sessions")
        then creates
        else (if text_eq a (codes "pair") then approves else unmatched))
    else unmatched

abbrev route_two : Bytes → Bytes → Bytes → Route
route_two method a id =
    if text_eq a (codes "sessions") && not (text_eq id [])
    then (if is_get method
        then gets_status id
        else (if text_eq method (codes "DELETE") then ends id else unmatched))
    else unmatched

abbrev route_three : Bytes → Bytes → Bytes → Bytes → Route
route_three method a id action =
    if text_eq method (codes "POST") && (text_eq a (codes "sessions") && not (text_eq id []))
    then (if text_eq action (codes "prompt")
        then prompts id
        else (if text_eq action (codes "cancel")
            then cancels id
            else (if text_eq action (codes "close") then closes id else unmatched)))
    else unmatched

abbrev below_v1 : Bytes → List Bytes → Route
below_v1 method (a ∷ []) = route_one method a
below_v1 method (a ∷ id ∷ []) = route_two method a id
below_v1 method (a ∷ id ∷ action ∷ []) = route_three method a id action
below_v1 method _ = unmatched

-- The segments of an absolute path begin with an empty one.
abbrev pub route_from : Bytes → List Bytes → Route
route_from method (root ∷ top ∷ more) =
    if text_eq root [] && text_eq top (codes "v1") then below_v1 method more else (elim more [
      | [] ↦
          if text_eq root [] && text_eq top (codes "healthz") && is_get method
          then is_healthy
          else unmatched
      | x ∷ xs ↦ unmatched
    ])
route_from method _ = unmatched

-- A path in which no segment but the last is empty, and none is "." or "..", is what `path.Clean` returns,
-- but for a slash at its end, which the mux keeps.
abbrev pub is_dots : Bytes → Bool
is_dots s = text_eq s (codes ".") || text_eq s (codes "..")

unfoldable pub are_clean : List Bytes → Bool
are_clean [] = true
are_clean (s ∷ []) = not (is_dots s)
are_clean (s ∷ next ∷ more) = not (text_eq s []) && not (is_dots s) && are_clean (next ∷ more)

-- The first segment is what stands before the first slash.
abbrev is_clean_path : List Bytes → Bool
is_clean_path [] = false
is_clean_path (root ∷ more) = text_eq root [] && are_clean more

unfoldable pub hex_value : ℕ → Option ℕ
hex_value c =
    if leb b'0' c && leb c b'9'
    then some (c - b'0')
    else (if leb b'a' c && leb c b'f'
        then some (c - b'a' + 10)
        else (if leb b'A' c && leb c b'F' then some (c - b'A' + 10) else none))

-- `url.PathUnescape`
unfoldable pub unescape : Bytes → Option Bytes
unfolding hex_value
unescape [] = some []
unescape (c ∷ []) = if c == b'%' then none else some (c ∷ [])
unescape (c ∷ h ∷ []) = if c == b'%' || h == b'%' then none else some (c ∷ h ∷ [])
unescape (c ∷ h ∷ l ∷ s) = elim (c == b'%') [
  | true ↦ (do x ← hex_value h; y ← hex_value l; rest ← unescape s; some ((16 * x + y) ∷ rest))
  | false ↦ (do rest ← unescape (h ∷ l ∷ s); some (c ∷ rest))
]

unfoldable pub unescape_all : List Bytes → Option (List Bytes)
unfolding unescape
unescape_all [] = some []
unescape_all (s ∷ more) = do t ← unescape s; rest ← unescape_all more; some (t ∷ rest)

-- The text before the first byte that is `d`, or the whole text.
unfoldable pub cut : ℕ → Bytes → Bytes
cut d [] = []
cut d (c ∷ s) = let rest = cut d s in if c == d then [] else c ∷ rest

abbrev pub route_decoded : Bytes → Option (List Bytes) → Route
route_decoded method none = unmatched
route_decoded method (some segs) = route_from method segs

abbrev pub route_segments : Bytes → List Bytes → Route
route_segments method segs =
    if is_clean_path segs then route_decoded method (unescape_all segs) else unmatched

unfoldable pub route : Bytes → Bytes → Route
unfolding segments are_clean unescape_all cut
route method target = route_segments method (segments (cut b'?' target))

-- A request, and what the handlers draw and read besides it.
pub record Request : Type 0 where
  pub method : Bytes
  -- what the request line names: the path, as it is escaped, and the query
  pub target : Bytes
  -- the Authorization header, empty if there is none
  pub authorization : Bytes
  pub body : Bytes

pub record Inputs : Type 0 where
  pub draws : Draws
  pub draw : Option (List ℕ)
  pub now : ℕ

-- A reply, a prompt that goes on, or the mux's own reply.
pub data Served : Type 0 where
  answered : Response → Served
  prompting : Bytes → Accepted → Served
  not_routed : Served

abbrev pub reply : Gateway × Response → Gateway × Served
reply (g, r) = (g, answered r)

abbrev pub prompt_reply : Bytes → Gateway × Accepted → Gateway × Served
prompt_reply id (g, replied r) = (g, answered r)
prompt_reply id (g, a) = (g, prompting id a)

abbrev pub dispatch : Route → Request → Inputs → Gateway → Gateway × Served
dispatch creates r i g = reply (handle_create i.draws i.now g)
dispatch approves r i g = reply (handle_approve (decode_json approve_of r.body 4096) i.draw i.now g)
dispatch is_healthy r i g = reply (handle_health g)
dispatch unmatched r i g = (g, not_routed)
dispatch (gets_status id) r i g = reply (handle_status id g)
dispatch (prompts id) r i g =
    prompt_reply id (handle_prompt id (decode_json prompt_of r.body g.max_prompt) i.now g)
dispatch (cancels id) r i g = reply (handle_cancel id g)
dispatch (closes id) r i g = reply (handle_close id g)
dispatch (ends id) r i g = reply (handle_end id r.authorization g)

-- One request, up to the acceptance of a prompt.
unfoldable pub serve : Request → Inputs → Gateway → Gateway × Served
unfolding route
serve r i g = dispatch (route r.method r.target) r i g
