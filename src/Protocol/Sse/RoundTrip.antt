-- ===== src/Protocol/Sse/RoundTrip.antt =====
-- Reading what was written.
use deepseek_project.Base.{
  ℕ, ◌+◌, ◌<◌, ◌≡◌, ◌≢◌, refl, ◌∙◌, ap, Bytes, codes, List, [], ◌∷◌, ◌++◌, false, Option, some,
  length, length-append, has_prefix, trim_prefix, trim_space, arith, All, All-append, ℕ_discrete,
  append_assoc, append-nil, Bytes-discrete,
}
use deepseek_project.Protocol.Sse.{
  Flow, go, stop, ◌>>=◌, frame, newline, max_token, drop_cr, with_line, scan_lines, flush,
  read_line, read_lines, read_sse, ended, join_lines, flushed,
}

-- A text without line breaks.
abbrev pub IsLine : Bytes → Type 0
IsLine = All (λ c. (c ≢ newline) × (c ≢ 13))

drop_cr_of_IsLine : (s : Bytes) → IsLine s → drop_cr s ≡ s
unfolding drop_cr
drop_cr_of_IsLine [] h = refl
drop_cr_of_IsLine (c ∷ []) h = ground arith
drop_cr_of_IsLine (c ∷ d ∷ s) h = ground (arith, drop_cr_of_IsLine (d ∷ s) h.1)

-- The scanner reads a line up to its end.
scan_line_from :
    (capacity : ℕ) (read line rest : Bytes)
    → IsLine line
    → length read + length line < capacity
    → scan_lines capacity read (line ++ newline ∷ rest)
      ≡ with_line (drop_cr (read ++ line)) (scan_lines capacity [] rest)
unfolding scan_lines
scan_line_from capacity read [] rest h room = rw append-nil refl
scan_line_from capacity read (c ∷ line) rest h room = ground (
  arith,
  scan_line_from capacity (read ++ c ∷ []) line rest h.1,
  length-append read (c ∷ []),
  append_assoc read (c ∷ []) line,
)

-- An event that `WriteSSE` sends and a reader gets back: name and JSON text have no line break, are not
-- changed by `strings.TrimSpace` behind a space, and fit into the scanner's buffer.
pub record IsSendable (event : Bytes × Bytes) : Type 0 where
  pub name_line : IsLine event.0
  pub json_line : IsLine event.1
  pub name_trimmed : trim_space (codes " " ++ event.0) ≡ event.0
  pub json_trimmed : trim_space (codes " " ++ event.1) ≡ event.1
  pub name_fits : length event.0 + 7 < max_token
  pub json_fits : length event.1 + 6 < max_token

frame_append :
    (event json rest : Bytes)
    → frame event json ++ rest
      ≡ (codes "event: " ++ event)
        ++ newline ∷ ((codes "data: " ++ json) ++ newline ∷ ([] ++ newline ∷ rest))
unfolding frame
frame_append event json rest = simp (append_assoc)

pub scan_line :
    (capacity : ℕ) (line rest : Bytes)
    → IsLine line
    → length line < capacity
    → scan_lines capacity [] (line ++ newline ∷ rest) ≡ with_line line (scan_lines capacity [] rest)
scan_line capacity line rest h room =
    scan_line_from capacity [] line rest h (omega arith)
    ∙ ap (λ l. with_line l (scan_lines capacity [] rest)) (drop_cr_of_IsLine line h)

scan_frame :
    (capacity : ℕ) (event json rest : Bytes)
    → IsLine event
    → IsLine json
    → length event + 7 < capacity
    → length json + 6 < capacity
    → scan_lines capacity [] (frame event json ++ rest)
      ≡ with_line
          (codes "event: " ++ event)
          (with_line (codes "data: " ++ json) (with_line [] (scan_lines capacity [] rest)))
scan_frame capacity event json rest h k room room' =
    ap (scan_lines capacity []) (frame_append event json rest)
    ∙ scan_line capacity (codes "event: " ++ event) _
        (All-append _ (codes "event: ") event (omega arith) h) (omega arith)
    ∙ ap (with_line (codes "event: " ++ event)) (
        scan_line capacity (codes "data: " ++ json) _
          (All-append _ (codes "data: ") json (omega arith) k) (omega arith)
        ∙ ap (with_line (codes "data: " ++ json)) (scan_line capacity [] rest tt (omega arith)))

module _ {E S : Type 0} (on_event : Bytes → Bytes → S → Flow E S) where
  -- The events one after the other, until the callback stops.
  abbrev pub dispatch : List (Bytes × Bytes) → S → Flow E S
  dispatch [] s = go s
  dispatch ((event, json) ∷ events) s = on_event event json s >>= dispatch events

  read_frame :
      (event json : Bytes) (lines : List Bytes) (s : S)
      → trim_space (codes " " ++ event) ≡ event
      → trim_space (codes " " ++ json) ≡ json
      → read_lines on_event
          ((codes "event: " ++ event) ∷ (codes "data: " ++ json) ∷ [] ∷ lines)
          (record { event = []; data_lines = []; outside = s })
        ≡ (flushed on_event (on_event event json s) >>= read_lines on_event lines)
  unfolding read_lines read_line flush has_prefix trim_prefix join_lines Bytes-discrete ℕ_discrete
  read_frame event json lines s e j = rw (e, j)

-- The bytes of a stream of events.
abbrev pub written : List (Bytes × Bytes) → Bytes
written [] = []
written ((event, json) ∷ events) = frame event json ++ written events

abbrev lines_of : List (Bytes × Bytes) → List Bytes
lines_of [] = []
lines_of ((event, json) ∷ events) =
    (codes "event: " ++ event) ∷ (codes "data: " ++ json) ∷ [] ∷ lines_of events

scan_written :
    (events : List (Bytes × Bytes))
    → All IsSendable events
    → scan_lines max_token [] (written events) ≡ (lines_of events, false)
scan_written [] h = unfold scan_lines in refl
scan_written ((event, json) ∷ events) (h, hs) =
    scan_frame max_token event json (written events) h.name_line h.json_line h.name_fits h.json_fits
    ∙ ap
        (λ r.
          with_line (codes "event: " ++ event)
            (with_line (codes "data: " ++ json) (with_line [] r)))
        (scan_written events hs)

module _ {E S : Type 0} (on_event : Bytes → Bytes → S → Flow E S) where
  read_lines_of :
      (events : List (Bytes × Bytes)) (s : S)
      → All IsSendable events
      → read_lines on_event (lines_of events) (record { event = []; data_lines = []; outside = s })
        ≡ flushed on_event (dispatch on_event events s)
  read_lines_of [] s h = unfold read_lines flush in refl
  read_lines_of ((event, json) ∷ events) s (h, hs) =
      read_frame on_event event json (lines_of events) s h.name_trimmed h.json_trimmed
      ∙ rest (on_event event json s) (λ t. read_lines_of events t hs)
    where
      rest :
          (r : Flow E S)
          → ((t : S)
              → read_lines on_event
                  (lines_of events)
                  (record { event = []; data_lines = []; outside = t })
                ≡ flushed on_event (dispatch on_event events t))
          → (flushed on_event r >>= read_lines on_event (lines_of events))
            ≡ flushed on_event (r >>= dispatch on_event events)
      rest (go t) ih = ih t
      rest (stop e t) ih = refl

  -- What the reader of a written stream returns.
  abbrev pub outcome : Option E → Flow E S → S × Option E
  outcome end_error (go s) = (s, end_error)
  outcome end_error (stop e s) = (s, some e)

  ended-flushed :
      (end_error : Option E) (r : Flow E S)
      → ended on_event end_error (flushed on_event r) ≡ outcome end_error r
  ended-flushed end_error (go s) = refl
  ended-flushed end_error (stop e s) = refl

  -- Reading the bytes that `WriteSSE` has written for a sequence of events calls the callback with exactly
  -- these events, in order, until it stops, and then returns its error, or else the error with which
  -- the stream ends. The names and the JSON texts of the events have no line break and no white space
  -- around them, and each line with its prefix is shorter than 1 MiB.
  pub read_sse-written :
      (too_long : E) (end_error : Option E) (events : List (Bytes × Bytes)) (s : S)
      → All IsSendable events
      → read_sse on_event too_long end_error (written events) s
        ≡ outcome end_error (dispatch on_event events s)
  unfolding read_sse
  read_sse-written too_long end_error events s h =
      rw (scan_written events h, read_lines_of events s h)
        (ended-flushed end_error (dispatch on_event events s))
