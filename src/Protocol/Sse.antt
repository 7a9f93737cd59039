-- ===== src/Protocol/Sse.antt =====
-- internal/protocol/sse.go: server-sent events, and what it uses of bufio.Scanner.
pub mod RoundTrip
use deepseek_project.Base.{
  ℕ, suc, ◌+◌, ◌*◌, Bytes, codes, List, [], ◌∷◌, ◌++◌, Bool, true, false, Option, none, some, leb,
  ◌==◌, if◌then◌else◌, length, has_prefix, trim_prefix, trim_space, text_eq,
}

abbrev pub newline : ℕ
newline = 10

-- "event: {event}\ndata: {data}\n\n", where `json` is the JSON text of the data.
unfoldable pub frame : Bytes → Bytes → Bytes
frame event json =
    codes "event: " ++ (event ++ (newline ∷ (codes "data: " ++ (json ++ newline ∷ newline ∷ []))))

-- A callback, or a reader, goes on with a state or stops with an error; the state is what the callback
-- has changed outside.
pub data Flow (E S : Type 0) : Type 0 where
  go : S → Flow E S
  stop : E → S → Flow E S

infixl 5 ◌>>=◌
abbrev pub ◌>>=◌ : {E S : Type 0} → Flow E S → (S → Flow E S) → Flow E S
go s >>= f = f s
stop e s >>= f = stop e s

-- `WriteSSE`: the JSON text of the data is `none` where it cannot be marshalled; `write` sends bytes.
unfoldable pub write_sse :
    {E S : Type 0} → E → (Bytes → S → Flow E S) → Bytes → Option Bytes → S → Flow E S
write_sse marshal_error write event none s = stop marshal_error s
write_sse marshal_error write event (some json) s = write (frame event json) s

-- `sc.Buffer(…, 1024*1024)`: a line does not fit when the buffer is full before its end is seen.
abbrev pub max_token : ℕ
max_token = 1024 * 1024

-- `bufio.ScanLines` drops a carriage return at the end of a line.
unfoldable pub drop_cr : Bytes → Bytes
drop_cr [] = []
drop_cr (c ∷ []) = if c == 13 then [] else c ∷ []
drop_cr (c ∷ d ∷ s) = c ∷ drop_cr (d ∷ s)

abbrev pub with_line : Bytes → List Bytes × Bool → List Bytes × Bool
with_line line (lines, too_long) = (line ∷ lines, too_long)

abbrev last_line : Bytes → List Bytes
last_line [] = []
last_line (c ∷ s) = drop_cr (c ∷ s) ∷ []

-- The lines that the scanner returns, and whether it ended at a line that is too long. The first
-- argument is the buffer's capacity, the second the line read so far.
unfoldable pub scan_lines : ℕ → Bytes → Bytes → List Bytes × Bool
scan_lines capacity line [] = (last_line line, false)
scan_lines capacity line (c ∷ input) = elim (c == newline) [
  | true ↦ with_line (drop_cr line) (scan_lines capacity [] input)
  | false ↦ elim (leb capacity (length line + 1)) [
    | true ↦ ([], true)
    | false ↦ scan_lines capacity (line ++ c ∷ []) input
  ]
]

-- The variables of `ReadSSE`, with the state of the callback.
pub record Reader (S : Type 0) : Type 0 where
  pub event : Bytes
  pub data_lines : List Bytes
  pub outside : S

-- `strings.Join(dataLines, "\n")`
unfoldable pub join_lines : List Bytes → Bytes
join_lines [] = []
join_lines (line ∷ []) = line
join_lines (line ∷ next ∷ lines) = line ++ (newline ∷ join_lines (next ∷ lines))

-- The end of a reading: what the callback has changed, and the error returned.
abbrev pub Ended : Type 0 → Type 0 → Type 0
Ended E S = S × Option E

module _ {E S : Type 0} (on_event : Bytes → Bytes → S → Flow E S) where
  -- The new variables after the callback.
  abbrev pub flushed : Flow E S → Flow E (Reader S)
  flushed (go s) = go (record { event = []; data_lines = []; outside = s })
  flushed (stop e s) = stop e (record { event = []; data_lines = []; outside = s })

  -- The closure `flush`.
  unfoldable pub flush : Reader S → Flow E (Reader S)
  flush r = elim r.data_lines [
    | [] ↦ go r
    | line ∷ lines ↦ flushed (on_event r.event (join_lines (line ∷ lines)) r.outside)
  ]

  -- The switch of the loop.
  unfoldable pub read_line : Bytes → Reader S → Flow E (Reader S)
  unfolding flush
  read_line line r =
      if text_eq line []
      then flush r
      else (if has_prefix line (codes ":")
          then go r
          else (if has_prefix line (codes "event:")
              then go (record r { event = trim_space (trim_prefix line (codes "event:")) })
              else (if has_prefix line (codes "data:")
                  then go (record r {
                    data_lines = r.data_lines ++ trim_space (trim_prefix line (codes "data:")) ∷ [];
                  })
                  else go r)))

  -- The loop and the flush after it.
  unfoldable pub read_lines : List Bytes → Reader S → Flow E (Reader S)
  unfolding flush read_line
  read_lines [] r = flush r
  read_lines (line ∷ lines) r = read_line line r >>= read_lines lines

  -- `return sc.Err()`, unless the callback has stopped the reading.
  abbrev pub ended : Option E → Flow E (Reader S) → Ended E S
  ended scan_error (go r) = (r.outside, scan_error)
  ended scan_error (stop e r) = (r.outside, some e)

  -- `ReadSSE` of a stream of bytes that ends with the error given (`none` at its end).
  unfoldable pub read_sse : E → Option E → Bytes → S → Ended E S
  unfolding read_lines scan_lines
  read_sse too_long end_error input s =
      let (lines, long) = scan_lines max_token [] input in
      ended (if long then some too_long else end_error)
        (read_lines lines (record { event = []; data_lines = []; outside = s }))
