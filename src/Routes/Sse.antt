-- ===== src/Routes/Sse.antt =====
-- crates/server/src/routes/mod.rs, `SseFrameParser`: the frames of a Claude stream. A chunk that is
-- no UTF-8 is `none`.
use chenni_x_api.Prelude.{
  ℕ, zero, suc, ◌≡◌, refl, String, ◌<>◌, Option, none, some, List, [], ◌∷◌, ◌++◌,
}
use chenni_x_api.Common.Text.{is_blank, trim, lines, strip_prefix}
use chenni_x_api.Prelude.Tests.{if◌then◌else◌}

-- An event's name and its data.
abbrev pub Frame : Type 0
Frame = String × String

-- `find("\n\n")`, with what stands before it and after it.
unfoldable pub cut : String → Option (String × String)
unfolding strip_prefix
cut String.[] = none
cut (String.◌∷◌ c s) = elim (strip_prefix "\n\n" (String.◌∷◌ c s)) [
  | some rest ↦ some (String.[], rest)
  | none ↦ elim (cut s) [ none ↦ none | some (a, b) ↦ some (String.◌∷◌ c a, b) ]
]

-- The name so far, and the lines of data.
abbrev pub Fields : Type 0
Fields = String × List String

unfoldable pub read_data : Option String → Fields → Fields
unfolding trim
read_data none fs = fs
read_data (some rest) (event_type, data_lines) = (event_type, data_lines ++ trim rest ∷ [])

unfoldable pub read_event : String → Option String → Fields → Fields
unfolding read_data trim strip_prefix
read_event line none fs = read_data (strip_prefix "data:" line) fs
read_event line (some rest) (event_type, data_lines) = (trim rest, data_lines)

unfoldable pub read_lines : List String → Fields → Fields
unfolding read_event strip_prefix
read_lines [] fs = fs
read_lines (l ∷ ls) fs = read_lines ls (read_event l (strip_prefix "event:" l) fs)

-- `join`, the separator first.
abbrev pub join : String → List String → String
join sep [] = ""
join sep (w ∷ []) = w
join sep (w ∷ v ∷ ws) = w <> sep <> join sep (v ∷ ws)

unfoldable pub emit_frame : Fields → List Frame
unfolding is_blank
emit_frame (event_type, []) = []
emit_frame (event_type, d ∷ ds) =
    (if is_blank event_type then "message" else event_type, join "\n" (d ∷ ds)) ∷ []

-- The frame of a text between separators, or none where it has no data.
unfoldable pub frame_of : String → List Frame
unfolding emit_frame read_lines lines
frame_of frame = emit_frame (read_lines (lines frame) ("", []))

-- The loop, by the rounds it may take.
unfoldable pub take_frames : ℕ → String → List Frame × String
unfolding cut frame_of
take_frames zero buffer = ([], buffer)
take_frames (suc fuel) buffer = elim (cut buffer) [
  | none ↦ ([], buffer)
  | some (frame, rest) ↦ (let (fs, left) = take_frames fuel rest in (frame_of frame ++ fs, left))
]

unfoldable pub text_length : String → ℕ
text_length String.[] = 0
text_length (String.◌∷◌ c s) = suc (text_length s)

-- A round takes two characters at least, so the length of the buffer is enough.
unfoldable pub drain : String → List Frame × String
unfolding take_frames text_length
drain buffer = take_frames (text_length buffer) buffer

-- On the buffer, which is the state.
unfoldable pub feed : Option String → String → List Frame × String
unfolding drain
feed none buffer = ([], buffer)
feed (some text) buffer = drain (buffer <> text)

-- The chunks of a stream, one after the other.
unfoldable pub feed_all : List (Option String) → String → List Frame × String
unfolding feed
feed_all [] buffer = ([], buffer)
feed_all (c ∷ cs) buffer =
    let (fs, b) = feed c buffer in let (gs, left) = feed_all cs b in (fs ++ gs, left)

two_events :
    feed (some "event: ping\ndata: {}\n\ndata: a\ndata:b\n\nda") ""
    ≡ (("ping", "{}") ∷ ("message", "a\nb") ∷ [], "da")
unfolding feed
two_events = refl
