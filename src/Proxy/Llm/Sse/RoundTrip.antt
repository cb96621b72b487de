-- ===== src/Proxy/Llm/Sse/RoundTrip.antt =====
-- The stream of events that `parse_sse` of clawpot-server/src/proxy/llm.rs reads back.
use clawpot.Common.{
  All, ◌≡◌, ◌≢◌, refl, sym, ap, ap₂, ◌∙◌, true, ◌++◌, List, [], ◌∷◌, map, Option, none, some, Text,
  codes, text_eq_iff, trim, trim_id, trim-space, white_start, white_end, arith,
}
use clawpot.Common.Utf8.{is_utf8, from_utf8_lossy-valid}
use clawpot.Proxy.Llm.Sse.{
  SseEvent, split_blank, lines, Found, read_line, read_lines, join_lines, sse_event, frame_event,
  parse_frame, parse_frames, parse_sse, add_part,
}
use clawpot.Proxy.Llm.Sse.Lines.{
  IsValue, IsLine, value-IsLine, split-join, lines-join, join-nonempty, join-Trimmed,
}
use mathlib.Core.List.{reverse, append_assoc, append-nil}

-- A frame as servers write it.
pub data Frame : Type 0 where
  keep_alive : Text → Frame
  finished : Frame
  event : Option Text → (first : Text) → (more : List Text) → Frame

abbrev pub data_line : Text → Text
data_line part = codes "data: " ++ part

-- The first line of a frame, and the others.
abbrev pub data_lines : Option Text → Text → List Text → Text × List Text
data_lines none first more = (data_line first, map data_line more)
data_lines (some ty) first more = (codes "event: " ++ ty, data_line first ∷ map data_line more)

abbrev pub frame_lines : Frame → Text × List Text
frame_lines (keep_alive note) = (codes ": " ++ note, [])
frame_lines finished = (data_line (codes "[DONE]"), [])
frame_lines (event ty first more) = data_lines ty first more

abbrev pub frame_text : Text × List Text → Text
frame_text (l, ls) = join_lines (l ∷ ls)

unfoldable pub encode : List Frame → Text
encode [] = []
encode (f ∷ fs) = frame_text (frame_lines f) ++ 10 ∷ 10 ∷ encode fs

abbrev pub frame_events : Frame → List SseEvent
frame_events (keep_alive note) = []
frame_events finished = []
frame_events (event ty first more) =
    record { event_type = ty; content = join_lines (first ∷ more) } ∷ []

unfoldable pub frames_events : List Frame → List SseEvent
frames_events [] = []
frames_events (f ∷ fs) = frame_events f ++ frames_events fs

pub record IsPart (part : Text) : Type 0 where
  pub value : IsValue part
  pub unfinished : part ≢ codes "[DONE]"

abbrev pub IsType : Option Text → Type 0
IsType none = Unit
IsType (some ty) = IsValue ty

abbrev pub IsFrame : Frame → Type 0
IsFrame (keep_alive note) = IsValue note
IsFrame finished = Unit
IsFrame (event ty first more) = IsType ty × IsPart first × All IsPart more

data_line-IsLine : (v : Text) → IsValue v → IsLine (data_line v)
data_line-IsLine v h =
    value-IsLine b'd' (codes "ata: ") v (reverse (codes "data:")) refl (omega arith) (ground arith)
      refl h

data_lines-IsLine : (parts : List Text) → All IsPart parts → All IsLine (map data_line parts)
data_lines-IsLine [] h = tt
data_lines-IsLine (p ∷ ps) h = (data_line-IsLine p h.0.value, data_lines-IsLine ps h.1)

finished-IsValue : IsValue (codes "[DONE]")
unfolding white_start white_end
finished-IsValue = record {
  nonempty = λ e. cc;
  one_line = ground arith;
  trimmed = record { at_start = refl; at_end = refl };
}

frame-IsLine : (f : Frame) → IsFrame f → IsLine (frame_lines f).0 × All IsLine (frame_lines f).1
frame-IsLine (keep_alive note) h =
    (value-IsLine b':' (codes " ") note (codes ":") refl (omega arith) (ground arith) refl h, tt)
frame-IsLine finished h = (data_line-IsLine (codes "[DONE]") finished-IsValue, tt)
frame-IsLine (event none first more) h =
    (data_line-IsLine first h.1.value, data_lines-IsLine more h.2)
frame-IsLine (event (some ty) first more) h = (
  value-IsLine b'e' (codes "vent: ") ty (reverse (codes "event:")) refl (omega arith) (ground arith)
      refl h.0,
  (data_line-IsLine first h.1.value, data_lines-IsLine more h.2),
)

add_part_lem :
    (part : Text) (found : Found)
    → part ≢ codes "[DONE]"
    → add_part part found ≡ (found.0, found.1 ++ part ∷ [])
add_part_lem part found h = ground (arith, text_eq_iff part (codes "[DONE]"))

read_data_line :
    (v : Text) (found : Found)
    → IsPart v
    → read_line (data_line v) found ≡ (found.0, found.1 ++ v ∷ [])
unfolding read_line
read_data_line v found h =
    ap (λ p. add_part p found) (trim-space v h.value.trimmed) ∙ add_part_lem v found h.unfinished

read_data_lines :
    (vs : List Text) (found : Found)
    → All IsPart vs
    → read_lines (map data_line vs) found ≡ (found.0, found.1 ++ vs)
unfolding read_lines
read_data_lines [] found h = ap (λ l. (found.0, l)) (sym (append-nil found.1))
read_data_lines (v ∷ vs) found h =
    ap (read_lines (map data_line vs)) (read_data_line v found h.0)
    ∙ read_data_lines vs (found.0, found.1 ++ v ∷ []) h.1
    ∙ ap (λ l. (found.0, l)) (append_assoc found.1 (v ∷ []) vs)

read_event_line :
    (ty : Text) (found : Found)
    → IsValue ty
    → read_line (codes "event: " ++ ty) found ≡ (some ty, found.1)
unfolding read_line
read_event_line ty found h = ap (λ t. (some t, found.1)) (trim-space ty h.trimmed)

read_frame :
    (f : Frame)
    → IsFrame f
    → sse_event (read_lines ((frame_lines f).0 ∷ (frame_lines f).1) (none, [])) ≡ frame_events f
unfolding read_lines
read_frame (keep_alive note) h = unfold read_line in refl
read_frame finished h = unfold read_line trim in refl
read_frame (event none first more) h =
    ap sse_event (read_data_lines (first ∷ more) (none, []) (h.1, h.2))
read_frame (event (some ty) first more) h = ap sse_event (
    ap (read_lines (map data_line (first ∷ more))) (read_event_line ty (none, []) h.0)
    ∙ read_data_lines (first ∷ more) (some ty, []) (h.1, h.2))

frame_event_lem : (t : Text) → t ≢ [] → frame_event t ≡ sse_event (read_lines (lines t) (none, []))
frame_event_lem [] h = absurd (h refl)
frame_event_lem (c ∷ t) h = refl

parse_frame-frame :
    (f : Frame) → IsFrame f → parse_frame (frame_text (frame_lines f)) ≡ frame_events f
unfolding parse_frame
parse_frame-frame f h =
    let (l, ls) = frame_lines f in
    let is_lines = frame-IsLine f h in
    ap frame_event (trim_id (join_lines (l ∷ ls)) (join-Trimmed l ls is_lines))
    ∙ frame_event_lem (join_lines (l ∷ ls)) (join-nonempty l ls is_lines)
    ∙ ap (λ ts. sse_event (read_lines ts (none, []))) (lines-join l ls is_lines)
    ∙ read_frame f h

split_blank-encode :
    (fs : List Frame) → All IsFrame fs → parse_frames (split_blank (encode fs)) ≡ frames_events fs
unfolding parse_frames split_blank encode frames_events
split_blank-encode [] h = refl
split_blank-encode (f ∷ fs) h =
    ap parse_frames
      (split-join (frame_lines f).0 (frame_lines f).1 (encode fs) (frame-IsLine f h.0))
    ∙ ap₂ (λ e es. e ++ es) (parse_frame-frame f h.0) (split_blank-encode fs h.1)

-- Of a stream in UTF-8 of well-formed frames, `parse_sse` returns the events in their order, each
-- with its type, if it has one, and its data lines, joined by line feeds; frames of comments and the
-- end marker give none.
pub parse_sse-encode :
    (fs : List Frame)
    → All IsFrame fs
    → is_utf8 (encode fs) ≡ true
    → parse_sse (encode fs) ≡ frames_events fs
unfolding parse_sse
parse_sse-encode fs h utf8 =
    ap (λ t. parse_frames (split_blank t)) (from_utf8_lossy-valid (encode fs) utf8)
    ∙ split_blank-encode fs h
