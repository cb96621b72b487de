-- ===== src/Proxy/Llm/Sse.antt =====
-- `parse_sse` of clawpot-server/src/proxy/llm.rs: the events of a streamed response.
pub mod Lines
pub mod RoundTrip
use clawpot.Common.{
  ◌==◌, Bool, true, false, ◌++◌, List, [], ◌∷◌, Option, none, some, Text, codes, text_eq, trim,
  strip_prefix, starts_with, if◌then◌else◌,
}
use clawpot.Common.Utf8.{from_utf8_lossy}
use mathlib.Core.List.{reverse}

pub record SseEvent : Type 0 where
  pub event_type : Option Text
  pub content : Text  -- `data`

-- `text.split("\n\n")`. `cur` is the piece read so far, and `pending` tells of a line feed behind
-- it that may be the first half of the separator.
unfoldable pub split_blank_from : (pending : Bool) → (cur s : Text) → List Text
split_blank_from false cur [] = cur ∷ []
split_blank_from true cur [] = (cur ++ 10 ∷ []) ∷ []
split_blank_from false cur (c ∷ s) =
    split_blank_from (c == 10) (if c == 10 then cur else cur ++ c ∷ []) s
split_blank_from true cur (c ∷ s) =
    let piece = cur ∷ split_blank_from false [] s in
    let inside = split_blank_from false (cur ++ 10 ∷ c ∷ []) s in if c == 10 then piece else inside

unfoldable pub split_blank : Text → List Text
unfolding split_blank_from
split_blank s = split_blank_from false [] s

-- Drops the carriage return that a line given from its end starts with.
abbrev pub strip_cr : Text → Text
strip_cr [] = []
strip_cr (c ∷ s) = if c == 13 then s else c ∷ s

abbrev pub last_line : Text → List Text
last_line [] = []
last_line (c ∷ s) = (c ∷ s) ∷ []

-- `str::lines`. A line ends with a line feed, or with a carriage return and a line feed.
unfoldable pub lines_from : (cur s : Text) → List Text
lines_from cur [] = last_line cur
lines_from cur (c ∷ s) =
    let next = reverse (strip_cr (reverse cur)) ∷ lines_from [] s in
    let inside = lines_from (cur ++ c ∷ []) s in if c == 10 then next else inside

unfoldable pub lines : Text → List Text
unfolding lines_from
lines s = lines_from [] s

-- What the loop over a frame's lines has found: the event's type, and its data parts.
abbrev pub Found : Type 0
Found = Option Text × List Text

abbrev pub add_part : Text → Found → Found
add_part part (ty, parts) =
    (ty, if text_eq part (codes "[DONE]") then parts else parts ++ part ∷ [])

-- The last test of `read_line`, after `line.strip_prefix("data:")`.
abbrev pub read_data : Bool × Text → Found → Found
read_data (true, rest) found = add_part (trim rest) found
read_data (false, rest) found = found

abbrev pub read_field : Bool × Text → Text → Found → Found
read_field (true, rest) line (ty, parts) = (some (trim rest), parts)
read_field (false, rest) line found = read_data (strip_prefix (codes "data:") line) found

-- The body of the loop over a frame's lines.
unfoldable pub read_line : Text → Found → Found
unfolding strip_prefix starts_with text_eq
read_line line found =
    if starts_with line (codes ":")
    then found
    else read_field (strip_prefix (codes "event:") line) line found

unfoldable pub read_lines : List Text → Found → Found
unfolding read_line
read_lines [] found = found
read_lines (line ∷ ls) found = read_lines ls (read_line line found)

-- `data_parts.join("\n")`
abbrev pub join_lines : List Text → Text
join_lines [] = []
join_lines (l ∷ []) = l
join_lines (l ∷ m ∷ ls) = l ++ 10 ∷ join_lines (m ∷ ls)

abbrev pub sse_event : Found → List SseEvent
sse_event (ty, []) = []
sse_event (ty, p ∷ ps) = record { event_type = ty; content = join_lines (p ∷ ps) } ∷ []

abbrev pub frame_event : Text → List SseEvent
frame_event [] = []
frame_event (c ∷ s) = sse_event (read_lines (lines (c ∷ s)) (none, []))

-- The body of the loop over the frames: the event pushed, if one is.
unfoldable pub parse_frame : Text → List SseEvent
unfolding trim lines read_lines
parse_frame frame = frame_event (trim frame)

unfoldable pub parse_frames : List Text → List SseEvent
unfolding parse_frame
parse_frames [] = []
parse_frames (f ∷ fs) = parse_frame f ++ parse_frames fs

unfoldable pub parse_sse : Text → List SseEvent
unfolding parse_frames split_blank from_utf8_lossy
parse_sse body = parse_frames (split_blank (from_utf8_lossy body))
