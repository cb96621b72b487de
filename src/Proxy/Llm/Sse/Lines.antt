-- ===== src/Proxy/Llm/Sse/Lines.antt =====
-- The lines that servers write in a frame of an event stream, and how `parse_sse` of
-- clawpot-server/src/proxy/llm.rs splits frames and lines.
use clawpot.Common.{
  All, All-append, ℕ, ◌≡◌, ◌≢◌, refl, sym, ap, subst, ◌∙◌, ◌<◌, ◌==◌, false, ◌++◌, List, [], ◌∷◌,
  Text, Trimmed, white_start, white_end, white_start-ascii, white_end-ascii, is_space, arith,
}
use clawpot.Proxy.Llm.Sse.{split_blank_from, lines_from, lines, join_lines, strip_cr, last_line}
use mathlib.Core.List.{reverse, append_assoc, append-nil, reverse-append, reverse-reverse}

abbrev pub OneLine : Text → Type 0
OneLine s = All (λ c. (c == 10) ≡ false) s

-- A value of a field: it is not empty, on one line, and has no white space at its ends.
pub record IsValue (v : Text) : Type 0 where
  pub nonempty : v ≢ []
  pub one_line : OneLine v
  pub trimmed : Trimmed v

-- A line: it starts with an ASCII character that is no white space, and ends in no white space.
pub record IsLine (l : Text) : Type 0 where
  pub head : ℕ
  pub rest : Text
  pub shape : l ≡ head ∷ rest
  pub plain : is_space head ≡ false
  pub ascii : head < 128
  pub one_line : OneLine l
  pub ends : white_end (reverse l) ≡ 0

reverse-nonempty : (v : Text) → v ≢ [] → reverse v ≢ []
reverse-nonempty v h e = h (sym (reverse-reverse v) ∙ ap reverse e)

-- A value behind the name of a field, which ends with a blank, makes a line.
pub value-IsLine :
    (head : ℕ) (rest v r : Text)
    → is_space head ≡ false
    → head < 128
    → OneLine (head ∷ rest)
    → reverse (head ∷ rest) ≡ 32 ∷ r
    → IsValue v
    → IsLine ((head ∷ rest) ++ v)
value-IsLine head rest v r h k one e value = record {
  head = head;
  rest = rest ++ v;
  shape = refl;
  plain = h;
  ascii = k;
  one_line = All-append (λ c. (c == 10) ≡ false) (head ∷ rest) v one value.one_line;
  ends =
      ap white_end (reverse-append (head ∷ rest) v ∙ ap (λ p. reverse v ++ p) e)
      ∙ white_end-ascii (reverse v) 32 r (reverse-nonempty v value.nonempty) (omega arith)
          value.trimmed.at_end;
}

split-other :
    (c : ℕ) (cur r : Text)
    → (c == 10) ≡ false
    → split_blank_from false cur (c ∷ r) ≡ split_blank_from false (cur ++ c ∷ []) r
unfolding split_blank_from
split-other c cur r h = ground arith

split-pending :
    (c : ℕ) (cur r : Text)
    → (c == 10) ≡ false
    → split_blank_from false cur (10 ∷ c ∷ r) ≡ split_blank_from false (cur ++ 10 ∷ c ∷ []) r
unfolding split_blank_from
split-pending c cur r h = ground arith

split-OneLine :
    (l cur r : Text)
    → OneLine l
    → split_blank_from false cur (l ++ r) ≡ split_blank_from false (cur ++ l) r
split-OneLine [] cur r h = ap (λ t. split_blank_from false t r) (sym (append-nil cur))
split-OneLine (c ∷ l) cur r h =
    split-other c cur (l ++ r) h.0
    ∙ split-OneLine l (cur ++ c ∷ []) r h.1
    ∙ ap (λ t. split_blank_from false t r) (append_assoc cur (c ∷ []) l)

split-next :
    (c : ℕ) (l cur r : Text)
    → OneLine (c ∷ l)
    → split_blank_from false cur (10 ∷ c ∷ (l ++ r)) ≡ split_blank_from false (cur ++ 10 ∷ c ∷ l) r
split-next c l cur r h =
    split-pending c cur (l ++ r) h.0
    ∙ split-OneLine l (cur ++ 10 ∷ c ∷ []) r h.1
    ∙ ap (λ t. split_blank_from false t r) (append_assoc cur (10 ∷ c ∷ []) l)

-- The separator does not stand inside a line, nor between two lines.
pub split-line :
    (l cur r : Text)
    → IsLine l
    → split_blank_from false cur (10 ∷ (l ++ r)) ≡ split_blank_from false (cur ++ 10 ∷ l) r
split-line l cur r line =
    subst
      (λ t.
        OneLine t
        → split_blank_from false cur (10 ∷ (t ++ r)) ≡ split_blank_from false (cur ++ 10 ∷ t) r)
      (sym line.shape) (split-next line.head line.rest cur r) line.one_line

split-more :
    (ls : List Text) (cur r : Text) (m : Text)
    → All IsLine (m ∷ ls)
    → split_blank_from false cur (10 ∷ (join_lines (m ∷ ls) ++ r))
      ≡ split_blank_from false (cur ++ 10 ∷ join_lines (m ∷ ls)) r
split-more [] cur r m h = split-line m cur r h.0
split-more (n ∷ ls) cur r m h =
    ap (λ t. split_blank_from false cur (10 ∷ t)) (append_assoc m (10 ∷ join_lines (n ∷ ls)) r)
    ∙ split-line m cur (10 ∷ (join_lines (n ∷ ls) ++ r)) h.0
    ∙ split-more ls (cur ++ 10 ∷ m) r n h.1
    ∙ ap (λ t. split_blank_from false t r) (append_assoc cur (10 ∷ m) (10 ∷ join_lines (n ∷ ls)))

-- A frame is one piece of the text.
pub split-join :
    (l : Text) (ls : List Text) (r : Text)
    → All IsLine (l ∷ ls)
    → split_blank_from false [] (join_lines (l ∷ ls) ++ 10 ∷ 10 ∷ r)
      ≡ join_lines (l ∷ ls) ∷ split_blank_from false [] r
unfolding split_blank_from
split-join l [] r h = split-OneLine l [] (10 ∷ 10 ∷ r) h.0.one_line
split-join l (m ∷ ls) r h =
    ap (split_blank_from false []) (append_assoc l (10 ∷ join_lines (m ∷ ls)) (10 ∷ 10 ∷ r))
    ∙ split-OneLine l [] (10 ∷ (join_lines (m ∷ ls) ++ 10 ∷ 10 ∷ r)) h.0.one_line
    ∙ split-more ls l (10 ∷ 10 ∷ r) m h.1

lines-other :
    (c : ℕ) (cur r : Text)
    → (c == 10) ≡ false
    → lines_from cur (c ∷ r) ≡ lines_from (cur ++ c ∷ []) r
unfolding lines_from
lines-other c cur r h = ground arith

lines-OneLine : (l cur r : Text) → OneLine l → lines_from cur (l ++ r) ≡ lines_from (cur ++ l) r
lines-OneLine [] cur r h = ap (λ t. lines_from t r) (sym (append-nil cur))
lines-OneLine (c ∷ l) cur r h =
    lines-other c cur (l ++ r) h.0
    ∙ lines-OneLine l (cur ++ c ∷ []) r h.1
    ∙ ap (λ t. lines_from t r) (append_assoc cur (c ∷ []) l)

strip_cr_id : (s : Text) → white_end s ≡ 0 → strip_cr s ≡ s
unfolding white_end
strip_cr_id [] h = refl
strip_cr_id (c ∷ []) h = ground arith
strip_cr_id (c ∷ b ∷ []) h = ground arith
strip_cr_id (c ∷ b ∷ a ∷ s) h = ground arith

-- A line is not empty, and has no carriage return at its end.
lines-last : (l : Text) → IsLine l → lines_from [] l ≡ l ∷ []
unfolding lines_from
lines-last l h =
    ap (lines_from []) (sym (append-nil l))
    ∙ lines-OneLine l [] [] h.one_line
    ∙ ap last_line h.shape
    ∙ ap (λ t. t ∷ []) (sym h.shape)

lines-first : (l r : Text) → IsLine l → lines_from [] (l ++ 10 ∷ r) ≡ l ∷ lines_from [] r
unfolding lines_from
lines-first l r h =
    lines-OneLine l [] (10 ∷ r) h.one_line
    ∙ ap (λ t. t ∷ lines_from [] r)
        (ap reverse (strip_cr_id (reverse l) h.ends) ∙ reverse-reverse l)

pub lines-join :
    (l : Text) (ls : List Text) → All IsLine (l ∷ ls) → lines (join_lines (l ∷ ls)) ≡ l ∷ ls
unfolding lines
lines-join l [] h = lines-last l h.0
lines-join l (m ∷ ls) h =
    lines-first l (join_lines (m ∷ ls)) h.0 ∙ ap (λ t. l ∷ t) (lines-join m ls h.1)

reverse-append_line : (l t : Text) → reverse (l ++ 10 ∷ t) ≡ reverse t ++ 10 ∷ reverse l
reverse-append_line l t =
    reverse-append l (10 ∷ t)
    ∙ ap (λ p. p ++ reverse l) (reverse-append (10 ∷ []) t)
    ∙ append_assoc (reverse t) (10 ∷ []) (reverse l)

pub join-nonempty : (l : Text) (ls : List Text) → All IsLine (l ∷ ls) → join_lines (l ∷ ls) ≢ []
join-nonempty l [] h e = let k = h.0.shape in cc
join-nonempty l (m ∷ ls) h e = let k = ap (λ t. t ++ 10 ∷ join_lines (m ∷ ls)) h.0.shape in cc

join-ends :
    (l : Text) (ls : List Text)
    → All IsLine (l ∷ ls)
    → white_end (reverse (join_lines (l ∷ ls))) ≡ 0
join-ends l [] h = h.0.ends
join-ends l (m ∷ ls) h =
    ap white_end (reverse-append_line l (join_lines (m ∷ ls)))
    ∙ white_end-ascii (reverse (join_lines (m ∷ ls))) 10 (reverse l)
        (reverse-nonempty (join_lines (m ∷ ls)) (join-nonempty m ls h.1)) (omega arith)
        (join-ends m ls h.1)

starts : (l r : Text) → IsLine l → white_start (l ++ r) ≡ 0
starts l r h =
    ap (λ t. white_start (t ++ r)) h.shape ∙ white_start-ascii h.head (h.rest ++ r) h.plain h.ascii

join-starts :
    (l : Text) (ls : List Text) → All IsLine (l ∷ ls) → white_start (join_lines (l ∷ ls)) ≡ 0
join-starts l [] h = ap white_start (sym (append-nil l)) ∙ starts l [] h.0
join-starts l (m ∷ ls) h = starts l (10 ∷ join_lines (m ∷ ls)) h.0

-- A frame has no white space at its ends.
pub join-Trimmed : (l : Text) (ls : List Text) → All IsLine (l ∷ ls) → Trimmed (join_lines (l ∷ ls))
join-Trimmed l ls h = record { at_start = join-starts l ls h; at_end = join-ends l ls h }
