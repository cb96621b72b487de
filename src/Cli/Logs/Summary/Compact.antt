-- ===== src/Cli/Logs/Summary/Compact.antt =====
-- The length and the panics of a summary, in clawpot-cli/src/commands/logs.rs.
use clawpot.Common.{
  ℕ, ◌≤◌, ◌<◌, ltb, ◌==◌, Bool-cases, inl, inr, true, false, ◌++◌, length, get_elem?,
  get_elem?_total, take, none, some, Text, codes, ◌≡◌, refl, ap, arith, length-take, length-append,
}
use clawpot.Common.Bytes.{Run, panic, done}
use clawpot.Json.{Json}
use clawpot.Cli.Logs.Summary.{
  is_continuation, is_char_boundary, slice_to, dotted, compact, own_summary, format_data_summary,
}

-- How the JSON text `s` is shortened.
pub data Compacts (s : Text) (out : Run Text) : Type 0 where
  whole : length s ≤ 80 → out ≡ done s → Compacts s out
  shortened :
      (b : ℕ) (t : Text)
      → 80 < length s
      → get_elem? s 77 ≡ some b
      → is_continuation b ≡ false
      → t ≡ take 77 s ++ codes "..."
      → length t ≡ 80
      → out ≡ done t
      → Compacts s out
  broken :
      (b : ℕ)
      → 80 < length s
      → get_elem? s 77 ≡ some b
      → is_continuation b ≡ true
      → out ≡ panic
      → Compacts s out

not_whole : (s : Text) → 80 < length s → (77 == length s) ≡ false
not_whole s h = ground arith

slice_to-boundary :
    (s : Text) (b : ℕ)
    → 80 < length s
    → get_elem? s 77 ≡ some b
    → is_continuation b ≡ false
    → slice_to s 77 ≡ done (take 77 s)
unfolding slice_to is_char_boundary
slice_to-boundary s b h e k = rw (not_whole s h, e) (rw k refl)

slice_to-inside :
    (s : Text) (b : ℕ)
    → 80 < length s
    → get_elem? s 77 ≡ some b
    → is_continuation b ≡ true
    → slice_to s 77 ≡ panic
unfolding slice_to is_char_boundary
slice_to-inside s b h e k = rw (not_whole s h, e) (rw k refl)

length-dotted : (s : Text) → 80 < length s → length (take 77 s ++ codes "...") ≡ 80
length-dotted s h = omega (arith, length-append (take 77 s) (codes "..."), length-take 77 s)

compact-long :
    (s : Text) (b : ℕ)
    → 80 < length s
    → get_elem? s 77 ≡ some b
    → Compacts s (dotted (slice_to s 77))
compact-long s b h e = elim (Bool-cases (is_continuation b)) [
  | inl k ↦ broken b h e k (ap dotted (slice_to-inside s b h e k))
  | inr k ↦
      shortened b (take 77 s ++ codes "...") h e k refl (length-dotted s h)
        (ap dotted (slice_to-boundary s b h e k))
]

compact-Compacts : (s : Text) → Compacts s (compact s)
unfolding compact
compact-Compacts s = elim (Bool-cases (ltb 80 (length s))) [
  | inl h ↦
      let long : 80 < length s = ground (arith, h) in
      let (b, e) = get_elem?_total s 77 (omega (arith, long)) in rw h (compact-long s b long e)
  | inr h ↦ rw h (whole (ground (arith, h)) refl)
]

-- The summary of an event of a type without a summary of its own is its JSON text, if that has 80
-- bytes at most; a longer one is cut to 80 bytes with the dots, or it panics, exactly if the byte at
-- 77 continues a character.
pub format_data_summary-Compacts :
    (json : Json) (event_type : Text) (v : json.Value) (text : Text)
    → own_summary json event_type v ≡ none
    → json.to_string v ≡ some text
    → Compacts text (format_data_summary json event_type v)
unfolding format_data_summary
format_data_summary-Compacts json event_type v text h k = rw (h, k) (compact-Compacts text)
