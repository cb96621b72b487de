-- ===== src/Proxy/Dns/Encoded.antt =====
-- `parse_dns_question` of clawpot-server/src/proxy/dns_proxy.rs against the format of RFC 1035.
use clawpot.Common.{
  ℕ, zero, suc, ◌+◌, ◌*◌, ◌/◌, ◌%◌, ◌^◌, ◌<◌, ltb, leb, ◌==◌, ◌≡◌, refl, sym, ap, ap₂, ◌∙◌, false,
  List, [], ◌∷◌, ◌++◌, map, length, length-append, some, Text, arith,
}
use mathlib.Core.List.{append_assoc, append-nil}
use clawpot.Common.Utf8.{from_utf8_lossy}
use clawpot.Common.Bytes.{
  done, byte, be16, slice, byte-append_add, be16-append_add, slice-append_add,
}
use clawpot.Proxy.Dns.{join, qtype_str, parse_labels, after_labels, parse_dns_question}

unfoldable pub encode_labels : List Text → Text
encode_labels [] = 0 ∷ []
encode_labels (l ∷ ls) = length l ∷ (l ++ encode_labels ls)

-- Labels as a query can hold them: none is empty, since the empty one ends the name.
abbrev pub NonEmpty : List Text → Type 0
NonEmpty [] = Unit {0}
NonEmpty (l ∷ ls) = (0 < length l) × NonEmpty ls

abbrev pub lossy : Text → Text
lossy l = from_utf8_lossy l

-- The first byte behind `pre`.
byte-here : (pre ys : Text) (b : ℕ) → byte (pre ++ b ∷ ys) (length pre) ≡ done b
byte-here pre ys b =
    ap (byte (pre ++ b ∷ ys)) (omega arith)
    ∙ (byte-append_add pre (b ∷ ys) 0 ∙ (unfold byte in refl))

length-snoc : (pre : Text) (b : ℕ) → length (pre ++ b ∷ []) ≡ length pre + 1
length-snoc pre b = length-append pre (b ∷ [])

-- One round of the loop, on a label.
label_step :
    (rounds : ℕ) (pre l rest : Text) (acc : List Text)
    → 0 < length l
    → parse_labels (suc rounds) (pre ++ (length l ∷ (l ++ rest))) (length pre) acc
      ≡ parse_labels rounds
          (pre ++ (length l ∷ (l ++ rest)))
          (length pre + 1 + length l)
          (acc ++ lossy l ∷ [])
unfolding parse_labels
label_step rounds pre l rest acc h =
    let packet = pre ++ (length l ∷ (l ++ rest)) in
    let size : length packet ≡ length pre + suc (length l + length rest) =
      length-append pre (length l ∷ (l ++ rest))
      ∙ ap (λ n. length pre + suc n) (length-append l rest) in
    let inside : leb (length packet) (length pre) ≡ false = ground (arith, size) in
    let more : (length l == 0) ≡ false = ground (arith, h) in
    let fits : ltb (length packet) (length pre + 1 + length l) ≡ false = ground (arith, size) in
    let cut : slice packet (length pre + 1) (length pre + 1 + length l) ≡ done l =
      ap (λ p. slice p (length pre + 1) (length pre + 1 + length l))
        (sym (append_assoc pre (length l ∷ []) (l ++ rest)))
      ∙ slice-append_add (pre ++ length l ∷ []) l rest _ _ (sym (length-snoc pre (length l)))
          (ap (λ n. n + length l) (sym (length-snoc pre (length l)))) in
    rw (inside, byte-here pre (l ++ rest) (length l), more, fits, cut) refl

-- The last round.
end_step :
    (rounds : ℕ) (pre tail : Text) (acc : List Text)
    → parse_labels (suc rounds) (pre ++ 0 ∷ tail) (length pre) acc
      ≡ done (some (acc, length pre + 1))
unfolding parse_labels
end_step rounds pre tail acc =
    let inside : leb (length (pre ++ 0 ∷ tail)) (length pre) ≡ false =
      ground (arith, length-append pre (0 ∷ tail)) in
    rw (inside, byte-here pre tail 0) refl

parse_labels-encode :
    (rounds : ℕ) (pre tail : Text) (ls acc : List Text)
    → length ls < rounds
    → NonEmpty ls
    → parse_labels rounds (pre ++ (encode_labels ls ++ tail)) (length pre) acc
      ≡ done (some (acc ++ map lossy ls, length pre + length (encode_labels ls)))
unfolding encode_labels
parse_labels-encode zero pre tail ls acc h ne = absurd (omega (arith, h))
parse_labels-encode (suc rounds) pre tail [] acc h ne =
    end_step rounds pre tail acc ∙ ap (λ a. done (some (a, length pre + 1))) (sym (append-nil acc))
parse_labels-encode (suc rounds) pre tail (l ∷ ls) acc h (n, ne) =
    let rest = encode_labels ls ++ tail in
    let pre' = pre ++ (length l ∷ l) in
    let acc' = acc ++ lossy l ∷ [] in
    let size : length pre' ≡ length pre + suc (length l) = length-append pre (length l ∷ l) in
    let all : length (l ++ encode_labels ls) ≡ length l + length (encode_labels ls) =
      length-append l (encode_labels ls) in
    ap (λ p. parse_labels (suc rounds) (pre ++ (length l ∷ p)) (length pre) acc)
      (append_assoc l (encode_labels ls) tail)
    ∙ (label_step rounds pre l rest acc n
        ∙ (ap₂ (λ p k. parse_labels rounds p k acc') (sym (append_assoc pre (length l ∷ l) rest))
              (omega (arith, size))
            ∙ (parse_labels-encode rounds pre' tail ls acc' (omega (arith, h)) ne
                ∙ ap₂ (λ a k. done (some (a, k))) (append_assoc acc (lossy l ∷ []) (map lossy ls))
                    (omega (arith, size, all)))))

after_labels-type :
    (pre rest : Text) (ls : List Text) (qtype : ℕ)
    → qtype < 2 ^ 16
    → after_labels (pre ++ (qtype / 256 ∷ qtype % 256 ∷ rest)) (some (ls, length pre))
      ≡ done (some (join ls, qtype_str qtype))
unfolding after_labels
after_labels-type pre rest ls qtype h =
    let tail = qtype / 256 ∷ qtype % 256 ∷ rest in
    let fits : ltb (length (pre ++ tail)) (length pre + 2) ≡ false =
      ground (arith, length-append pre tail) in
    let value : be16 (pre ++ tail) (length pre) ≡ done qtype =
      ap (be16 (pre ++ tail)) (omega arith)
      ∙ (be16-append_add pre tail 0 ∙ (unfold be16 in ap done (omega (arith, h)))) in
    rw (fits, value) refl

encode_labels-length : (ls : List Text) → length ls < length (encode_labels ls)
unfolding encode_labels
encode_labels-length [] = omega arith
encode_labels-length (l ∷ ls) =
    omega (arith, encode_labels-length ls, length-append l (encode_labels ls))

-- A packet that has a header with a question count other than 0 and behind it a name in the format
-- of RFC 1035 and a type is parsed into that name, its labels joined by dots, and the name of that
-- type, whatever follows.
pub parse_dns_question-encode :
    (h0 h1 h2 h3 q4 q5 h6 h7 h8 h9 h10 h11 : ℕ) (ls : List Text) (qtype : ℕ) (rest : Text)
    → 0 < q4 * 256 + q5
    → NonEmpty ls
    → qtype < 2 ^ 16
    → parse_dns_question (
        h0
        ∷ h1
        ∷ h2
        ∷ h3
        ∷ q4
        ∷ q5
        ∷ h6
        ∷ h7
        ∷ h8
        ∷ h9
        ∷ h10
        ∷ h11
        ∷ (encode_labels ls ++ (qtype / 256 ∷ qtype % 256 ∷ rest)))
      ≡ done (some (join (map lossy ls), qtype_str qtype))
unfolding parse_dns_question be16 byte
parse_dns_question-encode h0 h1 h2 h3 q4 q5 h6 h7 h8 h9 h10 h11 ls qtype rest some_question ne h =
    let header = h0 ∷ h1 ∷ h2 ∷ h3 ∷ q4 ∷ q5 ∷ h6 ∷ h7 ∷ h8 ∷ h9 ∷ h10 ∷ h11 ∷ [] in
    let tail = qtype / 256 ∷ qtype % 256 ∷ rest in
    let packet = header ++ (encode_labels ls ++ tail) in
    let size : length packet ≡ 12 + (length (encode_labels ls) + length tail) =
      omega (arith, length-append (encode_labels ls) tail) in
    let long : ltb (length packet) 12 ≡ false = ground (arith, size) in
    let counted : (q4 * 256 + q5 == 0) ≡ false = ground (arith, some_question) in
    let labels : parse_labels (suc (length packet)) packet 12 []
        ≡ done (some (map lossy ls, 12 + length (encode_labels ls))) =
      parse_labels-encode (suc (length packet)) header tail ls []
        (omega (arith, encode_labels-length ls, size)) ne in
    let typed : after_labels packet (some (map lossy ls, 12 + length (encode_labels ls)))
        ≡ done (some (join (map lossy ls), qtype_str qtype)) =
      ap (λ k. after_labels packet (some (map lossy ls, k))) (omega arith)
      ∙ after_labels-type (header ++ encode_labels ls) rest (map lossy ls) qtype h in
    rw (long, counted, labels) typed
