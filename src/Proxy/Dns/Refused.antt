-- ===== src/Proxy/Dns/Refused.antt =====
-- `build_refused_response` of clawpot-server/src/proxy/dns_proxy.rs against the format of RFC 1035.
use clawpot.Common.{ℕ, ◌/◌, ◌%◌, ◌<◌, ◌≤◌, ◌≡◌, refl, [], ◌∷◌, ◌++◌, drop, Text, arith}
use clawpot.Common.Bytes.{done, byte, be16}
use clawpot.Proxy.Dns.{mark_response, mark_refused, build_refused_response}

-- The flags of `f2` as a response has them: the first bit is set, the truncation bit is clear, and
-- the operation code, the authority bit and the recursion bit are those of the query.
pub record Response (f2 r2 : ℕ) : Type 0 where
  pub is_byte : r2 < 256
  pub is_response : 128 ≤ r2
  pub not_truncated : r2 / 2 % 2 ≡ 0
  pub same_code : r2 / 4 % 32 ≡ f2 / 4 % 32
  pub same_recursion : r2 % 2 ≡ f2 % 2

mark_response-Response : (b : ℕ) → b < 256 → Response b (mark_response b)
unfolding mark_response
mark_response-Response b h = record {
  is_byte = ground arith;
  is_response = ground arith;
  not_truncated = ground arith;
  same_code = ground arith;
  same_recursion = ground arith;
}

-- A header of 12 bytes.
abbrev pub header : (id0 id1 f2 f3 q4 q5 a6 a7 n8 n9 r10 r11 : ℕ) → Text
header id0 id1 f2 f3 q4 q5 a6 a7 n8 n9 r10 r11 =
    id0 ∷ id1 ∷ f2 ∷ f3 ∷ q4 ∷ q5 ∷ a6 ∷ a7 ∷ n8 ∷ n9 ∷ r10 ∷ r11 ∷ []

-- The refusal of `q`, whose flags are the bytes `f2` and `f3`.
pub record Refuses (f2 f3 : ℕ) (q r : Text) : Type 0 where
  pub same_id : be16 r 0 ≡ be16 q 0
  pub flags : (b : ℕ) × (byte r 2 ≡ done b) × Response f2 b
  pub code : (b : ℕ) × (byte r 3 ≡ done b) × (b % 16 ≡ 5) × (b / 16 ≡ f3 / 16)
  pub same_count : be16 r 4 ≡ be16 q 4
  pub no_answers : be16 r 6 ≡ done 0
  pub no_authorities : be16 r 8 ≡ done 0
  pub no_additions : be16 r 10 ≡ done 0
  pub same_rest : drop 12 r ≡ drop 12 q

-- For a query of bytes with a header and whatever else, `build_refused_response` keeps its id, its question
-- count and all behind the header, marks it as a response that is not truncated with the code
-- REFUSED, keeps its other flags, and counts no records.
pub build_refused_response-Refuses :
    (id0 id1 f2 f3 q4 q5 a6 a7 n8 n9 r10 r11 : ℕ) (rest : Text)
    → f2 < 256
    → f3 < 256
    → let q = header id0 id1 f2 f3 q4 q5 a6 a7 n8 n9 r10 r11 ++ rest in
      Refuses f2 f3 q (build_refused_response q)
unfolding build_refused_response byte be16
build_refused_response-Refuses id0 id1 f2 f3 q4 q5 a6 a7 n8 n9 r10 r11 rest h2 h3 = record {
  same_id = refl;
  flags = (mark_response f2, refl, mark_response-Response f2 h2);
  code = (
    mark_refused f3,
    refl,
    unfold mark_refused in omega (arith, h3),
    unfold mark_refused in omega (arith, h3),
  );
  same_count = refl;
  no_answers = refl;
  no_authorities = refl;
  no_additions = refl;
  same_rest = refl;
}
