-- ===== src/Proxy/Sni/Panic.antt =====
-- The indexing of `extract_sni` in clawpot-server/src/proxy/tls_mitm.rs.
use clawpot.Common.{
  ℕ, zero, suc, ◌+◌, ◌-◌, ◌<◌, ◌≤◌, ltb, leb, ◌==◌, min, true, ◌&&◌, [], ◌∷◌, length, Option, none,
  Text, ◌≡◌, ◌⊎◌, inl, inr, refl, ap, ◌∙◌, take, drop, arith, Bool-cases,
}
use clawpot.Common.Bytes.{
  panic, done, byte, be16, slice, Returns, byte-Returns, be16-Returns, slice-Returns, bind-Returns,
  if-Returns,
}
use clawpot.Proxy.Sni.{
  server_name, walk, extensions, compression, cipher_suites, client_hello, be24, is_client_hello,
  handshake, is_record, extract_sni,
}

server_name-Returns :
    (hello : Text) (pos n e : ℕ) → e ≤ length hello → Returns (server_name hello pos n e)
unfolding server_name
server_name-Returns hello pos n e h =
    if-Returns (leb 5 n && leb (pos + n) e) _ _
      (λ long.
        bind-Returns (byte hello (pos + 2)) _ (byte-Returns hello (pos + 2) (ground arith)) λ t _.
          if-Returns (t == 0) _ _
            (λ _.
              bind-Returns (be16 hello (pos + 3)) _ (be16-Returns hello (pos + 3) (ground arith))
                λ m _.
                  if-Returns (leb (pos + 5 + m) e) _ _
                    (λ fits.
                      bind-Returns (slice hello (pos + 5) (pos + 5 + m)) _
                        (
                          _,
                          slice-Returns hello (pos + 5) (pos + 5 + m) (omega arith) (ground arith),
                        )
                        (λ name _. (_, refl)))
                    (λ _. (_, refl)))
            (λ _. (_, refl)))
      (λ _. (_, refl))

walk-Returns :
    (rounds : ℕ) (hello : Text) (pos e : ℕ)
    → e ≤ length hello
    → e - pos < rounds
    → Returns (walk rounds hello pos e)
unfolding walk
walk-Returns zero hello pos e h k = absurd (omega (arith, k))
walk-Returns (suc rounds) hello pos e h k =
    if-Returns (leb (pos + 4) e) _ _
      (λ more. bind-Returns (be16 hello pos) _ (be16-Returns hello pos (ground arith)) λ t _.
        bind-Returns (be16 hello (pos + 2)) _ (be16-Returns hello (pos + 2) (ground arith)) λ n _.
          if-Returns (t == 0) _ _ (λ _. server_name-Returns hello (pos + 4) n e h)
            (λ _. walk-Returns rounds hello (pos + 4 + n) e h (ground arith)))
      (λ _. (_, refl))

extensions-Returns : (hello : Text) (pos : ℕ) → Returns (extensions hello pos)
unfolding extensions
extensions-Returns hello pos =
    if-Returns (ltb (length hello) (pos + 2)) _ _ (λ _. (_, refl))
      λ inside.
        bind-Returns (be16 hello pos) _ (be16-Returns hello pos (ground arith))
          λ n _. walk-Returns (suc (length hello)) hello (pos + 2) _ (ground arith) (ground arith)

compression-Returns : (hello : Text) (pos : ℕ) → Returns (compression hello pos)
unfolding compression
compression-Returns hello pos =
    if-Returns (leb (length hello) pos) _ _ (λ _. (_, refl))
      λ inside.
        bind-Returns (byte hello pos) _ (byte-Returns hello pos (ground arith))
          λ n _. extensions-Returns hello (pos + (1 + n))

cipher_suites-Returns : (hello : Text) (pos : ℕ) → Returns (cipher_suites hello pos)
unfolding cipher_suites
cipher_suites-Returns hello pos =
    if-Returns (ltb (length hello) (pos + 2)) _ _ (λ _. (_, refl))
      λ inside.
        bind-Returns (be16 hello pos) _ (be16-Returns hello pos (ground arith))
          λ n _. compression-Returns hello (pos + (2 + n))

client_hello-Returns : (hello : Text) → Returns (client_hello hello)
unfolding client_hello
client_hello-Returns hello =
    if-Returns (ltb (length hello) 34) _ _ (λ _. (_, refl))
      λ _.
        if-Returns (leb (length hello) 34) _ _ (λ _. (_, refl))
          λ inside.
            bind-Returns (byte hello 34) _ (byte-Returns hello 34 (ground arith))
              λ n _. cipher_suites-Returns hello (34 + (1 + n))

be24-Returns : (buf : Text) → 4 ≤ length buf → Returns (be24 buf 1)
unfolding be24
be24-Returns buf h = bind-Returns (byte buf 1) _ (byte-Returns buf 1 (omega (arith, h))) λ a _.
    bind-Returns (byte buf 2) _ (byte-Returns buf 2 (omega (arith, h)))
      λ b _. bind-Returns (byte buf 3) _ (byte-Returns buf 3 (omega (arith, h))) λ c _. (_, refl)

-- A handshake that says that it is a ClientHello, and ends before its length.
abbrev pub CutOff : Text → Type 0
CutOff hs = (is_client_hello hs ≡ true) × (length hs < 4)

handshake-panic : (hs : Text) → CutOff hs → handshake hs ≡ panic
unfolding handshake be24 byte
handshake-panic [] (c, h) = cc
handshake-panic (a ∷ []) (c, h) = rw c refl
handshake-panic (a ∷ b ∷ []) (c, h) = rw c refl
handshake-panic (a ∷ b ∷ d ∷ []) (c, h) = rw c refl
handshake-panic (a ∷ b ∷ d ∷ e ∷ hs) (c, h) = absurd (omega (arith, h))

handshake-cases : (hs : Text) → CutOff hs ⊎ Returns (handshake hs)
unfolding handshake
handshake-cases hs = elim (Bool-cases (is_client_hello hs)) [
  | inr other ↦ inr (rw other (_, refl))
  | inl hello ↦ elim (Bool-cases (ltb (length hs) 4)) [
    | inl short ↦ inl (hello, ground arith)
    | inr long ↦ inr (
        rw hello (
          bind-Returns (be24 hs 1) _ (be24-Returns hs (ground arith)) λ n _.
            bind-Returns (slice hs 4 (min (length hs) (4 + n))) _
              (_, slice-Returns hs 4 _ (ground arith) (ground arith))
              (λ h _. client_hello-Returns h)))
  ]
]

-- The handshake in a record of that length.
abbrev pub handshake_of : Text → ℕ → Text
handshake_of buf record_len = take (min (length buf) (5 + record_len) - 5) (drop 5 buf)

-- The buffer starts as a handshake record, whose handshake is cut off.
abbrev pub Truncated : Text → Type 0
Truncated buf =
    (is_record buf ≡ true)
    × ((record_len : ℕ) × (be16 buf 3 ≡ done record_len) × CutOff (handshake_of buf record_len))

record-long : (buf : Text) → is_record buf ≡ true → 5 ≤ length buf
record-long [] h = cc
record-long (a ∷ []) h = cc
record-long (a ∷ b ∷ []) h = cc
record-long (a ∷ b ∷ c ∷ []) h = cc
record-long (a ∷ b ∷ c ∷ d ∷ []) h = cc
record-long (a ∷ b ∷ c ∷ d ∷ e ∷ buf) h = omega arith

extract_sni-handshake :
    (buf : Text) (n : ℕ)
    → is_record buf ≡ true
    → be16 buf 3 ≡ done n
    → extract_sni buf ≡ handshake (handshake_of buf n)
unfolding extract_sni
extract_sni-handshake buf n h e =
    let cut : slice buf 5 (min (length buf) (5 + n)) ≡ done (handshake_of buf n) =
      slice-Returns buf 5 _ (ground (arith, record-long buf h)) (ground arith) in
    rw (h, e, cut) refl

returned :
    (buf : Text) (n : ℕ) (found : Option Text)
    → be16 buf 3 ≡ done n
    → handshake (handshake_of buf n) ≡ done found
    → ¬ Truncated buf
returned buf n found e k (h, (m, e', cut)) =
    let same : n ≡ m = cc in
    let p : handshake (handshake_of buf n) ≡ panic =
      ap (λ x. handshake (handshake_of buf x)) same ∙ handshake-panic (handshake_of buf m) cut in
    absurd (cc)

-- `extract_sni` panics exactly on a handshake record whose handshake starts as a ClientHello and has
-- fewer than 4 bytes; on every other buffer it returns, with a name or without, and its loop ends.
pub extract_sni-Truncated :
    (buf : Text)
    → (Truncated buf × (extract_sni buf ≡ panic)) ⊎ ((¬ Truncated buf) × Returns (extract_sni buf))
extract_sni-Truncated buf = elim (Bool-cases (is_record buf)) [
  | inr other ↦ inr ((λ t. absurd (cc)), unfold extract_sni in (rw other (none, refl)))
  | inl is_tls ↦
      let (n, e) = be16-Returns buf 3 (ground (arith, record-long buf is_tls)) in
      let eqn = extract_sni-handshake buf n is_tls e in
      elim (handshake-cases (handshake_of buf n)) [
        | inl cut ↦ inl ((is_tls, (n, e, cut)), eqn ∙ handshake-panic (handshake_of buf n) cut)
        | inr (found, k) ↦ inr (returned buf n found e k, (found, eqn ∙ k))
      ]
]
