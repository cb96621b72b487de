-- ===== src/Proxy/Sni.antt =====
-- `extract_sni` of clawpot-server/src/proxy/tls_mitm.rs, cut at its early returns. A buffer is a list
-- of bytes, and an index out of bounds panics. `none` is that no server name was found.
pub mod Panic
use clawpot.Common.{
  ℕ, zero, suc, ◌+◌, ◌-◌, ◌*◌, ltb, leb, ◌==◌, min, Bool, false, ◌&&◌, List, [], ◌∷◌, length,
  Option, none, some, Text, if◌then◌else◌,
}
use clawpot.Common.Utf8.{is_utf8}
use clawpot.Common.Bytes.{Run, panic, done, ◌>>=◌, byte, be16, slice}

abbrev pub Sni : Type 0
Sni = Run (Option Text)

-- `String::from_utf8(name.to_vec()).ok()`
abbrev pub from_utf8 : Text → Option Text
from_utf8 name = if is_utf8 name then some name else none

-- The body of the extension of the server name, from `pos` on.
unfoldable pub server_name : (hello : Text) (pos ext_len extensions_end : ℕ) → Sni
unfolding byte be16 slice
server_name hello pos ext_len extensions_end =
    if leb 5 ext_len && leb (pos + ext_len) extensions_end
    then (do
      name_type ← byte hello (pos + 2)
      (if name_type == 0
          then (do
            name_len ← be16 hello (pos + 3)
            (if leb (pos + 5 + name_len) extensions_end
                then (do name ← slice hello (pos + 5) (pos + 5 + name_len); done (from_utf8 name))
                else done none))
          else done none))
    else done none

-- The loop over the extensions, with the rounds that it may still take.
unfoldable pub walk : (rounds : ℕ) (hello : Text) (pos extensions_end : ℕ) → Sni
unfolding server_name be16
walk zero hello pos extensions_end = panic
walk (suc rounds) hello pos extensions_end =
    if leb (pos + 4) extensions_end
    then (do
      ext_type ← be16 hello pos
      ext_len ← be16 hello (pos + 2)
      (if ext_type == 0
          then server_name hello (pos + 4) ext_len extensions_end
          else walk rounds hello (pos + 4 + ext_len) extensions_end))
    else done none

-- From the length of the extensions on. Each round of the loop takes four bytes or more.
unfoldable pub extensions : Text → ℕ → Sni
unfolding walk be16
extensions hello pos = if ltb (length hello) (pos + 2) then done none else (do
  extensions_len ← be16 hello pos
  walk (suc (length hello)) hello (pos + 2)
      (pos + 2 + min extensions_len (length hello - (pos + 2))))

-- From the compression methods on.
unfoldable pub compression : Text → ℕ → Sni
unfolding extensions byte
compression hello pos =
    if leb (length hello) pos
    then done none
    else (do compression_len ← byte hello pos; extensions hello (pos + (1 + compression_len)))

-- From the cipher suites on.
unfoldable pub cipher_suites : Text → ℕ → Sni
unfolding compression be16
cipher_suites hello pos =
    if ltb (length hello) (pos + 2)
    then done none
    else (do cipher_suites_len ← be16 hello pos; compression hello (pos + (2 + cipher_suites_len)))

-- From the session id on.
unfoldable pub client_hello : Text → Sni
unfolding cipher_suites byte
client_hello hello =
    if ltb (length hello) 34
    then done none
    else if leb (length hello) 34
    then done none
    else (do session_id_len ← byte hello 34; cipher_suites hello (34 + (1 + session_id_len)))

-- `u32::from_be_bytes([0, handshake[1], handshake[2], handshake[3]])`
unfoldable pub be24 : Text → ℕ → Run ℕ
unfolding byte
be24 buf i = do
  a ← byte buf i
  b ← byte buf (i + 1)
  c ← byte buf (i + 2)
  done (a * 65536 + b * 256 + c)

-- `handshake.is_empty() || handshake[0] != 0x01`
abbrev pub is_client_hello : Text → Bool
is_client_hello [] = false
is_client_hello (b ∷ bs) = b == 1

-- From the handshake on.
unfoldable pub handshake : Text → Sni
unfolding client_hello be24 slice
handshake hs =
    if is_client_hello hs
    then (do
      hs_len ← be24 hs 1
      hello ← slice hs 4 (min (length hs) (4 + hs_len))
      client_hello hello)
    else done none

-- `buf.len() < 5 || buf[0] != 0x16`
abbrev pub is_record : Text → Bool
is_record (t ∷ v0 ∷ v1 ∷ l0 ∷ l1 ∷ rest) = t == 22
is_record _ = false

unfoldable pub extract_sni : Text → Sni
unfolding handshake be16 slice
extract_sni buf =
    if is_record buf
    then (do
      record_len ← be16 buf 3
      hs ← slice buf 5 (min (length buf) (5 + record_len))
      handshake hs)
    else done none
