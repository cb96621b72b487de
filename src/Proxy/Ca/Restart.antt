-- ===== src/Proxy/Ca/Restart.antt =====
-- The files of clawpot-server/src/proxy/ca.rs, from one start of the server to the next.
use clawpot.Common.{
  ℕ, ◌≡◌, refl, subst, true, Bool-cases, inl, inr, Option, none, some, Text, ok, err,
}
use clawpot.Proxy.Ca.{
  Rcgen, CertificateAuthority, Error, Directory, Disk, Opened, authority, loaded_with, loaded, load,
  written, made, make, load_or_make, new,
}

module _ (rcgen : Rcgen) where
  open rcgen use {KeyPair, Certificate, generate, from_pem, serialize_pem, pem, self_signed}

  -- The directory holds the certificate and the key of the authority.
  pub record Stored (ca : CertificateAuthority rcgen) (dir : Directory) : Type 0 where
    pub key_pem : Text
    pub cert : dir.cert ≡ some ca.ca_cert_pem
    pub key : dir.key ≡ some key_pem
    pub same : from_pem key_pem ≡ some ca.ca_key

  abbrev Keeps : Opened rcgen → Type 0
  Keeps out = (ca : CertificateAuthority rcgen) → out.0 ≡ ok ca → Stored ca out.1

  kept : (ca : CertificateAuthority rcgen) (dir : Directory) → Stored ca dir → Keeps (ok ca, dir)
  kept ca dir s d e = subst (λ d. Stored d dir) (cc) s

  failed : (e : Error) (dir : Directory) → Keeps (err e, dir)
  failed e dir ca h = absurd (cc)

  loaded_with-Keeps :
      (run : ℕ) (cert_pem key_pem : Text) (key : KeyPair) (o : Option Certificate) (dir : Directory)
      → dir.cert ≡ some cert_pem
      → dir.key ≡ some key_pem
      → from_pem key_pem ≡ some key
      → Keeps (loaded_with rcgen run cert_pem key o dir)
  loaded_with-Keeps run cert_pem key_pem key none dir c k s = failed _ dir
  loaded_with-Keeps run cert_pem key_pem key (some cert) dir c k s =
      kept (authority rcgen run 0 cert key cert_pem) dir
        (record { key_pem = key_pem; cert = c; key = k; same = s })

  loaded-Keeps :
      (run : ℕ) (cert_pem key_pem : Text) (o : Option KeyPair) (dir : Directory)
      → dir.cert ≡ some cert_pem
      → dir.key ≡ some key_pem
      → from_pem key_pem ≡ o
      → Keeps (loaded rcgen run cert_pem o dir)
  loaded-Keeps run cert_pem key_pem none dir c k s = failed _ dir
  loaded-Keeps run cert_pem key_pem (some key) dir c k s =
      loaded_with-Keeps run cert_pem key_pem key (self_signed run key) dir c k s

  load-Keeps :
      (disk : Disk) (run : ℕ) (cert_pem key_pem : Text) (dir : Directory)
      → dir.cert ≡ some cert_pem
      → dir.key ≡ some key_pem
      → Keeps (load rcgen disk run cert_pem key_pem dir)
  unfolding load
  load-Keeps disk run cert_pem key_pem dir c k = elim (Bool-cases disk.can_read_key) [
    | inr h ↦ rw h (failed _ dir)
    | inl h ↦ elim (Bool-cases disk.can_read_cert) [
      | inr j ↦ rw (h, j) (failed _ dir)
      | inl j ↦ rw (h, j) (loaded-Keeps run cert_pem key_pem (from_pem key_pem) dir c k refl)
    ]
  ]

  -- A key that is written is read back as it was.
  module _
      (from_pem-serialize_pem : (key : KeyPair) → from_pem (serialize_pem key) ≡ some key) where
    written-Keeps :
        (disk : Disk) (run : ℕ) (key : KeyPair) (o : Option Certificate) (dir : Directory)
        → Keeps (written rcgen disk run key o dir)
    written-Keeps disk run key none dir = failed _ dir
    written-Keeps disk run key (some cert) dir = elim (Bool-cases disk.can_write_cert) [
      | inr h ↦ rw h (failed _ dir)
      | inl h ↦ elim (Bool-cases disk.can_write_key) [
        | inr j ↦ rw (h, j) (failed _ _)
        | inl j ↦
            rw (h, j)
              (kept (authority rcgen run 1 cert key (pem cert))
                (record { cert = some (pem cert); key = some (serialize_pem key) })
                (record {
                  key_pem = serialize_pem key;
                  cert = refl;
                  key = refl;
                  same = from_pem-serialize_pem key;
                }))
      ]
    ]

    make-Keeps : (disk : Disk) (run : ℕ) (dir : Directory) → Keeps (make rcgen disk run dir)
    unfolding make
    make-Keeps disk run dir = go (generate run 0)
      where
        go : (o : Option KeyPair) → Keeps (made rcgen disk run o dir)
        go none = failed _ dir
        go (some key) = written-Keeps disk run key (self_signed run key) dir

    load_or_make-Keeps :
        (disk : Disk) (run : ℕ) (c k : Option Text) (dir : Directory)
        → dir.cert ≡ c
        → dir.key ≡ k
        → Keeps (load_or_make rcgen disk run c k dir)
    load_or_make-Keeps disk run (some c) (some k) dir h j = load-Keeps disk run c k dir h j
    load_or_make-Keeps disk run (some c) none dir h j = make-Keeps disk run dir
    load_or_make-Keeps disk run none k dir h j = make-Keeps disk run dir

    new-Stored : (disk : Disk) (run : ℕ) (dir : Directory) → Keeps (new rcgen disk run dir)
    unfolding new
    new-Stored disk run dir = elim (Bool-cases disk.can_create) [
      | inl h ↦ rw h (load_or_make-Keeps disk run dir.cert dir.key dir refl refl)
      | inr h ↦ rw h (failed _ dir)
    ]

  Stored-new :
      (ca : CertificateAuthority rcgen) (disk : Disk) (run : ℕ) (dir : Directory)
      (cert : Certificate)
      → Stored ca dir
      → disk.can_create ≡ true
      → disk.can_read_key ≡ true
      → disk.can_read_cert ≡ true
      → self_signed run ca.ca_key ≡ some cert
      → new rcgen disk run dir ≡ (ok (authority rcgen run 0 cert ca.ca_key ca.ca_cert_pem), dir)
  unfolding new load
  Stored-new ca disk run dir cert s h j k signed = rw (h, s.cert, s.key, j, k, s.same, signed) refl

  -- Once `new` has succeeded, on an empty directory or on any other, the next start with the files
  -- that it left reads them and changes none: the authority has the same key and the same
  -- certificate on disk. This takes that a key survives being written and read, and that the
  -- directory is readable and the key signs.
  pub new-new :
      ((key : KeyPair) → from_pem (serialize_pem key) ≡ some key)
      → (first second : Disk) (run next : ℕ) (dir : Directory) (ca : CertificateAuthority rcgen)
        (cert : Certificate)
      → (new rcgen first run dir).0 ≡ ok ca
      → second.can_create ≡ true
      → second.can_read_key ≡ true
      → second.can_read_cert ≡ true
      → self_signed next ca.ca_key ≡ some cert
      → new rcgen second next (new rcgen first run dir).1
        ≡ (ok (authority rcgen next 0 cert ca.ca_key ca.ca_cert_pem), (new rcgen first run dir).1)
  new-new round_trip first second run next dir ca cert done h j k signed =
      Stored-new ca second next (new rcgen first run dir).1 cert
        (new-Stored round_trip first run dir ca done) h j k signed
