-- ===== src/Proxy/Ca.antt =====
-- The certificate authority of clawpot-server/src/proxy/ca.rs. The crate rcgen is a parameter.
pub mod Cache
pub mod Restart
use clawpot.Common.{
  ℕ, ◌+◌, Bool, true, false, not, List, [], ◌∷◌, Option, none, some, Text, text_eq, Result, ok, err,
  if◌then◌else◌,
}

pub record Rcgen : Type 1 where
  pub KeyPair : Type 0
  pub Certificate : Type 0
  -- the key pair that a call gives; the arguments count the server's starts and its calls
  pub generate : ℕ → ℕ → Option KeyPair
  pub from_pem : Text → Option KeyPair
  pub serialize_pem : KeyPair → Text
  pub pem : Certificate → Text
  -- the CA's certificate; the argument counts the starts, since a certificate has a time
  pub self_signed : ℕ → KeyPair → Option Certificate
  pub valid_name : Text → Bool  -- whether `CertificateParams::new` takes the domain
  -- a leaf certificate for the domain and its key, signed by the CA's certificate and key
  pub signed_by : Text → KeyPair → Certificate → KeyPair → Option Certificate

pub record CachedCert : Type 0 where
  pub cert_pem : Text
  pub key_pem : Text

pub data Error : Type 0 where
  create_directory read_key read_cert parse_key self_sign generate_key write_cert write_key : Error
  leaf_params sign_leaf : Error

-- The files `ca.crt` and `ca.key` in the CA's directory.
pub record Directory : Type 0 where
  pub cert : Option Text
  pub key : Option Text

-- Whether the directory can be created, its files be read, and either be written.
pub record Disk : Type 0 where
  pub can_create : Bool
  pub can_read_key : Bool
  pub can_read_cert : Bool
  pub can_write_cert : Bool
  pub can_write_key : Bool

abbrev pub Cache : Type 0
Cache = List (Text × CachedCert)

-- `cache.get(domain)`
unfoldable pub cached : Text → Cache → Option CachedCert
cached domain [] = none
cached domain ((d, cert) ∷ cache) = if text_eq d domain then some cert else cached domain cache

module _ (rcgen : Rcgen) where
  open rcgen use {
    KeyPair, Certificate, generate, from_pem, serialize_pem, pem, self_signed, valid_name,
    signed_by,
  }

  pub record CertificateAuthority : Type 0 where
    pub ca_cert : Certificate
    pub ca_key : KeyPair
    pub ca_cert_pem : Text
    pub cache : Cache
    -- the start of the server, and the calls of `KeyPair::generate` since then
    pub run : ℕ
    pub generated : ℕ

  -- The domain's certificate, signed or not.
  abbrev pub leaf :
      Text
      → KeyPair
      → Option Certificate
      → CertificateAuthority
      → Result Error CachedCert × CertificateAuthority
  leaf domain key none ca = (err sign_leaf, ca)
  leaf domain key (some cert) ca =
      let fresh : CachedCert = record { cert_pem = pem cert; key_pem = serialize_pem key } in
      (ok fresh, record ca { cache = (domain, fresh) ∷ ca.cache })

  abbrev pub with_key :
      Text → Option KeyPair → CertificateAuthority → Result Error CachedCert × CertificateAuthority
  with_key domain none ca = (err generate_key, ca)
  with_key domain (some key) ca =
      if valid_name domain
      then leaf domain key (signed_by domain key ca.ca_cert ca.ca_key) ca
      else (err leaf_params, ca)

  abbrev pub looked_up :
      Text
      → Option CachedCert
      → CertificateAuthority
      → Result Error CachedCert × CertificateAuthority
  looked_up domain (some cert) ca = (ok cert, ca)
  looked_up domain none ca =
      with_key domain (generate ca.run ca.generated) (record ca { generated = ca.generated + 1 })

  -- The cache is locked from the first line to the last.
  unfoldable pub get_or_create_cert :
      Text → CertificateAuthority → Result Error CachedCert × CertificateAuthority
  unfolding cached
  get_or_create_cert domain ca = looked_up domain (cached domain ca.cache) ca

  abbrev pub Opened : Type 0
  Opened = Result Error CertificateAuthority × Directory

  abbrev pub authority : (run generated : ℕ) → Certificate → KeyPair → Text → CertificateAuthority
  authority run generated cert key cert_pem = record {
    ca_cert = cert;
    ca_key = key;
    ca_cert_pem = cert_pem;
    cache = [];
    run = run;
    generated = generated;
  }

  abbrev pub loaded_with : ℕ → Text → KeyPair → Option Certificate → Directory → Opened
  loaded_with run cert_pem key none dir = (err self_sign, dir)
  loaded_with run cert_pem key (some cert) dir = (ok (authority run 0 cert key cert_pem), dir)

  abbrev pub loaded : ℕ → Text → Option KeyPair → Directory → Opened
  loaded run cert_pem none dir = (err parse_key, dir)
  loaded run cert_pem (some key) dir = loaded_with run cert_pem key (self_signed run key) dir

  -- The branch on which both files exist.
  unfoldable pub load : Disk → ℕ → (cert_pem key_pem : Text) → Directory → Opened
  load disk run cert_pem key_pem dir =
      if not disk.can_read_key
      then (err read_key, dir)
      else if not disk.can_read_cert
      then (err read_cert, dir)
      else loaded run cert_pem (from_pem key_pem) dir

  -- The two writes; the first stays if the second fails.
  abbrev pub written : Disk → ℕ → KeyPair → Option Certificate → Directory → Opened
  written disk run key none dir = (err self_sign, dir)
  written disk run key (some cert) dir =
      let half = record dir { cert = some (pem cert) } in
      if not disk.can_write_cert
      then (err write_cert, dir)
      else if not disk.can_write_key
      then (err write_key, half)
      else (
        ok (authority run 1 cert key (pem cert)),
        record half { key = some (serialize_pem key) },
      )

  abbrev pub made : Disk → ℕ → Option KeyPair → Directory → Opened
  made disk run none dir = (err generate_key, dir)
  made disk run (some key) dir = written disk run key (self_signed run key) dir

  -- The branch on which a file is missing.
  unfoldable pub make : Disk → ℕ → Directory → Opened
  make disk run dir = made disk run (generate run 0) dir

  abbrev pub load_or_make : Disk → ℕ → Option Text → Option Text → Directory → Opened
  load_or_make disk run (some cert_pem) (some key_pem) dir = load disk run cert_pem key_pem dir
  load_or_make disk run (some cert_pem) none dir = make disk run dir
  load_or_make disk run none key_pem dir = make disk run dir

  unfoldable pub new : Disk → (run : ℕ) → Directory → Opened
  unfolding load make
  new disk run dir =
      if disk.can_create
      then load_or_make disk run dir.cert dir.key dir
      else (err create_directory, dir)
