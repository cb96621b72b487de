-- ===== src/Proxy/Ca/Cache.antt =====
-- The cache of leaf certificates in clawpot-server/src/proxy/ca.rs.
use clawpot.Common.{
  All, ◌≡◌, refl, ap, subst, ◌+◌, true, Bool-cases, inl, inr, [], ◌∷◌, Option, none, some, Text,
  text_eq, text_eq_iff, Result, ok, err, arith,
}
use clawpot.Proxy.Ca.{
  Rcgen, CachedCert, CertificateAuthority, Error, Cache, cached, get_or_create_cert, looked_up,
  with_key, leaf,
}

module _ (rcgen : Rcgen) where
  open rcgen use {KeyPair, Certificate, generate, serialize_pem, pem, valid_name, signed_by}

  -- The certificate is for the domain and its key, and signed with this key.
  pub record IsIssued (ca_cert : Certificate) (ca_key : KeyPair) (domain : Text) (c : CachedCert)
      : Type 0 where
    pub key : KeyPair
    pub cert : Certificate
    pub named : valid_name domain ≡ true
    pub signed : signed_by domain key ca_cert ca_key ≡ some cert
    pub stored : c ≡ record { cert_pem = pem cert; key_pem = serialize_pem key }

  abbrev pub IsValid : CertificateAuthority rcgen → Type 0
  IsValid ca = All (λ e. IsIssued ca.ca_cert ca.ca_key e.0 e.1) ca.cache

  -- A result for a domain: the authority stays valid, a certificate that is returned was issued for
  -- the domain, and the next call for it returns it and changes nothing.
  abbrev pub Serves : Text → Result Error CachedCert × CertificateAuthority rcgen → Type 0
  Serves domain out =
      IsValid out.1
      × ((c : CachedCert)
          → out.0 ≡ ok c
          → IsIssued out.1.ca_cert out.1.ca_key domain c
            × (get_or_create_cert rcgen domain out.1 ≡ (ok c, out.1)))

  returned :
      (domain : Text) (ca : CertificateAuthority rcgen) (c : CachedCert)
      → IsValid ca
      → IsIssued ca.ca_cert ca.ca_key domain c
      → cached domain ca.cache ≡ some c
      → Serves domain (ok c, ca)
  unfolding get_or_create_cert
  returned domain ca c v issued found = (
    v,
    λ d e.
        subst
          (λ d.
            IsIssued ca.ca_cert ca.ca_key domain d
            × (get_or_create_cert rcgen domain ca ≡ (ok d, ca)))
          (cc) (issued, ap (λ o. looked_up rcgen domain o ca) found),
  )

  failed :
      (domain : Text) (ca : CertificateAuthority rcgen) (e : Error)
      → IsValid ca
      → Serves domain (err e, ca)
  failed domain ca e v = (v, λ c h. absurd (cc))

  cached-IsIssued :
      (ca_cert : Certificate) (ca_key : KeyPair) (domain : Text) (c : CachedCert) (cache : Cache)
      → All (λ e. IsIssued ca_cert ca_key e.0 e.1) cache
      → cached domain cache ≡ some c
      → IsIssued ca_cert ca_key domain c
  unfolding cached
  cached-IsIssued ca_cert ca_key domain c [] v h = absurd (cc)
  cached-IsIssued ca_cert ca_key domain c ((d, x) ∷ cache) v h =
      elim (Bool-cases (text_eq d domain)) [
        | inl e ↦
            let same : x ≡ c = ground (arith, h, e) in
            subst (λ t. IsIssued ca_cert ca_key t c) ((text_eq_iff d domain).0 e)
              (subst (IsIssued ca_cert ca_key d) same v.0)
        | inr e ↦ cached-IsIssued ca_cert ca_key domain c cache v.1 (ground (arith, h, e))
      ]

  leaf-Serves :
      (domain : Text) (key : KeyPair) (o : Option Certificate) (ca : CertificateAuthority rcgen)
      → IsValid ca
      → valid_name domain ≡ true
      → signed_by domain key ca.ca_cert ca.ca_key ≡ o
      → Serves domain (leaf rcgen domain key o ca)
  unfolding cached
  leaf-Serves domain key none ca v named h = failed domain ca _ v
  leaf-Serves domain key (some cert) ca v named h =
      let fresh : CachedCert = record { cert_pem = pem cert; key_pem = serialize_pem key } in
      let issued : IsIssued ca.ca_cert ca.ca_key domain fresh = record {
        key = key;
        cert = cert;
        named = named;
        signed = h;
        stored = refl;
      } in
      returned domain (record ca { cache = (domain, fresh) ∷ ca.cache }) fresh (issued, v) issued
        (rw ((text_eq_iff domain domain).1 refl) refl)

  with_key-Serves :
      (domain : Text) (o : Option KeyPair) (ca : CertificateAuthority rcgen)
      → IsValid ca
      → Serves domain (with_key rcgen domain o ca)
  with_key-Serves domain none ca v = failed domain ca _ v
  with_key-Serves domain (some key) ca v = elim (Bool-cases (valid_name domain)) [
    | inl h ↦ rw h (leaf-Serves domain key (signed_by domain key ca.ca_cert ca.ca_key) ca v h refl)
    | inr h ↦ rw h (failed domain ca _ v)
  ]

  looked_up-Serves :
      (domain : Text) (o : Option CachedCert) (ca : CertificateAuthority rcgen)
      → IsValid ca
      → cached domain ca.cache ≡ o
      → Serves domain (looked_up rcgen domain o ca)
  looked_up-Serves domain (some c) ca v h =
      returned domain ca c v (cached-IsIssued ca.ca_cert ca.ca_key domain c ca.cache v h) h
  looked_up-Serves domain none ca v h =
      with_key-Serves domain (generate ca.run ca.generated)
        (record ca { generated = ca.generated + 1 }) v

  -- In a cache of certificates that this authority issued, `get_or_create_cert` keeps the cache so,
  -- on errors too; a certificate that it returns was issued for the domain, and the next call for the
  -- domain returns the same and changes nothing.
  pub get_or_create_cert-Serves :
      (domain : Text) (ca : CertificateAuthority rcgen)
      → IsValid ca
      → Serves domain (get_or_create_cert rcgen domain ca)
  unfolding get_or_create_cert
  get_or_create_cert-Serves domain ca v = looked_up-Serves domain (cached domain ca.cache) ca v refl
