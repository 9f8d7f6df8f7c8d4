-- ===== src/Runbooks/Rotation/Modulus.antt =====
-- `VerifyCertAndKeyModulus` of internal/runbooks/runbooks.go. The parsers of crypto/x509 and
-- encoding/pem are parameters; the numbers of a key are natural numbers.
use autonomous_remediation_e.Prelude.{
  ℕ, ◌≡◌, refl, subst, ap, ◌∙◌, ◌&&◌, String, Option, none, some, str_eq, str_eq_iff, ◌==◌,
  if◌then◌else◌, inl, inr, ◌⊎◌, arith,
}

-- The modulus and the exponent; the curve and the point; the bytes.
pub data PublicKey : Type 0 where
  rsa : ℕ → ℕ → PublicKey
  ecdsa : String → ℕ → ℕ → PublicKey
  ed25519 : String → PublicKey
  unknown : PublicKey

pub record Certificate : Type 0 where
  pub serial : String
  pub not_after : ℕ
  pub public_key : PublicKey

-- The parts of the library; a private key is told by its public part.
pub record Crypto : Type 0 where
  pub pem_decode : String → Option String
  pub parse_certificate : String → Option Certificate
  pub parse_pkcs1 : String → Option PublicKey
  pub parse_pkcs8 : String → Option PublicKey
  pub parse_ec : String → Option PublicKey

pub data KeyError : Type 0 where
  bad_cert_pem bad_certificate bad_key_pem unsupported_key : KeyError
  other_kind mismatch unsupported_public_key : KeyError

abbrev pub or_parsed : Option PublicKey → Option PublicKey → Option PublicKey
or_parsed none other = other
or_parsed (some k) other = some k

-- The switch on the certificate's key, which looks neither at the exponent nor at the curve.
unfoldable pub compare_keys : PublicKey → PublicKey → Option KeyError
compare_keys (rsa n e) (rsa m f) = if n == m then none else some mismatch
compare_keys (rsa n e) _ = some other_kind
compare_keys (ecdsa c x y) (ecdsa d u v) = if (x == u) && (y == v) then none else some mismatch
compare_keys (ecdsa c x y) _ = some other_kind
compare_keys (ed25519 k) (ed25519 l) = if str_eq k l then none else some mismatch
compare_keys (ed25519 k) _ = some other_kind
compare_keys unknown _ = some unsupported_public_key

unfoldable pub fitting : Certificate → Option KeyError → Certificate ⊎ KeyError
fitting cert none = inl cert
fitting cert (some e) = inr e

unfoldable pub with_key : Certificate → Option PublicKey → Certificate ⊎ KeyError
with_key cert none = inr unsupported_key
with_key cert (some k) = fitting cert (compare_keys cert.public_key k)

module _ (c : Crypto) where
  -- The first format that parses.
  unfoldable pub parse_private : String → Option PublicKey
  parse_private der = or_parsed (c.parse_pkcs1 der) (or_parsed (c.parse_pkcs8 der) (c.parse_ec der))

  unfoldable pub with_key_block : Certificate → Option String → Certificate ⊎ KeyError
  with_key_block cert none = inr bad_key_pem
  with_key_block cert (some der) = with_key cert (parse_private der)

  unfoldable pub with_certificate : String → Option Certificate → Certificate ⊎ KeyError
  with_certificate key none = inr bad_certificate
  with_certificate key (some cert) = with_key_block cert (c.pem_decode key)

  unfoldable pub with_cert_block : String → Option String → Certificate ⊎ KeyError
  with_cert_block key none = inr bad_cert_pem
  with_cert_block key (some der) = with_certificate key (c.parse_certificate der)

  -- `VerifyCertAndKeyModulus`, of a certificate and a key.
  unfoldable pub verify_cert_and_key_modulus : String → String → Certificate ⊎ KeyError
  verify_cert_and_key_modulus cert key = with_cert_block key (c.pem_decode cert)

  abbrev parsed_certificate : Option String → Option Certificate
  parsed_certificate none = none
  parsed_certificate (some der) = c.parse_certificate der

  -- The certificate in a file.
  unfoldable pub decode_certificate : String → Option Certificate
  decode_certificate content = parsed_certificate (c.pem_decode content)

-- Two keys that the check takes for a pair: of one kind, with one modulus, one point or the same bytes.
pub data Matches : PublicKey → PublicKey → Type 0 where
  moduli : (n e f : ℕ) → Matches (rsa n e) (rsa n f)
  points : (c d : String) (x y : ℕ) → Matches (ecdsa c x y) (ecdsa d x y)
  keys : (k : String) → Matches (ed25519 k) (ed25519 k)

compare_keys-none : (k l : PublicKey) → compare_keys k l ≡ none → Matches k l
unfolding compare_keys
compare_keys-none (rsa n e) (rsa m f) h =
    let same : n ≡ m = ground arith in subst (λ x. Matches (rsa n e) (rsa x f)) same (moduli n e f)
compare_keys-none (rsa n e) (ecdsa d u v) h = cc h
compare_keys-none (rsa n e) (ed25519 l) h = cc h
compare_keys-none (rsa n e) unknown h = cc h
compare_keys-none (ecdsa c x y) (ecdsa d u v) h =
    let same : x ≡ u = ground arith in
    let same' : y ≡ v = ground arith in
    subst (λ z. Matches (ecdsa c x y) (ecdsa d z v)) same
      (subst (λ z. Matches (ecdsa c x y) (ecdsa d x z)) same' (points c d x y))
compare_keys-none (ecdsa c x y) (rsa m f) h = cc h
compare_keys-none (ecdsa c x y) (ed25519 l) h = cc h
compare_keys-none (ecdsa c x y) unknown h = cc h
compare_keys-none (ed25519 k) (ed25519 l) h =
    let same : k ≡ l = ground (arith, str_eq_iff k l) in
    subst (λ z. Matches (ed25519 k) (ed25519 z)) same (keys k)
compare_keys-none (ed25519 k) (rsa m f) h = cc h
compare_keys-none (ed25519 k) (ecdsa d u v) h = cc h
compare_keys-none (ed25519 k) unknown h = cc h
compare_keys-none unknown l h = cc h

module _ (c : Crypto) where
  -- The private key that a text holds, by its public part.
  abbrev pub private_key : Option String → Option PublicKey
  private_key none = none
  private_key (some der) = parse_private c der

  -- A certificate that is let through was parsed, and its key matches the public part of a private key
  -- that was parsed.
  abbrev pub Fits : String → String → Certificate ⊎ KeyError → Type 0
  Fits cert key (inl x) =
      (decode_certificate c cert ≡ some x)
      × (k : PublicKey) × ((private_key (c.pem_decode key) ≡ some k) × Matches x.public_key k)
  Fits cert key (inr e) = Unit

  fitting-Fits :
      (cert key : String) (x : Certificate) (k : PublicKey) (r : Option KeyError)
      → decode_certificate c cert ≡ some x
      → private_key (c.pem_decode key) ≡ some k
      → compare_keys x.public_key k ≡ r
      → Fits cert key (fitting x r)
  unfolding fitting
  fitting-Fits cert key x k none d h same = (d, k, (h, compare_keys-none x.public_key k same))
  fitting-Fits cert key x k (some e) d h same = tt

  with_key-Fits :
      (cert key : String) (x : Certificate) (k : Option PublicKey)
      → decode_certificate c cert ≡ some x
      → private_key (c.pem_decode key) ≡ k
      → Fits cert key (with_key x k)
  unfolding with_key
  with_key-Fits cert key x none d h = tt
  with_key-Fits cert key x (some k) d h =
      fitting-Fits cert key x k (compare_keys x.public_key k) d h refl

  with_key_block-Fits :
      (cert key : String) (x : Certificate) (b : Option String)
      → decode_certificate c cert ≡ some x
      → c.pem_decode key ≡ b
      → Fits cert key (with_key_block c x b)
  unfolding with_key_block
  with_key_block-Fits cert key x none d h = tt
  with_key_block-Fits cert key x (some der) d h =
      with_key-Fits cert key x (parse_private c der) d (ap private_key h)

  with_certificate-Fits :
      (cert key der : String) (x : Option Certificate)
      → c.pem_decode cert ≡ some der
      → c.parse_certificate der ≡ x
      → Fits cert key (with_certificate c key x)
  unfolding with_certificate decode_certificate
  with_certificate-Fits cert key der none h e = tt
  with_certificate-Fits cert key der (some x) h e =
      with_key_block-Fits cert key x (c.pem_decode key) (ap (parsed_certificate c) h ∙ e) refl

  with_cert_block-Fits :
      (cert key : String) (b : Option String)
      → c.pem_decode cert ≡ b
      → Fits cert key (with_cert_block c key b)
  unfolding with_cert_block
  with_cert_block-Fits cert key none h = tt
  with_cert_block-Fits cert key (some der) h =
      with_certificate-Fits cert key der (c.parse_certificate der) h refl

  -- A certificate that passes with a key was parsed from the first text, and the second text holds
  -- a private key of the same kind, RSA, ECDSA or Ed25519, whose public part has the same modulus, the
  -- same point or the same bytes. The exponent of RSA and the curve of ECDSA may differ.
  pub verify_cert_and_key_modulus-Fits :
      (cert key : String) → Fits cert key (verify_cert_and_key_modulus c cert key)
  unfolding verify_cert_and_key_modulus
  verify_cert_and_key_modulus-Fits cert key = with_cert_block-Fits cert key (c.pem_decode cert) refl
