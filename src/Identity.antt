-- ===== src/Identity.antt =====
-- core/security/identity.go and modules/security/identity.go: the keys of a node, and the gate that
-- checks the certificates of peers. The cryptography is a parameter.
use node_decent_system.Prelude.{
  ◌+◌, ◌≡◌, ◌↔◌, inl, inr, refl, sym, ap, subst, ◌∙◌, Bool, true, Option, none, some, Option-cases,
  List, [], ◌∷◌, ◌++◌, arith, Result, Result-cases, ok-injective, err-ne-ok, none-ne-some, ok, err,
  Bytes, Error, lit, hex, length, take, length-append, length-take,
}

-- `crypto/ed25519`; `generate_key` draws from a source of random bytes.
pub record Ed25519 (Seed : Type 0) : Type 0 where
  pub generate_key : Seed → Result Error (Bytes × Bytes)
  pub sign : Bytes → Bytes → Bytes
  pub verify : Bytes → Bytes → Bytes → Bool

-- What the package documents: the signature by a generated private key is valid for its public key.
pub record Ed25519Laws {Seed : Type 0} (ed : Ed25519 Seed) : Type 0 where
  pub verify-sign :
      (seed : Seed) (public_key private_key msg : Bytes)
      → ed.generate_key seed ≡ ok (public_key, private_key)
      → ed.verify public_key msg (ed.sign private_key msg) ≡ true

pub record NodeIdentity : Type 0 where
  pub node_id : Bytes
  pub public_key : Bytes
  pub private_key : Bytes

module _ (sha256 : Bytes → Bytes) {Seed : Type 0} (ed : Ed25519 Seed) where
  identity_of : Result Error (Bytes × Bytes) → Result Error NodeIdentity
  identity_of (err e) = err (lit "failed to generate ed25519 keypair: " ++ e)
  identity_of (ok (public_key, private_key)) = ok (record {
    node_id = lit "node_" ++ hex (take 8 (sha256 public_key));
    public_key = public_key;
    private_key = private_key;
  })

  unfoldable pub generate_node_identity : Seed → Result Error NodeIdentity
  unfolding identity_of
  generate_node_identity seed = identity_of (ed.generate_key seed)

  unfoldable pub sign_message : NodeIdentity → Bytes → Bytes
  sign_message ni msg = ed.sign ni.private_key msg

  unfoldable pub verify_message_signature : Bytes → Bytes → Bytes → Bool
  verify_message_signature public_key msg sig = ed.verify public_key msg sig

-- `crypto/x509`: the chain of a certificate is checked for client authentication, against a pool of
-- roots.
pub record X509 : Type 1 where
  pub Certificate : Type 0
  pub parse_certificate : Bytes → Result Error Certificate
  pub verify : Certificate → List Certificate → Option Error

module _ (x509 : X509) where
  pub record IdentityGate : Type 0 where
    pub regulatory_root_cas : List x509.Certificate

  unfoldable pub new_identity_gate : x509.Certificate → IdentityGate
  new_identity_gate root = record { regulatory_root_cas = root ∷ [] }

  verified : Option Error → Option Error
  verified none = none
  verified (some e) =
      some (lit "JURISDICTION_VIOLATION: Peer holds unauthorized or counterfeit credentials: " ++ e)

  parsed : List x509.Certificate → Result Error x509.Certificate → Option Error
  unfolding verified
  parsed roots (err e) = some (lit "SECURITY_FAULT: Malformed X.509 certificate: " ++ e)
  parsed roots (ok cert) = verified (x509.verify cert roots)

  -- Only the first certificate is looked at; the chains that TLS has verified are ignored.
  unfoldable pub verify_peer_certificate : IdentityGate → List Bytes → Option Error
  unfolding parsed
  verify_peer_certificate g [] =
      some (lit "SECURITY_FAULT: Anonymous connections strictly forbidden")
  verify_peer_certificate g (raw ∷ rest) = parsed g.regulatory_root_cas (x509.parse_certificate raw)

  -- A gate for a root lets a peer in just if the first of its certificates is well formed and is
  -- verified against that root alone; the further certificates do not matter.
  pub verify_peer_certificate_iff :
      (root : x509.Certificate) (certs : List Bytes)
      → (verify_peer_certificate (new_identity_gate root) certs ≡ none) ↔ (
          (raw : Bytes) × (rest : List Bytes) × (cert : x509.Certificate) × (certs ≡ raw ∷ rest)
          × (x509.parse_certificate raw ≡ ok cert)
          × (x509.verify cert (root ∷ []) ≡ none))
  unfolding verify_peer_certificate new_identity_gate parsed verified
  verify_peer_certificate_iff root certs = (accepted certs, passes certs)
    where
      accepted :
          (certs : List Bytes)
          → verify_peer_certificate (new_identity_gate root) certs ≡ none
          → (raw : Bytes) × (rest : List Bytes) × (cert : x509.Certificate) × (certs ≡ raw ∷ rest)
            × (x509.parse_certificate raw ≡ ok cert)
            × (x509.verify cert (root ∷ []) ≡ none)
      accepted [] h = absurd (none-ne-some (sym h))
      accepted (raw ∷ rest) h = elim (Result-cases (x509.parse_certificate raw)) [
        | inl (cert, e) ↦ elim (Option-cases (x509.verify cert (root ∷ []))) [
          | inl v ↦ (raw, rest, cert, refl, e, v)
          | inr (x, v) ↦ absurd (none-ne-some (sym h ∙ ap (parsed (root ∷ [])) e ∙ ap verified v))
        ]
        | inr (x, e) ↦ absurd (none-ne-some (sym h ∙ ap (parsed (root ∷ [])) e))
      ]

      passes :
          (certs : List Bytes)
          → ((raw : Bytes) × (rest : List Bytes) × (cert : x509.Certificate) × (certs ≡ raw ∷ rest)
              × (x509.parse_certificate raw ≡ ok cert)
              × (x509.verify cert (root ∷ []) ≡ none))
          → verify_peer_certificate (new_identity_gate root) certs ≡ none
      passes certs (raw, rest, cert, same, e, v) =
          ap (verify_peer_certificate (new_identity_gate root)) same
          ∙ ap (parsed (root ∷ [])) e
          ∙ ap verified v

length-hex : (bs : Bytes) → length (hex bs) ≡ length bs + length bs
unfolding hex
length-hex [] = omega arith
length-hex (b ∷ bs) = omega (arith, length-hex bs)

node_prefix : length (lit "node_") ≡ 5
unfolding lit
node_prefix = refl

-- A generated identity has an ID of 21 characters, if the hash gives digests of 32 bytes, and each
-- message that it signs is valid for its public key.
pub generate_node_identity-signs :
    (sha256 : Bytes → Bytes) {Seed : Type 0} (ed : Ed25519 Seed)
    → Ed25519Laws ed
    → ((s : Bytes) → length (sha256 s) ≡ 32)
    → (seed : Seed) (ni : NodeIdentity) (msg : Bytes)
    → generate_node_identity sha256 ed seed ≡ ok ni
    → (length ni.node_id ≡ 21)
      × (verify_message_signature sha256 ed ni.public_key msg (sign_message sha256 ed ni msg)
          ≡ true)
unfolding generate_node_identity identity_of sign_message verify_message_signature
generate_node_identity-signs sha256 ed laws digests seed ni msg made =
    elim (Result-cases (ed.generate_key seed)) [
      | inr (x, e) ↦ absurd (err-ne-ok _ ni (sym (ap (identity_of sha256 ed) e) ∙ made))
      | inl ((public_key, private_key), e) ↦
          let fresh : NodeIdentity = record {
            node_id = lit "node_" ++ hex (take 8 (sha256 public_key));
            public_key = public_key;
            private_key = private_key;
          } in
          let same : fresh ≡ ni =
            ok-injective fresh ni (sym (ap (identity_of sha256 ed) e) ∙ made) in
          let size : length fresh.node_id ≡ 21 = omega (
            arith,
            length-append (lit "node_") (hex (take 8 (sha256 public_key))),
            node_prefix,
            length-hex (take 8 (sha256 public_key)),
            length-take 8 (sha256 public_key),
            digests public_key,
          ) in
          subst
            (λ i.
              (length i.node_id ≡ 21)
              × (ed.verify i.public_key msg (ed.sign i.private_key msg) ≡ true))
            same (size, laws.verify-sign seed public_key private_key msg e)
    ]
