-- ===== src/NetworkAuth/Token/Verify.antt =====
-- internal/networkauth/runtime.go: which tokens are accepted.
use codewire.Base.{
  ℕ, ◌+◌, ◌≤◌, ◌↔◌, subst, true, not, ◌≡◌, ◌∙◌, ap, inl, inr, some, List, [], ◌∷◌, arith, ◌≢◌,
  Bool-cases,
}
use codewire.Base.Text.{Text, ◌=ᵗ◌, =ᵗ_iff, =ᵗ_of_ne, ne_of_=ᵗ}
use codewire.Base.Result.{ok, ◌>>◌, guard, or_fail, >>=-eq-ok, guard-eq-ok, or_fail-eq-ok}
use codewire.Base.Json.{Json}
use codewire.NetworkAuth.{
  VerifierKey, VerifierBundle, Header, resolve_network_id, max_clock_skew, algorithm_ed25519,
}
use codewire.NetworkAuth.Token.{
  Crypto, unsupported_algorithm, public_key_decoding, no_verifier_key, invalid_signature, find_key,
  parse_token, check_header, check_signature, verify_claims,
}
use codewire.NetworkAuth.Token.Parts.{Encodes, parse_token-Encodes, Encodes-parse_token}

-- A key of the list, with the identifier, whose decoded form is the given one.
pub data HasKey (crypto : Crypto) (key_id : Text) (k : Text) : List VerifierKey → Type 0 where
  here :
      {key : VerifierKey} {keys : List VerifierKey}
      → key.key_id ≡ key_id
      → key.algorithm ≡ algorithm_ed25519
      → crypto.decode_base64 key.public_key ≡ some k
      → HasKey crypto key_id k (key ∷ keys)
  there :
      {key : VerifierKey} {keys : List VerifierKey}
      → key.key_id ≢ key_id
      → HasKey crypto key_id k keys
      → HasKey crypto key_id k (key ∷ keys)

-- What the claims of an accepted token promise, at the time of the verification.
pub record Accepted (crypto : Crypto) (kind : Text) (b : VerifierBundle) (h : Header) (now : ℕ)
    (payload : Text) (signature : Text) : Type 0 where
  pub right_kind : h.kind ≡ kind
  pub right_network : h.network_id ≡ resolve_network_id b.network_id
  pub bundle_current : now ≤ b.expires_at + max_clock_skew
  pub issued : h.issued_at ≤ now + max_clock_skew
  pub unexpired : now ≤ h.expires_at + max_clock_skew
  pub key : Text
  pub non_empty : key ≢ []
  pub has_key : HasKey crypto h.key_id key b.keys
  pub signed : crypto.verify key payload signature ≡ true

module _ (crypto : Crypto) where
  find_key-HasKey :
      (keys : List VerifierKey) (key_id k : Text)
      → find_key crypto keys key_id ≡ ok k
      → k ≢ []
      → HasKey crypto key_id k keys
  unfolding find_key
  find_key-HasKey [] key_id k h n = absurd (n (ground arith))
  find_key-HasKey (key ∷ keys) key_id k h n = elim (Bool-cases (key.key_id =ᵗ key_id)) [
    | inl e ↦
        let found : (guard (key.algorithm =ᵗ algorithm_ed25519) unsupported_algorithm
              >> or_fail (crypto.decode_base64 key.public_key) public_key_decoding)
            ≡ ok k =
          rw e at h in
        let (_, g, d) =
          >>=-eq-ok (guard (key.algorithm =ᵗ algorithm_ed25519) unsupported_algorithm) _ found in
        here ((=ᵗ_iff key.key_id key_id).0 e)
          ((=ᵗ_iff key.algorithm algorithm_ed25519).0 (guard-eq-ok _ unsupported_algorithm tt g))
          (or_fail-eq-ok _ public_key_decoding k d)
    | inr e ↦ there (ne_of_=ᵗ key.key_id key_id e) (find_key-HasKey keys key_id k (rw e at h) n)
  ]

  HasKey-find_key :
      (keys : List VerifierKey) (key_id k : Text)
      → HasKey crypto key_id k keys
      → find_key crypto keys key_id ≡ ok k
  unfolding find_key
  HasKey-find_key [] key_id k h = elim h [ ]
  HasKey-find_key (key ∷ keys) key_id k (here a b c) =
      rw ((=ᵗ_iff key.key_id key_id).1 a, (=ᵗ_iff key.algorithm algorithm_ed25519).1 b, c)
  HasKey-find_key (key ∷ keys) key_id k (there a b) =
      rw (=ᵗ_of_ne key.key_id key_id a) (HasKey-find_key keys key_id k b)

  check_header-ok :
      (kind : Text) (b : VerifierBundle) (h : Header) (now : ℕ)
      → check_header kind b h now ≡ ok tt
      → (h.kind ≡ kind)
        × (h.network_id ≡ resolve_network_id b.network_id)
        × (now ≤ b.expires_at + max_clock_skew)
        × (h.issued_at ≤ now + max_clock_skew)
        × (now ≤ h.expires_at + max_clock_skew)
  unfolding check_header
  check_header-ok kind b h now e =
      ground (arith, =ᵗ_iff h.kind kind, =ᵗ_iff h.network_id (resolve_network_id b.network_id))

  check_signature-ok :
      (b : VerifierBundle) (h : Header) (payload signature : Text)
      → check_signature crypto b h payload signature ≡ ok tt
      → (key : Text) × (key ≢ [])
        × HasKey crypto h.key_id key b.keys
        × (crypto.verify key payload signature ≡ true)
  unfolding check_signature
  check_signature-ok b h payload signature e =
      let (key, found, e1) = >>=-eq-ok (find_key crypto b.keys h.key_id) _ e in
      let (_, g, e2) = >>=-eq-ok (guard (not (key =ᵗ [])) no_verifier_key) _ e1 in
      let n =
        ne_of_=ᵗ key [] (ground (arith, guard-eq-ok (not (key =ᵗ [])) no_verifier_key tt g)) in
      (key, n, find_key-HasKey b.keys h.key_id key found n, guard-eq-ok _ invalid_signature tt e2)

  module _ {kind : Text} {b : VerifierBundle} {h : Header} {now : ℕ} {payload : Text}
      {signature : Text} (a : Accepted crypto kind b h now payload signature) where
    Accepted-check_header : check_header kind b h now ≡ ok tt
    unfolding check_header
    Accepted-check_header = ground (
      arith,
      a.right_kind,
      a.right_network,
      a.bundle_current,
      a.issued,
      a.unexpired,
      =ᵗ_iff h.kind kind,
      =ᵗ_iff h.network_id (resolve_network_id b.network_id),
    )

    Accepted-check_signature : check_signature crypto b h payload signature ≡ ok tt
    unfolding check_signature
    Accepted-check_signature =
        rw
          (HasKey-find_key b.keys h.key_id a.key a.has_key, =ᵗ_of_ne a.key [] a.non_empty, a.signed)

module _ (crypto : Crypto) {C : Type 0} (json : Json C) (header : C → Header)
    (prefix kind : Text) where
  -- What an accepted token shows.
  abbrev pub Evidence : Text → VerifierBundle → ℕ → C → Type 0
  Evidence token b now c =
      (payload : Text) × (signature : Text) × Encodes crypto json prefix token c payload signature
      × Accepted crypto kind b (header c) now payload signature

  verify_claims-Evidence :
      (token : Text) (b : VerifierBundle) (now : ℕ) (c : C)
      → verify_claims crypto json header prefix kind token (some b) now ≡ ok c
      → Evidence token b now c
  unfolding verify_claims
  verify_claims-Evidence token b now c h =
      let ((d, payload, signature), parsed, e1) =
        >>=-eq-ok (parse_token crypto json prefix token) _ h in
      let (_, checked, e2) = >>=-eq-ok (check_header kind b (header d) now) _ e1 in
      let (_, verified, e3) =
        >>=-eq-ok (check_signature crypto b (header d) payload signature) _ e2 in
      let same : d ≡ c = cc in
      let (k, n, l, i, u) = check_header-ok crypto kind b (header d) now checked in
      let (key, m, has, signed) =
        check_signature-ok crypto b (header d) payload signature verified in
      (
        payload,
        signature,
        parse_token-Encodes crypto json prefix token c payload signature
            (parsed ∙ ap (λ x. ok (x, payload, signature)) same),
        subst (λ x. Accepted crypto kind b (header x) now payload signature) same
            (record {
              right_kind = k;
              right_network = n;
              bundle_current = l;
              issued = i;
              unexpired = u;
              key = key;
              non_empty = m;
              has_key = has;
              signed = signed;
            }),
      )

  Evidence-verify_claims :
      (token : Text) (b : VerifierBundle) (now : ℕ) (c : C)
      → Evidence token b now c
      → verify_claims crypto json header prefix kind token (some b) now ≡ ok c
  unfolding verify_claims
  Evidence-verify_claims token b now c (payload, signature, e, a) = rw (
    Encodes-parse_token crypto json prefix token c payload signature e,
    Accepted-check_header crypto a,
    Accepted-check_signature crypto a,
  )

  -- A token is accepted exactly when it has the prefix of its kind and three parts that decode,
  -- its claims are of that kind and of the bundle's network, neither the bundle nor the claims
  -- have expired and the claims were not issued later (each up to the clock skew), and the
  -- signature of the payload verifies under the first key of the bundle with the identifier that
  -- the claims name, a non-empty Ed25519 key; what is returned are then the claims of the
  -- payload.
  pub verify_claims_iff :
      (token : Text) (b : VerifierBundle) (now : ℕ) (c : C)
      → (verify_claims crypto json header prefix kind token (some b) now ≡ ok c)
        ↔ Evidence token b now c
  verify_claims_iff token b now c =
      (verify_claims-Evidence token b now c, Evidence-verify_claims token b now c)
