-- ===== src/NetworkAuth/Token/RoundTrip.antt =====
-- internal/networkauth/runtime.go: the way of a token from the issuer to a verifier.
use codewire.Base.{
  ℕ, ◌+◌, ◌≤◌, subst, true, not, ◌≡◌, refl, sym, ◌∙◌, Option, some, List, [], arith, ◌≢◌, ◌&&◌,
}
use codewire.Base.Text.{Text, =ᵗ-refl, split_three, trim_space-trim_space}
use codewire.Base.Result.{ok, guard, or_fail, >>=-eq-ok, or_fail-eq-ok}
use codewire.Base.Json.{Json}
use codewire.NetworkAuth.{
  VerifierBundle, IssuerState, Header, RuntimeClaims, SenderDelegationClaims,
  ObserverDelegationClaims, resolve_network_id, max_clock_skew, runtime_token_prefix,
  sender_token_prefix, observer_token_prefix, runtime_kind, sender_delegation_kind,
  observer_delegation_kind,
}
use codewire.NetworkAuth.Token.{
  Crypto, private_key_decoding, marshalling, required, bundle, join_token, sign_claims, parse_token,
  verify_claims, verify_runtime_credential, verify_sender_delegation, verify_observer_delegation,
}
use codewire.NetworkAuth.Token.Issue.{
  sign_runtime_credential, sign_sender_delegation, sign_observer_delegation, is_blank, is_none,
  is_empty,
}
use codewire.NetworkAuth.Token.Parts.{HasNoDot, parse_token-Encodes}
use codewire.NetworkAuth.Token.Verify.{HasKey, here, verify_claims_iff}

-- What the code relies on of base64, and of the key pair of an issuer.
pub record IsSound (crypto : Crypto) (s : IssuerState) : Type 0 where
  pub decode_encode : (t : Text) → crypto.decode_base64 (crypto.encode_base64 t) ≡ some t
  pub no_dot : (t : Text) → HasNoDot (crypto.encode_base64 t)
  pub public : Text
  pub public_decodes : crypto.decode_base64 s.public_key ≡ some public
  pub public_non_empty : public ≢ []
  pub verify_sign :
      (private payload : Text)
      → crypto.decode_base64 s.private_key ≡ some private
      → crypto.verify public payload (crypto.sign private payload) ≡ true

-- What it relies on of the encoding of claims.
abbrev pub IsJson : {C : Type 0} → Json C → Type 0
IsJson {C} json = (c : C) (p : Text) → json.marshal c ≡ some p → json.unmarshal p ≡ some c

-- A time at which both the claims and the bundle are current.
pub record IsCurrent (h : Header) (b : VerifierBundle) (now : ℕ) : Type 0 where
  pub started : h.issued_at ≤ now + max_clock_skew
  pub unexpired : now ≤ h.expires_at + max_clock_skew
  pub bundle_unexpired : now ≤ b.expires_at + max_clock_skew

module _ (crypto : Crypto) (s : IssuerState) (sound : IsSound crypto s) where
  module _ {C : Type 0} (json : Json C) (json_sound : IsJson json) (header : C → Header)
      (prefix kind : Text) (plain : HasNoDot prefix) where
    parse_token-join_token :
        (c : C) (payload signature : Text)
        → json.marshal c ≡ some payload
        → parse_token crypto json prefix (join_token crypto prefix payload signature)
          ≡ ok (c, payload, signature)
    unfolding parse_token join_token
    parse_token-join_token c payload signature h = rw (
      split_three b'.' prefix (crypto.encode_base64 payload) (crypto.encode_base64 signature) plain
          (sound.no_dot payload) (sound.no_dot signature),
      =ᵗ-refl prefix,
      sound.decode_encode payload,
      sound.decode_encode signature,
      json_sound c payload h,
    )

    bundle-HasKey :
        (now validity : ℕ) → HasKey crypto s.key_id sound.public (bundle s now validity).keys
    unfolding bundle
    bundle-HasKey now validity = here refl refl sound.public_decodes

    resolve-bundle :
        (now validity : ℕ)
        → resolve_network_id (bundle s now validity).network_id ≡ resolve_network_id s.network_id
    unfolding bundle resolve_network_id
    resolve-bundle now validity = trim_space-trim_space s.network_id

    sign_claims-verify_claims :
        (c d : C) (token : Text) (t validity now : ℕ)
        → (header c).kind ≡ kind
        → (header c).network_id ≡ resolve_network_id s.network_id
        → (header c).key_id ≡ s.key_id
        → IsCurrent (header d) (bundle s t validity) now
        → sign_claims crypto json prefix s c ≡ ok (token, d)
        → verify_claims crypto json header prefix kind token (some (bundle s t validity)) now ≡ ok d
    unfolding sign_claims
    sign_claims-verify_claims c d token t validity now k n i cur h =
        let (private, found, h1) =
          >>=-eq-ok (or_fail (crypto.decode_base64 s.private_key) private_key_decoding) _ h in
        let (payload, marshalled, h2) = >>=-eq-ok (or_fail (json.marshal c) marshalling) _ h1 in
        let same : ◌≡◌ {A = Text × C}
            (join_token crypto prefix payload (crypto.sign private payload), c) (token, d) =
          cc in
        let cur' =
          subst (λ (x : Text × C). IsCurrent (header x.1) (bundle s t validity) now) (sym same)
            cur in
        subst
          (λ (x : Text × C).
            verify_claims crypto json header prefix kind x.0 (some (bundle s t validity)) now
            ≡ ok x.1)
          same
          ((verify_claims_iff crypto json header prefix kind _ (bundle s t validity) now c).1 (
            payload,
            crypto.sign private payload,
            parse_token-Encodes crypto json prefix _ c payload _ (
                parse_token-join_token c payload _
                  (or_fail-eq-ok _ marshalling payload marshalled)),
            record {
              right_kind = k;
              right_network = n ∙ sym (resolve-bundle t validity);
              bundle_current = cur'.bundle_unexpired;
              issued = cur'.started;
              unexpired = cur'.unexpired;
              key = sound.public;
              non_empty = sound.public_non_empty;
              has_key =
                  subst (λ x. HasKey crypto x sound.public (bundle s t validity).keys) (sym i)
                    (bundle-HasKey t validity);
              signed =
                  sound.verify_sign private payload
                    (or_fail-eq-ok _ private_key_decoding private found);
            },
          ))

  -- A runtime credential that the relay issued is accepted, with the claims that were signed,
  -- under every bundle of the same issuer, while neither the claims nor the bundle have expired
  -- and no earlier than the issue, each up to the clock skew; base64 and JSON are to decode what
  -- they encode, base64 is to yield no dot, and the public key, not empty, is to verify what the
  -- private key signs.
  pub verify-sign_runtime_credential :
      (json : Json RuntimeClaims) (subject_kind subject_id jti token : Text) (d : RuntimeClaims)
      (ttl issue t validity now : ℕ)
      → IsJson json
      → sign_runtime_credential crypto json (some s) subject_kind subject_id issue ttl jti
        ≡ ok (token, d)
      → IsCurrent d.header (bundle s t validity) now
      → verify_runtime_credential crypto json token (some (bundle s t validity)) now ≡ ok d
  unfolding sign_runtime_credential verify_runtime_credential
  verify-sign_runtime_credential json subject_kind subject_id jti token d ttl issue t validity now j
        h cur =
      let (_, _, h1) = >>=-eq-ok (guard (not (is_blank subject_kind)) required) _ h in
      let (_, _, h2) = >>=-eq-ok (guard (not (is_blank subject_id)) required) _ h1 in
      sign_claims-verify_claims json j (λ c. c.header) runtime_token_prefix runtime_kind
        (omega arith) _ d token t validity now refl refl refl cur h2

  -- A sender delegation that the relay issued is accepted, with the claims that were signed,
  -- under every bundle of the same issuer, while neither the claims nor the bundle have expired
  -- and no earlier than the issue, each up to the clock skew; base64 and JSON are to decode what
  -- they encode, base64 is to yield no dot, and the public key, not empty, is to verify what the
  -- private key signs.
  pub verify-sign_sender_delegation :
      (json : Json SenderDelegationClaims) (source_node name audience jti token : Text)
      (id : Option ℕ) (groups verbs : List Text) (d : SenderDelegationClaims)
      (ttl issue t validity now : ℕ)
      → IsJson json
      → sign_sender_delegation crypto json
          (some s)
          source_node
          id
          name
          groups
          verbs
          audience
          issue
          ttl
          jti
        ≡ ok (token, d)
      → IsCurrent d.header (bundle s t validity) now
      → verify_sender_delegation crypto json token (some (bundle s t validity)) now ≡ ok d
  unfolding sign_sender_delegation verify_sender_delegation
  verify-sign_sender_delegation json source_node name audience jti token id groups verbs d ttl issue
        t validity now j h cur =
      let (_, _, h1) = >>=-eq-ok (guard (not (is_blank source_node)) required) _ h in
      let (_, _, h2) = >>=-eq-ok (guard (not (is_none id && is_blank name)) required) _ h1 in
      let (_, _, h3) = >>=-eq-ok (guard (not (is_empty verbs)) required) _ h2 in
      sign_claims-verify_claims json j (λ c. c.header) sender_token_prefix sender_delegation_kind
        (omega arith) _ d token t validity now refl refl refl cur h3

  -- An observer delegation that the relay issued is accepted, with the claims that were signed,
  -- under every bundle of the same issuer, while neither the claims nor the bundle have expired
  -- and no earlier than the issue, each up to the clock skew; base64 and JSON are to decode what
  -- they encode, base64 is to yield no dot, and the public key, not empty, is to verify what the
  -- private key signs.
  pub verify-sign_observer_delegation :
      (json : Json ObserverDelegationClaims)
      (target name audience_kind audience_id jti token : Text) (id : Option ℕ) (verbs : List Text)
      (d : ObserverDelegationClaims) (ttl issue t validity now : ℕ)
      → IsJson json
      → sign_observer_delegation crypto json
          (some s)
          target
          id
          name
          verbs
          audience_kind
          audience_id
          issue
          ttl
          jti
        ≡ ok (token, d)
      → IsCurrent d.header (bundle s t validity) now
      → verify_observer_delegation crypto json token (some (bundle s t validity)) now ≡ ok d
  unfolding sign_observer_delegation verify_observer_delegation
  verify-sign_observer_delegation json target name audience_kind audience_id jti token id verbs d
        ttl issue t validity now j h cur =
      let (_, _, h1) = >>=-eq-ok (guard (not (is_blank target)) required) _ h in
      let (_, _, h2) = >>=-eq-ok (guard (not (is_none id && is_blank name)) required) _ h1 in
      let (_, _, h3) = >>=-eq-ok (guard (not (is_empty verbs)) required) _ h2 in
      let (_, _, h4) = >>=-eq-ok (guard (not (is_blank audience_kind)) required) _ h3 in
      let (_, _, h5) = >>=-eq-ok (guard (not (is_blank audience_id)) required) _ h4 in
      sign_claims-verify_claims json j (λ c. c.header) observer_token_prefix
        observer_delegation_kind (omega arith) _ d token t validity now refl refl refl cur h5
