-- ===== src/NetworkAuth/Token/Parts.antt =====
-- internal/networkauth/runtime.go: the parts of a token.
use codewire.Base.{subst, ◌≡◌, refl, ◌∙◌, ap, some, List, [], ◌∷◌, ◌++◌, ◌≢◌, All}
use codewire.Base.Text.{Text, ◌=ᵗ◌, =ᵗ_iff, =ᵗ-refl, split, split_three, three_split}
use codewire.Base.Result.{ok, guard, or_fail, >>=-eq-ok, guard-eq-ok, or_fail-eq-ok, ok_injective}
use codewire.Base.Json.{Json}
use codewire.NetworkAuth.Token.{
  Crypto, invalid_format, payload_decoding, signature_decoding, payload_parsing, parse_parts,
  parse_token,
}

abbrev pub HasNoDot : Text → Type 0
HasNoDot s = All (λ c. c ≢ b'.') s

module _ (crypto : Crypto) {C : Type 0} (json : Json C) (prefix : Text) where
  -- A token of three parts with dots between them, of which the first is the prefix and the other two
  -- are the payload and the signature in base64; the payload is the JSON text of the claims.
  pub record Encodes (token : Text) (c : C) (payload signature : Text) : Type 0 where
    pub encoded : Text
    pub encoded_signature : Text
    pub whole : token ≡ prefix ++ b'.' ∷ (encoded ++ b'.' ∷ encoded_signature)
    pub plain_prefix : HasNoDot prefix
    pub plain : HasNoDot encoded
    pub plain_signature : HasNoDot encoded_signature
    pub decoded : crypto.decode_base64 encoded ≡ some payload
    pub decoded_signature : crypto.decode_base64 encoded_signature ≡ some signature
    pub unmarshalled : json.unmarshal payload ≡ some c

  parse_parts-ok :
      (parts : List Text) (c : C) (payload signature : Text)
      → parse_parts crypto json parts prefix ≡ ok (c, payload, signature)
      → (p s : Text) × (parts ≡ prefix ∷ p ∷ s ∷ [])
        × (crypto.decode_base64 p ≡ some payload)
        × (crypto.decode_base64 s ≡ some signature)
        × (json.unmarshal payload ≡ some c)
  unfolding parse_parts
  parse_parts-ok (q ∷ p ∷ s ∷ []) c payload signature h =
      let (_, g, h1) = >>=-eq-ok (guard (q =ᵗ prefix) invalid_format) _ h in
      let (payload', d, h2) = >>=-eq-ok (or_fail (crypto.decode_base64 p) payload_decoding) _ h1 in
      let (signature', e, h3) =
        >>=-eq-ok (or_fail (crypto.decode_base64 s) signature_decoding) _ h2 in
      let (c', f, h4) = >>=-eq-ok (or_fail (json.unmarshal payload') payload_parsing) _ h3 in
      let same : ◌≡◌ {A = C × Text × Text} (c', payload', signature') (c, payload, signature) =
        ok_injective _ _ h4 in
      let same_payload : payload' ≡ payload = ap (λ (x : C × Text × Text). x.1) same in
      (
        p,
        s,
        ap (λ t. t ∷ p ∷ s ∷ []) ((=ᵗ_iff q prefix).0 (guard-eq-ok _ invalid_format tt g)),
        or_fail-eq-ok _ payload_decoding payload' d ∙ ap some same_payload,
        or_fail-eq-ok _ signature_decoding signature' e
            ∙ ap (λ (x : C × Text × Text). some x.2) same,
        subst (λ t. json.unmarshal t ≡ some c) same_payload
            (or_fail-eq-ok _ payload_parsing c' f ∙ ap (λ (x : C × Text × Text). some x.0) same),
      )
  parse_parts-ok [] c payload signature h = cc
  parse_parts-ok (q ∷ []) c payload signature h = cc
  parse_parts-ok (q ∷ p ∷ []) c payload signature h = cc
  parse_parts-ok (q ∷ p ∷ s ∷ r ∷ rest) c payload signature h = cc

  pub parse_token-Encodes :
      (token : Text) (c : C) (payload signature : Text)
      → parse_token crypto json prefix token ≡ ok (c, payload, signature)
      → Encodes token c payload signature
  unfolding parse_token
  parse_token-Encodes token c payload signature h =
      let (p, s, parts, d, e, f) = parse_parts-ok (split b'.' token) c payload signature h in
      let (whole, plain_prefix, plain, plain_signature) = three_split b'.' token prefix p s parts in
      record {
        encoded = p;
        encoded_signature = s;
        whole = whole;
        plain_prefix = plain_prefix;
        plain = plain;
        plain_signature = plain_signature;
        decoded = d;
        decoded_signature = e;
        unmarshalled = f;
      }

  pub Encodes-parse_token :
      (token : Text) (c : C) (payload signature : Text)
      → Encodes token c payload signature
      → parse_token crypto json prefix token ≡ ok (c, payload, signature)
  unfolding parse_token parse_parts
  Encodes-parse_token token c payload signature e =
      rw
        (
          e.whole,
          split_three b'.' prefix e.encoded e.encoded_signature e.plain_prefix e.plain
              e.plain_signature,
          =ᵗ-refl prefix,
          e.decoded,
          e.decoded_signature,
          e.unmarshalled,
        )
        refl
