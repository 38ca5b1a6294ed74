-- ===== src/NetworkAuth/Token.antt =====
-- internal/networkauth/runtime.go: issuing and verifying the three kinds of signed tokens. Base64,
-- Ed25519 and JSON are parameters; random identifiers are arguments.
pub mod Parts
pub mod Verify
pub mod Issue
pub mod RoundTrip
pub mod Toy
mod Tests
use codewire.Base.{
  ℕ, zero, ◌+◌, ◌<◌, Bool, true, false, ◌&&◌, ◌||◌, not, ◌≡◌, refl, Option, none, some, List, [],
  ◌∷◌, ◌++◌, ltb, ◌==◌, if◌then◌else◌,
}
use codewire.Base.Text.{Text, codes, ◌=ᵗ◌, trim_space, split}
use codewire.Base.Result.{Result, ok, err, ◌>>=◌, ◌>>◌, guard, or_fail}
use codewire.Base.Json.{Json}
use codewire.NetworkAuth.{
  VerifierKey, VerifierBundle, IssuerState, Header, RuntimeClaims, SenderDelegationClaims,
  ObserverDelegationClaims, resolve_network_id, max_clock_skew, algorithm_ed25519,
  default_bundle_validity, default_runtime_ttl, default_sender_ttl, default_observer_ttl,
  runtime_token_prefix, sender_token_prefix, observer_token_prefix, runtime_kind,
  sender_delegation_kind, observer_delegation_kind,
}

-- `encoding/base64` and `crypto/ed25519`.
pub record Crypto : Type 0 where
  pub encode_base64 : Text → Text
  pub decode_base64 : Text → Option Text
  pub sign : Text → Text → Text
  pub verify : Text → Text → Text → Bool

pub data AuthError : Type 0 where
  state_nil bundle_nil required private_key_decoding marshalling invalid_format : AuthError
  payload_decoding signature_decoding payload_parsing unexpected_kind wrong_network : AuthError
  bundle_expired issued_in_future token_expired unsupported_algorithm public_key_decoding :
      AuthError
  no_verifier_key invalid_signature : AuthError

-- `Bundle`.
pub bundle : IssuerState → ℕ → ℕ → VerifierBundle
bundle s now validity = record {
  network_id = resolve_network_id s.network_id;
  issuer = s.issuer;
  keys =
      record { key_id = s.key_id; algorithm = algorithm_ed25519; public_key = s.public_key } ∷ [];
  version = s.version;
  expires_at = now + (if validity == 0 then default_bundle_validity else validity);
}

-- The checks of the three `Verify` functions on the claims, in their order.
pub check_header : Text → VerifierBundle → Header → ℕ → Result AuthError (Unit {0})
check_header kind b h now = do
  guard (h.kind =ᵗ kind) unexpected_kind
  guard (h.network_id =ᵗ resolve_network_id b.network_id) wrong_network
  guard (not (ltb (b.expires_at + max_clock_skew) now)) bundle_expired
  guard (not (ltb (now + max_clock_skew) h.issued_at)) issued_in_future
  guard (not (ltb (h.expires_at + max_clock_skew) now)) token_expired

module _ (crypto : Crypto) where
  -- The search for the key of a token: `[]` where no key has its identifier.
  pub find_key : List VerifierKey → Text → Result AuthError Text
  find_key [] key_id = ok []
  find_key (key ∷ keys) key_id =
      let rest = find_key keys key_id in
      if not (key.key_id =ᵗ key_id) then rest else do
        guard (key.algorithm =ᵗ algorithm_ed25519) unsupported_algorithm
        or_fail (crypto.decode_base64 key.public_key) public_key_decoding

  -- The token of a payload.
  pub join_token : Text → Text → Text → Text
  join_token prefix payload signature =
      prefix ++ (b'.' ∷ (crypto.encode_base64 payload ++ (b'.' ∷ crypto.encode_base64 signature)))

  -- The tail of the three `Sign` functions.
  unfoldable pub sign_claims :
      {C : Type 0} → Json C → Text → IssuerState → C → Result AuthError (Text × C)
  unfolding join_token
  sign_claims json prefix state claims = do
    private_key ← or_fail (crypto.decode_base64 state.private_key) private_key_decoding
    payload ← or_fail (json.marshal claims) marshalling
    ok (join_token prefix payload (crypto.sign private_key payload), claims)

  -- `parseRuntimeCredential`, `parseObserverDelegation` and the head of `VerifySenderDelegation`: the
  -- claims, the payload and the signature.
  pub parse_parts : {C : Type 0} → Json C → List Text → Text → Result AuthError (C × Text × Text)
  parse_parts json (prefix' ∷ p ∷ s ∷ []) prefix = do
    guard (prefix' =ᵗ prefix) invalid_format
    payload ← or_fail (crypto.decode_base64 p) payload_decoding
    signature ← or_fail (crypto.decode_base64 s) signature_decoding
    claims ← or_fail (json.unmarshal payload) payload_parsing
    ok (claims, payload, signature)
  parse_parts json _ prefix = err invalid_format

  pub parse_token : {C : Type 0} → Json C → Text → Text → Result AuthError (C × Text × Text)
  unfolding parse_parts
  parse_token json prefix token = parse_parts json (split b'.' token) prefix

  pub check_signature : VerifierBundle → Header → Text → Text → Result AuthError (Unit {0})
  unfolding find_key
  check_signature b h payload signature = do
    key ← find_key b.keys h.key_id
    guard (not (key =ᵗ [])) no_verifier_key
    guard (crypto.verify key payload signature) invalid_signature

  pub verify_claims :
      {C : Type 0}
      → Json C
      → (C → Header)
      → Text
      → Text
      → Text
      → Option VerifierBundle
      → ℕ
      → Result AuthError C
  unfolding parse_token check_header check_signature
  verify_claims json header prefix kind token none now = err bundle_nil
  verify_claims json header prefix kind token (some b) now = do
    (claims, payload, signature) ← parse_token json prefix token
    check_header kind b (header claims) now
    check_signature b (header claims) payload signature
    ok claims

  -- `VerifyRuntimeCredential`, `VerifySenderDelegation` and `VerifyObserverDelegation`.
  pub verify_runtime_credential :
      Json RuntimeClaims → Text → Option VerifierBundle → ℕ → Result AuthError RuntimeClaims
  verify_runtime_credential json =
      verify_claims json (λ c. c.header) runtime_token_prefix runtime_kind

  pub verify_sender_delegation :
      Json SenderDelegationClaims
      → Text
      → Option VerifierBundle
      → ℕ
      → Result AuthError SenderDelegationClaims
  verify_sender_delegation json =
      verify_claims json (λ c. c.header) sender_token_prefix sender_delegation_kind

  pub verify_observer_delegation :
      Json ObserverDelegationClaims
      → Text
      → Option VerifierBundle
      → ℕ
      → Result AuthError ObserverDelegationClaims
  verify_observer_delegation json =
      verify_claims json (λ c. c.header) observer_token_prefix observer_delegation_kind
