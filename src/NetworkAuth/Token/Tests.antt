-- ===== src/NetworkAuth/Token/Tests.antt =====
-- Tokens that the toy issuer signed.
use codewire.Base.{◌↔◌, ◌≡◌, refl, none, some, List, [], ◌∷◌, ◌++◌, arith, ◌*◌}
use codewire.Base.Text.{Text, codes, trim_space}
use codewire.Base.Result.{ok}
use codewire.NetworkAuth.{
  VerifierBundle, Header, RuntimeClaims, SenderDelegationClaims, ObserverDelegationClaims, second,
  resolve_network_id, runtime_kind, runtime_token_prefix,
}
use codewire.NetworkAuth.Token.{
  bundle, sign_claims, verify_claims, verify_runtime_credential, verify_sender_delegation,
  verify_observer_delegation,
}
use codewire.NetworkAuth.Token.Issue.{
  sign_runtime_credential, sign_sender_delegation, sign_observer_delegation,
}
use codewire.NetworkAuth.Token.Verify.{verify_claims_iff, Evidence}
use codewire.NetworkAuth.Token.RoundTrip.{
  verify-sign_runtime_credential, verify-sign_sender_delegation, verify-sign_observer_delegation,
}
use codewire.NetworkAuth.Token.Toy.{
  pack, shift, runtime_fields, runtime_json, runtime_json-IsJson, sender_fields, sender_json,
  sender_json-IsJson, observer_fields, observer_json, observer_json-IsJson, toy, issuer,
  issuer-IsSound,
}

abbrev claims : RuntimeClaims
claims = record {
  header = record {
    kind = codes "runtime";
    network_id = codes "net";
    issuer = codes "relay:net";
    key_id = codes "kid_1";
    issued_at = 1000 * second;
    expires_at = 1300 * second;
    jti = codes "rt_1";
  };
  subject_kind = codes "client";
  subject_id = codes "github:1";
}

abbrev token_of : Text → List Text → Text
token_of prefix fields =
    prefix ++ (b'.' ∷ (shift (pack fields) ++ (b'.' ∷ shift (codes "k" ++ pack fields))))

abbrev verifiers : VerifierBundle
verifiers = bundle issuer (1010 * second) 0

abbrev token : Text
token = token_of (codes "cwrt1") (runtime_fields claims)

verify-sign_runtime_credential_example :
    verify_runtime_credential toy runtime_json token
      (some (bundle issuer (1010 * second) 0))
      (1200 * second)
    ≡ ok claims
unfolding sign_runtime_credential sign_claims bundle resolve_network_id trim_space
verify-sign_runtime_credential_example =
    verify-sign_runtime_credential toy issuer issuer-IsSound runtime_json (codes "client")
      (codes "github:1") (codes "rt_1") token claims 0 (1000 * second) (1010 * second) 0
      (1200 * second) runtime_json-IsJson refl
      (record { started = omega arith; unexpired = omega arith; bundle_unexpired = omega arith })

-- The signed token is accepted, read through the exact condition.
verify_claims_iff_example :
    (verify_claims toy runtime_json
        (λ c. c.header)
        runtime_token_prefix
        runtime_kind
        token
        (some verifiers)
        (1200 * second)
      ≡ ok claims)
    ↔ Evidence toy runtime_json
        (λ c. c.header)
        runtime_token_prefix
        runtime_kind
        token
        verifiers
        (1200 * second)
        claims
verify_claims_iff_example =
    verify_claims_iff toy runtime_json (λ c. c.header) runtime_token_prefix runtime_kind token
      verifiers (1200 * second) claims

abbrev header_of : Text → Header
header_of kind = record {
  kind = kind;
  network_id = codes "net";
  issuer = codes "relay:net";
  key_id = codes "kid_1";
  issued_at = 1000 * second;
  expires_at = 1100 * second;
  jti = codes "j1";
}

abbrev sender_claims : SenderDelegationClaims
sender_claims = record {
  header = header_of (codes "sender");
  source_node = codes "n1";
  from_session_id = some 7;
  from_session_name = [];
  source_groups = codes "g" ∷ [];
  verbs = codes "msg" ∷ [];
  audience_node = codes "n2";
}

sender_delegation_issued :
    verify_sender_delegation toy sender_json
      (token_of (codes "cwsd1") (sender_fields sender_claims))
      (some verifiers)
      (1050 * second)
    ≡ ok sender_claims
unfolding sign_sender_delegation sign_claims bundle resolve_network_id trim_space
sender_delegation_issued =
    verify-sign_sender_delegation toy issuer issuer-IsSound sender_json (codes "n1 ") []
      (codes "n2") (codes "j1") _ (some 7) (codes "g" ∷ []) (codes "msg" ∷ []) sender_claims
      (100 * second) (1000 * second) (1010 * second) 0 (1050 * second) sender_json-IsJson refl
      (record { started = omega arith; unexpired = omega arith; bundle_unexpired = omega arith })

abbrev observer_claims : ObserverDelegationClaims
observer_claims = record {
  header = header_of (codes "observer");
  target_node = codes "n1";
  session_id = none;
  session_name = codes "web";
  verbs = codes "msg.read" ∷ [];
  audience_subject_kind = codes "client";
  audience_subject_id = codes "github:1";
}

observer_delegation_issued :
    verify_observer_delegation toy observer_json
      (token_of (codes "cwog1") (observer_fields observer_claims))
      (some verifiers)
      (1050 * second)
    ≡ ok observer_claims
unfolding sign_observer_delegation sign_claims bundle resolve_network_id trim_space
observer_delegation_issued =
    verify-sign_observer_delegation toy issuer issuer-IsSound observer_json (codes "n1")
      (codes "web") (codes "client") (codes "github:1") (codes "j1") _ none (codes "msg.read" ∷ [])
      observer_claims (100 * second) (1000 * second) (1010 * second) 0 (1050 * second)
      observer_json-IsJson refl
      (record { started = omega arith; unexpired = omega arith; bundle_unexpired = omega arith })
