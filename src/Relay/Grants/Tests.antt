-- ===== src/Relay/Grants/Tests.antt =====
-- internal/relay/access.go: an owner, a member and two grants in a memory that holds grants only.
use codewire.Base.{◌≡◌, refl, none, some, [], ◌∷◌, ◌++◌, ◌+◌}
use codewire.Base.Text.{Text, codes, ◌=ᵗ◌, trim_space, has_prefix}
use codewire.Base.Result.{ok}
use codewire.NetworkAuth.{ObserverDelegationClaims, resolve_network_id, default_observer_ttl}
use codewire.NetworkAuth.Token.Toy.{observer_fields, pack, shift}
use codewire.Relay.Membership.{
  normalize_identity_subject, membership_subject, membership_for_request, required_network_id,
  stored,
}
use codewire.Relay.Groups.{is_given, internal, internal_result}
use codewire.Relay.Grants.{AccessGrant, NewKeys}
use codewire.Relay.Grants.Handlers.{
  AccessGrantCreateRequest, ObserverDelegationResponse, access_grant_get, demand_member,
  answer_member, is_audience,
}
use codewire.Relay.Grants.Memory.{net, person, memory, libraries, members-ReadsKeep}
use codewire.Relay.Grants.Allowed.{Shown, access_grant_get-Shown}
use codewire.Relay.Grants.Issued.{Issued}

abbrev grant : AccessGrant
grant = record {
  id = codes "og_1";
  network_id = net;
  target_node = codes "laptop";
  session_id = some 3;
  session_name = [];
  verbs = codes "msg.read" ∷ [];
  audience_subject_kind = codes "client";
  audience_subject_id = codes "oidc:bob";
  audience_display = codes "bob";
  issued_by = codes "oidc:ann";
  created_at = 1;
  expires_at = 2;
  revoked_at = none;
}

access_grant_get-Shown_example :
    (n : Text) × (required_network_id net ≡ ok n)
    × Shown memory (some (person (codes "bob"))) 5 (grant ∷ []) n (trim_space (codes " og_1")) grant
unfolding access_grant_get demand_member answer_member is_audience internal internal_result
    resolve_network_id required_network_id trim_space membership_for_request membership_subject
    normalize_identity_subject has_prefix ◌=ᵗ◌ stored is_given
access_grant_get-Shown_example =
    access_grant_get-Shown memory libraries (some (person (codes "bob"))) 5 net (codes " og_1")
      grant (grant ∷ []) members-ReadsKeep (λ n id s. refl) refl

abbrev asked : AccessGrantCreateRequest
asked = record {
  network_id = codes "net ";
  target_node = codes "laptop";
  session_id = some 3;
  session_name = [];
  audience = codes "oidc:bob";
  verbs = codes " Read" ∷ codes "msg.read" ∷ [];
  ttl = [];
}

abbrev keys : NewKeys
keys = record { key_id = []; private_key = []; public_key = [] }

abbrev signed_claims : ObserverDelegationClaims
signed_claims = record {
  header = record {
    kind = codes "observer";
    network_id = net;
    issuer = codes "relay:net";
    key_id = codes "kid_1";
    issued_at = 5;
    expires_at = 5 + default_observer_ttl;
    jti = codes "og_2";
  };
  target_node = codes "laptop";
  session_id = some 3;
  session_name = [];
  verbs = codes "msg.read" ∷ [];
  audience_subject_kind = codes "client";
  audience_subject_id = codes "oidc:bob";
}

abbrev delegation : Text
delegation =
    codes "cwog1."
    ++ shift (pack (observer_fields signed_claims))
    ++ b'.' ∷ shift (codes "k" ++ pack (observer_fields signed_claims))

abbrev answer : ObserverDelegationResponse
answer = record {
  delegation = delegation;
  grant_id = codes "og_2";
  network_id = net;
  target_node = codes "laptop";
  session_id = some 3;
  session_name = [];
  verbs = codes "msg.read" ∷ [];
  audience_subject_kind = codes "client";
  audience_subject_id = codes "oidc:bob";
  audience_display = codes "oidc:bob";
  expires_at = 5 + default_observer_ttl;
}
