-- ===== src/Relay/Credentials/Tests.antt =====
-- internal/relay/network_auth.go: a node asks for a delegation of a session that is in a group.
use codewire.Base.{none, [], ◌∷◌, ◌++◌, ◌+◌}
use codewire.Base.Text.{codes}
use codewire.NetworkAuth.{SenderDelegationClaims, default_sender_ttl}
use codewire.NetworkAuth.Token.Toy.{sender_fields, pack, shift}
use codewire.Relay.Grants.{NewKeys}
use codewire.Relay.Grants.Memory.{net}
use codewire.Relay.Credentials.{SenderDelegationRequest, SenderDelegationResponse}
use codewire.Relay.Credentials.Own.{Own}

abbrev keys : NewKeys
keys = record { key_id = []; private_key = []; public_key = [] }

abbrev body : SenderDelegationRequest
body = record {
  source_node = [];
  from_session_id = none;
  from_session_name = codes " build";
  verbs = codes "msg" ∷ [];
  audience_node = codes "desk";
}

abbrev claims : SenderDelegationClaims
claims = record {
  header = record {
    kind = codes "sender";
    network_id = net;
    issuer = codes "relay:net";
    key_id = codes "kid_1";
    issued_at = 5;
    expires_at = 5 + default_sender_ttl;
    jti = codes "sd_1";
  };
  source_node = codes "laptop";
  from_session_id = none;
  from_session_name = codes "build";
  source_groups = codes "ci" ∷ [];
  verbs = codes "msg" ∷ [];
  audience_node = codes "desk";
}

abbrev answer : SenderDelegationResponse
answer = record {
  delegation =
      codes "cwsd1."
      ++ shift (pack (sender_fields claims))
      ++ b'.' ∷ shift (codes "k" ++ pack (sender_fields claims));
  network_id = net;
  source_node = codes "laptop";
  from_session_id = none;
  from_session_name = codes "build";
  source_groups = codes "ci" ∷ [];
  audience_node = codes "desk";
  expires_at = 5 + default_sender_ttl;
}
