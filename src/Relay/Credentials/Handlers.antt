-- ===== src/Relay/Credentials/Handlers.antt =====
-- internal/relay/network_auth.go: the four handlers. New keys and the identifier of a token are arguments.
use codewire.Base.{Option, none, some, List, [], if◌then◌else◌, ℕ}
use codewire.Base.Text.{Text, codes, ◌=ᵗ◌, trim_space}
use codewire.Base.Json.{Json}
use codewire.Base.Result.{ok}
use codewire.Base.Action.{Action, pure, ◌>>=◌, ◌>>◌, check, demand}
use codewire.NetworkAuth.{
  VerifierBundle, RuntimeClaims, SenderDelegationClaims, default_runtime_ttl, default_sender_ttl,
  default_bundle_validity,
}
use codewire.NetworkAuth.Token.{bundle}
use codewire.NetworkAuth.Token.Issue.{sign_runtime_credential, sign_sender_delegation}
use codewire.Relay.{NodeRecord}
use codewire.Relay.Membership.{
  AuthIdentity, HttpError, bad_request, unauthorized, forbidden, internal_error,
  required_network_id,
}
use codewire.Relay.Groups.{is_given, internal, node_auth_from_request}
use codewire.Relay.Grants.{GrantStore, Libraries, NewKeys, subject_kind_client}
use codewire.Relay.Grants.Handlers.{load_or_create_issuer_state}
use codewire.Relay.Credentials.{
  subject_kind_node, RuntimeCredentialResponse, SenderDelegationRequest, SenderDelegationResponse,
  client_subject_id, signed_or, credential_response, delegation_response, is_own, group_names,
  demand_listed, load_issuer_state, bundle_scope, demand_node,
}

module _ {ℓ} {S : Type ℓ} (st : GrantStore S) (lib : Libraries) (runtime_json : Json RuntimeClaims)
    (sender_json : Json SenderDelegationClaims) (now : ℕ) where
  unfoldable pub demand_bundle_scope :
      Text → Option AuthIdentity → Text → Action S HttpError (Unit {0})
  unfolding node_auth_from_request bundle_scope
  demand_bundle_scope header identity network_id s =
      let x = node_auth_from_request st.store header s in
      bundle_scope st lib now network_id identity x.0 x.1

  -- `verifierBundleHandler`.
  unfoldable pub verifier_bundle :
      Text → Option AuthIdentity → Text → Action S HttpError VerifierBundle
  unfolding demand_bundle_scope load_issuer_state
  verifier_bundle header identity raw_network_id = do
    network_id ← pure (required_network_id raw_network_id)
    demand_bundle_scope header identity network_id
    state ← load_issuer_state st lib now network_id
    pure (ok (bundle state now default_bundle_validity))

  -- `clientRuntimeCredentialHandler`.
  unfoldable pub client_runtime_credential :
      Option AuthIdentity → Text → NewKeys → Text → Action S HttpError RuntimeCredentialResponse
  unfolding demand_listed load_or_create_issuer_state client_subject_id signed_or
      credential_response
  client_runtime_credential identity raw_network_id keys jti = do
    check (is_given identity) unauthorized
    network_id ← pure (required_network_id raw_network_id)
    demand_listed st lib now identity network_id
    state ← load_or_create_issuer_state st lib identity now network_id keys
    signed ← pure (
        signed_or internal_error (
          sign_runtime_credential lib.crypto runtime_json (some state) subject_kind_client
            (client_subject_id identity) now default_runtime_ttl jti))
    pure (ok (credential_response signed))

  -- `nodeRuntimeCredentialHandler`.
  unfoldable pub node_runtime_credential :
      Text → NewKeys → Text → Action S HttpError RuntimeCredentialResponse
  unfolding demand_node load_or_create_issuer_state signed_or credential_response
  node_runtime_credential header keys jti = do
    node ← demand_node st lib now header
    state ← load_or_create_issuer_state st lib none now node.network_id keys
    signed ← pure (
        signed_or internal_error (
          sign_runtime_credential lib.crypto runtime_json (some state) subject_kind_node node.name
            now default_runtime_ttl jti))
    pure (ok (credential_response signed))

  -- The groups of a session that has a name.
  unfoldable pub session_groups : NodeRecord → Text → Action S HttpError (List Text)
  unfolding group_names
  session_groups node raw_name = if trim_space raw_name =ᵗ [] then pure (ok []) else do
    bindings ←
        internal
          (st.store.group_bindings_for_session node.network_id node.name (trim_space raw_name))
    pure (ok (group_names bindings))

  -- `nodeSenderDelegationHandler`.
  unfoldable pub node_sender_delegation :
      Text
      → Option SenderDelegationRequest
      → NewKeys
      → Text
      → Action S HttpError SenderDelegationResponse
  unfolding demand_node is_own load_or_create_issuer_state session_groups signed_or
      delegation_response
  node_sender_delegation header request keys jti = do
    node ← demand_node st lib now header
    body ← demand request (bad_request (codes "bad request"))
    check (is_own node body.source_node)
        (forbidden (codes "source_node must match authenticated node"))
    state ← load_or_create_issuer_state st lib none now node.network_id keys
    groups ← session_groups node body.from_session_name
    signed ← pure (
        signed_or (bad_request (codes "bad request")) (
          sign_sender_delegation lib.crypto sender_json (some state) node.name body.from_session_id
            body.from_session_name groups body.verbs body.audience_node now default_sender_ttl jti))
    pure (ok (delegation_response signed))
