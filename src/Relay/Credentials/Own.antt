-- ===== src/Relay/Credentials/Own.antt =====
-- internal/relay/network_auth.go: for whom `nodeSenderDelegationHandler` signs a delegation.
use codewire.Base.{◌∷◌, ℕ, ◌≡◌, some, List, []}
use codewire.Base.Text.{Text, trim_space}
use codewire.Base.Json.{Json}
use codewire.Base.Result.{Result, ok}
use codewire.Base.Action.{Action}
use codewire.NetworkAuth.{IssuerState, SenderDelegationClaims, default_sender_ttl}
use codewire.NetworkAuth.Token.Issue.{sign_sender_delegation}
use codewire.Relay.{NodeRecord, GroupBinding}
use codewire.Relay.Groups.{node_auth_from_request}
use codewire.Relay.Grants.{GrantStore, Libraries, NewKeys}
use codewire.Relay.Grants.Issuer.{IssuerOf}
use codewire.Relay.Credentials.{
  SenderDelegationRequest, SenderDelegationResponse, delegation_response,
}

-- One name for each binding, in their order.
abbrev pub Names : List GroupBinding → List Text → Type 0
Names [] [] = Unit
Names (b ∷ bs) (n ∷ ns) = (b.group_name ≡ n) × Names bs ns
Names _ _ = ⊥

module _ {ℓ} {S : Type ℓ} (st : GrantStore S) where
  -- The groups that a storage has for a session, and none for one without a name.
  pub data GroupsOf (s : S) (node : NodeRecord) : Text → List Text → Type 0 where
    unnamed : GroupsOf s node [] []
    found :
        {name : Text} {names : List Text} (bindings : List GroupBinding)
        → (st.store.group_bindings_for_session node.network_id node.name name s).0 ≡ ok bindings
        → Names bindings names
        → GroupsOf s node name names

  -- A delegation for a session of the node that asked for it.
  pub record Own (lib : Libraries) (json : Json SenderDelegationClaims) (now : ℕ) (header : Text)
      (body : SenderDelegationRequest) (keys : NewKeys) (jti : Text) (before : S)
      (answer : SenderDelegationResponse) : Type 0 where
    pub node : NodeRecord
    pub state : IssuerState
    pub claims : SenderDelegationClaims
    pub authenticated : (node_auth_from_request st.store header before).0 ≡ ok (some node)
    pub issuer : IssuerOf st lib keys node.network_id before state
    pub delegated :
        sign_sender_delegation lib.crypto json
          (some state)
          node.name
          body.from_session_id
          body.from_session_name
          answer.source_groups
          body.verbs
          body.audience_node
          now
          default_sender_ttl
          jti
        ≡ ok (answer.delegation, claims)
    pub answered : answer ≡ delegation_response (answer.delegation, claims)
    pub own : answer.source_node ≡ trim_space node.name
    pub grouped : GroupsOf before node answer.from_session_name answer.source_groups
