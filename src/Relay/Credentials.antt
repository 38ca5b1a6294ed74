-- ===== src/Relay/Credentials.antt =====
-- internal/relay/network_auth.go: the handlers that hand out the bundle of a network, runtime credentials
-- and sender delegations, on any storage and each with the time at which it runs. Who
-- `AuthenticateRequest` or the context of a request says the caller is, is an argument.
pub mod Handlers
pub mod Own
mod Tests
use codewire.Base.{
  ℕ, Bool, true, false, ◌||◌, not, Option, none, some, List, [], ◌∷◌, ◌++◌, ◌==◌, if◌then◌else◌,
}
use codewire.Base.Text.{Text, codes, ◌=ᵗ◌, trim_space}
use codewire.Base.Json.{Json}
use codewire.Base.Result.{Result, ok, err}
use codewire.Base.Action.{Action, pure, follow, ◌>>=◌, ◌>>◌, check, demand}
use codewire.NetworkAuth.{
  IssuerState, VerifierBundle, RuntimeClaims, SenderDelegationClaims, resolve_network_id,
  default_runtime_ttl, default_sender_ttl, default_bundle_validity,
}
use codewire.NetworkAuth.Token.{AuthError, bundle}
use codewire.NetworkAuth.Token.Issue.{sign_runtime_credential, sign_sender_delegation}
use codewire.Relay.{GroupBinding, NodeRecord, StoreError}
use codewire.Relay.Membership.{
  AuthIdentity, HttpError, bad_request, unauthorized, forbidden, not_found, internal_error, decimal,
  normalize_identity_subject, required_network_id, SubjectError, membership_subject,
}
use codewire.Relay.Groups.{is_given, is_admin, internal, node_auth_from_request}
use codewire.Relay.Grants.{
  GrantStore, Libraries, NewKeys, subject_kind_client, network_auth_namespace,
  network_auth_issuer_key,
}
use codewire.Relay.Grants.Handlers.{
  subject_or_unauthorized, membership_required, load_or_create_issuer_state,
}

abbrev pub subject_kind_node : Text
subject_kind_node = codes "node"

pub record RuntimeCredentialResponse : Type 0 where
  pub credential : Text
  pub network_id : Text
  pub subject_kind : Text
  pub subject_id : Text
  pub expires_at : ℕ

pub record SenderDelegationRequest : Type 0 where
  pub source_node : Text
  pub from_session_id : Option ℕ
  pub from_session_name : Text
  pub verbs : List Text
  pub audience_node : Text

pub record SenderDelegationResponse : Type 0 where
  pub delegation : Text
  pub network_id : Text
  pub source_node : Text
  pub from_session_id : Option ℕ
  pub from_session_name : Text
  pub source_groups : List Text
  pub audience_node : Text
  pub expires_at : ℕ

-- `clientSubjectID`.
unfoldable pub client_subject_id : Option AuthIdentity → Text
unfolding normalize_identity_subject decimal
client_subject_id none = []
client_subject_id (some i) =
    if i.is_admin
    then codes "admin"
    else if not (i.sub =ᵗ [])
    then normalize_identity_subject i.sub
    else if not (i.user_id == 0)
    then codes "github:" ++ decimal i.user_id
    else if not (trim_space i.username =ᵗ [])
    then codes "user:" ++ trim_space i.username
    else codes "client"

-- An error of a signature, which the handlers answer without its text.
unfoldable pub signed_or : {C : Type 0} → HttpError → Result AuthError C → Result HttpError C
signed_or answer (ok c) = ok c
signed_or answer (err e) = err answer

unfoldable pub credential_response : Text × RuntimeClaims → RuntimeCredentialResponse
credential_response (token, claims) = record {
  credential = token;
  network_id = claims.header.network_id;
  subject_kind = claims.subject_kind;
  subject_id = claims.subject_id;
  expires_at = claims.header.expires_at;
}

unfoldable pub delegation_response : Text × SenderDelegationClaims → SenderDelegationResponse
delegation_response (token, claims) = record {
  delegation = token;
  network_id = claims.header.network_id;
  source_node = claims.source_node;
  from_session_id = claims.from_session_id;
  from_session_name = claims.from_session_name;
  source_groups = claims.source_groups;
  audience_node = claims.audience_node;
  expires_at = claims.header.expires_at;
}

-- Whether a body names no node but the one that asks.
unfoldable pub is_own : NodeRecord → Text → Bool
is_own node source_node = (trim_space source_node =ᵗ []) || (trim_space source_node =ᵗ node.name)

unfoldable pub group_names : List GroupBinding → List Text
group_names [] = []
group_names (b ∷ bs) = b.group_name ∷ group_names bs

module _ {ℓ} {S : Type ℓ} (st : GrantStore S) (lib : Libraries) (now : ℕ) where
  -- The members of a network and administrators may go on.
  unfoldable pub demand_listed : Option AuthIdentity → Text → Action S HttpError (Unit {0})
  unfolding subject_or_unauthorized
  demand_listed identity network_id = if is_admin identity then pure (ok tt) else do
    subject ← pure (subject_or_unauthorized (membership_subject identity))
    member ← internal (st.store.network_member_get network_id subject)
    listed ← demand member membership_required
    pure (ok tt)

  -- `loadIssuerState`, whose errors are answered by the verifier's handler.
  unfoldable pub load_issuer_state : Text → Action S HttpError IssuerState
  load_issuer_state network_id = do
    raw ←
        internal
          (st.kv_get (resolve_network_id network_id) network_auth_namespace network_auth_issuer_key)
    check (not (raw =ᵗ [])) (not_found (codes "not found"))
    demand (lib.issuer_json.unmarshal raw) internal_error

  unfoldable pub bundle_scope :
      Text
      → Option AuthIdentity
      → Result StoreError (Option NodeRecord)
      → Action S HttpError (Unit {0})
  unfolding demand_listed
  bundle_scope network_id identity (ok (some node)) =
      check (node.network_id =ᵗ network_id) (forbidden (codes "forbidden"))
  bundle_scope network_id identity (ok none) = do
    check (is_given identity) unauthorized
    demand_listed identity network_id
  bundle_scope network_id identity (err e) = do
    check (is_given identity) unauthorized
    demand_listed identity network_id

  unfoldable pub node_or_unauthorized :
      Result StoreError (Option NodeRecord) × S → Result HttpError NodeRecord × S
  node_or_unauthorized (ok (some node), s) = (ok node, s)
  node_or_unauthorized (ok none, s) = (err unauthorized, s)
  node_or_unauthorized (err e, s) = (err unauthorized, s)

  unfoldable pub demand_node : Text → Action S HttpError NodeRecord
  unfolding node_auth_from_request node_or_unauthorized
  demand_node header s = node_or_unauthorized (node_auth_from_request st.store header s)
