-- ===== src/Relay/Grants/Issued.antt =====
-- internal/relay/access.go: what `accessGrantCreateHandler` signs, keeps and answers.
use codewire.Base.{ℕ, ◌≡◌, Option, none, some, List}
use codewire.Base.Text.{Text, trim_space}
use codewire.Base.Result.{Result, ok}
use codewire.NetworkAuth.{IssuerState, ObserverDelegationClaims}
use codewire.NetworkAuth.Token.Issue.{sign_observer_delegation}
use codewire.Relay.Membership.{AuthIdentity, required_network_id}
use codewire.Relay.Groups.Changes.{IsOwner}
use codewire.Relay.Grants.{
  AccessGrant, GrantStore, Libraries, Audience, NewKeys, normalize_observer_verbs,
}
use codewire.Relay.Grants.Handlers.{
  AccessGrantCreateRequest, ObserverDelegationResponse, ttl_of, resolve_access_grant_audience,
  access_grant_create,
}
use codewire.Relay.Grants.Addressed.{AudienceOf}
use codewire.Relay.Grants.Issuer.{IssuerOf}

-- One grant, as it is kept, as it is answered and as it is signed.
pub record IsOne (g : AccessGrant) (a : ObserverDelegationResponse) (c : ObserverDelegationClaims)
    : Type 0 where
  pub id : g.id ≡ a.grant_id
  pub signed_id : c.header.jti ≡ a.grant_id
  pub network_id : g.network_id ≡ a.network_id
  pub target_node : g.target_node ≡ a.target_node
  pub session_id : g.session_id ≡ a.session_id
  pub session_name : g.session_name ≡ a.session_name
  pub verbs : g.verbs ≡ a.verbs
  pub signed_verbs : c.verbs ≡ a.verbs
  pub audience : g.audience_subject_id ≡ a.audience_subject_id
  pub signed_audience : c.audience_subject_id ≡ a.audience_subject_id
  pub expires_at : g.expires_at ≡ a.expires_at
  pub signed_expires_at : c.header.expires_at ≡ a.expires_at
  pub not_revoked : g.revoked_at ≡ none

-- A grant that was asked for in a storage, issued with an answer, and kept in another.
pub record Issued {ℓ} {S : Type ℓ} (st : GrantStore S) (lib : Libraries)
    (identity : Option AuthIdentity) (now : ℕ) (req : AccessGrantCreateRequest) (keys : NewKeys)
    (jti : Text) (before : S) (answer : ObserverDelegationResponse) (after : S) : Type ℓ where
  pub network_id : Text
  pub state : IssuerState
  pub verbs : List Text
  pub ttl : ℕ
  pub audience : Audience
  pub claims : ObserverDelegationClaims
  pub grant : AccessGrant
  pub kept_in : S
  pub named : required_network_id req.network_id ≡ ok network_id
  pub owned : IsOwner st.store identity now before network_id
  pub allowed : normalize_observer_verbs lib.quote req.verbs ≡ ok verbs
  pub addressed : AudienceOf st (trim_space req.audience) before audience
  pub issuer :
      IssuerOf st lib keys network_id
        (resolve_access_grant_audience st lib identity now req.audience before).1
        state
  pub lasts : ttl_of lib.parse_duration req.ttl ≡ ok ttl
  pub delegated :
      sign_observer_delegation lib.crypto lib.claims_json
        (some state)
        (trim_space req.target_node)
        req.session_id
        (trim_space req.session_name)
        verbs
        audience.subject_kind
        audience.subject_id
        now
        ttl
        jti
      ≡ ok (answer.delegation, claims)
  pub one : IsOne grant answer claims
  pub kept : (st.access_grant_create grant kept_in).0 ≡ ok tt
  pub behind : after ≡ (st.access_grant_create grant kept_in).1
