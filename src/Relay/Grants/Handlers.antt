-- ===== src/Relay/Grants/Handlers.antt =====
-- internal/relay/access.go: the handlers of access grants, each with the time at which it runs.
use codewire.Base.{
  ℕ, zero, suc, Bool, true, false, ◌||◌, not, Option, none, some, List, [], ◌++◌, if◌then◌else◌,
}
use codewire.Base.Text.{Text, codes, ◌=ᵗ◌, trim_space}
use codewire.Base.Int.{ℤ, pos, negsuc}
use codewire.Base.Result.{Result, ok, err, or_fail}
use codewire.Base.Action.{Action, pure, ◌>>=◌, ◌>>◌, check, demand}
use codewire.NetworkAuth.{
  IssuerState, ObserverDelegationClaims, resolve_network_id, default_observer_ttl,
}
use codewire.NetworkAuth.Token.{AuthError}
use codewire.NetworkAuth.Token.Issue.{sign_observer_delegation}
use codewire.Relay.{StoreError, NetworkMember}
use codewire.Relay.Membership.{
  AuthIdentity, HttpError, bad_request, unauthorized, forbidden, not_found, internal_error,
  required_network_id, SubjectError, membership_subject, membership_for_request, demand_owner,
}
use codewire.Relay.Groups.{store_message, is_given, is_admin, created_by_of, internal}
use codewire.Relay.AccessEvents.{AccessEventHub, publish_grant_revoked}
use codewire.Relay.Grants.{
  AccessGrant, GrantStore, Libraries, normalize_observer_verbs, Audience, client_audience,
  github_matches, oidc_matches, only_match, is_explicit, network_auth_namespace,
  network_auth_issuer_key, NewKeys, new_issuer_state,
}

pub record AccessGrantCreateRequest : Type 0 where
  pub network_id : Text
  pub target_node : Text
  pub session_id : Option ℕ
  pub session_name : Text
  pub audience : Text
  pub verbs : List Text
  pub ttl : Text

pub record ObserverDelegationResponse : Type 0 where
  pub delegation : Text
  pub grant_id : Text
  pub network_id : Text
  pub target_node : Text
  pub session_id : Option ℕ
  pub session_name : Text
  pub verbs : List Text
  pub audience_subject_kind : Text
  pub audience_subject_id : Text
  pub audience_display : Text
  pub expires_at : ℕ

unfoldable pub positive : Option ℤ → Result HttpError ℕ
positive none = err (bad_request (codes "invalid ttl"))
positive (some (pos zero)) = err (bad_request (codes "ttl must be positive"))
positive (some (pos (suc n))) = ok (suc n)
positive (some (negsuc n)) = err (bad_request (codes "ttl must be positive"))

unfoldable pub ttl_of : (Text → Option ℤ) → Text → Result HttpError ℕ
unfolding positive
ttl_of parse raw =
    if trim_space raw =ᵗ [] then ok default_observer_ttl else positive (parse (trim_space raw))

unfoldable pub names_session : Option ℕ → Text → Result HttpError (Unit {0})
names_session none name =
    if trim_space name =ᵗ []
    then err (bad_request (codes "session_id or session_name required"))
    else ok tt
names_session (some id) name =
    if trim_space name =ᵗ []
    then ok tt
    else err (bad_request (codes "session_id and session_name are mutually exclusive"))

unfoldable pub signed :
    (AuthError → Text)
    → Result AuthError (Text × ObserverDelegationClaims)
    → Result HttpError (Text × ObserverDelegationClaims)
signed auth_message (ok x) = ok x
signed auth_message (err e) = err (bad_request (auth_message e))

unfoldable pub new_grant : ObserverDelegationClaims → Audience → Text → ℕ → AccessGrant
new_grant claims audience issued_by now = record {
  id = claims.header.jti;
  network_id = claims.header.network_id;
  target_node = claims.target_node;
  session_id = claims.session_id;
  session_name = claims.session_name;
  verbs = claims.verbs;
  audience_subject_kind = claims.audience_subject_kind;
  audience_subject_id = claims.audience_subject_id;
  audience_display = audience.display;
  issued_by = issued_by;
  created_at = now;
  expires_at = claims.header.expires_at;
  revoked_at = none;
}

unfoldable pub grant_response :
    Text → ObserverDelegationClaims → Audience → ObserverDelegationResponse
grant_response delegation claims audience = record {
  delegation = delegation;
  grant_id = claims.header.jti;
  network_id = claims.header.network_id;
  target_node = claims.target_node;
  session_id = claims.session_id;
  session_name = claims.session_name;
  verbs = claims.verbs;
  audience_subject_kind = claims.audience_subject_kind;
  audience_subject_id = claims.audience_subject_id;
  audience_display = audience.display;
  expires_at = claims.header.expires_at;
}

-- `strconv.ParseBool`.
parse_bool : Text → Option Bool
parse_bool s =
    if (s =ᵗ codes "1")
      || (s =ᵗ codes "t")
      || (s =ᵗ codes "T")
      || (s =ᵗ codes "true")
      || (s =ᵗ codes "TRUE")
      || (s =ᵗ codes "True")
    then some true
    else if (s =ᵗ codes "0")
        || (s =ᵗ codes "f")
        || (s =ᵗ codes "F")
        || (s =ᵗ codes "false")
        || (s =ᵗ codes "FALSE")
        || (s =ᵗ codes "False")
    then some false
    else none

-- A flag of a query, which is off where it is not given.
unfoldable pub flag : Text → Text → Result HttpError Bool
unfolding parse_bool
flag raw message =
    if trim_space raw =ᵗ []
    then ok false
    else or_fail (parse_bool (trim_space raw)) (bad_request message)

unfoldable pub subject_or_unauthorized : Result SubjectError Text → Result HttpError Text
subject_or_unauthorized (ok s) = ok s
subject_or_unauthorized (err e) = err unauthorized

unfoldable pub is_audience : Result SubjectError Text → AccessGrant → Bool
is_audience (ok s) g = s =ᵗ g.audience_subject_id
is_audience (err e) g = false

abbrev pub membership_required : HttpError
membership_required = forbidden (codes "membership required")

module _ {ℓ} {S : Type ℓ} (st : GrantStore S) (lib : Libraries) (identity : Option AuthIdentity)
    (now : ℕ) where
  unfoldable pub answer_member :
      Result SubjectError (Option NetworkMember) × S → Result HttpError (Unit {0}) × S
  answer_member (ok (some m), s) = (ok tt, s)
  answer_member (ok none, s) = (err membership_required, s)
  answer_member (err e, s) = (err internal_error, s)

  -- What the handlers do with the answer of `requireMembership`.
  unfoldable pub demand_member : Text → Action S HttpError (Unit {0})
  unfolding membership_for_request answer_member
  demand_member network_id s =
      answer_member (membership_for_request st.store network_id identity now s)

  unfoldable pub audience_error : {A : Type 0} → Result StoreError A × S → Result HttpError A × S
  unfolding store_message
  audience_error (ok a, s) = (ok a, s)
  audience_error (err e, s) =
      (err (bad_request (codes "resolving audience: " ++ store_message e)), s)

  unfoldable pub audience_call : {A : Type 0} → Action S StoreError A → Action S HttpError A
  unfolding audience_error
  audience_call call s = audience_error (call s)

  unfoldable pub lookup_audience : Text → Action S HttpError Audience
  unfolding github_matches oidc_matches only_match audience_call
  lookup_audience raw = do
    user ← audience_call (st.user_get_by_username raw)
    oidc_users ← audience_call (st.oidc_user_list_by_username raw)
    pure (only_match lib.quote raw (github_matches user ++ oidc_matches oidc_users))

  -- `resolveAccessGrantAudience`.
  unfoldable pub resolve_access_grant_audience : Text → Action S HttpError Audience
  unfolding lookup_audience is_explicit client_audience
  resolve_access_grant_audience raw =
      if trim_space raw =ᵗ []
      then pure (err (bad_request (codes "audience required")))
      else if trim_space raw =ᵗ codes "admin"
      then pure (ok (client_audience (codes "admin") (codes "admin")))
      else if is_explicit (trim_space raw)
      then pure (ok (client_audience (trim_space raw) (trim_space raw)))
      else lookup_audience (trim_space raw)

  unfoldable pub create_issuer_state : Text → NewKeys → Action S HttpError IssuerState
  unfolding new_issuer_state
  create_issuer_state network_id keys = do
    internal (st.network_ensure network_id)
    encoded ← demand (lib.issuer_json.marshal (new_issuer_state network_id keys now)) internal_error
    internal (st.kv_set network_id network_auth_namespace network_auth_issuer_key encoded)
    pure (ok (new_issuer_state network_id keys now))

  -- `loadOrCreateIssuerState`, whose errors are internal ones.
  unfoldable pub load_or_create_issuer_state : Text → NewKeys → Action S HttpError IssuerState
  unfolding create_issuer_state
  load_or_create_issuer_state network_id keys = do
    check (not (resolve_network_id network_id =ᵗ [])) internal_error
    raw ←
        internal
          (st.kv_get (resolve_network_id network_id) network_auth_namespace network_auth_issuer_key)
    (if raw =ᵗ []
        then create_issuer_state (resolve_network_id network_id) keys
        else demand (lib.issuer_json.unmarshal raw) internal_error)

  -- `accessGrantCreateHandler`, with keys and an identifier that are fresh.
  unfoldable pub access_grant_create :
      Option AccessGrantCreateRequest
      → NewKeys
      → Text
      → Action S HttpError ObserverDelegationResponse
  unfolding names_session ttl_of resolve_access_grant_audience load_or_create_issuer_state signed
      new_grant grant_response
  access_grant_create body keys jti = do
    check (is_given identity) unauthorized
    req ← demand body (bad_request (codes "bad request"))
    network_id ← pure (required_network_id req.network_id)
    demand_owner st.store network_id identity now
    check (not (trim_space req.target_node =ᵗ [])) (bad_request (codes "target_node required"))
    pure (names_session req.session_id req.session_name)
    verbs ← pure (normalize_observer_verbs lib.quote req.verbs)
    ttl ← pure (ttl_of lib.parse_duration req.ttl)
    audience ← resolve_access_grant_audience req.audience
    state ← load_or_create_issuer_state network_id keys
    (delegation, claims) ← pure (
        signed lib.auth_message (
          sign_observer_delegation lib.crypto lib.claims_json (some state)
            (trim_space req.target_node) req.session_id (trim_space req.session_name) verbs
            audience.subject_kind audience.subject_id now ttl jti))
    issued_by ← pure (created_by_of (is_admin identity) (membership_subject identity))
    internal (st.access_grant_create (new_grant claims audience issued_by now))
    pure (ok (grant_response delegation claims audience))

  -- The subject of whom only the own grants are listed, or none.
  unfoldable pub mine_filter : Bool → Text → Action S HttpError Text
  unfolding demand_member subject_or_unauthorized
  mine_filter false network_id = pure (ok [])
  mine_filter true network_id = do
    subject ← pure (subject_or_unauthorized (membership_subject identity))
    demand_member network_id
    pure (ok subject)

  unfoldable pub audience_filter : Text → Text → Action S HttpError Text
  unfolding resolve_access_grant_audience
  audience_filter raw subject =
      if (trim_space raw =ᵗ []) || not (subject =ᵗ []) then pure (ok subject) else do
        audience ← resolve_access_grant_audience (trim_space raw)
        pure (ok audience.subject_id)

  -- `accessGrantListHandler`.
  unfoldable pub access_grant_list :
      Text → Text → Text → Text → Text → Action S HttpError (List AccessGrant)
  unfolding flag mine_filter audience_filter
  access_grant_list raw_network_id raw_target raw_mine raw_active raw_audience = do
    check (is_given identity) unauthorized
    network_id ← pure (required_network_id raw_network_id)
    mine ← pure (flag raw_mine (codes "invalid mine filter"))
    subject ← mine_filter mine network_id
    (if subject =ᵗ [] then demand_owner st.store network_id identity now else pure (ok tt))
    active ← pure (flag raw_active (codes "invalid active filter"))
    audience_id ← audience_filter raw_audience subject
    internal (
        st.access_grant_list network_id (record {
          target_node = trim_space raw_target;
          audience_subject_id = audience_id;
          active_only = active;
        }))

  -- `accessGrantGetHandler`.
  unfoldable pub access_grant_get : Text → Text → Action S HttpError AccessGrant
  unfolding demand_member is_audience
  access_grant_get raw_network_id raw_id = do
    check (is_given identity) unauthorized
    network_id ← pure (required_network_id raw_network_id)
    check (not (trim_space raw_id =ᵗ [])) (bad_request (codes "grant id required"))
    found ← internal (st.access_grant_get network_id (trim_space raw_id))
    grant ← demand found (not_found (codes "access grant not found"))
    (if is_audience (membership_subject identity) grant
        then demand_member network_id
        else demand_owner st.store network_id identity now)
    pure (ok grant)

  -- `accessGrantRevokeHandler`, up to the event: the network and the grant that are revoked.
  unfoldable pub revoke_grant : Text → Text → Action S HttpError (Text × Text)
  revoke_grant raw_network_id raw_id = do
    check (is_given identity) unauthorized
    network_id ← pure (required_network_id raw_network_id)
    demand_owner st.store network_id identity now
    check (not (trim_space raw_id =ᵗ [])) (bad_request (codes "grant id required"))
    found ← internal (st.access_grant_get network_id (trim_space raw_id))
    grant ← demand found (not_found (codes "access grant not found"))
    internal (st.access_grant_revoke network_id (trim_space raw_id) now)
    pure (ok (network_id, trim_space raw_id))

  unfoldable pub published_revocation :
      Result HttpError (Text × Text) × S
      → AccessEventHub
      → Result HttpError Text × S × AccessEventHub
  unfolding publish_grant_revoked
  published_revocation (ok (network_id, id), s) hub =
      (ok id, s, publish_grant_revoked network_id id now hub)
  published_revocation (err e, s) hub = (err e, s, hub)

  -- `accessGrantRevokeHandler`.
  unfoldable pub access_grant_revoke :
      Text → Text → S → AccessEventHub → Result HttpError Text × S × AccessEventHub
  unfolding revoke_grant published_revocation
  access_grant_revoke raw_network_id raw_id s hub =
      published_revocation (revoke_grant raw_network_id raw_id s) hub
