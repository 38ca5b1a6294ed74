-- ===== src/Relay/Grants.antt =====
-- internal/relay/access.go and `loadOrCreateIssuerState` of internal/relay/network_auth.go: access
-- grants, on any storage. JSON, the signatures, the parser of durations, quoting and the texts of
-- errors of package networkauth are parameters; new keys and identifiers are arguments.
pub mod Addressed
pub mod Allowed
pub mod Handlers
pub mod Issuer
pub mod Issued
pub mod Memory
mod Tests
use codewire.Base.{
  ℕ, Bool, true, false, ◌&&◌, ◌||◌, not, Option, none, some, List, [], ◌∷◌, ◌++◌, if◌then◌else◌,
  length,
}
use codewire.Base.Text.{Text, codes, ◌=ᵗ◌, trim_space, to_lower, has_prefix}
use codewire.Base.Int.{ℤ, pos, negsuc}
use codewire.Base.Json.{Json}
use codewire.Base.Result.{Result, ok, err, or_fail}
use codewire.Base.Action.{Action, pure, ◌>>=◌, ◌>>◌}
use codewire.NetworkAuth.{IssuerState, ObserverDelegationClaims, resolve_network_id}
use codewire.NetworkAuth.Token.{Crypto, AuthError}
use codewire.Relay.{StoreError, Store}
use codewire.Relay.Membership.{HttpError, bad_request, decimal, internal_error}

pub record AccessGrant : Type 0 where
  pub id : Text
  pub network_id : Text
  pub target_node : Text
  pub session_id : Option ℕ
  pub session_name : Text
  pub verbs : List Text
  pub audience_subject_kind : Text
  pub audience_subject_id : Text
  pub audience_display : Text
  pub issued_by : Text
  pub created_at : ℕ
  pub expires_at : ℕ
  pub revoked_at : Option ℕ

pub record AccessGrantFilter : Type 0 where
  pub target_node : Text
  pub audience_subject_id : Text
  pub active_only : Bool

pub record User : Type 0 where
  pub github_id : ℕ
  pub username : Text
  pub avatar_url : Text
  pub created_at : ℕ
  pub last_login_at : ℕ

pub record OidcUser : Type 0 where
  pub sub : Text
  pub username : Text
  pub avatar_url : Text
  pub created_at : ℕ
  pub last_login_at : ℕ

-- The calls that the handlers of grants make, on a storage of any kind.
pub record GrantStore {ℓ} (S : Type ℓ) : Type ℓ where
  pub store : Store S
  pub kv_get : Text → Text → Text → Action S StoreError Text
  pub kv_set : Text → Text → Text → Text → Action S StoreError (Unit {0})
  pub network_ensure : Text → Action S StoreError (Unit {0})
  pub user_get_by_username : Text → Action S StoreError (Option User)
  pub oidc_user_list_by_username : Text → Action S StoreError (List OidcUser)
  pub access_grant_create : AccessGrant → Action S StoreError (Unit {0})
  pub access_grant_get : Text → Text → Action S StoreError (Option AccessGrant)
  pub access_grant_list : Text → AccessGrantFilter → Action S StoreError (List AccessGrant)
  pub access_grant_revoke : Text → Text → ℕ → Action S StoreError (Unit {0})

-- What the handlers use of other packages.
pub record Libraries : Type 0 where
  pub crypto : Crypto
  pub claims_json : Json ObserverDelegationClaims
  pub issuer_json : Json IssuerState
  pub parse_duration : Text → Option ℤ
  pub quote : Text → Text
  pub auth_message : AuthError → Text

abbrev pub subject_kind_client : Text
subject_kind_client = codes "client"

abbrev pub msg_read : Text
msg_read = codes "msg.read"

abbrev pub msg_listen : Text
msg_listen = codes "msg.listen"

unfoldable pub observer_verb : Text → Option Text
observer_verb v =
    if (v =ᵗ codes "read") || (v =ᵗ msg_read)
    then some msg_read
    else if (v =ᵗ codes "listen") || (v =ᵗ msg_listen)
    then some msg_listen
    else none

unfoldable pub has_verb : Text → List Text → Bool
has_verb v [] = false
has_verb v (w ∷ ws) = if w =ᵗ v then true else has_verb v ws

unfoldable pub add_verb : List Text → Text → List Text
unfolding has_verb
add_verb verbs v = if has_verb v verbs then verbs else verbs ++ v ∷ []

-- The loop of `normalizeObserverVerbs`, with the verbs that were seen, in their order.
unfoldable pub observer_verbs : (Text → Text) → List Text → List Text → Result HttpError (List Text)
unfolding observer_verb add_verb
observer_verbs quote seen [] = ok seen
observer_verbs quote seen (raw ∷ rest) = elim (observer_verb (trim_space (to_lower raw))) [
  | none ↦ err (bad_request (codes "unsupported verb " ++ quote raw))
  | some v ↦ observer_verbs quote (add_verb seen v) rest
]

-- `normalizeObserverVerbs`; verbs that are given leave one at least.
unfoldable pub normalize_observer_verbs : (Text → Text) → List Text → Result HttpError (List Text)
unfolding observer_verbs
normalize_observer_verbs quote [] = ok (msg_read ∷ msg_listen ∷ [])
normalize_observer_verbs quote (raw ∷ rest) = observer_verbs quote [] (raw ∷ rest)

-- Who a grant is for: the kind, the identifier and the name that is shown.
pub record Audience : Type 0 where
  pub subject_kind : Text
  pub subject_id : Text
  pub display : Text

unfoldable pub client_audience : Text → Text → Audience
client_audience id display = record {
  subject_kind = subject_kind_client;
  subject_id = id;
  display = display;
}

unfoldable pub github_matches : Option User → List Audience
unfolding client_audience decimal
github_matches none = []
github_matches (some u) = client_audience (codes "github:" ++ decimal u.github_id) u.username ∷ []

unfoldable pub oidc_matches : List OidcUser → List Audience
unfolding client_audience
oidc_matches [] = []
oidc_matches (u ∷ us) = client_audience (codes "oidc:" ++ u.sub) u.username ∷ oidc_matches us

unfoldable pub only_match : (Text → Text) → Text → List Audience → Result HttpError Audience
only_match quote raw [] =
    err (bad_request (codes "principal " ++ (quote raw ++ codes " not found")))
only_match quote raw (a ∷ []) = ok a
only_match quote raw (a ∷ b ∷ rest) = err (
    bad_request (
      codes "principal "
      ++ (quote raw
          ++ codes " is ambiguous; use an explicit subject like github:<id> or oidc:<sub>")))

unfoldable pub is_explicit : Text → Bool
is_explicit raw =
    has_prefix raw (codes "github:")
    || has_prefix raw (codes "oidc:")
    || has_prefix raw (codes "user:")

abbrev pub network_auth_namespace : Text
network_auth_namespace = codes "relay.networkauth"

abbrev pub network_auth_issuer_key : Text
network_auth_issuer_key = codes "issuer.current"

-- A fresh key pair, encoded, and the identifier of the key.
pub record NewKeys : Type 0 where
  pub key_id : Text
  pub private_key : Text
  pub public_key : Text

-- `NewIssuerState`.
unfoldable pub new_issuer_state : Text → NewKeys → ℕ → IssuerState
new_issuer_state network_id keys now = record {
  network_id = resolve_network_id network_id;
  issuer = codes "relay:" ++ resolve_network_id network_id;
  key_id = keys.key_id;
  private_key = keys.private_key;
  public_key = keys.public_key;
  created_at = now;
  version = 1;
}
