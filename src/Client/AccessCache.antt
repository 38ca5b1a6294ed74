-- ===== src/Client/AccessCache.antt =====
-- internal/client/access_cache.go: the file of the access grants that a client accepted. The file
-- system, JSON and the relay are parameters.
pub mod Resolve
pub mod Latest
pub mod Pick
mod Tests
use codewire.Base.{
  ℕ, ◌+◌, Bool, true, false, ◌&&◌, ◌||◌, not, Option, none, some, List, [], ◌∷◌, ltb, ◌==◌,
  if◌then◌else◌, length,
}
use codewire.Base.Text.{Text, codes, ◌=ᵗ◌, trim_space, to_lower, contains}
use codewire.Base.Json.{Json}
use codewire.Base.Result.{Result, ok, err, or_fail}
use codewire.Base.Action.{Action, pure, ◌>>=◌, ◌>>◌, check, demand}
use codewire.NetworkAuth.{ObserverDelegationClaims, resolve_network_id, observer_token_prefix}
use codewire.NetworkAuth.Token.{Crypto, AuthError, parse_token}

pub record AcceptedAccessGrant : Type 0 where
  pub token : Text
  pub grant_id : Text
  pub network_id : Text
  pub target_node : Text
  pub session_id : Option ℕ
  pub session_name : Text
  pub verbs : List Text
  pub audience_subject_kind : Text
  pub audience_subject_id : Text
  pub accepted_at : ℕ
  pub expires_at : ℕ

-- What `os.ReadFile` gives.
pub data FileRead : Type 0 where
  contents : Text → FileRead
  not_exist read_error : FileRead

-- The file at the data directory; the two calls that write say whether they succeeded.
pub record Disk {ℓ} (S : Type ℓ) : Type ℓ where
  pub read_file : S → FileRead
  pub mkdir_all : S → Bool × S
  pub write_file : Text → S → Bool × S

pub data CacheError : Type 0 where
  reading parsing creating encoding writing not_found : CacheError
  bad_token : AuthError → CacheError

unfoldable pub prune_accepted_grants : ℕ → List AcceptedAccessGrant → List AcceptedAccessGrant
prune_accepted_grants now [] = []
prune_accepted_grants now (g ∷ gs) =
    let rest = prune_accepted_grants now gs in if ltb g.expires_at now then rest else g ∷ rest

unfoldable pub accepted_grant_allows_verb : List Text → Text → Bool
accepted_grant_allows_verb [] verb = false
accepted_grant_allows_verb (c ∷ verbs) verb =
    if trim_space c =ᵗ trim_space verb then true else accepted_grant_allows_verb verbs verb

unfoldable pub same_id : Option ℕ → ℕ → Bool
same_id none id = false
same_id (some j) id = j == id

unfoldable pub accepted_grant_matches_session : AcceptedAccessGrant → Option ℕ → Text → Bool
unfolding same_id
accepted_grant_matches_session g (some id) name = same_id g.session_id id
accepted_grant_matches_session g none name =
    if trim_space name =ᵗ [] then false else trim_space g.session_name =ᵗ trim_space name

unfoldable pub accepted_grant_lookup_says_missing : Text → Bool
accepted_grant_lookup_says_missing message =
    let msg = to_lower (trim_space message) in
    contains msg (codes "access grant not found") || contains msg (codes "membership required")

-- The loop of `AcceptAccessGrant`: the first grant with the identifier is replaced.
unfoldable pub put : AcceptedAccessGrant → List AcceptedAccessGrant → List AcceptedAccessGrant
put grant [] = grant ∷ []
put grant (g ∷ gs) =
    let rest = put grant gs in if g.grant_id =ᵗ grant.grant_id then grant ∷ gs else g ∷ rest

unfoldable pub has_grant : Text → List AcceptedAccessGrant → Bool
has_grant id [] = false
has_grant id (g ∷ gs) = if trim_space g.grant_id =ᵗ trim_space id then true else has_grant id gs

-- The loop of `RemoveAcceptedAccessGrant`.
unfoldable pub without : Text → List AcceptedAccessGrant → List AcceptedAccessGrant
without id [] = []
without id (g ∷ gs) =
    let rest = without id gs in if trim_space g.grant_id =ᵗ trim_space id then rest else g ∷ rest

-- The loop of `GetAcceptedAccessGrant`.
unfoldable pub find : Text → List AcceptedAccessGrant → Option AcceptedAccessGrant
find id [] = none
find id (g ∷ gs) = if trim_space g.grant_id =ᵗ id then some g else find id gs

pub record ListAcceptedAccessGrantOptions : Type 0 where
  pub network_id : Text
  pub target_node : Text
  pub session_name : Text
  pub verb : Text

-- A filter that is not set, or is met.
unfoldable pub passes : Text → Bool → Bool
passes option holds = if trim_space option =ᵗ [] then true else holds

unfoldable pub wanted : ListAcceptedAccessGrantOptions → AcceptedAccessGrant → Bool
unfolding passes
wanted o g =
    passes o.network_id (resolve_network_id g.network_id =ᵗ resolve_network_id o.network_id)
    && passes o.target_node (trim_space g.target_node =ᵗ trim_space o.target_node)
    && passes o.session_name (trim_space g.session_name =ᵗ trim_space o.session_name)
    && passes o.verb (accepted_grant_allows_verb g.verbs o.verb)

unfoldable pub select :
    (AcceptedAccessGrant → Bool) → List AcceptedAccessGrant → List AcceptedAccessGrant
select keep [] = []
select keep (g ∷ gs) = let rest = select keep gs in if keep g then g ∷ rest else rest

-- The record of a token that was accepted.
unfoldable pub accepted : Text → ObserverDelegationClaims → ℕ → AcceptedAccessGrant
accepted token claims now = record {
  token = trim_space token;
  grant_id = claims.header.jti;
  network_id = claims.header.network_id;
  target_node = claims.target_node;
  session_id = claims.session_id;
  session_name = claims.session_name;
  verbs = claims.verbs;
  audience_subject_kind = claims.audience_subject_kind;
  audience_subject_id = claims.audience_subject_id;
  accepted_at = now;
  expires_at = claims.header.expires_at;
}

unfoldable pub token_parsed : {A : Type 0} → Result AuthError A → Result CacheError A
token_parsed (ok a) = ok a
token_parsed (err e) = err (bad_token e)

module _ {ℓ} {S : Type ℓ} (disk : Disk S) (json : Json (List AcceptedAccessGrant)) where
  unfoldable pub parse_file : FileRead → Result CacheError (List AcceptedAccessGrant)
  parse_file not_exist = ok []
  parse_file read_error = err reading
  parse_file (contents s) = or_fail (json.unmarshal s) parsing

  -- `loadAcceptedGrantFile`.
  unfoldable pub load_file : Action S CacheError (List AcceptedAccessGrant)
  unfolding parse_file
  load_file s = (parse_file (disk.read_file s), s)

  -- A call that says whether it succeeded.
  unfoldable pub wrote : Bool × S → CacheError → Result CacheError (Unit {0}) × S
  wrote (true, s) e = (ok tt, s)
  wrote (false, s) e = (err e, s)

  -- `saveAcceptedGrantFile`.
  unfoldable pub save_file : List AcceptedAccessGrant → Action S CacheError (Unit {0})
  unfolding wrote
  save_file gs = do
    λ s. wrote (disk.mkdir_all s) creating
    text ← demand (json.marshal gs) encoding
    λ s. wrote (disk.write_file text s) writing

  -- `AcceptAccessGrant`; the two times are those of the acceptance and of the pruning.
  unfoldable pub accept_access_grant :
      Crypto
      → Json ObserverDelegationClaims
      → Text
      → ℕ
      → ℕ
      → Action S CacheError AcceptedAccessGrant
  unfolding load_file save_file prune_accepted_grants put accepted token_parsed
  accept_access_grant crypto claims_json token now later = do
    (claims, payload, signature) ←
        pure
          (token_parsed (parse_token crypto claims_json observer_token_prefix (trim_space token)))
    gs ← load_file
    save_file (put (accepted token claims now) (prune_accepted_grants later gs))
    pure (ok (accepted token claims now))

  -- `ListAcceptedAccessGrants`.
  unfoldable pub list_accepted_access_grants : ℕ → Action S CacheError (List AcceptedAccessGrant)
  unfolding load_file save_file prune_accepted_grants
  list_accepted_access_grants now = do
    gs ← load_file
    let pruned = prune_accepted_grants now gs
    (if not (length pruned == length gs) then save_file pruned else pure (ok tt))
    pure (ok pruned)

  -- `ListAcceptedAccessGrantsFiltered`.
  unfoldable pub list_accepted_access_grants_filtered :
      ListAcceptedAccessGrantOptions → ℕ → Action S CacheError (List AcceptedAccessGrant)
  unfolding list_accepted_access_grants select wanted
  list_accepted_access_grants_filtered o now = do
    gs ← list_accepted_access_grants now
    pure (ok (select (wanted o) gs))

  -- `GetAcceptedAccessGrant`.
  unfoldable pub get_accepted_access_grant : Text → ℕ → Action S CacheError AcceptedAccessGrant
  unfolding list_accepted_access_grants find
  get_accepted_access_grant id now = do
    gs ← list_accepted_access_grants now
    demand (find (trim_space id) gs) not_found

  -- `RemoveAcceptedAccessGrant`.
  unfoldable pub remove_accepted_access_grant : Text → Action S CacheError (Unit {0})
  unfolding load_file save_file has_grant without
  remove_accepted_access_grant id = do
    gs ← load_file
    check (has_grant id gs) not_found
    save_file (without id gs)
