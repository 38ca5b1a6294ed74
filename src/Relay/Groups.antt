-- ===== src/Relay/Groups.antt =====
-- internal/relay/groups.go: what the handlers of groups make of a request, on any storage. The body
-- of a request is what JSON decodes, where it does; an answer is written as its value or its error.
pub mod Handlers
pub mod Changes
pub mod Entitled
pub mod Steps
pub mod Safety
pub mod Runs
mod Tests
use codewire.Base.{
  ℕ, Bool, true, false, ◌&&◌, ◌||◌, not, Option, none, some, List, [], ◌∷◌, ◌++◌, leb, ◌==◌,
  if◌then◌else◌, length, drop,
}
use codewire.Base.Text.{Text, codes, ◌=ᵗ◌, trim_space, to_lower, has_prefix}
use codewire.Base.Result.{Result, ok, err}
use codewire.Base.Action.{Action, pure, follow, ◌>>=◌, ◌>>◌, check, demand}
use codewire.Relay.{
  group_messages_internal_only, group_messages_open, group_debug_none, group_debug_observe_only,
  group_debug_full, GroupMember, GroupPolicy, NodeRecord, StoreError, group_already_exists,
  group_not_found, group_member_not_found, database, Store,
}
use codewire.Relay.Membership.{
  AuthIdentity, HttpError, bad_request, unauthorized, forbidden, internal_error,
  required_network_id, SubjectError, membership_subject, demand_owner,
}

pub record GroupCreateRequest : Type 0 where
  pub network_id : Text
  pub name : Text

pub record GroupMemberRequest : Type 0 where
  pub network_id : Text
  pub node_name : Text
  pub session_name : Text

pub record GroupPolicyRequest : Type 0 where
  pub network_id : Text
  pub messages_policy : Text
  pub debug_policy : Text

pub record GroupResponse : Type 0 where
  pub network_id : Text
  pub name : Text
  pub created_at : ℕ
  pub created_by : Text
  pub members : List GroupMember
  pub policy : Option GroupPolicy

unfoldable pub is_name_rune : ℕ → Bool
is_name_rune c =
    (leb b'a' c && leb c b'z')
    || (leb b'A' c && leb c b'Z')
    || (leb b'0' c && leb c b'9')
    || (c == b'-')
    || (c == b'_')

unfoldable pub are_name_runes : Text → Bool
unfolding is_name_rune
are_name_runes [] = true
are_name_runes (c ∷ s) = if is_name_rune c then are_name_runes s else false

-- `validateGroupName`.
unfoldable pub validate_group_name : Text → Result HttpError (Unit {0})
unfolding are_name_runes
validate_group_name raw =
    if trim_space raw =ᵗ []
    then err (bad_request (codes "group name required"))
    else if are_name_runes (trim_space raw)
    then ok tt
    else err (bad_request (codes "group name may only contain letters, numbers, '-' or '_'"))

unfoldable pub messages_policy_of : Text → Result HttpError Text
messages_policy_of p =
    if (p =ᵗ []) || (p =ᵗ group_messages_internal_only)
    then ok group_messages_internal_only
    else if p =ᵗ group_messages_open
    then ok group_messages_open
    else err (bad_request (codes "invalid messages_policy"))

-- `normalizeGroupMessagesPolicy`.
unfoldable pub normalize_group_messages_policy : Text → Result HttpError Text
unfolding messages_policy_of
normalize_group_messages_policy raw = messages_policy_of (trim_space (to_lower raw))

unfoldable pub debug_policy_of : Text → Result HttpError Text
debug_policy_of p =
    if (p =ᵗ []) || (p =ᵗ group_debug_observe_only)
    then ok group_debug_observe_only
    else if p =ᵗ group_debug_none
    then ok group_debug_none
    else if p =ᵗ group_debug_full
    then ok group_debug_full
    else err (bad_request (codes "invalid debug_policy"))

-- `normalizeGroupDebugPolicy`.
unfoldable pub normalize_group_debug_policy : Text → Result HttpError Text
unfolding debug_policy_of
normalize_group_debug_policy raw = debug_policy_of (trim_space (to_lower raw))

-- `err.Error()`.
unfoldable pub store_message : StoreError → Text
store_message group_already_exists = codes "group already exists"
store_message group_not_found = codes "group not found"
store_message group_member_not_found = codes "group member not found"
store_message (database s) = s

unfoldable pub is_given : Option AuthIdentity → Bool
is_given none = false
is_given (some i) = true

unfoldable pub is_admin : Option AuthIdentity → Bool
is_admin none = false
is_admin (some i) = i.is_admin

-- The subject that is recorded with a group.
unfoldable pub created_by_of : Bool → Result SubjectError Text → Result HttpError Text
created_by_of admin (ok subject) = ok subject
created_by_of admin (err e) = if admin then ok [] else err unauthorized

-- `strings.TrimPrefix(header, "Bearer ")`.
unfoldable pub bearer : Text → Text
bearer header = if has_prefix header (codes "Bearer ") then drop 7 header else header

-- A node acts for its own sessions.
unfoldable pub node_scope : NodeRecord → Text → Result HttpError (Text × Text)
node_scope node node_name =
    let name = if node_name =ᵗ [] then node.name else node_name in
    if name =ᵗ node.name then ok (node.network_id, name) else err (forbidden (codes "forbidden"))

module _ {ℓ} {S : Type ℓ} where
  unfoldable pub internal_result : {A : Type 0} → Result StoreError A × S → Result HttpError A × S
  internal_result (ok a, s) = (ok a, s)
  internal_result (err e, s) = (err internal_error, s)

  -- Any error of the storage is an internal one.
  unfoldable pub internal : {A : Type 0} → Action S StoreError A → Action S HttpError A
  unfolding internal_result
  internal call s = internal_result (call s)

  unfoldable pub answer_result :
      {A : Type 0} → Text → (Text → HttpError) → Result StoreError A × S → Result HttpError A × S
  unfolding store_message
  answer_result known respond (ok a, s) = (ok a, s)
  answer_result known respond (err e, s) =
      (err (if store_message e =ᵗ known then respond (store_message e) else internal_error), s)

  -- All but one error of the storage are internal ones.
  unfoldable pub answer :
      {A : Type 0} → Text → (Text → HttpError) → Action S StoreError A → Action S HttpError A
  unfolding answer_result
  answer known respond call s = answer_result known respond (call s)

module _ {ℓ} {S : Type ℓ} (st : Store S) where
  -- `nodeAuthFromRequest`.
  unfoldable pub node_auth_from_request : Text → Action S StoreError (Option NodeRecord)
  unfolding bearer
  node_auth_from_request header =
      if bearer header =ᵗ [] then pure (ok none) else st.node_get_by_token (bearer header)

  unfoldable pub owner_scope :
      Option AuthIdentity → Text → Text → ℕ → Action S HttpError (Text × Text)
  unfolding is_given required_network_id demand_owner
  owner_scope identity raw_network_id node_name now = do
    check (is_given identity) unauthorized
    network_id ← pure (required_network_id raw_network_id)
    check (not (node_name =ᵗ [])) (bad_request (codes "node_name required"))
    demand_owner st network_id identity now
    pure (ok (network_id, node_name))

  unfoldable pub scope_of :
      Option AuthIdentity
      → Text
      → Text
      → ℕ
      → Result StoreError (Option NodeRecord) × S
      → Result HttpError (Text × Text) × S
  unfolding node_scope owner_scope
  scope_of identity raw_network_id node_name now (ok (some node), s) =
      (node_scope node node_name, s)
  scope_of identity raw_network_id node_name now (ok none, s) =
      owner_scope identity raw_network_id node_name now s
  scope_of identity raw_network_id node_name now (err e, s) =
      owner_scope identity raw_network_id node_name now s

  -- The network and the node for which the requests about a session act: a node's own, or what the
  -- owner of a network names.
  unfoldable pub session_scope :
      Text → Option AuthIdentity → Text → Text → ℕ → Action S HttpError (Text × Text)
  unfolding node_auth_from_request scope_of
  session_scope header identity raw_network_id node_name now s =
      scope_of identity raw_network_id node_name now (node_auth_from_request header s)
