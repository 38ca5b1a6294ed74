-- ===== src/Relay/Groups/Handlers.antt =====
-- internal/relay/groups.go: the handlers, each with the time at which it runs.
use codewire.Base.{ℕ, not, Option, none, some, List, [], ◌∷◌}
use codewire.Base.Text.{Text, codes, ◌=ᵗ◌, trim_space}
use codewire.Base.Result.{ok, err}
use codewire.Base.Action.{Action, pure, ◌>>=◌, ◌>>◌, check, demand}
use codewire.Relay.{Group, GroupMember, GroupPolicy, GroupBinding, Store}
use codewire.Relay.Membership.{
  AuthIdentity, HttpError, bad_request, unauthorized, conflict, not_found, required_network_id,
  membership_subject, demand_owner,
}
use codewire.Relay.Groups.{
  GroupCreateRequest, GroupMemberRequest, GroupPolicyRequest, GroupResponse, validate_group_name,
  normalize_group_messages_policy, normalize_group_debug_policy, is_given, is_admin, created_by_of,
  internal, answer, session_scope,
}

unfoldable pub response_of : Group → List GroupMember → Option GroupPolicy → GroupResponse
response_of g members policy = record {
  network_id = g.network_id;
  name = g.name;
  created_at = g.created_at;
  created_by = g.created_by;
  members = members;
  policy = policy;
}

unfoldable pub new_group : Text → Text → Text → ℕ → Group
new_group network_id name created_by now = record {
  network_id = network_id;
  name = trim_space name;
  created_at = now;
  created_by = created_by;
}

unfoldable pub new_member : Text → Text → Text → Text → ℕ → GroupMember
new_member network_id group_name node_name session_name now = record {
  network_id = network_id;
  group_name = group_name;
  node_name = node_name;
  session_name = session_name;
  created_at = now;
}

unfoldable pub new_policy : Text → Text → Text → Text → ℕ → GroupPolicy
new_policy network_id group_name messages debug now = record {
  network_id = network_id;
  group_name = group_name;
  messages_policy = messages;
  debug_policy = debug;
  updated_at = now;
}

module _ {ℓ} {S : Type ℓ} (st : Store S) (identity : Option AuthIdentity) (now : ℕ) where
  -- `groupsCreateHandler`.
  unfoldable pub groups_create : Option GroupCreateRequest → Action S HttpError GroupResponse
  unfolding response_of new_group
  groups_create body = do
    check (is_given identity) unauthorized
    req ← demand body (bad_request (codes "bad request"))
    network_id ← pure (required_network_id req.network_id)
    pure (validate_group_name req.name)
    demand_owner st network_id identity now
    created_by ← pure (created_by_of (is_admin identity) (membership_subject identity))
    let group = new_group network_id req.name created_by now
    answer (codes "group already exists") conflict (st.group_create group)
    policy ← internal (st.group_policy_get network_id group.name)
    pure (ok (response_of group [] policy))

  unfoldable pub list_responses : Text → List Group → Action S HttpError (List GroupResponse)
  unfolding response_of
  list_responses network_id [] = pure (ok [])
  list_responses network_id (g ∷ gs) = do
    policy ← internal (st.group_policy_get network_id g.name)
    rest ← list_responses network_id gs
    pure (ok (response_of g [] policy ∷ rest))

  -- `groupsListHandler`.
  unfoldable pub groups_list : Text → Action S HttpError (List GroupResponse)
  unfolding list_responses
  groups_list raw_network_id = do
    check (is_given identity) unauthorized
    network_id ← pure (required_network_id raw_network_id)
    demand_owner st network_id identity now
    groups ← internal (st.group_list network_id)
    list_responses network_id groups

  -- `groupBindingsHandler`.
  unfoldable pub group_bindings : Text → Text → Text → Text → Action S HttpError (List GroupBinding)
  group_bindings header raw_network_id raw_node_name raw_session_name = do
    check (not (trim_space raw_session_name =ᵗ [])) (bad_request (codes "session_name required"))
    (network_id, node_name) ←
        session_scope st header identity raw_network_id (trim_space raw_node_name) now
    internal (st.group_bindings_for_session network_id node_name (trim_space raw_session_name))

  -- `loadGroupResponse`.
  unfoldable pub load_group_response : Text → Text → Option Group → Action S HttpError GroupResponse
  unfolding response_of
  load_group_response network_id name none = pure (err (not_found (codes "group not found")))
  load_group_response network_id name (some g) = do
    members ← internal (st.group_member_list network_id name)
    policy ← internal (st.group_policy_get network_id name)
    pure (ok (response_of g members policy))

  -- `groupsGetHandler`.
  unfoldable pub groups_get : Text → Text → Action S HttpError GroupResponse
  unfolding load_group_response
  groups_get raw_network_id raw_name = do
    check (is_given identity) unauthorized
    network_id ← pure (required_network_id raw_network_id)
    pure (validate_group_name (trim_space raw_name))
    demand_owner st network_id identity now
    group ← internal (st.group_get network_id (trim_space raw_name))
    load_group_response network_id (trim_space raw_name) group

  -- `groupsDeleteHandler`.
  unfoldable pub groups_delete : Text → Text → Action S HttpError (Unit {0})
  groups_delete raw_network_id raw_name = do
    check (is_given identity) unauthorized
    network_id ← pure (required_network_id raw_network_id)
    pure (validate_group_name (trim_space raw_name))
    demand_owner st network_id identity now
    answer (codes "group not found") not_found (st.group_delete network_id (trim_space raw_name))

  -- `groupMembersAddHandler`.
  unfoldable pub group_members_add :
      Text → Text → Option GroupMemberRequest → Action S HttpError GroupMember
  unfolding new_member
  group_members_add header raw_name body = do
    pure (validate_group_name (trim_space raw_name))
    req ← demand body (bad_request (codes "bad request"))
    check (not (trim_space req.session_name =ᵗ [])) (bad_request (codes "session_name required"))
    (network_id, node_name) ←
        session_scope st header identity req.network_id (trim_space req.node_name) now
    let member =
        new_member network_id (trim_space raw_name) node_name (trim_space req.session_name) now
    answer (codes "group not found") not_found (st.group_member_add member)
    pure (ok member)

  -- `groupMembersRemoveHandler`.
  unfoldable pub group_members_remove :
      Text → Text → Text → Text → Text → Action S HttpError (Unit {0})
  group_members_remove header raw_name raw_network_id raw_node_name raw_session_name = do
    pure (validate_group_name (trim_space raw_name))
    check (not (trim_space raw_session_name =ᵗ [])) (bad_request (codes "session_name required"))
    (network_id, node_name) ←
        session_scope st header identity raw_network_id (trim_space raw_node_name) now
    answer (codes "group member not found") not_found (
        st.group_member_remove network_id (trim_space raw_name) node_name
          (trim_space raw_session_name))

  -- `groupPolicySetHandler`.
  unfoldable pub group_policy_set :
      Text → Option GroupPolicyRequest → Action S HttpError GroupPolicy
  unfolding new_policy
  group_policy_set raw_name body = do
    check (is_given identity) unauthorized
    pure (validate_group_name (trim_space raw_name))
    req ← demand body (bad_request (codes "bad request"))
    network_id ← pure (required_network_id req.network_id)
    messages ← pure (normalize_group_messages_policy req.messages_policy)
    debug ← pure (normalize_group_debug_policy req.debug_policy)
    demand_owner st network_id identity now
    let policy = new_policy network_id (trim_space raw_name) messages debug now
    answer (codes "group not found") not_found (st.group_policy_set policy)
    pure (ok policy)
