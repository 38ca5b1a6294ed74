-- ===== src/Relay/Sqlite.antt =====
-- internal/store/sqlite.go: the tables of networks, their members, groups and nodes, with the methods
-- of `SQLiteStore` on them. A method is one step, as it holds the store's mutex; a transaction that is
-- not committed leaves the tables as they were. Faults of the driver are left out.
pub mod Nodes
pub mod Instance
pub mod Rules
pub mod Consistent
use codewire.Base.{
  ℕ, suc, ◌+◌, Bool, true, false, ◌&&◌, not, Option, none, some, List, [], ◌∷◌, ◌==◌, if◌then◌else◌,
  length,
}
use codewire.Base.Text.{Text, codes, ◌=ᵗ◌}
use codewire.Base.Result.{Result, ok, err}
use codewire.Base.Action.{Action}
use codewire.Relay.{
  NetworkMember, Group, GroupMember, GroupPolicy, GroupBinding, NodeRecord, StoreError,
  group_already_exists, group_not_found, group_member_not_found, database, Store,
  group_messages_internal_only, group_debug_observe_only,
}
use codewire.Relay.Rows.{
  has_row, first_row, rows_where, delete_rows, update_rows, insert_or_ignore, upsert, order_by,
  text_before,
}

pub record NetworkRow : Type 0 where
  pub network_id : Text
  pub created_at : ℕ

pub record Tables : Type 0 where
  pub networks : List NetworkRow
  pub members : List NetworkMember
  pub groups : List Group
  pub group_members : List GroupMember
  pub policies : List GroupPolicy
  pub nodes : List NodeRecord

unfoldable pub is_network : Text → NetworkRow → Bool
is_network n r = r.network_id =ᵗ n

unfoldable pub is_member : Text → Text → NetworkMember → Bool
is_member n subject m = (m.network_id =ᵗ n) && (m.subject =ᵗ subject)

unfoldable pub is_group : Text → Text → Group → Bool
is_group n name g = (g.network_id =ᵗ n) && (g.name =ᵗ name)

unfoldable pub is_of_group : Text → Text → GroupMember → Bool
is_of_group n name m = (m.network_id =ᵗ n) && (m.group_name =ᵗ name)

unfoldable pub is_of_session : Text → Text → Text → GroupMember → Bool
is_of_session n node session m =
    (m.network_id =ᵗ n) && (m.node_name =ᵗ node) && (m.session_name =ᵗ session)

unfoldable pub is_binding : Text → Text → Text → Text → GroupMember → Bool
unfolding is_of_group
is_binding n name node session m =
    is_of_group n name m && (m.node_name =ᵗ node) && (m.session_name =ᵗ session)

unfoldable pub is_policy : Text → Text → GroupPolicy → Bool
is_policy n name p = (p.network_id =ᵗ n) && (p.group_name =ᵗ name)

unfoldable pub is_node : Text → Text → NodeRecord → Bool
is_node n name r = (r.network_id =ᵗ n) && (r.name =ᵗ name)

-- `INSERT OR IGNORE INTO networks`, at a time.
unfoldable pub ensure_network : Text → ℕ → Tables → Tables
unfolding insert_or_ignore is_network
ensure_network n now t = record t {
  networks =
      insert_or_ignore (is_network n) (record { network_id = n; created_at = now }) t.networks;
}

-- `NetworkEnsure`.
unfoldable pub network_ensure : Text → ℕ → Action Tables StoreError (Unit {0})
unfolding ensure_network
network_ensure n now t = (ok tt, ensure_network n now t)

-- `NetworkMemberGet`.
unfoldable pub network_member_get : Text → Text → Action Tables StoreError (Option NetworkMember)
unfolding first_row is_member
network_member_get n subject t = (ok (first_row (is_member n subject) t.members), t)

-- `NetworkMemberUpsert`: of a member that is there only the role changes.
unfoldable pub network_member_upsert : NetworkMember → ℕ → Action Tables StoreError (Unit {0})
unfolding ensure_network upsert is_member
network_member_upsert m now t =
    let u = ensure_network m.network_id now t in
    (
      ok tt,
      record u {
        members =
            upsert (is_member m.network_id m.subject) (λ r. record r { role = m.role }) m u.members;
      },
    )

-- `NetworkMemberCount`.
unfoldable pub network_member_count : Text → Action Tables StoreError ℕ
unfolding rows_where
network_member_count n t = (ok (length (rows_where (λ m. m.network_id =ᵗ n) t.members)), t)

unfoldable pub default_policy : Group → GroupPolicy
default_policy g = record {
  network_id = g.network_id;
  group_name = g.name;
  messages_policy = group_messages_internal_only;
  debug_policy = group_debug_observe_only;
  updated_at = g.created_at;
}

-- `GroupCreate`.
unfoldable pub group_create : ℕ → Group → Action Tables StoreError (Unit {0})
unfolding ensure_network insert_or_ignore is_group is_policy default_policy
group_create now g t =
    if has_row (is_group g.network_id g.name) t.groups then (err group_already_exists, t) else (
      ok tt,
      record (ensure_network g.network_id now t) {
        groups = g ∷ t.groups;
        policies = insert_or_ignore (is_policy g.network_id g.name) (default_policy g) t.policies;
      },
    )

-- `GroupList`.
unfoldable pub group_list : Text → Action Tables StoreError (List Group)
unfolding rows_where order_by text_before
group_list n t = (
  ok (order_by (λ a b. text_before a.name b.name) (rows_where (λ g. g.network_id =ᵗ n) t.groups)),
  t,
)

-- `GroupGet`.
unfoldable pub group_get : Text → Text → Action Tables StoreError (Option Group)
unfolding first_row is_group
group_get n name t = (ok (first_row (is_group n name) t.groups), t)

-- `GroupDelete`.
unfoldable pub group_delete : Text → Text → Action Tables StoreError (Unit {0})
unfolding has_row delete_rows is_group is_of_group is_policy
group_delete n name t =
    if has_row (is_group n name) t.groups
    then (
      ok tt,
      record t {
        group_members = delete_rows (is_of_group n name) t.group_members;
        policies = delete_rows (is_policy n name) t.policies;
        groups = delete_rows (is_group n name) t.groups;
      },
    )
    else (err group_not_found, t)

-- `GroupMemberAdd`.
unfoldable pub group_member_add : GroupMember → Action Tables StoreError (Unit {0})
unfolding has_row insert_or_ignore is_group is_binding
group_member_add m t =
    if has_row (is_group m.network_id m.group_name) t.groups
    then (
      ok tt,
      record t {
        group_members =
            insert_or_ignore (is_binding m.network_id m.group_name m.node_name m.session_name) m
              t.group_members;
      },
    )
    else (err group_not_found, t)

-- `GroupMemberRemove`.
unfoldable pub group_member_remove : Text → Text → Text → Text → Action Tables StoreError (Unit {0})
unfolding has_row delete_rows is_binding
group_member_remove n name node session t =
    if has_row (is_binding n name node session) t.group_members
    then (
      ok tt,
      record t { group_members = delete_rows (is_binding n name node session) t.group_members },
    )
    else (err group_member_not_found, t)

-- The order by node and session.
unfoldable pub member_before : GroupMember → GroupMember → Bool
unfolding text_before
member_before a b =
    if a.node_name =ᵗ b.node_name
    then text_before a.session_name b.session_name
    else text_before a.node_name b.node_name

-- `GroupMemberList`.
unfoldable pub group_member_list : Text → Text → Action Tables StoreError (List GroupMember)
unfolding rows_where order_by member_before is_of_group
group_member_list n name t =
    (ok (order_by member_before (rows_where (is_of_group n name) t.group_members)), t)

-- A row of the join of a member with the policy of its group, or without one.
unfoldable pub binding_of : GroupMember → Option GroupPolicy → GroupBinding
binding_of m none = record {
  group_name = m.group_name;
  messages_policy = group_messages_internal_only;
  debug_policy = group_debug_observe_only;
}
binding_of m (some p) = record {
  group_name = m.group_name;
  messages_policy = p.messages_policy;
  debug_policy = p.debug_policy;
}

unfoldable pub bindings_of : List GroupPolicy → List GroupMember → List GroupBinding
unfolding binding_of first_row is_policy
bindings_of policies [] = []
bindings_of policies (m ∷ ms) =
    binding_of m (first_row (is_policy m.network_id m.group_name) policies)
    ∷ bindings_of policies ms

-- `GroupBindingsForSession`.
unfoldable pub group_bindings_for_session :
    Text → Text → Text → Action Tables StoreError (List GroupBinding)
unfolding rows_where order_by text_before bindings_of is_of_session
group_bindings_for_session n node session t = (
  ok (
      bindings_of t.policies (
        order_by (λ a b. text_before a.group_name b.group_name)
          (rows_where (is_of_session n node session) t.group_members))),
  t,
)

-- `GroupPolicySet`.
unfoldable pub group_policy_set : GroupPolicy → Action Tables StoreError (Unit {0})
unfolding has_row upsert is_group is_policy
group_policy_set p t =
    if has_row (is_group p.network_id p.group_name) t.groups
    then (
      ok tt,
      record t {
        policies =
            upsert (is_policy p.network_id p.group_name)
              (λ r. record r {
                messages_policy = p.messages_policy;
                debug_policy = p.debug_policy;
                updated_at = p.updated_at;
              })
              p t.policies;
      },
    )
    else (err group_not_found, t)

-- `GroupPolicyGet`.
unfoldable pub group_policy_get : Text → Text → Action Tables StoreError (Option GroupPolicy)
unfolding first_row is_policy
group_policy_get n name t = (ok (first_row (is_policy n name) t.policies), t)

-- `NodeGetByToken`.
unfoldable pub node_get_by_token : Text → Action Tables StoreError (Option NodeRecord)
unfolding first_row
node_get_by_token token t = (ok (first_row (λ r. r.token =ᵗ token) t.nodes), t)
