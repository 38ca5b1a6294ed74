-- ===== src/Relay/Groups/Changes.antt =====
-- internal/relay/groups.go: what the handlers change in the storage, and for whom.
use codewire.Base.{ℕ, true, ◌≡◌, ◌⊎◌, Option, some, []}
use codewire.Base.Text.{Text}
use codewire.Base.Result.{ok}
use codewire.Relay.{Group, GroupMember, GroupPolicy, NodeRecord, Store}
use codewire.Relay.Membership.{AuthIdentity, require_owner}
use codewire.Relay.Groups.{
  GroupCreateRequest, GroupMemberRequest, GroupPolicyRequest, node_auth_from_request,
}
use codewire.Relay.Groups.Handlers.{
  groups_create, groups_list, group_bindings, groups_get, groups_delete, group_members_add,
  group_members_remove, group_policy_set,
}

-- A storage whose reads leave it as it is.
pub record ReadsKeep {ℓ} {S : Type ℓ} (st : Store S) : Type ℓ where
  pub network_member_get : (n u : Text) (s : S) → (st.network_member_get n u s).1 ≡ s
  pub node_get_by_token : (t : Text) (s : S) → (st.node_get_by_token t s).1 ≡ s
  pub group_list : (n : Text) (s : S) → (st.group_list n s).1 ≡ s
  pub group_get : (n g : Text) (s : S) → (st.group_get n g s).1 ≡ s
  pub group_member_list : (n g : Text) (s : S) → (st.group_member_list n g s).1 ≡ s
  pub group_bindings_for_session :
      (n d e : Text) (s : S) → (st.group_bindings_for_session n d e s).1 ≡ s
  pub group_policy_get : (n g : Text) (s : S) → (st.group_policy_get n g s).1 ≡ s

-- A request to one of the handlers.
pub data Call : Type 0 where
  create : Option GroupCreateRequest → Call
  list_all : Text → Call
  bindings : Text → Text → Text → Text → Call
  get delete : Text → Text → Call
  add_member : Text → Text → Option GroupMemberRequest → Call
  remove_member : Text → Text → Text → Text → Text → Call
  set_policy : Text → Option GroupPolicyRequest → Call

module _ {ℓ} {S : Type ℓ} (st : Store S) where
  -- The storage behind a request.
  unfoldable pub serve : Option AuthIdentity → ℕ → Call → S → S
  serve identity now (create body) s = (groups_create st identity now body s).1
  serve identity now (list_all n) s = (groups_list st identity now n s).1
  serve identity now (bindings h n d e) s = (group_bindings st identity now h n d e s).1
  serve identity now (get n g) s = (groups_get st identity now n g s).1
  serve identity now (delete n g) s = (groups_delete st identity now n g s).1
  serve identity now (add_member h g body) s = (group_members_add st identity now h g body s).1
  serve identity now (remove_member h g n d e) s =
      (group_members_remove st identity now h g n d e s).1
  serve identity now (set_policy g body) s = (group_policy_set st identity now g body s).1

-- The header with which a node authenticates itself.
unfoldable pub header_of : Call → Text
header_of (bindings h n d e) = h
header_of (add_member h g body) = h
header_of (remove_member h g n d e) = h
header_of _ = []

module _ {ℓ} {S : Type ℓ} (st : Store S) where
  abbrev pub IsOwner : Option AuthIdentity → ℕ → S → Text → Type 0
  IsOwner identity now s n = (require_owner st n identity now s).0 ≡ ok true

  abbrev pub IsNode : Text → S → Text → Text → Type 0
  IsNode header s n d =
      (node : NodeRecord) × ((node_auth_from_request st header s).0 ≡ ok (some node))
      × (node.network_id ≡ n)
      × (node.name ≡ d)

  -- The owner of the network, or the node whose session it is.
  abbrev pub MayBind : Option AuthIdentity → ℕ → Text → S → Text → Text → Type 0
  MayBind identity now header s n d = IsOwner identity now s n ⊎ IsNode header s n d

module _ {ℓ} {S : Type ℓ} (st : Store S) (identity : Option AuthIdentity) (now : ℕ) (header : Text)
    (s : S) where
  -- One change by someone who may make it: groups and policies are the owner's, the members of a
  -- node's sessions are also that node's.
  pub data Change (t : S) : Type ℓ where
    created :
        (g : Group)
        → IsOwner st identity now s g.network_id
        → t ≡ (st.group_create g s).1
        → Change t
    deleted : (n g : Text) → IsOwner st identity now s n → t ≡ (st.group_delete n g s).1 → Change t
    added :
        (m : GroupMember)
        → MayBind st identity now header s m.network_id m.node_name
        → t ≡ (st.group_member_add m s).1
        → Change t
    removed :
        (n g d e : Text)
        → MayBind st identity now header s n d
        → t ≡ (st.group_member_remove n g d e s).1
        → Change t
    policy_set :
        (p : GroupPolicy)
        → IsOwner st identity now s p.network_id
        → t ≡ (st.group_policy_set p s).1
        → Change t
