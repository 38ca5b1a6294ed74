-- ===== src/Relay.antt =====
-- internal/store/store.go: what the relay keeps of networks, groups and nodes, and the interface of
-- its storage, as far as the handlers of groups use it.
pub mod Membership
pub mod Rows
pub mod Sqlite
pub mod Groups
pub mod AccessEvents
pub mod Credentials
pub mod Grants
pub mod Hub
use codewire.Base.{ℕ, Option, none, some, List}
use codewire.Base.Text.{Text, codes}
use codewire.Base.Result.{Result, ok, err}
use codewire.Base.Action.{Action}

abbrev pub network_role_owner : Text
network_role_owner = codes "owner"

abbrev pub network_role_member : Text
network_role_member = codes "member"

pub record NetworkMember : Type 0 where
  pub network_id : Text
  pub subject : Text
  pub role : Text
  pub created_at : ℕ
  pub created_by : Text

abbrev pub group_messages_internal_only : Text
group_messages_internal_only = codes "internal-only"

abbrev pub group_messages_open : Text
group_messages_open = codes "open"

abbrev pub group_debug_none : Text
group_debug_none = codes "none"

abbrev pub group_debug_observe_only : Text
group_debug_observe_only = codes "observe-only"

abbrev pub group_debug_full : Text
group_debug_full = codes "full"

pub record Group : Type 0 where
  pub network_id : Text
  pub name : Text
  pub created_at : ℕ
  pub created_by : Text

pub record GroupMember : Type 0 where
  pub network_id : Text
  pub group_name : Text
  pub node_name : Text
  pub session_name : Text
  pub created_at : ℕ

pub record GroupPolicy : Type 0 where
  pub network_id : Text
  pub group_name : Text
  pub messages_policy : Text
  pub debug_policy : Text
  pub updated_at : ℕ

pub record GroupBinding : Type 0 where
  pub group_name : Text
  pub messages_policy : Text
  pub debug_policy : Text

pub record NodeRecord : Type 0 where
  pub network_id : Text
  pub name : Text
  pub token : Text
  pub peer_url : Text
  pub github_id : Option ℕ
  pub owner_subject : Text
  pub authorized_by : Text
  pub enrollment_id : Text
  pub authorized_at : ℕ
  pub last_seen_at : ℕ

-- The errors of a storage: those that the handlers know by their text, and any other.
pub data StoreError : Type 0 where
  group_already_exists group_not_found group_member_not_found : StoreError
  database : Text → StoreError

-- The calls that the handlers make, on a storage of any kind.
pub record Store {ℓ} (S : Type ℓ) : Type ℓ where
  pub network_member_get : Text → Text → Action S StoreError (Option NetworkMember)
  pub node_get_by_token : Text → Action S StoreError (Option NodeRecord)
  pub group_create : Group → Action S StoreError (Unit {0})
  pub group_list : Text → Action S StoreError (List Group)
  pub group_get : Text → Text → Action S StoreError (Option Group)
  pub group_delete : Text → Text → Action S StoreError (Unit {0})
  pub group_member_add : GroupMember → Action S StoreError (Unit {0})
  pub group_member_remove : Text → Text → Text → Text → Action S StoreError (Unit {0})
  pub group_member_list : Text → Text → Action S StoreError (List GroupMember)
  pub group_bindings_for_session : Text → Text → Text → Action S StoreError (List GroupBinding)
  pub group_policy_set : GroupPolicy → Action S StoreError (Unit {0})
  pub group_policy_get : Text → Text → Action S StoreError (Option GroupPolicy)
