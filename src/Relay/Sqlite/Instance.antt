-- ===== src/Relay/Sqlite/Instance.antt =====
-- internal/store/sqlite.go: `SQLiteStore` as the storage of the handlers of groups.
use codewire.Base.{ℕ, refl}
use codewire.Relay.{Store}
use codewire.Relay.Sqlite.{
  Tables, network_member_get, node_get_by_token, group_create, group_list, group_get, group_delete,
  group_member_add, group_member_remove, group_member_list, group_bindings_for_session,
  group_policy_set, group_policy_get,
}
use codewire.Relay.Groups.Changes.{ReadsKeep}

-- The store, at the time of its calls.
abbrev pub sqlite : ℕ → Store Tables
sqlite now = record {
  network_member_get = network_member_get;
  node_get_by_token = node_get_by_token;
  group_create = group_create now;
  group_list = group_list;
  group_get = group_get;
  group_delete = group_delete;
  group_member_add = group_member_add;
  group_member_remove = group_member_remove;
  group_member_list = group_member_list;
  group_bindings_for_session = group_bindings_for_session;
  group_policy_set = group_policy_set;
  group_policy_get = group_policy_get;
}

pub sqlite-ReadsKeep : (now : ℕ) → ReadsKeep (sqlite now)
unfolding network_member_get node_get_by_token group_list group_get group_member_list
    group_bindings_for_session group_policy_get
sqlite-ReadsKeep now = record {
  network_member_get = λ n u s. refl;
  node_get_by_token = λ t s. refl;
  group_list = λ n s. refl;
  group_get = λ n g s. refl;
  group_member_list = λ n g s. refl;
  group_bindings_for_session = λ n d e s. refl;
  group_policy_get = λ n g s. refl;
}
