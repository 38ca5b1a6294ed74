-- ===== src/Relay/Grants/Memory.antt =====
-- internal/relay/access.go and internal/relay/network_auth.go: a memory of grants, with two members, a
-- node and a group, and the toy issuer.
use codewire.Base.{refl, false, none, some, List, [], ◌∷◌, Option, if◌then◌else◌}
use codewire.Base.Text.{Text, codes, ◌=ᵗ◌}
use codewire.Base.Result.{ok}
use codewire.NetworkAuth.Token.Toy.{toy, issuer, observer_json}
use codewire.Relay.{
  NetworkMember, NodeRecord, GroupBinding, Store, group_messages_open, group_debug_none,
}
use codewire.Relay.Membership.{AuthIdentity}
use codewire.Relay.Groups.Changes.{ReadsKeep}
use codewire.Relay.Grants.Issuer.{KeepsGroups}
use codewire.Relay.Grants.{AccessGrant, GrantStore, Libraries}

abbrev pub net : Text
net = codes "net"

abbrev pub Memory : Type 0
Memory = List AccessGrant

abbrev pub person : Text → AuthIdentity
person sub = record { user_id = 0; sub = sub; username = []; is_admin = false }

abbrev pub member : Text → Text → NetworkMember
member subject role = record {
  network_id = net;
  subject = subject;
  role = role;
  created_at = 1;
  created_by = [];
}

abbrev pub find_member : Text → Option NetworkMember
find_member subject =
    if subject =ᵗ codes "oidc:ann"
    then some (member subject (codes "owner"))
    else if subject =ᵗ codes "oidc:bob"
    then some (member subject (codes "member"))
    else none

abbrev pub find_grant : Text → List AccessGrant → Option AccessGrant
find_grant id [] = none
find_grant id (g ∷ gs) = if g.id =ᵗ id then some g else find_grant id gs

abbrev pub laptop : NodeRecord
laptop = record {
  network_id = net;
  name = codes "laptop";
  token = codes "secret";
  peer_url = [];
  github_id = none;
  owner_subject = codes "oidc:ann";
  authorized_by = [];
  enrollment_id = [];
  authorized_at = 1;
  last_seen_at = 1;
}

abbrev pub in_ci : GroupBinding
in_ci = record {
  group_name = codes "ci";
  messages_policy = group_messages_open;
  debug_policy = group_debug_none;
}

abbrev pub members : Store Memory
members = record {
  network_member_get = λ n u s. (ok (find_member u), s);
  node_get_by_token = λ t s. (ok (if t =ᵗ codes "secret" then some laptop else none), s);
  group_create = λ g s. (ok tt, s);
  group_list = λ n s. (ok [], s);
  group_get = λ n g s. (ok none, s);
  group_delete = λ n g s. (ok tt, s);
  group_member_add = λ m s. (ok tt, s);
  group_member_remove = λ n g d e s. (ok tt, s);
  group_member_list = λ n g s. (ok [], s);
  group_bindings_for_session = λ n d e s. (ok (in_ci ∷ []), s);
  group_policy_set = λ p s. (ok tt, s);
  group_policy_get = λ n g s. (ok none, s);
}

pub members-ReadsKeep : ReadsKeep members
members-ReadsKeep = record {
  network_member_get = λ n u s. refl;
  node_get_by_token = λ t s. refl;
  group_list = λ n s. refl;
  group_get = λ n g s. refl;
  group_member_list = λ n g s. refl;
  group_bindings_for_session = λ n d e s. refl;
  group_policy_get = λ n g s. refl;
}

abbrev pub memory : GrantStore Memory
memory = record {
  store = members;
  kv_get = λ n space key s. (ok (codes "issuer"), s);
  kv_set = λ n space key value s. (ok tt, s);
  network_ensure = λ n s. (ok tt, s);
  user_get_by_username = λ name s. (ok none, s);
  oidc_user_list_by_username = λ name s. (ok [], s);
  access_grant_create = λ g s. (ok tt, g ∷ s);
  access_grant_get = λ n id s. (ok (find_grant id s), s);
  access_grant_list = λ n f s. (ok s, s);
  access_grant_revoke = λ n id at s. (ok tt, s);
}

abbrev pub libraries : Libraries
libraries = record {
  crypto = toy;
  claims_json = observer_json;
  issuer_json = record { marshal = λ s. none; unmarshal = λ t. some issuer };
  parse_duration = λ t. none;
  quote = λ t. t;
  auth_message = λ e. [];
}

pub memory-KeepsGroups : KeepsGroups memory
memory-KeepsGroups = record {
  kv_get = λ a b c n d e s. refl;
  kv_set = λ a b c v n d e s. refl;
  network_ensure = λ a n d e s. refl;
}
