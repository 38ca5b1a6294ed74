-- ===== src/Relay/Groups/Tests.antt =====
-- internal/relay/groups.go: an owner, a member and a node of one network.
use codewire.Base.{◌≡◌, refl, false, ◌⊎◌, none, some, List, [], ◌∷◌}
use codewire.Base.Text.{Text, codes, ◌=ᵗ◌, trim_space, has_prefix, to_lower}
use codewire.Base.Result.{err}
use codewire.NetworkAuth.{resolve_network_id}
use codewire.Relay.{NetworkMember, NodeRecord}
use codewire.Relay.Membership.{
  AuthIdentity, normalize_identity_subject, membership_subject, membership_for_request,
  required_network_id, require_owner, is_owner, stored, demand_owner, answer_owner, owner_required,
}
use codewire.Relay.Groups.{is_given, validate_group_name, are_name_runes}
use codewire.Relay.Groups.Handlers.{groups_create}
use codewire.Relay.Groups.Changes.{Call, create, add_member, serve, header_of, Change}
use codewire.Relay.Groups.Safety.{serve-Change}
use codewire.Relay.Groups.Runs.{Visit, run, run-IsConsistent}
use codewire.Relay.Sqlite.{Tables, network_member_get, is_member}
use codewire.Relay.Rows.{first_row}
use codewire.Relay.Sqlite.Instance.{sqlite, sqlite-ReadsKeep}
use codewire.Relay.Sqlite.Consistent.{IsConsistent}

abbrev net : Text
net = codes "net"

abbrev person : Text → AuthIdentity
person sub = record { user_id = 0; sub = sub; username = []; is_admin = false }

abbrev member : Text → Text → NetworkMember
member subject role = record {
  network_id = net;
  subject = subject;
  role = role;
  created_at = 1;
  created_by = [];
}

abbrev laptop : NodeRecord
laptop = record {
  network_id = net;
  name = codes "laptop";
  token = codes "secret";
  peer_url = [];
  github_id = none;
  owner_subject = codes "oidc:ann";
  authorized_by = [];
  enrollment_id = [];
  authorized_at = 1;
  last_seen_at = 1;
}

abbrev tables : Tables
tables = record {
  networks = [];
  members =
      member (codes "oidc:ann") (codes "Owner") ∷ member (codes "oidc:bob") (codes "member") ∷ [];
  groups = [];
  group_members = [];
  policies = [];
  nodes = laptop ∷ [];
}

abbrev create_ci : Call
create_ci = create (some (record { network_id = net; name = codes " ci " }))

abbrev join_ci : Call
join_ci =
    add_member (codes "Bearer secret") (codes "ci")
      (some (record { network_id = []; node_name = []; session_name = codes "build" }))

abbrev visits : List Visit
visits =
    record { identity = some (person (codes "ann")); time = 5; call = create_ci }
    ∷ record { identity = none; time = 6; call = join_ci }
    ∷ []

serve-Change_example :
    Change
      (sqlite 5)
      (some (person (codes "ann")))
      5
      (header_of create_ci)
      tables
      (serve (sqlite 5) (some (person (codes "ann"))) 5 create_ci tables)
    ⊎ (serve (sqlite 5) (some (person (codes "ann"))) 5 create_ci tables ≡ tables)
serve-Change_example =
    serve-Change (sqlite 5) (sqlite-ReadsKeep 5) (some (person (codes "ann"))) 5 tables create_ci

run-IsConsistent_example : IsConsistent (run visits tables)
run-IsConsistent_example =
    run-IsConsistent visits tables (record { grouped = tt; policies_grouped = tt; governed = tt })

bob_test :
    (groups_create
      (sqlite 5)
      (some (person (codes "bob")))
      5
      (some (record { network_id = net; name = codes "ci" }))
      tables).0
    ≡ err owner_required
unfolding groups_create resolve_network_id required_network_id trim_space validate_group_name
    are_name_runes demand_owner answer_owner require_owner membership_for_request membership_subject
    normalize_identity_subject has_prefix ◌=ᵗ◌ stored network_member_get first_row is_member
    is_owner is_given to_lower
bob_test = refl
