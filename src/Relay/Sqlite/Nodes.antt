-- ===== src/Relay/Sqlite/Nodes.antt =====
-- internal/store/sqlite.go: the methods on the table of nodes.
use codewire.Base.{ℕ, Bool, ◌&&◌, not, Option, List, if◌then◌else◌}
use codewire.Base.Text.{Text, codes, ◌=ᵗ◌}
use codewire.Base.Result.{ok, err}
use codewire.Base.Action.{Action}
use codewire.Relay.{NodeRecord, StoreError, database}
use codewire.Relay.Rows.{
  has_row, first_row, rows_where, delete_rows, update_rows, upsert, order_by, text_before,
}
use codewire.Relay.Sqlite.{Tables, is_node, ensure_network}

-- The columns that a registration changes of a node that is there.
unfoldable pub registered : NodeRecord → NodeRecord → NodeRecord
registered node r = record r {
  token = node.token;
  peer_url = node.peer_url;
  github_id = node.github_id;
  owner_subject = node.owner_subject;
  authorized_by = node.authorized_by;
  enrollment_id = node.enrollment_id;
  last_seen_at = node.last_seen_at;
}

-- Another node with the same token, which the table does not allow.
unfoldable pub has_token : NodeRecord → NodeRecord → Bool
unfolding is_node
has_token node r = (r.token =ᵗ node.token) && not (is_node node.network_id node.name r)

-- `NodeRegister`.
unfoldable pub node_register : NodeRecord → ℕ → Action Tables StoreError (Unit {0})
unfolding ensure_network has_token registered upsert is_node has_row
node_register node now t =
    let u = ensure_network node.network_id now t in
    if has_row (has_token node) u.nodes
    then (err (database (codes "UNIQUE constraint failed: nodes.token")), u)
    else (
      ok tt,
      record u {
        nodes = upsert (is_node node.network_id node.name) (registered node) node u.nodes;
      },
    )

-- `NodeList`.
unfoldable pub node_list : Text → Action Tables StoreError (List NodeRecord)
unfolding rows_where order_by text_before
node_list n t = (
  ok (order_by (λ a b. text_before a.name b.name) (rows_where (λ r. r.network_id =ᵗ n) t.nodes)),
  t,
)

unfoldable pub node_before : NodeRecord → NodeRecord → Bool
unfolding text_before
node_before a b =
    if a.network_id =ᵗ b.network_id
    then text_before a.name b.name
    else text_before a.network_id b.network_id

-- `NodeListAll`.
unfoldable pub node_list_all : Action Tables StoreError (List NodeRecord)
unfolding order_by node_before
node_list_all t = (ok (order_by node_before t.nodes), t)

-- `NodeGet`.
unfoldable pub node_get : Text → Text → Action Tables StoreError (Option NodeRecord)
unfolding first_row is_node
node_get n name t = (ok (first_row (is_node n name) t.nodes), t)

-- `NodeDelete`.
unfoldable pub node_delete : Text → Text → Action Tables StoreError (Unit {0})
unfolding delete_rows is_node
node_delete n name t = (ok tt, record t { nodes = delete_rows (is_node n name) t.nodes })

-- `NodeUpdateLastSeen`.
unfoldable pub node_update_last_seen : Text → Text → ℕ → Action Tables StoreError (Unit {0})
unfolding update_rows is_node
node_update_last_seen n name now t = (
  ok tt,
  record t { nodes = update_rows (is_node n name) (λ r. record r { last_seen_at = now }) t.nodes },
)
