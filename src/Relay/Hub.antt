-- ===== src/Relay/Hub.antt =====
-- internal/relay/hub.go: the nodes that are connected, with the two calls that the handler of
-- internal/relay/node_handler.go makes for a connection. A channel is known by the number of its
-- connection; a reader takes messages from it.
pub mod Connections
mod Tests
use codewire.Base.{
  ℕ, ◌+◌, Bool, true, false, Option, none, some, List, [], ◌∷◌, ◌++◌, ltb, if◌then◌else◌, length,
  drop,
}
use codewire.Base.Text.{Text, codes}
use codewire.Base.Map.{Map, nat_key, text_key, lookup, insert, remove}
use codewire.Base.Result.{Result, ok, err}

unfoldable pub hub_key : Text → Text → Text
hub_key network_id name = network_id ++ codes ":" ++ name

pub record HubMessage : Type 0 where
  pub type : Text
  pub session_id : Text
  pub cols : ℕ
  pub rows : ℕ

-- The size of the channel that the handler makes for a connection.
abbrev pub node_channel_size : ℕ
node_channel_size = 16

pub record NodeHub : Type 0 where
  pub nodes : Map Text ℕ
  pub channels : Map ℕ (List HubMessage)

-- `NewNodeHub`.
abbrev pub new_node_hub : NodeHub
new_node_hub = record { nodes = []; channels = [] }

-- `Register`, of a new channel.
unfoldable pub register : Text → Text → ℕ → NodeHub → NodeHub
unfolding hub_key
register network_id name connection h = record {
  nodes = insert (hub_key network_id name) connection h.nodes;
  channels = insert connection [] h.channels;
}

-- `Unregister`.
unfoldable pub unregister : Text → Text → NodeHub → NodeHub
unfolding hub_key
unregister network_id name h = record h { nodes = remove (hub_key network_id name) h.nodes }

unfoldable pub is_registered : Option ℕ → Bool
is_registered none = false
is_registered (some connection) = true

-- `Has`.
unfoldable pub has : Text → Text → NodeHub → Bool
unfolding is_registered hub_key
has network_id name h = is_registered (lookup (hub_key network_id name) h.nodes)

pub data HubError : Type 0 where
  not_connected buffer_full : Text → Text → HubError

unfoldable pub or_none : Option (List HubMessage) → List HubMessage
or_none none = []
or_none (some ms) = ms

-- A send that does not block.
unfoldable pub send_to :
    Text → Text → HubMessage → Option ℕ → NodeHub → Result HubError (Unit {0}) × NodeHub
unfolding or_none
send_to network_id name msg none h = (err (not_connected network_id name), h)
send_to network_id name msg (some connection) h =
    let queued = or_none (lookup connection h.channels) in
    if ltb (length queued) node_channel_size
    then (ok tt, record h { channels = insert connection (queued ++ msg ∷ []) h.channels })
    else (err (buffer_full network_id name), h)

-- `Send`.
unfoldable pub send : Text → Text → HubMessage → NodeHub → Result HubError (Unit {0}) × NodeHub
unfolding send_to hub_key
send network_id name msg h =
    send_to network_id name msg (lookup (hub_key network_id name) h.nodes) h
