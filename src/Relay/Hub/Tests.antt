-- ===== src/Relay/Hub/Tests.antt =====
-- internal/relay/hub.go: a node that connects again before its first connection ends.
use codewire.Base.{◌≡◌, refl, false, some, [], ◌∷◌}
use codewire.Base.Text.{codes, ◌=ᵗ◌}
use codewire.Base.Map.{nat_key, text_key, lookup, insert}
use codewire.Base.Result.{ok, err}
use codewire.Relay.Hub.{
  HubMessage, NodeHub, new_node_hub, register, unregister, has, hub_key, is_registered,
  not_connected, send,
}
use codewire.Relay.Hub.Connections.{send-unregister}

abbrev resize : HubMessage
resize = record { type = codes "resize"; session_id = codes "s1"; cols = 80; rows = 24 }

abbrev reconnected : NodeHub
reconnected =
    register (codes "net") (codes "laptop") 2
      (register (codes "net") (codes "laptop") 1 new_node_hub)

send-unregister_example :
    ((send (codes "net") (codes "laptop") resize reconnected).0 ≡ ok tt)
    × (lookup 2 (send (codes "net") (codes "laptop") resize reconnected).1.channels
        ≡ some (resize ∷ []))
    × (has (codes "net") (codes "laptop") (unregister (codes "net") (codes "laptop") reconnected)
        ≡ false)
    × (send
          (codes "net")
          (codes "laptop")
          resize
          (unregister (codes "net") (codes "laptop") reconnected)
        ≡ (
          err (not_connected (codes "net") (codes "laptop")),
          unregister (codes "net") (codes "laptop") reconnected,
        ))
send-unregister_example = send-unregister (codes "net") (codes "laptop") 1 2 resize new_node_hub

other_test :
    has (codes "net") (codes "desktop") (register (codes "net") (codes "laptop") 1 new_node_hub)
    ≡ false
unfolding has is_registered hub_key register lookup insert ◌=ᵗ◌
other_test = refl
