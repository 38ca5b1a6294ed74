-- ===== src/Relay/Hub/Connections.antt =====
-- internal/relay/hub.go under internal/relay/node_handler.go: a node that connects again.
use codewire.Base.{
  ℕ, ◌<◌, ◌≡◌, refl, ◌∙◌, ap, false, none, some, List, [], ◌∷◌, ◌++◌, arith, lt→ltb, length,
}
use codewire.Base.Text.{Text}
use codewire.Base.Map.{
  Map, nat_key, text_key, lookup, insert, remove, lookup-insert, lookup-remove, same_refl,
}
use codewire.Base.Result.{Result, ok, err}
use codewire.Relay.Hub.{
  hub_key, HubMessage, node_channel_size, NodeHub, register, unregister, is_registered, has,
  HubError, not_connected, or_none, send_to, send,
}

lookup_same : {V : Type 0} (k : Text) (v : V) (m : Map Text V) → lookup k (insert k v m) ≡ some v
lookup_same k v m = rw (lookup-insert k k v m, same_refl k) refl

lookup_gone : {V : Type 0} (k : Text) (m : Map Text V) → lookup k (remove k m) ≡ none
lookup_gone k m = rw (lookup-remove k k m, same_refl k) refl

lookup_fresh : {V : Type 0} (k : ℕ) (v : V) (m : Map ℕ V) → lookup k (insert k v m) ≡ some v
lookup_fresh k v m = rw (lookup-insert k k v m, same_refl k) refl

send_found :
    (n name : Text) (msg : HubMessage) (c : ℕ) (ms : List HubMessage) (q : NodeHub)
    → lookup (hub_key n name) q.nodes ≡ some c
    → lookup c q.channels ≡ some ms
    → length ms < node_channel_size
    → send n name msg q ≡ (ok tt, record q { channels = insert c (ms ++ msg ∷ []) q.channels })
unfolding send send_to or_none
send_found n name msg c ms q h k l = rw (h, k, lt→ltb (length ms) node_channel_size l) refl

send_absent :
    (n name : Text) (msg : HubMessage) (q : NodeHub)
    → lookup (hub_key n name) q.nodes ≡ none
    → send n name msg q ≡ (err (not_connected n name), q)
unfolding send send_to
send_absent n name msg q h = rw h refl

send_registered :
    (n name : Text) (c : ℕ) (msg : HubMessage) (h : NodeHub)
    → let q = register n name c h in
      send n name msg q ≡ (ok tt, record q { channels = insert c (msg ∷ []) q.channels })
send_registered n name c msg h =
    send_found n name msg c [] (register n name c h)
      (unfold register in lookup_same (hub_key n name) c h.nodes)
      (unfold register in lookup_fresh c [] h.channels) (omega arith)

-- When a node has connected again, what is sent to it reaches its new connection; but when its
-- old connection then ends, the node is not in the hub, and what is sent to it fails, as if it
-- were not connected.
pub send-unregister :
    (n name : Text) (old new : ℕ) (msg : HubMessage) (h : NodeHub)
    → let reconnected = register n name new (register n name old h) in
      let ended = unregister n name reconnected in
      ((send n name msg reconnected).0 ≡ ok tt)
      × (lookup new (send n name msg reconnected).1.channels ≡ some (msg ∷ []))
      × (has n name ended ≡ false)
      × (send n name msg ended ≡ (err (not_connected n name), ended))
unfolding has is_registered
send-unregister n name old new msg h =
    let q = register n name new (register n name old h) in
    let gone : lookup (hub_key n name) (unregister n name q).nodes ≡ none =
      unfold unregister in lookup_gone (hub_key n name) q.nodes in
    let sent = send_registered n name new msg (register n name old h) in
    (
      ap (λ (x : Result HubError (Unit {0}) × NodeHub). x.0) sent,
      ap (λ (x : Result HubError (Unit {0}) × NodeHub). lookup new x.1.channels) sent
          ∙ lookup_fresh new (msg ∷ []) q.channels,
      ap is_registered gone,
      send_absent n name msg (unregister n name q) gone,
    )
