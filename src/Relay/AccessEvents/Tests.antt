-- ===== src/Relay/AccessEvents/Tests.antt =====
-- internal/relay/access_events.go: two revocations, and who is told of them.
use codewire.Base.{◌≡◌, refl, some, List, [], ◌∷◌, arith}
use codewire.Base.Text.{codes, ◌=ᵗ◌, trim_space}
use codewire.Relay.AccessEvents.{
  replay, publishes, subscribes, cancels, receives, Step, grant_revoked,
}
use codewire.Relay.AccessEvents.Log.{published}
use codewire.Relay.AccessEvents.Complete.{Told, subscribe-run}

abbrev steps : List Step
steps =
    subscribes (codes "net") 0
    ∷ publishes (codes "net") (codes "g1") 10
    ∷ publishes (codes "other") (codes "g2") 11
    ∷ receives 1
    ∷ publishes (codes "net") (codes "g3") 12
    ∷ cancels 1
    ∷ []

subscribe-run_example : Told steps (codes "net") 1
subscribe-run_example = subscribe-run steps (codes "net") 1 (omega arith)

replay_test :
    replay (codes "net") 1 (published steps 1)
    ≡ record {
      seq = 3;
      type = codes "access.grant.revoked";
      network_id = codes "net";
      grant_id = codes "g3";
      revoked_at = some 12;
    }
      ∷ []
unfolding replay published grant_revoked ◌=ᵗ◌ trim_space
replay_test = refl
