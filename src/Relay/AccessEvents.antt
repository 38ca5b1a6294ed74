-- ===== src/Relay/AccessEvents.antt =====
-- internal/relay/access_events.go: the hub of the events that tell clients of revoked grants. A
-- subscription holds its channel; the sends of `publish`, which come behind the lock, are taken
-- together with it, and a reader takes events from its channel at any time.
pub mod Log
pub mod Complete
mod Tests
use codewire.Base.{
  ℕ, suc, ◌+◌, ◌-◌, Bool, true, false, ◌&&◌, not, Option, none, some, List, [], ◌∷◌, ◌++◌, ltb,
  if◌then◌else◌, length, drop,
}
use codewire.Base.Text.{Text, codes, ◌=ᵗ◌, trim_space}
use codewire.Base.Map.{Map, nat_key, lookup, insert, remove}

abbrev pub access_event_buffer_size : ℕ
access_event_buffer_size = 256

-- The size of a subscription's channel.
abbrev pub access_channel_size : ℕ
access_channel_size = 16

pub record AccessCacheEvent : Type 0 where
  pub seq : ℕ
  pub type : Text
  pub network_id : Text
  pub grant_id : Text
  pub revoked_at : Option ℕ

pub record AccessEventSubscription : Type 0 where
  pub id : ℕ
  pub network_id : Text
  pub channel : List AccessCacheEvent

pub record AccessEventHub : Type 0 where
  pub next_seq : ℕ
  pub next_sub_id : ℕ
  pub events : List AccessCacheEvent
  pub subscribers : Map ℕ AccessEventSubscription

-- `NewAccessEventHub`.
abbrev pub new_access_event_hub : AccessEventHub
new_access_event_hub = record { next_seq = 0; next_sub_id = 0; events = []; subscribers = [] }

unfoldable pub grant_revoked : Text → Text → ℕ → AccessCacheEvent
grant_revoked network_id grant_id revoked_at = record {
  seq = 0;
  type = codes "access.grant.revoked";
  network_id = trim_space network_id;
  grant_id = trim_space grant_id;
  revoked_at = some revoked_at;
}

-- The last events, as many as the buffer holds.
unfoldable pub last_events : List AccessCacheEvent → List AccessCacheEvent
last_events es =
    if ltb access_event_buffer_size (length es)
    then drop (length es - access_event_buffer_size) es
    else es

-- A send that does not block: an event that finds the channel full is lost.
unfoldable pub offer : AccessCacheEvent → AccessEventSubscription → AccessEventSubscription
offer ev sub =
    if (sub.network_id =ᵗ ev.network_id) && ltb (length sub.channel) access_channel_size
    then record sub { channel = sub.channel ++ ev ∷ [] }
    else sub

unfoldable pub offer_all :
    AccessCacheEvent → Map ℕ AccessEventSubscription → Map ℕ AccessEventSubscription
unfolding offer
offer_all ev [] = []
offer_all ev ((id, sub) ∷ subs) = (id, offer ev sub) ∷ offer_all ev subs

-- `publish`.
unfoldable pub publish : AccessCacheEvent → AccessEventHub → AccessEventHub
unfolding last_events offer_all
publish ev h =
    let numbered : AccessCacheEvent = record ev { seq = suc h.next_seq } in
    record h {
      next_seq = suc h.next_seq;
      events = last_events (h.events ++ numbered ∷ []);
      subscribers = offer_all numbered h.subscribers;
    }

-- `PublishGrantRevoked`.
unfoldable pub publish_grant_revoked : Text → Text → ℕ → AccessEventHub → AccessEventHub
unfolding publish grant_revoked
publish_grant_revoked network_id grant_id revoked_at h =
    publish (grant_revoked network_id grant_id revoked_at) h

unfoldable pub is_reset : ℕ → List AccessCacheEvent → Bool
is_reset last_seq [] = false
is_reset last_seq (e ∷ es) = ltb 0 last_seq && ltb (last_seq + 1) e.seq

-- The events of a network behind a number.
unfoldable pub replay : Text → ℕ → List AccessCacheEvent → List AccessCacheEvent
replay network_id last_seq [] = []
replay network_id last_seq (e ∷ es) =
    let rest = replay network_id last_seq es in
    if (e.network_id =ᵗ network_id) && ltb last_seq e.seq then e ∷ rest else rest

-- What `Subscribe` returns, but the channel, which the hub has under the number.
pub record Subscribed : Type 0 where
  pub replayed : List AccessCacheEvent
  pub sub_id : ℕ
  pub reset : Bool

-- `Subscribe`.
unfoldable pub subscribe : Text → ℕ → AccessEventHub → Subscribed × AccessEventHub
unfolding is_reset replay
subscribe network_id last_seq h =
    let id = suc h.next_sub_id in
    (
      record {
        replayed = replay network_id last_seq h.events;
        sub_id = id;
        reset = is_reset last_seq h.events;
      },
      record h {
        next_sub_id = id;
        subscribers =
            insert id (record { id = id; network_id = network_id; channel = [] }) h.subscribers;
      },
    )

-- The `cancel` of a subscription; its channel is closed with it.
unfoldable pub cancel : ℕ → AccessEventHub → AccessEventHub
cancel id h = record h { subscribers = remove id h.subscribers }

-- A reader takes the next event from its channel.
unfoldable pub taken : ℕ → Option AccessEventSubscription → AccessEventHub → AccessEventHub
taken id none h = h
taken id (some sub) h = record h {
  subscribers = insert id (record sub { channel = drop 1 sub.channel }) h.subscribers;
}

unfoldable pub receive : ℕ → AccessEventHub → AccessEventHub
unfolding taken
receive id h = taken id (lookup id h.subscribers) h

pub data Step : Type 0 where
  publishes : Text → Text → ℕ → Step
  subscribes : Text → ℕ → Step
  cancels receives : ℕ → Step

unfoldable pub step : Step → AccessEventHub → AccessEventHub
unfolding publish_grant_revoked subscribe cancel receive
step (publishes n g t) h = publish_grant_revoked n g t h
step (subscribes n last) h = (subscribe n last h).1
step (cancels id) h = cancel id h
step (receives id) h = receive id h

unfoldable pub run : List Step → AccessEventHub → AccessEventHub
unfolding step
run [] h = h
run (s ∷ steps) h = run steps (step s h)
