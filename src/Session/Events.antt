-- ===== src/Session/Events.antt =====
-- internal/session/events.go: `SubscriptionManager`. A channel is the queue of what it holds; its
-- reader takes from the front.
pub mod Matches
pub mod Queue
mod Tests
use codewire.Base.{
  ℕ, ◌+◌, ◌%◌, ◌^◌, Bool, true, false, ◌&&◌, ◌||◌, not, ◌≡◌, refl, Option, none, some, List, [],
  ◌∷◌, ◌++◌, ltb, ◌==◌, if◌then◌else◌, length,
}
use codewire.Base.Text.{Text, ◌=ᵗ◌}
use codewire.Base.Map.{Map, nat_key, lookup, insert, remove}

-- An event with its type, the time and the data aside.
pub record TypedEvent : Type 0 where
  pub type : Text
  pub payload : Text

pub record SessionEvent : Type 0 where
  pub session_id : ℕ
  pub event : TypedEvent

pub record Subscription : Type 0 where
  pub session_id : Option ℕ
  pub tags : List Text
  pub event_types : List Text
  pub channel : List SessionEvent

pub record SubscriptionManager : Type 0 where
  pub subs : Map ℕ Subscription
  pub next_id : ℕ

abbrev pub new_subscription_manager : SubscriptionManager
new_subscription_manager = record { subs = []; next_id = 0 }

abbrev pub channel_size : ℕ
channel_size = 256

-- `Subscribe`: the identifier of the subscription, with what is left.
pub subscribe : SubscriptionManager → Option ℕ → List Text → List Text → ℕ × SubscriptionManager
subscribe m session_id tags event_types = (
  m.next_id,
  record {
    subs =
        insert m.next_id
          (record { session_id = session_id; tags = tags; event_types = event_types; channel = [] })
          m.subs;
    next_id = (m.next_id + 1) % 2 ^ 64;
  },
)

-- `Unsubscribe`; the channel is closed, and nothing is sent to it any more.
pub unsubscribe : SubscriptionManager → ℕ → SubscriptionManager
unsubscribe m id = record m { subs = remove id m.subs }

-- A loop that looks for a text in a list.
pub has_text : Text → List Text → Bool
has_text t [] = false
has_text t (u ∷ rest) = (t =ᵗ u) || has_text t rest

pub has_common : List Text → List Text → Bool
unfolding has_text
has_common [] tags = false
has_common (t ∷ rest) tags = has_text t tags || has_common rest tags

is_empty : List Text → Bool
is_empty [] = true
is_empty (t ∷ rest) = false

is_other : Option ℕ → ℕ → Bool
is_other none id = false
is_other (some j) id = not (j == id)

-- `matches`.
pub matches : Subscription → ℕ → List Text → Text → Bool
unfolding has_common has_text is_empty is_other
matches s session_id tags event_type =
    if is_other s.session_id session_id
    then false
    else if not (is_empty s.tags) && not (has_common s.tags tags)
    then false
    else if not (is_empty s.event_types) && not (has_text event_type s.event_types)
    then false
    else true

-- The send that does not block.
pub send : SessionEvent → List SessionEvent → List SessionEvent
send e channel = if ltb (length channel) channel_size then channel ++ e ∷ [] else channel

pub offer_event : Subscription → ℕ → List Text → TypedEvent → Subscription
unfolding matches send
offer_event s session_id tags event =
    if matches s session_id tags event.type
    then record s { channel = send (record { session_id = session_id; event = event }) s.channel }
    else s

pub offer_all : ℕ → List Text → TypedEvent → Map ℕ Subscription → Map ℕ Subscription
unfolding offer_event
offer_all session_id tags event [] = []
offer_all session_id tags event ((id, s) ∷ rest) =
    (id, offer_event s session_id tags event) ∷ offer_all session_id tags event rest

-- `Publish`.
pub publish_event : SubscriptionManager → ℕ → List Text → TypedEvent → SubscriptionManager
unfolding offer_all
publish_event m session_id tags event = record m { subs = offer_all session_id tags event m.subs }
