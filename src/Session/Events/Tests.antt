-- ===== src/Session/Events/Tests.antt =====
-- internal/session/events.go: subscriptions with and without filters.
use codewire.Base.{ℕ, true, false, ◌≡◌, refl, none, some, [], ◌∷◌, arith, take}
use codewire.Base.Text.{Text, codes, ◌=ᵗ◌}
use codewire.Base.Map.{nat_key, lookup, insert, remove}
use codewire.Session.Events.{
  Subscription, SubscriptionManager, new_subscription_manager, channel_size, subscribe, unsubscribe,
  matches,
}
use codewire.Session.Events.Queue.{Publication, run, wanted, run_fills}

abbrev input : Text
input = codes "session.input"

abbrev report : Text
report = codes "task.report"

abbrev ci : Text
ci = codes "ci"

abbrev publication : ℕ → Text → Publication
publication id type = record {
  session_id = id;
  tags = ci ∷ [];
  event = record { type = type; payload = [] };
}

abbrev listener : Subscription
listener = record { session_id = none; tags = ci ∷ []; event_types = report ∷ []; channel = [] }

abbrev start : SubscriptionManager
start = (subscribe new_subscription_manager none (ci ∷ []) (report ∷ [])).1

start_test : (lookup 0 start.subs ≡ some listener) × (lookup 0 (unsubscribe start 0).subs ≡ none)
unfolding subscribe unsubscribe lookup insert remove
start_test = (refl, refl)

matches_test :
    (matches listener 3 (ci ∷ []) report ≡ true)
    × (matches listener 3 (ci ∷ []) input ≡ false)
    × (matches listener 3 [] report ≡ false)
unfolding matches ◌=ᵗ◌
matches_test = (refl, refl, refl)

run_fills_example :
    lookup 0 (run start (publication 1 report ∷ publication 2 input ∷ [])).subs
    ≡ some (record listener {
      channel =
          take channel_size (wanted listener (publication 1 report ∷ publication 2 input ∷ []));
    })
run_fills_example =
    run_fills start 0 listener (publication 1 report ∷ publication 2 input ∷ []) start_test.0
      (omega arith)
