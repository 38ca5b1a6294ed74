-- ===== src/Session/Events/Queue.antt =====
-- internal/session/events.go: what the channel of a subscription holds.
use codewire.Base.{
  ℕ, zero, suc, ◌≤◌, ◌≡◌, inl, inr, refl, sym, ap, ◌∙◌, some, List, [], ◌∷◌, ◌++◌, arith, ltb,
  ltb→lt, if_cases, if◌then◌else◌, length, take, Bool-cases, append_assoc, length-append, take_left,
}
use codewire.Base.Text.{Text}
use codewire.Base.Map.{Map, nat_key, lookup}
use codewire.Session.Events.{
  TypedEvent, SessionEvent, Subscription, SubscriptionManager, channel_size, matches, send,
  offer_event, offer_all, publish_event,
}

-- One call of `Publish`.
pub record Publication : Type 0 where
  pub session_id : ℕ
  pub tags : List Text
  pub event : TypedEvent

abbrev pub run : SubscriptionManager → List Publication → SubscriptionManager
run m [] = m
run m (p ∷ rest) = run (publish_event m p.session_id p.tags p.event) rest

-- The events among these that a subscription takes.
unfoldable pub wanted : Subscription → List Publication → List SessionEvent
wanted s [] = []
wanted s (p ∷ rest) =
    let more = wanted s rest in
    if matches s p.session_id p.tags p.event.type
    then record { session_id = p.session_id; event = p.event } ∷ more
    else more

lookup-offer_all :
    (id session_id : ℕ) (tags : List Text) (e : TypedEvent) (subs : Map ℕ Subscription)
    (s : Subscription)
    → lookup id subs ≡ some s
    → lookup id (offer_all session_id tags e subs) ≡ some (offer_event s session_id tags e)
unfolding lookup offer_all
lookup-offer_all id session_id tags e [] s h = absurd cc
lookup-offer_all id session_id tags e ((j, u) ∷ rest) s h =
    ground (arith, lookup-offer_all id session_id tags e rest s)

send_lem :
    (e : SessionEvent) (q more : List SessionEvent)
    → length q ≤ channel_size
    → (length (send e q) ≤ channel_size)
      × (take channel_size (send e q ++ more) ≡ take channel_size (q ++ e ∷ more))
unfolding send
send_lem e q more h =
    if_cases
      (λ (x : List SessionEvent).
        (length x ≤ channel_size)
        × (take channel_size (x ++ more) ≡ take channel_size (q ++ e ∷ more)))
      (ltb (length q) channel_size)
      (λ c. (
        omega (arith, length-append q (e ∷ []), ltb→lt (length q) channel_size c),
        ap (take channel_size) (append_assoc q (e ∷ []) more),
      ))
      (λ c.
        let k : length q ≡ channel_size = ground arith in
        (h, full q more channel_size k ∙ sym (full q (e ∷ more) channel_size k)))
  where
    full : (xs ys : List SessionEvent) (n : ℕ) → length xs ≡ n → take n (xs ++ ys) ≡ xs
    full xs ys n k = rw (sym k) (take_left xs ys)

-- What a channel holds does not say what its subscription takes.
wanted-channel :
    (s : Subscription) (q : List SessionEvent) (rest : List Publication)
    → wanted (record s { channel = q }) rest ≡ wanted s rest
unfolding wanted matches
wanted-channel s q [] = refl
wanted-channel s q (p ∷ rest) = rw (wanted-channel s q rest)

-- The channel after a first publication and the rest of them.
abbrev filled : Subscription → List Publication → Subscription
filled s rest = record s { channel = take channel_size (s.channel ++ wanted s rest) }

offer_event_lem :
    (s : Subscription) (p : Publication) (rest : List Publication)
    → length s.channel ≤ channel_size
    → (length (offer_event s p.session_id p.tags p.event).channel ≤ channel_size)
      × (filled (offer_event s p.session_id p.tags p.event) rest ≡ filled s (p ∷ rest))
unfolding offer_event wanted
offer_event_lem s p rest h =
    let e : SessionEvent = record { session_id = p.session_id; event = p.event } in
    let (a, b) = send_lem e s.channel (wanted s rest) h in
    elim (Bool-cases (matches s p.session_id p.tags p.event.type)) [
      | inl c ↦ rw (c) (
        a,
        ap (λ (q : List SessionEvent). record s { channel = q })
            (rw (wanted-channel s (send e s.channel) rest) b),
      )
      | inr c ↦ rw (c) (h, refl)
    ]

short : (n : ℕ) (q : List SessionEvent) → length q ≤ n → q ≡ take n (q ++ [])
short zero [] h = refl
short zero (e ∷ q) h = absurd (omega arith)
short (suc n) [] h = refl
short (suc n) (e ∷ q) h = ap (◌∷◌ e) (short n q (omega arith))

-- However many events are published, the channel, of at most 256 events, of a subscription whose
-- reader takes nothing holds what it held and then the events that the subscription takes, once
-- each and in their order, up to 256 of all; those behind are dropped.
pub run_fills :
    (m : SubscriptionManager) (id : ℕ) (s : Subscription) (ps : List Publication)
    → lookup id m.subs ≡ some s
    → length s.channel ≤ channel_size
    → lookup id (run m ps).subs
      ≡ some (record s { channel = take channel_size (s.channel ++ wanted s ps) })
unfolding publish_event wanted
run_fills m id s [] h k =
    h
    ∙ ap (λ (q : List SessionEvent). some (record s { channel = q }))
        (short channel_size s.channel k)
run_fills m id s (p ∷ rest) h k =
    let (a, b) = offer_event_lem s p rest k in
    run_fills (publish_event m p.session_id p.tags p.event) id
      (offer_event s p.session_id p.tags p.event) rest
      (lookup-offer_all id p.session_id p.tags p.event m.subs s h) a
    ∙ ap some b
