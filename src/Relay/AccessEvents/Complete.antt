-- ===== src/Relay/AccessEvents/Complete.antt =====
-- internal/relay/access_events.go: what a new subscription is told of what was published before.
use codewire.Base.{
  ℕ, suc, ◌+◌, ◌<◌, ◌≤◌, ◌≡◌, refl, sym, ◌∙◌, ap, subst, true, false, ◌&&◌, ◌↔◌, zero, drop,
  if◌then◌else◌, List, [], ◌∷◌, ◌++◌, arith, ltb, length, length-append,
}
use codewire.Base.Text.{Text, ◌=ᵗ◌}
use codewire.Relay.AccessEvents.{
  AccessCacheEvent, new_access_event_hub, is_reset, replay, subscribe, Step, run,
}
use codewire.Relay.AccessEvents.Log.{published, IsNumbered, IsNumbered-published, IsLog, run-IsLog}

IsNumbered-right :
    (k : ℕ) (xs ys : List AccessCacheEvent)
    → IsNumbered k (xs ++ ys)
    → IsNumbered (k + length xs) ys
IsNumbered-right k [] ys h = subst (λ n. IsNumbered n ys) (omega arith) h
IsNumbered-right k (x ∷ xs) ys h =
    subst (λ n. IsNumbered n ys) (omega arith) (IsNumbered-right (suc k) xs ys h.1)

IsNumbered-left :
    (k : ℕ) (xs ys : List AccessCacheEvent) → IsNumbered k (xs ++ ys) → IsNumbered k xs
IsNumbered-left k [] ys h = tt
IsNumbered-left k (x ∷ xs) ys h = (h.0, IsNumbered-left (suc k) xs ys h.1)

replay-append :
    (n : Text) (last : ℕ) (xs ys : List AccessCacheEvent)
    → replay n last (xs ++ ys) ≡ replay n last xs ++ replay n last ys
unfolding replay
replay-append n last [] ys = refl
replay-append n last (x ∷ xs) ys = ground (arith, replay-append n last xs ys)

-- Events whose numbers are all known are not replayed.
replay_none :
    (n : Text) (last k : ℕ) (xs : List AccessCacheEvent)
    → IsNumbered k xs
    → k + length xs ≤ suc last
    → replay n last xs ≡ []
unfolding replay
replay_none n last k [] h l = refl
replay_none n last k (x ∷ xs) h l = ground (arith, replay_none n last (suc k) xs)

-- A reset is said exactly if the first event that is kept is not the next one for the subscriber.
reset_iff :
    (last k : ℕ) (es : List AccessCacheEvent)
    → IsNumbered (suc k) es
    → 0 < last
    → is_reset last es ≡ (ltb 0 (length es) && ltb last k)
unfolding is_reset
reset_iff last k [] h p = ground arith
reset_iff last k (e ∷ es) h p = ground arith

module _ (n : Text) (last : ℕ) (old es all : List AccessCacheEvent) (whole : old ++ es ≡ all)
    (numbered : IsNumbered 1 all) (kept : (length es ≡ 0) → length old ≡ 0) (p : 0 < last) where
  parts : IsNumbered 1 (old ++ es)
  parts = subst (IsNumbered 1) (sym whole) numbered

  behind : IsNumbered (suc (length old)) es
  behind = subst (λ k. IsNumbered k es) (omega arith) (IsNumbered-right 1 old es parts)

  resets : is_reset last es ≡ (ltb 0 (length es) && ltb last (length old))
  resets = reset_iff last (length old) es behind p

  old_known : is_reset last es ≡ false → length old ≤ last
  old_known h = let r = resets in ground arith

  replay_whole : is_reset last es ≡ false → replay n last es ≡ replay n last all
  replay_whole h = sym (
      ap (replay n last) (sym whole)
      ∙ replay-append n last old es
      ∙ ap (λ es'. es' ++ replay n last es)
          (replay_none n last 1 old (IsNumbered-left 1 old es parts)
            (let k = old_known h in omega arith)))

  replay_ahead : length all < last → (replay n last es ≡ []) × (is_reset last es ≡ false)
  replay_ahead h =
      let size : length old + length es ≡ length all =
        omega (arith, length-append old es, ap length whole) in
      (replay_none n last (suc (length old)) es behind (omega arith), resets ∙ ground arith)

-- The events of a network.
abbrev pub of_network : Text → List AccessCacheEvent → List AccessCacheEvent
of_network n [] = []
of_network n (e ∷ es) = if e.network_id =ᵗ n then e ∷ of_network n es else of_network n es

replay_all :
    (n : Text) (last k : ℕ) (es : List AccessCacheEvent)
    → IsNumbered (suc k) es
    → last ≤ k
    → replay n last es ≡ of_network n es
unfolding replay
replay_all n last k [] h l = refl
replay_all n last k (e ∷ es) h l = ground (arith, replay_all n last (suc k) es)

-- Of events that are numbered in a row, those behind a number are all but the first ones.
replay-drop :
    (n : Text) (last k d : ℕ) (es : List AccessCacheEvent)
    → IsNumbered (suc k) es
    → last ≡ k + d
    → replay n last es ≡ of_network n (drop d es)
unfolding replay
replay-drop n last k zero es h l = replay_all n last k es h (omega arith)
replay-drop n last k (suc d) [] h l = refl
replay-drop n last k (suc d) (e ∷ es) h l = ground (arith, replay-drop n last (suc k) d es)

-- What a new subscriber that gives a number is told behind some steps, and what the hub then keeps.
abbrev pub Told : List Step → Text → ℕ → Type 0
Told steps n last =
    let s = (subscribe n last (run steps new_access_event_hub)).0 in
    let all = published steps 1 in
    let kept = (run steps new_access_event_hub).events in
    (forgotten : List AccessCacheEvent) × (forgotten ++ kept ≡ all)
    × (length kept ≤ 256)
    × (0 < length forgotten → length kept ≡ 256)
    × ((s.reset ≡ true) ↔ (last < length forgotten))
    × (s.reset ≡ false → s.replayed ≡ of_network n (drop last all))
    × (length all < last → (s.replayed ≡ []) × (s.reset ≡ false))

-- Whatever was published, subscribed, read and cancelled at a new hub, the hub keeps the last of
-- the published events, at most 256, and 256 where it has forgotten any. A subscriber that gives
-- the number of an event is told of a reset exactly if an event behind that number was
-- forgotten; if it is not told so, it is replayed the events of its network among all that were
-- published behind that number. One that gives a number which the hub has not reached, as after
-- a restart, is replayed nothing, and no reset is said.
pub subscribe-run : (steps : List Step) (n : Text) (last : ℕ) → 0 < last → Told steps n last
unfolding subscribe
subscribe-run steps n last p =
    let start : IsLog [] new_access_event_hub = record {
      forgotten = [];
      whole = refl;
      count = refl;
      some_kept = λ e. refl;
      bounded = omega arith;
      full = λ m. absurd (omega arith);
    } in
    let l = run-IsLog steps [] new_access_event_hub start in
    let numbered = IsNumbered-published steps 1 in
    let r = resets n last l.forgotten _ _ l.whole numbered l.some_kept p in
    (
      l.forgotten,
      l.whole,
      l.bounded,
      l.full,
      (λ h. ground arith, λ h. ground (arith, l.full)),
      λ h.
          replay_whole n last l.forgotten _ _ l.whole numbered l.some_kept p h
          ∙ replay-drop n last 0 last (published steps 1) numbered (omega arith),
      replay_ahead n last l.forgotten _ _ l.whole numbered l.some_kept p,
    )
