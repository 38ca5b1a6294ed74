-- ===== src/Relay/AccessEvents/Log.antt =====
-- internal/relay/access_events.go: what the hub keeps of what was published.
use codewire.Base.{
  ℕ, suc, ◌-◌, ◌<◌, ◌≤◌, ◌≡◌, refl, sym, ◌∙◌, ap, subst, Option, none, some, List, [], ◌∷◌, ◌++◌,
  arith, ltb, if_cases, Bool-cases, inl, inr, length, take, append_assoc, append-nil, length-append,
  take-append-drop, length-drop,
}
use codewire.Base.Map.{nat_key, lookup}
use codewire.Relay.AccessEvents.{
  access_event_buffer_size, AccessCacheEvent, AccessEventSubscription, AccessEventHub,
  grant_revoked, last_events, publish, publish_grant_revoked, subscribe, cancel, taken, receive,
  Step, publishes, subscribes, cancels, receives, step, run,
}

-- The events with their numbers, the first of which is given.
unfoldable pub published : List Step → ℕ → List AccessCacheEvent
published [] k = []
published (publishes n g t ∷ steps) k =
    (record (grant_revoked n g t) { seq = k }) ∷ published steps (suc k)
published (subscribes n l ∷ steps) k = published steps k
published (cancels i ∷ steps) k = published steps k
published (receives i ∷ steps) k = published steps k

abbrev pub IsNumbered : ℕ → List AccessCacheEvent → Type 0
IsNumbered k [] = Unit
IsNumbered k (e ∷ es) = (e.seq ≡ k) × IsNumbered (suc k) es

-- The hub keeps the last of the events, and the last one at least.
pub record IsLog (all : List AccessCacheEvent) (h : AccessEventHub) : Type 0 where
  pub forgotten : List AccessCacheEvent
  pub whole : forgotten ++ h.events ≡ all
  pub count : h.next_seq ≡ length all
  pub some_kept : (length h.events ≡ 0) → length forgotten ≡ 0
  pub bounded : length h.events ≤ 256
  pub full : 0 < length forgotten → length h.events ≡ 256

pub IsNumbered-published : (steps : List Step) (k : ℕ) → IsNumbered k (published steps k)
unfolding published
IsNumbered-published [] k = tt
IsNumbered-published (publishes n g t ∷ steps) k = (refl, IsNumbered-published steps (suc k))
IsNumbered-published (subscribes n l ∷ steps) k = IsNumbered-published steps k
IsNumbered-published (cancels i ∷ steps) k = IsNumbered-published steps k
IsNumbered-published (receives i ∷ steps) k = IsNumbered-published steps k

last_events-split :
    (es : List AccessCacheEvent)
    → 0 < length es
    → (old : List AccessCacheEvent) × (old ++ last_events es ≡ es)
      × (0 < length (last_events es))
      × (length (last_events es) ≤ 256)
      × (0 < length old → length (last_events es) ≡ 256)
      × (256 < length es → length (last_events es) ≡ 256)
unfolding last_events
last_events-split es h =
    if_cases
      (λ l.
        (old : List AccessCacheEvent) × (old ++ l ≡ es)
        × (0 < length l)
        × (length l ≤ 256)
        × (0 < length old → length l ≡ 256)
        × (256 < length es → length l ≡ 256))
      (ltb access_event_buffer_size (length es))
      (λ c.
        let n = length es - access_event_buffer_size in
        (
          take n es,
          take-append-drop n es,
          ground (arith, length-drop n es),
          ground (arith, length-drop n es),
          λ m. ground (arith, length-drop n es),
          λ m. ground (arith, length-drop n es),
        ))
      (λ c. ([], refl, h, ground arith, λ m. absurd (omega arith), λ m. ground arith))

publish-IsLog :
    (ev : AccessCacheEvent) (all : List AccessCacheEvent) (h : AccessEventHub)
    → IsLog all h
    → IsLog (all ++ (record ev { seq = suc h.next_seq }) ∷ []) (publish ev h)
unfolding publish
publish-IsLog ev all h l =
    let numbered : AccessCacheEvent = record ev { seq = suc h.next_seq } in
    let (old, split, kept, few, cut, many) =
      last_events-split (h.events ++ numbered ∷ [])
        (omega (arith, length-append h.events (numbered ∷ []))) in
    let full_again : 0 < length (l.forgotten ++ old)
        → length (last_events (h.events ++ numbered ∷ [])) ≡ 256 =
      λ m. elim (Bool-cases (ltb 0 (length l.forgotten))) [
        | inl p ↦ many (
            let q : 0 < length l.forgotten = ground arith in
            omega (arith, l.full q, length-append h.events (numbered ∷ [])))
        | inr p ↦ cut (ground (arith, length-append l.forgotten old))
      ] in
    record {
      forgotten = l.forgotten ++ old;
      whole =
          append_assoc l.forgotten old _
          ∙ ap (λ es. l.forgotten ++ es) split
          ∙ sym (append_assoc l.forgotten h.events (numbered ∷ []))
          ∙ ap (λ es. es ++ numbered ∷ []) l.whole;
      count = omega (arith, l.count, length-append all (numbered ∷ []));
      some_kept = λ e. absurd (omega arith);
      bounded = few;
      full = λ m. full_again m;
    }

-- The other steps keep the events and their count.
same-IsLog :
    (all : List AccessCacheEvent) (h q : AccessEventHub)
    → q.events ≡ h.events
    → q.next_seq ≡ h.next_seq
    → IsLog all h
    → IsLog all q
same-IsLog all h q e n l = record {
  forgotten = l.forgotten;
  whole = ap (λ es. l.forgotten ++ es) e ∙ l.whole;
  count = n ∙ l.count;
  some_kept = λ k. l.some_kept (subst (λ es. length es ≡ 0) e k);
  bounded = subst (λ es. length es ≤ 256) (sym e) l.bounded;
  full = λ m. ap length e ∙ l.full m;
}

taken_events :
    (id : ℕ) (o : Option AccessEventSubscription) (h : AccessEventHub)
    → ((taken id o h).events ≡ h.events) × ((taken id o h).next_seq ≡ h.next_seq)
unfolding taken
taken_events id none h = (refl, refl)
taken_events id (some sub) h = (refl, refl)

receive_events :
    (id : ℕ) (h : AccessEventHub)
    → ((receive id h).events ≡ h.events) × ((receive id h).next_seq ≡ h.next_seq)
unfolding receive
receive_events id h = taken_events id (lookup id h.subscribers) h

pub run-IsLog :
    (steps : List Step) (all : List AccessCacheEvent) (h : AccessEventHub)
    → IsLog all h
    → IsLog (all ++ published steps (suc h.next_seq)) (run steps h)
unfolding run step published publish_grant_revoked
run-IsLog [] all h l = subst (λ es. IsLog es h) (sym (append-nil all)) l
run-IsLog (publishes n g t ∷ steps) all h l =
    subst (λ es. IsLog es (run steps (publish (grant_revoked n g t) h)))
      (append_assoc all _ (published steps (suc (suc h.next_seq))))
      (unfold publish in
        run-IsLog steps _ (publish (grant_revoked n g t) h)
          (publish-IsLog (grant_revoked n g t) all h l))
run-IsLog (subscribes n last ∷ steps) all h l =
    unfold subscribe in run-IsLog steps all _ (same-IsLog all h (subscribe n last h).1 refl refl l)
run-IsLog (cancels id ∷ steps) all h l =
    unfold cancel in run-IsLog steps all _ (same-IsLog all h (cancel id h) refl refl l)
run-IsLog (receives id ∷ steps) all h l =
    let q = receive id h in
    let (kept, counted) = receive_events id h in
    subst (λ n. IsLog (all ++ published steps (suc n)) (run steps q)) counted
      (run-IsLog steps all q (same-IsLog all h q kept counted l))
