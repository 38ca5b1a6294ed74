-- ===== src/Session/KvStore/Timers.antt =====
-- internal/session/kvstore.go: the timers of the store.
use codewire.Base.{
  ℕ, ◌+◌, ◌<◌, ◌≤◌, true, false, ◌&&◌, ◌≡◌, ◌≢◌, ◌↔◌, refl, sym, ◌∙◌, Option, none, some, List, [],
  ◌∷◌, arith, if◌then◌else◌, ltb, ◌==◌, Bool-cases, inl, inr,
}
use codewire.Base.Text.{Text, =ᵗ_iff, =ᵗ-refl}
use codewire.Base.Map.{Map, text_key, nat_key, lookup, lookup-insert, lookup-remove}
use codewire.Session.KvStore.{
  KvEntry, KvStore, Timer, stop, stop_timer, set, entry, entry_of, delete_from, delete, fire_timer,
  new_kv_store, call_back, Step, set_step, delete_step, tick, fire, callback, exec,
}
use codewire.Session.KvStore.Lookup.{
  is_at, lookup-or_empty, entry-set, entry-delete, entry-fire_timer,
}

-- Every pending timer is that of an entry which is in the store, and goes off when that expires.
unfoldable pub IsTimed : KvStore → Type 0
IsTimed kv =
    (h : ℕ) (t : Timer)
    → lookup h kv.armed ≡ some t
    → (h < kv.next_timer)
      × ((x : Text) × (entry kv t.namespace t.key
            ≡ some (record { value = x; expires_at = some t.deadline; timer = some h })))

lookup-stop_timer :
    (o : Option ℕ) (armed : Map ℕ Timer) (h : ℕ) (t : Timer)
    → lookup h (stop_timer o armed) ≡ some t
    → (lookup h armed ≡ some t) × (o ≢ some h)
unfolding stop_timer
lookup-stop_timer none armed h t p = (p, λ q. cc)
lookup-stop_timer (some k) armed h t p =
    (ground (arith, lookup-remove k h armed), λ q. ground (arith, lookup-remove k h armed))

lookup-stop :
    (o : Option KvEntry) (armed : Map ℕ Timer) (h : ℕ) (t : Timer)
    → lookup h (stop o armed) ≡ some t
    → (lookup h armed ≡ some t) × ((e : KvEntry) → o ≡ some e → e.timer ≢ some h)
unfolding stop
lookup-stop none armed h t p = (p, λ e q. absurd cc)
lookup-stop (some e) armed h t p =
    let (q, r) = lookup-stop_timer e.timer armed h t p in (q, λ d s u. r (cc))

is_at_iff : (n k m j : Text) → (is_at n k m j ≡ true) ↔ ((n ≡ m) × (k ≡ j))
is_at_iff n k m j = ground (arith, =ᵗ_iff n m, =ᵗ_iff k j)

-- A timer that is still pending when the one of a key is stopped is that of another key.
stopped_elsewhere :
    (kv : KvStore) (n k : Text) (h : ℕ) (t : Timer)
    → IsTimed kv
    → lookup h (stop (entry kv n k) kv.armed) ≡ some t
    → (lookup h kv.armed ≡ some t) × (is_at n k t.namespace t.key ≡ false)
unfolding IsTimed
stopped_elsewhere kv n k h t v p =
    let (q, r) = lookup-stop (entry kv n k) kv.armed h t p in
    let (l, (x, e)) = v h t q in
    (
      q,
      elim (Bool-cases (is_at n k t.namespace t.key)) [
        | inl a ↦ absurd (
            let (na, ka) = (is_at_iff n k t.namespace t.key).0 a in
            r (record { value = x; expires_at = some t.deadline; timer = some h }) (rw (na, ka) e)
              refl)
        | inr a ↦ a
      ],
    )

pub armed-set :
    (kv : KvStore) (n k v : Text) (ttl h : ℕ)
    → lookup h (set kv n k v ttl).armed ≡ (
        if ltb 0 ttl && (kv.next_timer == h)
        then some (record { deadline = kv.now + ttl; namespace = n; key = k })
        else lookup h (stop (entry kv n k) kv.armed))
unfolding set entry
armed-set kv n k v ttl h =
    let o = lookup-or_empty k (lookup n kv.spaces) in
    let t : Timer = record { deadline = kv.now + ttl; namespace = n; key = k } in
    elim (Bool-cases (ltb 0 ttl)) [
      | inl p ↦ rw (p, o, lookup-insert kv.next_timer h t (stop (entry kv n k) kv.armed))
      | inr p ↦ rw (p, o)
    ]

next_timer-set :
    (kv : KvStore) (n k v : Text) (ttl : ℕ) → kv.next_timer ≤ (set kv n k v ttl).next_timer
unfolding set
next_timer-set kv n k v ttl = elim (Bool-cases (ltb 0 ttl)) [
  | inl p ↦ rw (p) (omega arith)
  | inr p ↦ rw (p) (omega arith)
]

next_timer-set_armed :
    (kv : KvStore) (n k v : Text) (ttl : ℕ)
    → ltb 0 ttl ≡ true
    → (set kv n k v ttl).next_timer ≡ kv.next_timer + 1
unfolding set
next_timer-set_armed kv n k v ttl p = rw (p)

entry-set_armed :
    (kv : KvStore) (n k v : Text) (ttl : ℕ)
    → ltb 0 ttl ≡ true
    → entry (set kv n k v ttl) n k
      ≡ some (record { value = v; expires_at = some (kv.now + ttl); timer = some kv.next_timer })
entry-set_armed kv n k v ttl p = rw (entry-set kv n k v ttl n k, =ᵗ-refl n, =ᵗ-refl k, p)

new_timer :
    (kv : KvStore) (n k v : Text) (ttl h : ℕ) (t : Timer)
    → (ltb 0 ttl && (kv.next_timer == h)) ≡ true
    → lookup h (set kv n k v ttl).armed ≡ some t
    → (ltb 0 ttl ≡ true)
      × (kv.next_timer ≡ h)
      × (kv.now + ttl ≡ t.deadline)
      × (n ≡ t.namespace)
      × (k ≡ t.key)
new_timer kv n k v ttl h t q p =
    let s = armed-set kv n k v ttl h in
    (ground arith, ground arith, ground arith, ground arith, ground arith)

set-IsTimed : (kv : KvStore) (n k v : Text) (ttl : ℕ) → IsTimed kv → IsTimed (set kv n k v ttl)
unfolding IsTimed
set-IsTimed kv n k v ttl w h t p = elim (Bool-cases (ltb 0 ttl && (kv.next_timer == h))) [
  | inl q ↦
      let (a, b, c, d, e) = new_timer kv n k v ttl h t q p in
      (
        omega (arith, next_timer-set_armed kv n k v ttl a),
        (v, rw (sym b, sym c, sym d, sym e) (entry-set_armed kv n k v ttl a)),
      )
  | inr q ↦
      let (l, f) = stopped_elsewhere kv n k h t w (ground (arith, armed-set kv n k v ttl h)) in
      let (b, (x, e)) = w h t l in
      (
        omega (arith, next_timer-set kv n k v ttl),
        (x, entry-set kv n k v ttl t.namespace t.key ∙ rw (f) e),
      )
]

armed-delete :
    (kv : KvStore) (n k : Text)
    → ((delete kv n k).armed ≡ stop (entry kv n k) kv.armed)
      × ((delete kv n k).next_timer ≡ kv.next_timer)
unfolding delete entry
armed-delete kv n k = armed-delete_from (lookup n kv.spaces)
  where
    armed-delete_from :
        (o : Option (Map Text KvEntry))
        → ((delete_from kv n k o).armed ≡ stop (entry_of k o) kv.armed)
          × ((delete_from kv n k o).next_timer ≡ kv.next_timer)
    armed-delete_from none = (refl, refl)
    armed-delete_from (some ns) = (refl, refl)

delete-IsTimed : (kv : KvStore) (n k : Text) → IsTimed kv → IsTimed (delete kv n k)
unfolding IsTimed
delete-IsTimed kv n k w h t p =
    let (a, b) = armed-delete kv n k in
    let (l, f) = stopped_elsewhere kv n k h t w (rw (sym a) p) in
    let (c, (x, e)) = w h t l in
    (omega (arith, b), (x, entry-delete kv n k t.namespace t.key ∙ rw (f) e))

fire_timer-IsTimed :
    (kv : KvStore) (handle : ℕ) (o : Option Timer) → IsTimed kv → IsTimed (fire_timer kv handle o)
unfolding IsTimed fire_timer
fire_timer-IsTimed kv handle none w h t p = w h t p
fire_timer-IsTimed kv handle (some u) w h t p =
    let (c, (x, e)) = w h t (ground (arith, lookup-remove handle h kv.armed)) in
    (ground arith, (x, entry-fire_timer kv handle (some u) t.namespace t.key ∙ e))

call_back-IsTimed : (kv : KvStore) (q : List (Text × Text)) → IsTimed kv → IsTimed (call_back kv q)
unfolding call_back
call_back-IsTimed kv [] w = w
call_back-IsTimed kv ((n, k) ∷ rest) w =
    delete-IsTimed (record kv { waiting = rest }) n k (still_timed w)
  where
    still_timed : IsTimed kv → IsTimed (record kv { waiting = rest })
    still_timed v = unfold IsTimed entry in v

exec-IsTimed : (kv : KvStore) (s : Step) → IsTimed kv → IsTimed (exec kv s)
unfolding exec
exec-IsTimed kv (set_step n k v ttl) w = set-IsTimed kv n k v ttl w
exec-IsTimed kv (delete_step n k) w = delete-IsTimed kv n k w
exec-IsTimed kv (tick d) w = unfold IsTimed entry in w
exec-IsTimed kv (fire handle) w = fire_timer-IsTimed kv handle (lookup handle kv.armed) w
exec-IsTimed kv callback w = call_back-IsTimed kv kv.waiting w

abbrev pub run : KvStore → List Step → KvStore
run kv [] = kv
run kv (s ∷ steps) = run (exec kv s) steps

run-IsTimed_from : (kv : KvStore) (steps : List Step) → IsTimed kv → IsTimed (run kv steps)
run-IsTimed_from kv [] w = w
run-IsTimed_from kv (s ∷ steps) w = run-IsTimed_from (exec kv s) steps (exec-IsTimed kv s w)

new_kv_store-IsTimed : (now : ℕ) → IsTimed (new_kv_store now)
unfolding IsTimed lookup
new_kv_store-IsTimed now h t p = absurd cc

-- Whatever happened to a new store, every timer that is still pending is the one of an entry
-- that is in the store, under the timer's key, and it goes off when that entry expires: a value
-- that was overwritten or deleted has no timer left.
pub run-IsTimed : (now : ℕ) (steps : List Step) → IsTimed (run (new_kv_store now) steps)
run-IsTimed now steps = run-IsTimed_from (new_kv_store now) steps (new_kv_store-IsTimed now)
