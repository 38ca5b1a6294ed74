-- ===== src/Session/KvStore/Expiry.antt =====
-- internal/session/kvstore.go: values with a time to live.
use codewire.Base.{
  ℕ, ◌+◌, ◌<◌, ◌≤◌, Bool, true, false, ◌≡◌, refl, ap, ◌∙◌, Option, none, some, List, [], ◌∷◌, arith,
  if◌then◌else◌, ltb, leb, ==_refl, lt→ltb, le→leb, Bool-cases, inl, inr,
}
use codewire.Base.Text.{Text, =ᵗ-refl}
use codewire.Base.Map.{text_key, nat_key, lookup}
use codewire.Session.KvStore.{
  KvEntry, KvStore, Timer, set, entry, get, value_of, fire_timer, tick, fire, callback, exec,
}
use codewire.Session.KvStore.Lookup.{
  is_next, new_entry, entry-set, entry-fire_timer, entry-call_back,
}
use codewire.Session.KvStore.Timers.{armed-set}

waiting-set :
    (kv : KvStore) (n k v : Text) (ttl : ℕ)
    → ((set kv n k v ttl).waiting ≡ kv.waiting) × ((set kv n k v ttl).now ≡ kv.now)
unfolding set
waiting-set kv n k v ttl = elim (Bool-cases (ltb 0 ttl)) [
  | inl p ↦ rw (p) (refl, refl)
  | inr p ↦ rw (p) (refl, refl)
]

-- The store when a value was set and some time has passed.
abbrev pub set_then : KvStore → Text → Text → Text → ℕ → ℕ → KvStore
set_then kv n k v ttl d = exec (set kv n k v ttl) (tick d)

waiting-set_then :
    (kv : KvStore) (n k v : Text) (ttl d : ℕ)
    → ((set_then kv n k v ttl d).waiting ≡ kv.waiting)
      × ((set_then kv n k v ttl d).now ≡ kv.now + d)
      × ((set_then kv n k v ttl d).armed ≡ (set kv n k v ttl).armed)
      × (entry (set_then kv n k v ttl d) n k ≡ some (new_entry kv v ttl))
unfolding exec entry
waiting-set_then kv n k v ttl d =
    let (a, b) = waiting-set kv n k v ttl in
    (a, ap (λ (x : ℕ). x + d) b, refl, entry-set kv n k v ttl n k ∙ rw (=ᵗ-refl n, =ᵗ-refl k))

armed_then :
    (kv : KvStore) (n k v : Text) (ttl d : ℕ)
    → 0 < ttl
    → lookup kv.next_timer (set_then kv n k v ttl d).armed
      ≡ some (record { deadline = kv.now + ttl; namespace = n; key = k })
armed_then kv n k v ttl d h =
    let (a, b, c, e) = waiting-set_then kv n k v ttl d in
    rw (c, armed-set kv n k v ttl kv.next_timer, lt→ltb 0 ttl h, ==_refl kv.next_timer)

waiting-fire :
    (kv : KvStore) (handle : ℕ) (t : Timer)
    → lookup handle kv.armed ≡ some t
    → (exec kv (fire handle)).waiting
      ≡ (if leb t.deadline kv.now then (t.namespace, t.key) ∷ kv.waiting else kv.waiting)
unfolding exec fire_timer
waiting-fire kv handle t h = rw (h) (ground arith)

entry-fire :
    (kv : KvStore) (handle : ℕ) (m j : Text) → entry (exec kv (fire handle)) m j ≡ entry kv m j
unfolding exec
entry-fire kv handle m j = entry-fire_timer kv handle (lookup handle kv.armed) m j

get-callback :
    (kv : KvStore) (m j : Text)
    → get (exec kv callback) m j ≡ (if is_next kv.waiting m j then none else get kv m j)
unfolding exec get
get-callback kv m j =
    ap value_of (entry-call_back kv kv.waiting m j)
    ∙ value_of-if (is_next kv.waiting m j) (entry kv m j)
  where
    value_of-if :
        (b : Bool) (x : Option KvEntry)
        → value_of (if b then none else x) ≡ (if b then none else value_of x)
    value_of-if true x = refl
    value_of-if false x = refl

get-set_then :
    (kv : KvStore) (n k v : Text) (ttl d : ℕ) → get (set_then kv n k v ttl d) n k ≡ some v
unfolding get value_of
get-set_then kv n k v ttl d =
    let (a, b, c, e) = waiting-set_then kv n k v ttl d in
    ap value_of e ∙ elim (Bool-cases (ltb 0 ttl)) [ inl p ↦ rw (p) | inr p ↦ rw (p) ]

get-fire : (kv : KvStore) (handle : ℕ) (m j : Text) → get (exec kv (fire handle)) m j ≡ get kv m j
unfolding get
get-fire kv handle m j = ap value_of (entry-fire kv handle m j)

-- What waits when the timer of a value that was set may have fired.
waiting-fire_then :
    (kv : KvStore) (n k v : Text) (ttl d : ℕ)
    → 0 < ttl
    → (exec (set_then kv n k v ttl d) (fire kv.next_timer)).waiting
      ≡ (if leb ttl d then (n, k) ∷ kv.waiting else kv.waiting)
waiting-fire_then kv n k v ttl d h =
    let (a, b, c, e) = waiting-set_then kv n k v ttl d in
    waiting-fire (set_then kv n k v ttl d) kv.next_timer
      (record { deadline = kv.now + ttl; namespace = n; key = k }) (armed_then kv n k v ttl d h)
    ∙ rw (a, b) (due kv.now (n, k) kv.waiting)
  where
    due :
        (s : ℕ) (x : Text × Text) (w : List (Text × Text))
        → (if leb (s + ttl) (s + d) then x ∷ w else w) ≡ (if leb ttl d then x ∷ w else w)
    due s x w = ground arith

-- Where no callback waits, a value that is set with a time to live is there until its timer has
-- fired and called back, which it does once that time has passed and not before.
pub get_expires :
    (kv : KvStore) (n k v : Text) (ttl d : ℕ)
    → kv.waiting ≡ []
    → 0 < ttl
    → (get (set_then kv n k v ttl d) n k ≡ some v)
      × (get (exec (exec (set_then kv n k v ttl d) (fire kv.next_timer)) callback) n k
          ≡ (if leb ttl d then none else some v))
get_expires kv n k v ttl d w h =
    let st = set_then kv n k v ttl d in
    let later = exec st (fire kv.next_timer) in
    (
      get-set_then kv n k v ttl d,
      get-callback later n k
          ∙ gone (leb ttl d) later.waiting kv.waiting (get later n k) w
              (waiting-fire_then kv n k v ttl d h)
              (get-fire st kv.next_timer n k ∙ get-set_then kv n k v ttl d),
    )
  where
    gone :
        (b : Bool) (w o : List (Text × Text)) (x : Option Text)
        → o ≡ []
        → w ≡ (if b then (n, k) ∷ o else o)
        → x ≡ some v
        → (if is_next w n k then none else x) ≡ (if b then none else some v)
    gone true w o x p q r = rw (q, =ᵗ-refl n, =ᵗ-refl k)
    gone false w o x p q r = rw (q, p, r)

entry-set_here :
    (kv : KvStore) (n k v : Text) (ttl : ℕ)
    → entry (set kv n k v ttl) n k ≡ some (new_entry kv v ttl)
entry-set_here kv n k v ttl = entry-set kv n k v ttl n k ∙ rw (=ᵗ-refl n, =ᵗ-refl k)

get-set : (kv : KvStore) (n k v : Text) (ttl : ℕ) → get (set kv n k v ttl) n k ≡ some v
unfolding get value_of
get-set kv n k v ttl =
    ap value_of (entry-set_here kv n k v ttl)
    ∙ elim (Bool-cases (ltb 0 ttl)) [ inl p ↦ rw (p) | inr p ↦ rw (p) ]

-- A callback that waits for the mutex, as its time to live is over, when its key is set again
-- without one deletes the new value: before the callback runs the new value is there, and
-- afterwards there is none.
pub stale_callback :
    (kv : KvStore) (n k v u : Text) (ttl d : ℕ)
    → 0 < ttl
    → ttl ≤ d
    → let fired = exec (set_then kv n k v ttl d) (fire kv.next_timer) in
      (get (set fired n k u 0) n k ≡ some u) × (get (exec (set fired n k u 0) callback) n k ≡ none)
stale_callback kv n k v u ttl d h l =
    let fired = exec (set_then kv n k v ttl d) (fire kv.next_timer) in
    (
      get-set fired n k u 0,
      get-callback (set fired n k u 0) n k
          ∙ rw (
            (waiting-set fired n k u 0).0,
            waiting-fire_then kv n k v ttl d h,
            le→leb ttl d l,
            =ᵗ-refl n,
            =ᵗ-refl k,
          ),
    )
