-- ===== src/Session/KvStore/Lookup.antt =====
-- internal/session/kvstore.go: the entries of the store.
use codewire.Base.{
  ℕ, ◌+◌, Bool, false, ◌&&◌, ◌≡◌, refl, ap, Option, none, some, List, [], ◌∷◌, arith, if◌then◌else◌,
  ltb, inl, inr, Bool-cases,
}
use codewire.Base.Text.{Text, ◌=ᵗ◌, =ᵗ_iff}
use codewire.Base.Map.{Map, text_key, nat_key, lookup, insert, remove, lookup-insert, lookup-remove}
use codewire.Session.KvStore.{
  KvEntry, KvStore, Timer, or_empty, set, entry_of, entry, put_back, delete_from, delete,
  fire_timer, call_back, Step, set_step, delete_step, tick, fire, callback, exec,
}

abbrev pub is_at : Text → Text → Text → Text → Bool
is_at n k m j = (n =ᵗ m) && (k =ᵗ j)

-- The entry that `Set` stores.
abbrev pub new_entry : KvStore → Text → ℕ → KvEntry
new_entry kv value ttl =
    if ltb 0 ttl
    then record { value = value; expires_at = some (kv.now + ttl); timer = some kv.next_timer }
    else record { value = value; expires_at = none; timer = none }

pub lookup-or_empty :
    (k : Text) (o : Option (Map Text KvEntry)) → lookup k (or_empty o) ≡ entry_of k o
unfolding or_empty entry_of lookup
lookup-or_empty k none = refl
lookup-or_empty k (some ns) = refl

entry_of-insert :
    (n m k j : Text) (e : KvEntry) (spaces : Map Text (Map Text KvEntry))
    → entry_of j (lookup m (insert n (insert k e (or_empty (lookup n spaces))) spaces))
      ≡ (if is_at n k m j then some e else entry_of j (lookup m spaces))
unfolding entry_of
entry_of-insert n m k j e spaces = ground (
  arith,
  lookup-insert n m (insert k e (or_empty (lookup n spaces))) spaces,
  lookup-insert k j e (or_empty (lookup n spaces)),
  lookup-or_empty j (lookup n spaces),
  =ᵗ_iff n m,
)

spaces-set :
    (kv : KvStore) (n k v : Text) (ttl : ℕ)
    → (set kv n k v ttl).spaces
      ≡ insert n (insert k (new_entry kv v ttl) (or_empty (lookup n kv.spaces))) kv.spaces
unfolding set
spaces-set kv n k v ttl = elim (Bool-cases (ltb 0 ttl)) [ inl p ↦ rw (p) | inr p ↦ rw (p) ]

pub entry-set :
    (kv : KvStore) (n k v : Text) (ttl : ℕ) (m j : Text)
    → entry (set kv n k v ttl) m j
      ≡ (if is_at n k m j then some (new_entry kv v ttl) else entry kv m j)
unfolding entry
entry-set kv n k v ttl m j =
    rw (spaces-set kv n k v ttl, entry_of-insert n m k j (new_entry kv v ttl) kv.spaces)

lookup-nil : (j : Text) (ns : Map Text KvEntry) → ns ≡ [] → lookup j ns ≡ none
unfolding lookup
lookup-nil j [] h = refl
lookup-nil j (e ∷ ns) h = cc

entry_of-put_back :
    (n m k j : Text) (ns rest : Map Text KvEntry) (spaces : Map Text (Map Text KvEntry))
    → lookup n spaces ≡ some ns
    → rest ≡ remove k ns
    → entry_of j (lookup m (put_back n rest spaces))
      ≡ (if is_at n k m j then none else entry_of j (lookup m spaces))
unfolding entry_of put_back
entry_of-put_back n m k j ns [] spaces h p = ground (
  arith,
  lookup-remove n m spaces,
  lookup-remove k j ns,
  ap (λ (x : Map Text KvEntry). lookup j x) p,
  lookup-nil j [] refl,
  =ᵗ_iff n m,
)
entry_of-put_back n m k j ns (e ∷ rest) spaces h p = ground (
  arith,
  lookup-insert n m (e ∷ rest) spaces,
  lookup-remove k j ns,
  ap (λ (x : Map Text KvEntry). lookup j x) p,
  =ᵗ_iff n m,
)

absent :
    (n k m j : Text) (spaces : Map Text (Map Text KvEntry))
    → lookup n spaces ≡ none
    → entry_of j (lookup m spaces) ≡ (if is_at n k m j then none else entry_of j (lookup m spaces))
unfolding entry_of
absent n k m j spaces h = ground (arith, =ᵗ_iff n m)

entry-delete_from :
    (kv : KvStore) (n k m j : Text) (o : Option (Map Text KvEntry))
    → lookup n kv.spaces ≡ o
    → entry (delete_from kv n k o) m j ≡ (if is_at n k m j then none else entry kv m j)
unfolding entry delete_from
entry-delete_from kv n k m j none h = absent n k m j kv.spaces h
entry-delete_from kv n k m j (some ns) h =
    entry_of-put_back n m k j ns (remove k ns) kv.spaces h refl

pub entry-delete :
    (kv : KvStore) (n k m j : Text)
    → entry (delete kv n k) m j ≡ (if is_at n k m j then none else entry kv m j)
unfolding delete
entry-delete kv n k m j = entry-delete_from kv n k m j (lookup n kv.spaces) refl

abbrev pub is_next : List (Text × Text) → Text → Text → Bool
is_next [] m j = false
is_next ((n, k) ∷ rest) m j = is_at n k m j

-- What a step does to the entry of a key: a write replaces it, a deletion and the callback of a timer
-- that is next take it away, and the clock and the firing of a timer leave it.
pub effect : KvStore → Step → Text → Text → Option KvEntry → Option KvEntry
effect kv (set_step n k v ttl) m j old = if is_at n k m j then some (new_entry kv v ttl) else old
effect kv (delete_step n k) m j old = if is_at n k m j then none else old
effect kv (tick d) m j old = old
effect kv (fire handle) m j old = old
effect kv callback m j old = if is_next kv.waiting m j then none else old

pub entry-fire_timer :
    (kv : KvStore) (handle : ℕ) (o : Option Timer) (m j : Text)
    → entry (fire_timer kv handle o) m j ≡ entry kv m j
unfolding entry fire_timer
entry-fire_timer kv handle none m j = refl
entry-fire_timer kv handle (some t) m j = ground arith

pub entry-call_back :
    (kv : KvStore) (w : List (Text × Text)) (m j : Text)
    → entry (call_back kv w) m j ≡ (if is_next w m j then none else entry kv m j)
unfolding call_back entry
entry-call_back kv [] m j = refl
entry-call_back kv ((n, k) ∷ rest) m j = entry-delete (record kv { waiting = rest }) n k m j

same_entry :
    (kv : KvStore) (d : ℕ) (m j : Text) → entry (record kv { now = kv.now + d }) m j ≡ entry kv m j
unfolding entry
same_entry kv d m j = refl

-- After every step, the entry of every key, in every namespace, is what the step made of it, and
-- no other key is touched.
pub entry-exec :
    (kv : KvStore) (s : Step) (m j : Text) → entry (exec kv s) m j ≡ effect kv s m j (entry kv m j)
unfolding exec effect
entry-exec kv (set_step n k v ttl) m j = entry-set kv n k v ttl m j
entry-exec kv (delete_step n k) m j = entry-delete kv n k m j
entry-exec kv (tick d) m j = same_entry kv d m j
entry-exec kv (fire handle) m j = entry-fire_timer kv handle (lookup handle kv.armed) m j
entry-exec kv callback m j = entry-call_back kv kv.waiting m j
