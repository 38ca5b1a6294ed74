-- ===== src/Session/KvStore.antt =====
-- internal/session/kvstore.go: `KVStore`, with the timers of package time that it arms. A timer that
-- has fired runs its callback in a goroutine of its own, which waits for the store's mutex.
pub mod Lookup
pub mod Timers
pub mod Expiry
mod Tests
use codewire.Base.{
  ℕ, ◌+◌, Bool, true, false, ◌||◌, ◌≡◌, refl, Option, none, some, List, [], ◌∷◌, ltb, leb,
  if◌then◌else◌,
}
use codewire.Base.Text.{Text, has_prefix, ◌=ᵗ◌}
use codewire.Base.Map.{Map, nat_key, text_key, lookup, insert, remove}

pub record KvEntry : Type 0 where
  pub value : Text
  pub expires_at : Option ℕ
  pub timer : Option ℕ

-- A pending `time.AfterFunc`, whose callback deletes a key.
pub record Timer : Type 0 where
  pub deadline : ℕ
  pub namespace : Text
  pub key : Text

-- The store, the clock and the pending timers by their handle, and the callbacks that wait.
pub record KvStore : Type 0 where
  pub spaces : Map Text (Map Text KvEntry)
  pub now : ℕ
  pub armed : Map ℕ Timer
  pub next_timer : ℕ
  pub waiting : List (Text × Text)

abbrev pub new_kv_store : ℕ → KvStore
new_kv_store now = record { spaces = []; now = now; armed = []; next_timer = 0; waiting = [] }

pub or_empty : Option (Map Text KvEntry) → Map Text KvEntry
or_empty none = []
or_empty (some ns) = ns

-- `timer.Stop()` on the entry that is there, if any.
pub stop_timer : Option ℕ → Map ℕ Timer → Map ℕ Timer
stop_timer none armed = armed
stop_timer (some handle) armed = remove handle armed

pub stop : Option KvEntry → Map ℕ Timer → Map ℕ Timer
unfolding stop_timer
stop none armed = armed
stop (some e) armed = stop_timer e.timer armed

-- `Set`.
pub set : KvStore → Text → Text → Text → ℕ → KvStore
unfolding or_empty stop
set kv namespace key value ttl =
    let ns = or_empty (lookup namespace kv.spaces) in
    let armed = stop (lookup key ns) kv.armed in
    if ltb 0 ttl
    then record kv {
      spaces =
          insert namespace
            (insert key
              (record {
                value = value;
                expires_at = some (kv.now + ttl);
                timer = some kv.next_timer;
              })
              ns)
            kv.spaces;
      armed =
          insert kv.next_timer
            (record { deadline = kv.now + ttl; namespace = namespace; key = key }) armed;
      next_timer = kv.next_timer + 1;
    }
    else record kv {
      spaces =
          insert namespace
            (insert key (record { value = value; expires_at = none; timer = none }) ns) kv.spaces;
      armed = armed;
    }

pub entry_of : Text → Option (Map Text KvEntry) → Option KvEntry
entry_of key none = none
entry_of key (some ns) = lookup key ns

value_of : Option KvEntry → Option Text
value_of none = none
value_of (some e) = some e.value

pub entry : KvStore → Text → Text → Option KvEntry
unfolding entry_of
entry kv namespace key = entry_of key (lookup namespace kv.spaces)

-- `Get`.
pub get : KvStore → Text → Text → Option Text
unfolding entry value_of
get kv namespace key = value_of (entry kv namespace key)

-- The rest of a namespace is stored back, or the namespace is deleted where that is empty.
put_back : Text → Map Text KvEntry → Map Text (Map Text KvEntry) → Map Text (Map Text KvEntry)
put_back namespace [] spaces = remove namespace spaces
put_back namespace (e ∷ rest) spaces = insert namespace (e ∷ rest) spaces

pub delete_from : KvStore → Text → Text → Option (Map Text KvEntry) → KvStore
unfolding stop put_back
delete_from kv namespace key none = kv
delete_from kv namespace key (some ns) = record kv {
  spaces = put_back namespace (remove key ns) kv.spaces;
  armed = stop (lookup key ns) kv.armed;
}

-- `Delete`.
pub delete : KvStore → Text → Text → KvStore
unfolding delete_from
delete kv namespace key = delete_from kv namespace key (lookup namespace kv.spaces)

matching : Text → Map Text KvEntry → Map Text KvEntry
matching prefix [] = []
matching prefix ((key, e) ∷ ns) =
    let rest = matching prefix ns in
    if (prefix =ᵗ []) || has_prefix key prefix then (key, e) ∷ rest else rest

-- `List`; the keys, with the entries whose value and expiry are returned.
pub list : KvStore → Text → Text → Map Text KvEntry
unfolding or_empty matching
list kv namespace prefix = matching prefix (or_empty (lookup namespace kv.spaces))

-- A timer fires at its deadline or later; its callback then waits for the mutex.
pub fire_timer : KvStore → ℕ → Option Timer → KvStore
fire_timer kv handle none = kv
fire_timer kv handle (some t) =
    if leb t.deadline kv.now
    then record kv { armed = remove handle kv.armed; waiting = (t.namespace, t.key) ∷ kv.waiting }
    else kv

-- A waiting callback gets the mutex.
pub call_back : KvStore → List (Text × Text) → KvStore
unfolding delete
call_back kv [] = kv
call_back kv ((namespace, key) ∷ rest) = delete (record kv { waiting = rest }) namespace key

-- What can happen to the store. A read changes nothing.
pub data Step : Type 0 where
  set_step : Text → Text → Text → ℕ → Step
  delete_step : Text → Text → Step
  tick fire : ℕ → Step
  callback : Step

pub exec : KvStore → Step → KvStore
unfolding set delete fire_timer call_back
exec kv (set_step namespace key value ttl) = set kv namespace key value ttl
exec kv (delete_step namespace key) = delete kv namespace key
exec kv (tick d) = record kv { now = kv.now + d }
exec kv (fire handle) = fire_timer kv handle (lookup handle kv.armed)
exec kv callback = call_back kv kv.waiting
