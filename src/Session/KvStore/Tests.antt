-- ===== src/Session/KvStore/Tests.antt =====
-- internal/session/kvstore.go: runs of the store.
use codewire.Base.{◌≡◌, refl, none, some, List, [], ◌∷◌, arith}
use codewire.Base.Text.{Text, codes, ◌=ᵗ◌, has_prefix}
use codewire.Base.Map.{lookup, insert, remove}
use codewire.Session.KvStore.{
  KvStore, new_kv_store, set, get, entry, list, Step, set_step, tick, fire, callback, exec,
}
use codewire.Session.KvStore.Lookup.{effect, entry-exec}
use codewire.Session.KvStore.Timers.{IsTimed, run, run-IsTimed}
use codewire.Session.KvStore.Expiry.{set_then, get_expires, stale_callback}

abbrev empty : KvStore
empty = new_kv_store 1000

abbrev ns : Text
ns = codes "ns"

abbrev key : Text
key = codes "key"

abbrev one : Text
one = codes "one"

abbrev two : Text
two = codes "two"

abbrev history : List Step
history =
    set_step ns key one 5
    ∷ set_step ns two two 7
    ∷ tick 6
    ∷ fire 0
    ∷ set_step ns key two 9
    ∷ callback
    ∷ []

-- The second value is lost to the callback of the first.
history_lost : (get (run empty history) ns key ≡ none) × (get (run empty history) ns two ≡ some two)
unfolding get exec set lookup insert remove ◌=ᵗ◌
history_lost = (refl, refl)

list_test :
    list (set (set empty ns key one 0) ns two two 0) ns (codes "k")
    ≡ (key, record { value = one; expires_at = none; timer = none }) ∷ []
unfolding list set lookup insert ◌=ᵗ◌ has_prefix
list_test = refl

entry-exec_example :
    entry (exec (run empty history) (set_step ns key one 3)) ns key
    ≡ effect (run empty history) (set_step ns key one 3) ns key (entry (run empty history) ns key)
entry-exec_example = entry-exec (run empty history) (set_step ns key one 3) ns key

run-IsTimed_example : IsTimed (run (new_kv_store 1000) history)
run-IsTimed_example = run-IsTimed 1000 history

expiry_test :
    (get (set_then empty ns key one 5 4) ns key ≡ some one)
    × (get (exec (exec (set_then empty ns key one 5 4) (fire 0)) callback) ns key ≡ some one)
expiry_test = get_expires empty ns key one 5 4 refl (omega arith)

stale_callback_example :
    let fired = exec (set_then empty ns key one 5 6) (fire 0) in
    (get (set fired ns key two 0) ns key ≡ some two)
    × (get (exec (set fired ns key two 0) callback) ns key ≡ none)
stale_callback_example = stale_callback empty ns key one two 5 6 (omega arith) (omega arith)
