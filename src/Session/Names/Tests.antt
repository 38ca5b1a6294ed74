-- ===== src/Session/Names/Tests.antt =====
-- internal/session/session.go: sessions that are named, killed and renamed.
use codewire.Base.{ℕ, true, false, ◌≡◌, ◌≢◌, refl, sym, ◌∙◌, none, some, List, [], ◌∷◌, arith}
use codewire.Base.Text.{Text, codes, ◌=ᵗ◌, ne_of_=ᵗ}
use codewire.Base.Map.{nat_key, text_key, lookup, insert, remove}
use codewire.Base.Result.{ok, err}
use codewire.Session.Manager.{SessionManager, new_session_manager}
use codewire.Session.Names.{
  no_session_named, NameChangeHook, is_name, set_name, resolve_by_name, get_name, or_same, Step,
  launch_step, name_step, kill_step, IsFresh, exec,
}
use codewire.Session.Names.Index.{IsIndexed, exec-IsIndexed}
use codewire.Session.Names.Rename.{set_name_lem, rename_loses}
use codewire.Session.Names.Exits.{IsOnce, exec-IsOnce, sent_count, exit_count}

abbrev no_hook : NameChangeHook
no_hook = λ id old name tags. true

abbrev run : SessionManager → List Step → SessionManager
run m [] = m
run m (s ∷ steps) = run (exec no_hook m s) steps

abbrev web : Text
web = codes "web"

abbrev api : Text
api = codes "api"

-- Session 1 had the name, was killed, and session 2 has it now.
abbrev history : List Step
history =
    launch_step [] (some [])
    ∷ launch_step [] none
    ∷ name_step 1 web
    ∷ kill_step 1
    ∷ name_step 2 web
    ∷ []

abbrev before : SessionManager
before = run (new_session_manager 1) history

is_name_test :
    (is_name (codes "a-1") ≡ true) × (is_name (codes "-a") ≡ false) × (is_name [] ≡ false)
unfolding is_name
is_name_test = (refl, refl, refl)

before_test :
    (resolve_by_name before web ≡ ok 2)
    × (get_name before 1 ≡ web)
    × (get_name before 2 ≡ web)
    × (before.exits ≡ (1, web, []) ∷ [])
    × (set_name no_hook before 1 api ≡ ok (or_same before (set_name no_hook before 1 api)))
    × (resolve_by_name before (get_name before 1) ≡ ok 2)
unfolding resolve_by_name get_name exec set_name or_same lookup insert remove ◌=ᵗ◌
before_test = (refl, refl, refl, refl, refl, refl)

empty-IsIndexed : IsIndexed (new_session_manager 1)
unfolding IsIndexed lookup
empty-IsIndexed n id p = absurd cc

empty-IsOnce : IsOnce (new_session_manager 1)
unfolding IsOnce lookup sent_count exit_count
empty-IsOnce id = refl

abbrev launched : SessionManager
launched = exec no_hook (new_session_manager 1) (launch_step [] (some []))

abbrev named : SessionManager
named = exec no_hook launched (name_step 1 web)

named-IsIndexed : IsIndexed named
unfolding IsFresh lookup
named-IsIndexed =
    exec-IsIndexed no_hook launched (name_step 1 web)
      (exec-IsIndexed no_hook (new_session_manager 1) (launch_step [] (some [])) empty-IsIndexed
        refl)
      tt

named-IsOnce : IsOnce named
unfolding IsFresh lookup
named-IsOnce =
    exec-IsOnce no_hook launched (name_step 1 web)
      (exec-IsOnce no_hook (new_session_manager 1) (launch_step [] (some [])) empty-IsOnce refl) tt

exec-IsIndexed_example : IsIndexed (exec no_hook named (kill_step 1))
unfolding IsFresh
exec-IsIndexed_example = exec-IsIndexed no_hook named (kill_step 1) named-IsIndexed tt

exec-IsOnce_example : IsOnce (exec no_hook named (kill_step 1))
unfolding IsFresh
exec-IsOnce_example = exec-IsOnce no_hook named (kill_step 1) named-IsOnce tt

abbrev after : ℕ → SessionManager
after id = or_same before (set_name no_hook before id api)

renamed :
    (set_name no_hook before 1 api ≡ ok (after 1)) × (set_name no_hook before 2 api ≡ ok (after 2))
unfolding exec set_name or_same lookup insert remove ◌=ᵗ◌
renamed = (refl, refl)

names : (get_name before 1 ≡ web) × (get_name before 2 ≡ web)
unfolding get_name exec lookup insert remove ◌=ᵗ◌
names = (refl, refl)

api_is_new : api ≢ get_name before 1
unfolding ◌=ᵗ◌
api_is_new e = ne_of_=ᵗ api web refl (e ∙ names.0)

db_is_new : codes "db" ≢ get_name before 2
db_is_new e = let (p, q) = names in absurd cc

has_name : get_name before 1 ≢ []
has_name e = let (p, q) = names in absurd cc

set_name_lem_example :
    (resolve_by_name (after 2) api ≡ ok 2)
    × (get_name (after 2) 2 ≡ api)
    × (resolve_by_name (after 2) (codes "db") ≡ resolve_by_name before (codes "db"))
    × (get_name (after 2) 1 ≡ get_name before 1)
set_name_lem_example =
    set_name_lem no_hook before (after 2) 2 1 api (codes "db") renamed.1 (λ e. absurd cc) db_is_new
      (λ e. absurd (omega arith))

taken_over : resolve_by_name before (get_name before 1) ≡ ok 2
unfolding resolve_by_name get_name exec lookup insert remove ◌=ᵗ◌
taken_over = refl

same_names : get_name before 2 ≡ get_name before 1
same_names = names.1 ∙ sym names.0

rename_loses_example :
    (get_name (after 1) 2 ≡ get_name before 1)
    × (resolve_by_name (after 1) (get_name before 1) ≡ err (no_session_named (get_name before 1)))
rename_loses_example =
    rename_loses no_hook before (after 1) 1 2 api taken_over same_names has_name api_is_new
      (λ e. absurd (omega arith)) renamed.0
