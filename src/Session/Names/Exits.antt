-- ===== src/Session/Names/Exits.antt =====
-- internal/session/session.go: how often the exit hook runs.
use codewire.Base.{
  ℕ, ◌+◌, true, ◌&&◌, not, ◌≡◌, refl, sym, ap, subst, ◌∙◌, Option, none, some, List, [], ◌∷◌, ◌++◌,
  ◌==◌, arith, if◌then◌else◌, Bool-cases, ==_iff, inl, inr,
}
use codewire.Base.Text.{Text, ◌=ᵗ◌}
use codewire.Base.Map.{Map, nat_key, text_key, lookup, insert, lookup-insert}
use codewire.Base.Result.{Result, ok, err}
use codewire.Session.Manager.{SessionStatus, Event, Session, SessionManager}
use codewire.Session.Names.{
  NameError, NameChangeHook, store_name, set_name, owns, release, release_name, launch, send_exit,
  mark_killed, kill_session, kill, exit_session, process_exited, finish_session, mark_exited,
  or_same, Step, launch_step, name_step, kill_step, exit_step, exec, IsFresh,
}
use codewire.Session.Names.Index.{set_name-checked}

-- How often the exit hook ran for a session.
unfoldable pub exit_count : ℕ → List (ℕ × Text × List Text) → ℕ
exit_count id [] = 0
exit_count id ((j, name, tags) ∷ rest) =
    if j == id then 1 + exit_count id rest else exit_count id rest

unfoldable pub sent_count : Option Session → ℕ
sent_count none = 0
sent_count (some s) = if s.exit_hook_sent then 1 else 0

-- For each session the hook ran once if that is marked, and not at all if it is not; it did not run
-- for an identifier that no session has.
unfoldable pub IsOnce : SessionManager → Type 0
IsOnce m = (id : ℕ) → exit_count id m.exits ≡ sent_count (lookup id m.sessions)

exit_count-append :
    (id j : ℕ) (name : Text) (tags : List Text) (calls : List (ℕ × Text × List Text))
    → exit_count id (calls ++ (j, name, tags) ∷ [])
      ≡ (if j == id then exit_count id calls + 1 else exit_count id calls)
unfolding exit_count
exit_count-append id j name tags [] = ground arith
exit_count-append id j name tags ((k, n, t) ∷ calls) =
    ground (arith, exit_count-append id j name tags calls)

-- A session that is stored with the same mark.
same_mark-IsOnce :
    (m : SessionManager) (i : ℕ) (o : Option Session) (u : Session) (index : Map Text ℕ) (next : ℕ)
    → lookup i m.sessions ≡ o
    → sent_count (some u) ≡ sent_count o
    → IsOnce m
    → IsOnce (record m { sessions = insert i u m.sessions; name_index = index; next_id = next })
unfolding IsOnce
same_mark-IsOnce m i o u index next h k v id =
    v id ∙ ground (arith, lookup-insert i id u m.sessions, ==_iff i id, h, k)

release-keeps :
    (m : SessionManager) (i : ℕ) (o : Option Session)
    → ((release m i o).sessions ≡ m.sessions) × ((release m i o).exits ≡ m.exits)
unfolding release
release-keeps m i none = (refl, refl)
release-keeps m i (some s) =
    elim (Bool-cases (not (s.name =ᵗ []) && owns (lookup s.name m.name_index) i)) [
      | inl p ↦ rw (p) (refl, refl)
      | inr p ↦ rw (p) (refl, refl)
    ]

send_exit-keeps :
    (i id : ℕ) (s : Session) (m : SessionManager)
    → ((send_exit i s m).sessions ≡ m.sessions)
      × (exit_count id (send_exit i s m).exits ≡ (
          if (i == id) && not s.exit_hook_sent
          then exit_count id m.exits + 1
          else exit_count id m.exits))
unfolding send_exit
send_exit-keeps i id s m = elim (Bool-cases s.exit_hook_sent) [
  | inl p ↦ rw (p) (refl, ground arith)
  | inr p ↦ rw (p) (refl, exit_count-append id i s.name s.tags m.exits ∙ ground arith)
]

finish_session-IsOnce :
    (m : SessionManager) (i : ℕ) (s u : Session)
    → lookup i m.sessions ≡ some s
    → u.exit_hook_sent ≡ true
    → IsOnce m
    → IsOnce (finish_session m i s u)
unfolding IsOnce finish_session release_name sent_count
finish_session-IsOnce m i s u h k v id =
    let stored : SessionManager = record m { sessions = insert i u m.sessions } in
    let released = release stored i (lookup i stored.sessions) in
    let (a, b) = release-keeps stored i (lookup i stored.sessions) in
    let (c, d) = send_exit-keeps i id s released in
    let sessions = ap (λ (x : Map ℕ Session). sent_count (lookup id x)) (c ∙ a) in
    d
    ∙ ground (arith, ap (exit_count id) b, v id, lookup-insert i id u m.sessions, ==_iff i id, h, k)
    ∙ sym sessions

killed-IsOnce :
    (m : SessionManager) (i : ℕ) (o : Option Session)
    → lookup i m.sessions ≡ o
    → IsOnce m
    → IsOnce (or_same m (kill_session m i o))
unfolding kill_session or_same mark_killed
killed-IsOnce m i none h v = v
killed-IsOnce m i (some s) h v = finish_session-IsOnce m i s (mark_killed s) h refl v

exited-IsOnce :
    (m : SessionManager) (i : ℕ) (status : SessionStatus) (o : Option Session)
    → lookup i m.sessions ≡ o
    → IsOnce m
    → IsOnce (exit_session m i status o)
unfolding exit_session mark_exited
exited-IsOnce m i status none h v = v
exited-IsOnce m i status (some s) h v = finish_session-IsOnce m i s (mark_exited status s) h refl v

named-IsOnce :
    (hook : NameChangeHook) (m : SessionManager) (i : ℕ) (name : Text)
    (r : Result NameError SessionManager)
    → set_name hook m i name ≡ r
    → IsOnce m
    → IsOnce (or_same m r)
unfolding or_same store_name sent_count
named-IsOnce hook m i name (err e) h v = v
named-IsOnce hook m i name (ok n) h v =
    let (s, (found, named, free, stored)) = set_name-checked hook m n i name h in
    subst IsOnce stored
      (same_mark-IsOnce m i (some s) (record s { name = name }) _ m.next_id found refl v)

launched-IsOnce :
    (m : SessionManager) (tags : List Text) (log : Option (List Event))
    → lookup m.next_id m.sessions ≡ none
    → IsOnce m
    → IsOnce (launch m tags log)
unfolding launch sent_count
launched-IsOnce m tags log h v = same_mark-IsOnce m m.next_id none _ m.name_index _ h refl v

-- Every operation, whether it fails or not, keeps this: the exit hook has run once for each
-- session that is marked, and for no other, in whatever order kills and ends of processes come
-- and however often. A launch is to get an identifier that no session has.
pub exec-IsOnce :
    (hook : NameChangeHook) (m : SessionManager) (s : Step)
    → IsOnce m
    → IsFresh m s
    → IsOnce (exec hook m s)
unfolding exec kill process_exited IsFresh
exec-IsOnce hook m (launch_step tags log) v f = launched-IsOnce m tags log f v
exec-IsOnce hook m (name_step i name) v f =
    named-IsOnce hook m i name (set_name hook m i name) refl v
exec-IsOnce hook m (kill_step i) v f = killed-IsOnce m i (lookup i m.sessions) refl v
exec-IsOnce hook m (exit_step i status) v f = exited-IsOnce m i status (lookup i m.sessions) refl v
