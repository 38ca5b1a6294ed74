-- ===== src/Session/Names/Index.antt =====
-- internal/session/session.go: the index of names.
use codewire.Base.{
  ℕ, Bool, true, false, ◌&&◌, ◌||◌, not, ◌≡◌, ◌≢◌, refl, subst, ◌∙◌, Option, none, some, List, [],
  ◌∷◌, ◌==◌, arith, if◌then◌else◌, Bool-cases, ==_iff, inl, inr, if_cases,
}
use codewire.Base.Text.{Text, ◌=ᵗ◌, =ᵗ_iff, eq_of_=ᵗ, ne_of_=ᵗ}
use codewire.Base.Map.{Map, nat_key, text_key, lookup, insert, remove, lookup-insert, lookup-remove}
use codewire.Base.Result.{Result, ok, err, ◌>>=◌, ◌>>◌, guard, or_fail}
use codewire.Session.Manager.{SessionStatus, Event, Session, SessionManager}
use codewire.Session.Names.{
  NameError, invalid_name, session_not_found, name_in_use, hook_failed, NameChangeHook, is_name,
  is_taken, store_name, set_name, owns, release, release_name, name_of, get_name, launch, send_exit,
  mark_killed, kill_session, kill, exit_session, process_exited, finish_session, mark_exited,
  or_same, Step, launch_step, name_step, kill_step, exit_step, exec, IsFresh,
}

-- Every name of the index is that of the session it leads to.
unfoldable pub IsIndexed : SessionManager → Type 0
IsIndexed m = (n : Text) (id : ℕ) → lookup n m.name_index ≡ some id → (get_name m id ≡ n) × (n ≢ [])

pub name-insert :
    (i j : ℕ) (s : Session) (sessions : Map ℕ Session)
    → name_of (lookup j (insert i s sessions))
      ≡ (if i == j then s.name else name_of (lookup j sessions))
unfolding name_of
name-insert i j s sessions = ground (arith, lookup-insert i j s sessions)

-- A session that is stored again under its name leaves the index right.
same_name-IsIndexed :
    (m : SessionManager) (i : ℕ) (s u : Session)
    → lookup i m.sessions ≡ some s
    → u.name ≡ s.name
    → IsIndexed m
    → IsIndexed (record m { sessions = insert i u m.sessions })
unfolding IsIndexed get_name name_of
same_name-IsIndexed m i s u h k v n j p =
    let (a, b) = v n j p in (name-insert i j u m.sessions ∙ ground (arith, ==_iff i j, k, h, a), b)

release-IsIndexed :
    (m : SessionManager) (i : ℕ) (o : Option Session) → IsIndexed m → IsIndexed (release m i o)
unfolding IsIndexed release get_name
release-IsIndexed m i none v n j p = v n j p
release-IsIndexed m i (some s) v n j p =
    if_cases
      (λ (x : SessionManager).
        lookup n x.name_index ≡ some j → (name_of (lookup j x.sessions) ≡ n) × (n ≢ []))
      (not (s.name =ᵗ []) && owns (lookup s.name m.name_index) i)
      (λ c q. v n j (ground (arith, lookup-remove s.name n m.name_index))) (λ c q. v n j q) p

send_exit-IsIndexed :
    (m : SessionManager) (i : ℕ) (s : Session) → IsIndexed m → IsIndexed (send_exit i s m)
unfolding send_exit
send_exit-IsIndexed m i s v =
    if_cases IsIndexed s.exit_hook_sent (λ c. v) (λ c. unfold IsIndexed get_name in v)

pub name_is-nonempty : (name : Text) → is_name name ≡ true → name ≢ []
unfolding is_name
name_is-nonempty [] h = absurd cc
name_is-nonempty (c ∷ rest) h = λ e. absurd cc

-- A name that is left in the index when an old one is taken out is another one.
kept :
    (old name n : Text) (j : ℕ) (index : Map Text ℕ)
    → lookup n (if not (old =ᵗ []) && not (old =ᵗ name) then remove old index else index) ≡ some j
    → (lookup n index ≡ some j) × ((n ≢ []) → name ≢ n → old ≢ n)
kept old name n j index p =
    let r = lookup-remove old n index in
    (ground (arith), λ a b e. ground (arith, =ᵗ_iff old [], =ᵗ_iff old name, =ᵗ_iff old n, a, b))

store_name-IsIndexed :
    (m : SessionManager) (i : ℕ) (s : Session) (name : Text)
    → lookup i m.sessions ≡ some s
    → name ≢ []
    → IsIndexed m
    → IsIndexed (store_name m i s name)
unfolding IsIndexed store_name get_name
store_name-IsIndexed m i s name h k v n j p =
    let u : Session = record s { name = name } in
    let old =
      if not (s.name =ᵗ []) && not (s.name =ᵗ name)
      then remove s.name m.name_index
      else m.name_index in
    let q = lookup-insert name n i old in
    let w = name-insert i j u m.sessions in
    elim (Bool-cases (name =ᵗ n)) [
      | inl a ↦
          let e = eq_of_=ᵗ name n a in
          let f : i ≡ j = ground arith in (w ∙ rw ((==_iff i j).1 f) e, λ z. k (e ∙ z))
      | inr a ↦
          let (c, d) = kept s.name name n j m.name_index (ground arith) in
          let (e, f) = v n j c in
          let g : s.name ≢ n = d f (ne_of_=ᵗ name n a) in (w ∙ ground (arith, ==_iff i j), f)
    ]

finish_session-IsIndexed :
    (m : SessionManager) (i : ℕ) (s u : Session)
    → lookup i m.sessions ≡ some s
    → u.name ≡ s.name
    → IsIndexed m
    → IsIndexed (finish_session m i s u)
unfolding finish_session release_name
finish_session-IsIndexed m i s u h k v =
    let stored : SessionManager = record m { sessions = insert i u m.sessions } in
    send_exit-IsIndexed (release stored i (lookup i stored.sessions)) i s
      (release-IsIndexed stored i (lookup i stored.sessions) (same_name-IsIndexed m i s u h k v))

kill_session-IsIndexed :
    (m : SessionManager) (i : ℕ) (o : Option Session)
    → lookup i m.sessions ≡ o
    → IsIndexed m
    → IsIndexed (or_same m (kill_session m i o))
unfolding kill_session or_same mark_killed
kill_session-IsIndexed m i none h v = v
kill_session-IsIndexed m i (some s) h v = finish_session-IsIndexed m i s (mark_killed s) h refl v

exit_session-IsIndexed :
    (m : SessionManager) (i : ℕ) (status : SessionStatus) (o : Option Session)
    → lookup i m.sessions ≡ o
    → IsIndexed m
    → IsIndexed (exit_session m i status o)
unfolding exit_session mark_exited
exit_session-IsIndexed m i status none h v = v
exit_session-IsIndexed m i status (some s) h v =
    finish_session-IsIndexed m i s (mark_exited status s) h refl v

launch-IsIndexed :
    (m : SessionManager) (tags : List Text) (log : Option (List Event))
    → lookup m.next_id m.sessions ≡ none
    → IsIndexed m
    → IsIndexed (launch m tags log)
unfolding IsIndexed launch get_name name_of
launch-IsIndexed m tags log h v n j p =
    let (a, b) = v n j p in
    (name-insert m.next_id j _ m.sessions ∙ ground (arith, ==_iff m.next_id j, h, a, b), b)

-- A successful `SetName` found the session and checked the name.
pub set_name-checked :
    (hook : NameChangeHook) (m n : SessionManager) (i : ℕ) (name : Text)
    → set_name hook m i name ≡ ok n
    → (s : Session) × ((lookup i m.sessions ≡ some s)
        × (is_name name ≡ true)
        × (is_taken (lookup name m.name_index) i ≡ false)
        × (store_name m i s name ≡ n))
unfolding set_name
set_name-checked hook m n i name h =
    checked (is_name name) (lookup i m.sessions) (is_taken (lookup name m.name_index) i)
      (λ s. (s.name =ᵗ name) || hook i s.name name s.tags) (λ s. store_name m i s name) h
  where
    checked :
        (a : Bool) (o : Option Session) (b : Bool) (c : Session → Bool)
        (store : Session → SessionManager)
        → (guard a (invalid_name name)
            >> (or_fail o (session_not_found i) >>= λ s.
                guard (not b) (name_in_use name)
                >> (guard (c s) (hook_failed name) >> ok (store s))))
          ≡ ok n
        → (s : Session) × ((o ≡ some s) × (a ≡ true) × (b ≡ false) × (store s ≡ n))
    checked false o b c store q = absurd cc
    checked true none b c store q = absurd cc
    checked true (some s) true c store q = absurd cc
    checked true (some s) false c store q = (s, (refl, refl, refl, hook_passed (c s) (store s) q))
      where
        hook_passed :
            (d : Bool) (x : SessionManager) → (guard d (hook_failed name) >> ok x) ≡ ok n → x ≡ n
        hook_passed true x r = cc
        hook_passed false x r = absurd cc

named-IsIndexed :
    (hook : NameChangeHook) (m : SessionManager) (i : ℕ) (name : Text)
    (r : Result NameError SessionManager)
    → set_name hook m i name ≡ r
    → IsIndexed m
    → IsIndexed (or_same m r)
unfolding or_same
named-IsIndexed hook m i name (err e) h v = v
named-IsIndexed hook m i name (ok n) h v =
    let (s, (found, named, free, stored)) = set_name-checked hook m n i name h in
    subst IsIndexed stored (store_name-IsIndexed m i s name found (name_is-nonempty name named) v)

-- Whatever operation runs, and whether it fails or not, every name in the index stays that of
-- the session it leads to, and no name is empty. A launch is to get an identifier that no
-- session has.
pub exec-IsIndexed :
    (hook : NameChangeHook) (m : SessionManager) (s : Step)
    → IsIndexed m
    → IsFresh m s
    → IsIndexed (exec hook m s)
unfolding exec kill process_exited IsFresh
exec-IsIndexed hook m (launch_step tags log) v f = launch-IsIndexed m tags log f v
exec-IsIndexed hook m (name_step i name) v f =
    named-IsIndexed hook m i name (set_name hook m i name) refl v
exec-IsIndexed hook m (kill_step i) v f = kill_session-IsIndexed m i (lookup i m.sessions) refl v
exec-IsIndexed hook m (exit_step i status) v f =
    exit_session-IsIndexed m i status (lookup i m.sessions) refl v
