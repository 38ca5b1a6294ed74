-- ===== src/Session/Names/Rename.antt =====
-- internal/session/session.go: what `SetName` does to the index.
use codewire.Base.{
  ℕ, ◌&&◌, not, ◌≡◌, ◌≢◌, refl, sym, subst, ◌∙◌, Option, none, some, [], ◌==◌, arith, if◌then◌else◌,
  ==_refl,
}
use codewire.Base.Text.{Text, ◌=ᵗ◌, =ᵗ_iff, =ᵗ-refl}
use codewire.Base.Map.{nat_key, text_key, lookup, lookup-insert, lookup-remove}
use codewire.Base.Result.{ok, err, or_fail, or_fail-eq-ok}
use codewire.Session.Manager.{Session, SessionManager}
use codewire.Session.Names.Index.{set_name-checked, name-insert}
use codewire.Session.Names.{
  no_session_named, NameChangeHook, store_name, set_name, resolve_by_name, name_of, get_name,
}

-- The index and the names, when a name was stored.
index-store_name :
    (m : SessionManager) (i : ℕ) (s : Session) (name x : Text)
    → lookup x (store_name m i s name).name_index ≡ (
        if name =ᵗ x
        then some i
        else if not (s.name =ᵗ []) && not (s.name =ᵗ name) && (s.name =ᵗ x)
        then none
        else lookup x m.name_index)
unfolding store_name
index-store_name m i s name x =
    lookup-insert name x i _ ∙ ground (arith, lookup-remove s.name x m.name_index)

get_name-store_name :
    (m : SessionManager) (i j : ℕ) (s : Session) (name : Text)
    → get_name (store_name m i s name) j ≡ (if i == j then name else get_name m j)
unfolding store_name get_name
get_name-store_name m i j s name = name-insert i j (record s { name = name }) m.sessions

name_found :
    (m : SessionManager) (i : ℕ) (s : Session)
    → lookup i m.sessions ≡ some s
    → get_name m i ≡ s.name
unfolding get_name name_of
name_found m i s h = rw (h) refl

resolve_found :
    (m : SessionManager) (name : Text) (o : Option ℕ)
    → lookup name m.name_index ≡ o
    → resolve_by_name m name ≡ or_fail o (no_session_named name)
unfolding resolve_by_name
resolve_found m name o h = rw (h) refl

resolved :
    (m : SessionManager) (name : Text) (j : ℕ)
    → resolve_by_name m name ≡ ok j
    → lookup name m.name_index ≡ some j
unfolding resolve_by_name
resolved m name j h = or_fail-eq-ok (lookup name m.name_index) (no_session_named name) j h

-- A session that was given a name has it and is found by it. Every name but this one and the one
-- that the session had leads where it led before, and every other session keeps its name.
pub set_name_lem :
    (hook : NameChangeHook) (m n : SessionManager) (i j : ℕ) (name other : Text)
    → set_name hook m i name ≡ ok n
    → other ≢ name
    → other ≢ get_name m i
    → j ≢ i
    → (resolve_by_name n name ≡ ok i)
      × (get_name n i ≡ name)
      × (resolve_by_name n other ≡ resolve_by_name m other)
      × (get_name n j ≡ get_name m j)
set_name_lem hook m n i j name other h a b c =
    let (s, (found, named, free, stored)) = set_name-checked hook m n i name h in
    let e = name_found m i s found in
    let st = store_name m i s name in
    let x = index-store_name m i s name in
    let y = λ (k : ℕ). get_name-store_name m i k s name in
    subst
      (λ (v : SessionManager).
        (resolve_by_name v name ≡ ok i)
        × (get_name v i ≡ name)
        × (resolve_by_name v other ≡ resolve_by_name m other)
        × (get_name v j ≡ get_name m j))
      stored
      (
        resolve_found st name (some i) (x name ∙ rw (=ᵗ-refl name)),
        y i ∙ rw (==_refl i),
        resolve_found st other (lookup other m.name_index)
              (x other ∙ ground (arith, =ᵗ_iff name other, =ᵗ_iff s.name other, e, a, b))
            ∙ sym (resolve_found m other (lookup other m.name_index) refl),
        y j ∙ ground (arith, c),
      )

-- Giving a new name to a session whose old name, not empty, was taken over by another one, as
-- after the first one ended, takes the old name out of the index: the other session still has it
-- and is not found by it.
pub rename_loses :
    (hook : NameChangeHook) (m n : SessionManager) (i j : ℕ) (name : Text)
    → resolve_by_name m (get_name m i) ≡ ok j
    → get_name m j ≡ get_name m i
    → get_name m i ≢ []
    → name ≢ get_name m i
    → j ≢ i
    → set_name hook m i name ≡ ok n
    → (get_name n j ≡ get_name m i)
      × (resolve_by_name n (get_name m i) ≡ err (no_session_named (get_name m i)))
rename_loses hook m n i j name r g u w c h =
    let (s, (found, named, free, stored)) = set_name-checked hook m n i name h in
    let e = name_found m i s found in
    let old = get_name m i in
    let st = store_name m i s name in
    subst
      (λ (v : SessionManager).
        (get_name v j ≡ old) × (resolve_by_name v old ≡ err (no_session_named old)))
      stored
      (
        get_name-store_name m i j s name ∙ ground (arith, c, g),
        resolve_found st old none (
            index-store_name m i s name old
            ∙ ground (
              arith,
              =ᵗ_iff name old,
              =ᵗ_iff s.name old,
              =ᵗ_iff s.name [],
              =ᵗ_iff s.name name,
              e,
              u,
              w,
            )),
      )
