-- ===== src/Relay/Groups/Runs.antt =====
-- internal/relay/groups.go over internal/store/sqlite.go: a relay that serves requests, one after
-- the other.
use codewire.Base.{ℕ, sym, subst, inl, inr, Option, List, [], ◌∷◌}
use codewire.Base.Text.{Text}
use codewire.Relay.Membership.{AuthIdentity}
use codewire.Relay.Groups.Changes.{
  Call, serve, header_of, Change, created, deleted, added, removed, policy_set,
}
use codewire.Relay.Groups.Safety.{serve-Change}
use codewire.Relay.Sqlite.{Tables}
use codewire.Relay.Sqlite.Instance.{sqlite, sqlite-ReadsKeep}
use codewire.Relay.Sqlite.Consistent.{
  IsConsistent, group_create-IsConsistent, group_delete-IsConsistent, group_member_add-IsConsistent,
  group_member_remove-IsConsistent, group_policy_set-IsConsistent,
}

-- Who asks for what, and when.
pub record Visit : Type 0 where
  pub identity : Option AuthIdentity
  pub time : ℕ
  pub call : Call

unfoldable pub run : List Visit → Tables → Tables
unfolding serve
run [] t = t
run (v ∷ visits) t = run visits (serve (sqlite v.time) v.identity v.time v.call t)

Change-IsConsistent :
    (identity : Option AuthIdentity) (now : ℕ) (header : Text) (t u : Tables)
    → Change (sqlite now) identity now header t u
    → IsConsistent t
    → IsConsistent u
Change-IsConsistent identity now header t u (created g own e) h =
    subst IsConsistent (sym e) (group_create-IsConsistent now g t h)
Change-IsConsistent identity now header t u (deleted n g own e) h =
    subst IsConsistent (sym e) (group_delete-IsConsistent n g t h)
Change-IsConsistent identity now header t u (added m may e) h =
    subst IsConsistent (sym e) (group_member_add-IsConsistent m t h)
Change-IsConsistent identity now header t u (removed n g d s may e) h =
    subst IsConsistent (sym e) (group_member_remove-IsConsistent n g d s t h)
Change-IsConsistent identity now header t u (policy_set p own e) h =
    subst IsConsistent (sym e) (group_policy_set-IsConsistent p t h)

serve-IsConsistent :
    (v : Visit) (t : Tables)
    → IsConsistent t
    → IsConsistent (serve (sqlite v.time) v.identity v.time v.call t)
serve-IsConsistent v t h =
    elim (serve-Change (sqlite v.time) (sqlite-ReadsKeep v.time) v.identity v.time t v.call) [
      | inl c ↦ Change-IsConsistent v.identity v.time (header_of v.call) t _ c h
      | inr e ↦ subst IsConsistent (sym e) h
    ]

-- Whatever requests are served on the tables, one after the other, if they were consistent they
-- stay so: every member and every policy is of a group that is there, and every group has a
-- policy.
pub run-IsConsistent :
    (visits : List Visit) (t : Tables) → IsConsistent t → IsConsistent (run visits t)
unfolding run
run-IsConsistent [] t h = h
run-IsConsistent (v ∷ visits) t h = run-IsConsistent visits _ (serve-IsConsistent v t h)
