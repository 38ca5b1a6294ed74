-- ===== src/Session/Names.antt =====
-- internal/session/session.go: the names of sessions, and how sessions begin and end. The pseudo
-- terminal, the process and the files of a session are left out.
pub mod Index
pub mod Rename
pub mod Exits
mod Tests
use codewire.Base.{
  ℕ, ◌+◌, ◌%◌, ◌^◌, Bool, true, false, ◌&&◌, ◌||◌, not, ◌≡◌, refl, Option, none, some, List, [],
  ◌∷◌, ◌++◌, leb, ◌==◌, if◌then◌else◌, length,
}
use codewire.Base.Text.{Text, ◌=ᵗ◌}
use codewire.Base.Map.{Map, nat_key, text_key, lookup, insert, remove}
use codewire.Base.Result.{Result, ok, err, ◌>>=◌, ◌>>◌, guard, or_fail}
use codewire.Session.Manager.{SessionStatus, running, killed, Event, Session, SessionManager}

pub data NameError : Type 0 where
  invalid_name name_in_use no_session_named hook_failed : Text → NameError
  session_not_found : ℕ → NameError

-- The callback of `SetNameChangeHook`: false where it returns an error. Without one, nothing fails.
abbrev pub NameChangeHook : Type 0
NameChangeHook = ℕ → Text → Text → List Text → Bool

is_alphanumeric : ℕ → Bool
is_alphanumeric c =
    (leb b'a' c && leb c b'z') || (leb b'A' c && leb c b'Z') || (leb b'0' c && leb c b'9')

all_name_bytes : Text → Bool
unfolding is_alphanumeric
all_name_bytes [] = true
all_name_bytes (c ∷ rest) = (is_alphanumeric c || (c == b'-')) && all_name_bytes rest

-- `namePattern`.
pub is_name : Text → Bool
unfolding is_alphanumeric all_name_bytes
is_name [] = false
is_name (c ∷ rest) = is_alphanumeric c && all_name_bytes rest && leb (length rest) 31

pub is_taken : Option ℕ → ℕ → Bool
is_taken none id = false
is_taken (some existing) id = not (existing == id)

-- What `SetName` leaves, behind its checks.
pub store_name : SessionManager → ℕ → Session → Text → SessionManager
store_name m id s name = record m {
  sessions = insert id (record s { name = name }) m.sessions;
  name_index = insert name id (
      if not (s.name =ᵗ []) && not (s.name =ᵗ name)
      then remove s.name m.name_index
      else m.name_index);
}

-- `SetName`.
pub set_name : NameChangeHook → SessionManager → ℕ → Text → Result NameError SessionManager
unfolding is_name is_taken store_name
set_name hook m id name = do
  guard (is_name name) (invalid_name name)
  s ← or_fail (lookup id m.sessions) (session_not_found id)
  guard (not (is_taken (lookup name m.name_index) id)) (name_in_use name)
  guard ((s.name =ᵗ name) || hook id s.name name s.tags) (hook_failed name)
  ok (store_name m id s name)

pub owns : Option ℕ → ℕ → Bool
owns none id = false
owns (some existing) id = existing == id

pub release : SessionManager → ℕ → Option Session → SessionManager
unfolding owns
release m id none = m
release m id (some s) =
    if not (s.name =ᵗ []) && owns (lookup s.name m.name_index) id
    then record m { name_index = remove s.name m.name_index }
    else m

-- `releaseName`.
pub release_name : SessionManager → ℕ → SessionManager
unfolding release
release_name m id = release m id (lookup id m.sessions)

-- `ResolveByName`.
pub resolve_by_name : SessionManager → Text → Result NameError ℕ
resolve_by_name m name = or_fail (lookup name m.name_index) (no_session_named name)

pub name_of : Option Session → Text
name_of none = []
name_of (some s) = s.name

-- `GetName`.
pub get_name : SessionManager → ℕ → Text
unfolding name_of
get_name m id = name_of (lookup id m.sessions)

-- `Launch`: a session is added under the next identifier, with no name. Its message log is what was
-- opened.
pub launch : SessionManager → List Text → Option (List Event) → SessionManager
launch m tags log = record m {
  sessions =
      insert m.next_id
        (record {
          name = [];
          tags = tags;
          message_log = log;
          status = running;
          meta_status = running;
          exit_hook_sent = false;
        })
        m.sessions;
  next_id = (m.next_id + 1) % 2 ^ 32;
}

-- The exit hook, which is set here, runs where it was not sent before, with the name and the tags that
-- were read; without a hook there is no call.
pub send_exit : ℕ → Session → SessionManager → SessionManager
send_exit id s m =
    if s.exit_hook_sent then m else record m { exits = m.exits ++ (id, s.name, s.tags) ∷ [] }

-- The end of `Kill` and of the goroutine that waits for the process: the session is stored as it is
-- then, its name is released, and the exit hook runs.
pub finish_session : SessionManager → ℕ → Session → Session → SessionManager
unfolding send_exit release_name
finish_session m id s ended =
    send_exit id s (release_name (record m { sessions = insert id ended m.sessions }) id)

pub mark_killed : Session → Session
mark_killed s = record s { status = killed; meta_status = killed; exit_hook_sent = true }

pub kill_session : SessionManager → ℕ → Option Session → Result NameError SessionManager
unfolding mark_killed finish_session
kill_session m id none = err (session_not_found id)
kill_session m id (some s) = ok (finish_session m id s (mark_killed s))

-- `Kill`.
pub kill : SessionManager → ℕ → Result NameError SessionManager
unfolding kill_session
kill m id = kill_session m id (lookup id m.sessions)

mark_exited : SessionStatus → Session → Session
mark_exited status s = record s { status = status; exit_hook_sent = true }

pub exit_session : SessionManager → ℕ → SessionStatus → Option Session → SessionManager
unfolding mark_exited finish_session
exit_session m id status none = m
exit_session m id status (some s) = finish_session m id s (mark_exited status s)

-- The goroutine that waits for the process, when that has exited with a status.
pub process_exited : SessionManager → ℕ → SessionStatus → SessionManager
unfolding exit_session
process_exited m id status = exit_session m id status (lookup id m.sessions)

refreshed : Map ℕ Session → Map ℕ Session
refreshed [] = []
refreshed ((id, s) ∷ rest) = (id, record s { meta_status = s.status }) ∷ refreshed rest

-- `RefreshStatuses`.
pub refresh_statuses : SessionManager → SessionManager
refresh_statuses m = record m { sessions = refreshed m.sessions }

-- What happens to the sessions; an operation that fails leaves the manager as it was.
pub data Step : Type 0 where
  launch_step : List Text → Option (List Event) → Step
  name_step : ℕ → Text → Step
  kill_step : ℕ → Step
  exit_step : ℕ → SessionStatus → Step

pub or_same : SessionManager → Result NameError SessionManager → SessionManager
or_same m (ok n) = n
or_same m (err e) = m

pub exec : NameChangeHook → SessionManager → Step → SessionManager
unfolding set_name launch kill process_exited or_same
exec hook m (launch_step tags log) = launch m tags log
exec hook m (name_step id name) = or_same m (set_name hook m id name)
exec hook m (kill_step id) = or_same m (kill m id)
exec hook m (exit_step id status) = process_exited m id status

-- A launched session gets an identifier that no session has.
unfoldable pub IsFresh : SessionManager → Step → Type 0
IsFresh m (launch_step tags log) = lookup m.next_id m.sessions ≡ none
IsFresh m (name_step id name) = Unit
IsFresh m (kill_step id) = Unit
IsFresh m (exit_step id status) = Unit
