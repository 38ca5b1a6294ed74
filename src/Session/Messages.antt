-- ===== src/Session/Messages.antt =====
-- internal/session/session.go: direct messages and their logs. A name is read together with the
-- session; the random identifiers are arguments.
pub mod Requests
pub mod Logs
use codewire.Base.{
  ℕ, ◌+◌, ◌*◌, Bool, true, false, ◌&&◌, ◌||◌, not, ◌≡◌, refl, Option, none, some, List, [], ◌∷◌,
  ◌++◌, ltb, ◌==◌, if◌then◌else◌, length, drop, ◌-◌,
}
use codewire.Base.Text.{Text, ◌=ᵗ◌}
use codewire.Base.Map.{Map, nat_key, text_key, lookup, insert, remove}
use codewire.Base.Result.{Result, ok, err, ◌>>=◌, ◌>>◌, guard, or_fail}
use codewire.Session.Manager.{
  DirectMessageData, RequestData, ReplyData, Event, direct_message, request, reply, Session,
  PendingRequest, SessionManager, publish,
}

pub data MessageError : Type 0 where
  sender_not_found recipient_not_found session_not_found : ℕ → MessageError
  no_pending_request invalid_reply_token not_the_replier : Text → MessageError
  line_too_long : MessageError

pub add_event : Event → Option (List Event) → Option (List Event)
add_event event none = none
add_event event (some log) = some (log ++ event ∷ [])

pub log_to : ℕ → Event → SessionManager → Option Session → SessionManager
unfolding add_event
log_to id event m none = m
log_to id event m (some s) = record m {
  sessions = insert id (record s { message_log = add_event event s.message_log }) m.sessions;
}

-- `sess.messageLog.Append(event)`, where the session and its log are there.
pub append_log : ℕ → Event → SessionManager → SessionManager
unfolding log_to
append_log id event m = log_to id event m (lookup id m.sessions)

pub session_name : Option Session → Text
session_name none = []
session_name (some s) = s.name

-- The name of the sender in an event.
pub sender_name : Text → Option Session → Text
unfolding session_name
sender_name override s = if not (override =ᵗ []) then override else session_name s

pub is_there : Option Session → Bool
is_there none = false
is_there (some s) = true

pub tags_of : Option Session → List Text
tags_of none = []
tags_of (some s) = s.tags

-- The first checks of `sendMessageWithMetadata` and of `sendRequestWithMetadata`.
pub check_ends : SessionManager → ℕ → ℕ → Result MessageError Session
unfolding is_there
check_ends m from to = do
  guard (is_there (lookup from m.sessions) || (from == 0)) (sender_not_found from)
  or_fail (lookup to m.sessions) (recipient_not_found to)

pub message_event : SessionManager → ℕ → Text → ℕ → Session → Text → Text → Event
message_event m from override to target id body = direct_message (record {
  message_id = id;
  from = from;
  from_name = sender_name override (lookup from m.sessions);
  to = to;
  to_name = target.name;
  body = body;
})

-- `sendMessageWithMetadata` behind its checks.
pub deliver_message : SessionManager → ℕ → ℕ → Session → Event → Bool → SessionManager
unfolding append_log is_there tags_of publish
deliver_message m from to target event mirror =
    let sender = lookup from m.sessions in
    let mirrored = if mirror && is_there sender then append_log from event m else m in
    let sent = publish to target.tags event (append_log to event mirrored) in
    if mirror && is_there sender && not (from == to)
    then publish from (tags_of sender) event sent
    else sent

-- `sendMessageWithMetadata`.
pub send_message :
    SessionManager → ℕ → Text → ℕ → Text → Bool → Text → Result MessageError (Text × SessionManager)
unfolding check_ends message_event deliver_message
send_message m from override to body mirror id = do
  target ← check_ends m from to
  ok (id, deliver_message m from to target (message_event m from override to target id body) mirror)

-- The size of the scanner's buffer, which is to hold a line and the newline behind it.
abbrev pub max_line : ℕ
max_line = 1024 * 1024

-- The size of the line of an event, which JSON encodes.
abbrev pub LineSize : Type 0
LineSize = Event → ℕ

-- `ReadEventLog` on a file with a line for each event, which JSON decodes again.
pub read_event_log : LineSize → List Event → Result MessageError (List Event)
read_event_log size [] = ok []
read_event_log size (e ∷ rest) =
    let events = read_event_log size rest in
    if ltb (size e) max_line then (do es ← events; ok (e ∷ es)) else err line_too_long

pub last_of : ℕ → List Event → List Event
last_of tail events =
    if ltb 0 tail && ltb tail (length events) then drop (length events - tail) events else events

-- `ReadTail`; all of the events where `tail` is not positive.
pub read_tail : LineSize → ℕ → List Event → Result MessageError (List Event)
unfolding read_event_log last_of
read_tail size tail log = do events ← read_event_log size log; ok (last_of tail events)

pub or_no_events : Option (List Event) → List Event
or_no_events none = []
or_no_events (some events) = events

-- `ReadMessages`.
pub read_messages : LineSize → SessionManager → ℕ → ℕ → Result MessageError (List Event)
unfolding read_tail or_no_events
read_messages size m id tail = do
  s ← or_fail (lookup id m.sessions) (session_not_found id)
  read_tail size tail (or_no_events s.message_log)
