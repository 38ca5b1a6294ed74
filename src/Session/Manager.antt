-- ===== src/Session/Manager.antt =====
-- internal/session/session.go: the state of a `SessionManager`. The messages, requests and replies that
-- it publishes and the calls of its exit hook are kept in the order in which they are made.
use codewire.Base.{ℕ, Bool, Option, List, [], ◌∷◌, ◌++◌}
use codewire.Base.Text.{Text}
use codewire.Base.Map.{Map, nat_key, text_key}

pub record DirectMessageData : Type 0 where
  pub message_id : Text
  pub from : ℕ
  pub from_name : Text
  pub to : ℕ
  pub to_name : Text
  pub body : Text

pub record RequestData : Type 0 where
  pub request_id : Text
  pub reply_token : Text
  pub from : ℕ
  pub from_name : Text
  pub to : ℕ
  pub to_name : Text
  pub body : Text

pub record ReplyData : Type 0 where
  pub request_id : Text
  pub from : ℕ
  pub from_name : Text
  pub body : Text

-- The events of the message log.
pub data Event : Type 0 where
  direct_message : DirectMessageData → Event
  request : RequestData → Event
  reply : ReplyData → Event

-- An exit code is a Go `int`; it is -1 where the wait failed for another reason.
pub data SessionStatus : Type 0 where
  running killed wait_failed : SessionStatus
  completed : ℕ → SessionStatus

-- The message log is none where it could not be opened. `status` is what the `StatusWatcher` holds,
-- and `meta_status` is `Meta.Status`, which is written as its text.
pub record Session : Type 0 where
  pub name : Text
  pub tags : List Text
  pub message_log : Option (List Event)
  pub status : SessionStatus
  pub meta_status : SessionStatus
  pub exit_hook_sent : Bool

-- The channel of a request is given by its number.
pub record PendingRequest : Type 0 where
  pub reply_channel : ℕ
  pub reply_token : Text
  pub allowed_replier_session_id : ℕ
  pub allowed_replier_session_name : Text

pub record SessionManager : Type 0 where
  pub sessions : Map ℕ Session
  pub name_index : Map Text ℕ
  pub next_id : ℕ
  pub pending_requests : Map Text PendingRequest
  pub channels : Map ℕ (List ReplyData)
  pub next_channel : ℕ
  pub published : List (ℕ × List Text × Event)
  pub exits : List (ℕ × Text × List Text)

abbrev pub new_session_manager : ℕ → SessionManager
new_session_manager start = record {
  sessions = [];
  name_index = [];
  next_id = start;
  pending_requests = [];
  channels = [];
  next_channel = 0;
  published = [];
  exits = [];
}

unfoldable pub publish : ℕ → List Text → Event → SessionManager → SessionManager
publish id tags event m = record m { published = m.published ++ (id, tags, event) ∷ [] }
