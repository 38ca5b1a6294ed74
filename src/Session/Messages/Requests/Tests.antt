-- ===== src/Session/Messages/Requests/Tests.antt =====
-- internal/session/session.go: messages, requests and replies between two sessions.
use codewire.Base.{ℕ, true, false, ◌≡◌, ◌↔◌, refl, none, some, [], ◌∷◌, arith}
use codewire.Base.Text.{Text, codes, ◌=ᵗ◌}
use codewire.Base.Map.{nat_key, text_key, lookup, remove}
use codewire.Base.Result.{Result, ok, err}
use codewire.Session.Manager.{Session, PendingRequest, SessionManager, new_session_manager, running}
use codewire.Session.Messages.{
  send_message, message_event, read_messages, no_pending_request, MessageError, not_the_replier,
  invalid_reply_token,
}
use codewire.Session.Messages.Requests.{send_request, check_reply, claim}
use codewire.Session.Messages.Requests.Replies.{
  MayReply, check_reply_iff, take, cleanup, run, claimed_once,
}
use codewire.Session.Messages.Requests.Delivery.{Answered, send_reply-send_request}
use codewire.Session.Messages.Logs.{read_messages-send_message}

abbrev session : Text → Session
session name = record {
  name = name;
  tags = [];
  message_log = some [];
  status = running;
  meta_status = running;
  exit_hook_sent = false;
}

abbrev alice : Session
alice = session (codes "alice")

abbrev bob : Session
bob = session (codes "bob")

abbrev start : SessionManager
start = record (new_session_manager 3) { sessions = (1, alice) ∷ (2, bob) ∷ [] }

abbrev req : Text
req = codes "req"

abbrev token : Text
token = codes "tok"

abbrev hello : Text
hello = codes "hello"

abbrev pending : PendingRequest
pending = record {
  reply_channel = 0;
  reply_token = token;
  allowed_replier_session_id = 2;
  allowed_replier_session_name = codes "bob";
}

abbrev asked : SessionManager
asked = record start {
  pending_requests = (req, pending) ∷ [];
  channels = (0, []) ∷ [];
  next_channel = 1;
}

-- The request of session 1 to session 2, its event aside.
abbrev left_by : Result MessageError (ℕ × SessionManager) → SessionManager
left_by (ok (ch, n)) = n
left_by (err e) = start

check_reply_iff_example :
    (check_reply asked 2 [] none req [] ≡ ok 2) ↔ MayReply asked 2 [] none req [] 2
check_reply_iff_example = check_reply_iff asked 2 [] none req [] 2

-- The other session may not reply, and a wrong token does not help.
check_reply_test :
    (check_reply asked 1 [] none req [] ≡ err (not_the_replier req))
    × (check_reply asked 0 [] none req hello ≡ err (invalid_reply_token req))
    × (check_reply asked 0 [] none req token ≡ ok 2)
unfolding check_reply lookup ◌=ᵗ◌
check_reply_test = (refl, refl, refl)

asked_claimed : claim asked req ≡ ok (pending, record asked { pending_requests = [] })
unfolding claim lookup remove ◌=ᵗ◌
asked_claimed = refl

claimed_once_example :
    claim (run (record asked { pending_requests = [] }) (cleanup hello ∷ take req ∷ [])) req
    ≡ err (no_pending_request req)
claimed_once_example =
    claimed_once asked (record asked { pending_requests = [] }) req pending
      (cleanup hello ∷ take req ∷ []) asked_claimed (tt, (tt, tt))

asked_lem :
    send_request start 1 [] 2 hello true req token
    ≡ ok (0, left_by (send_request start 1 [] 2 hello true req token))
unfolding send_request lookup
asked_lem = refl

send_reply-send_request_example :
    Answered (left_by (send_request start 1 [] 2 hello true req token)) 2 req [] hello 2 0
    × Answered (left_by (send_request start 1 [] 2 hello true req token)) 0 req token hello 2 0
send_reply-send_request_example =
    send_reply-send_request start (left_by (send_request start 1 [] 2 hello true req token)) 1 2 0
      [] hello req token hello true asked_lem (omega arith) (λ e. cc)

abbrev sent_by : Result MessageError (Text × SessionManager) → SessionManager
sent_by (ok (msg, n)) = n
sent_by (err e) = start

sent_lem :
    send_message start 1 [] 1 hello true req
    ≡ ok (req, sent_by (send_message start 1 [] 1 hello true req))
unfolding send_message lookup
sent_lem = refl

found_alice : lookup 1 start.sessions ≡ some alice
unfolding lookup
found_alice = refl

-- Session 1 writes to itself.
read_messages-send_message_example :
    read_messages (λ e. 200) (sent_by (send_message start 1 [] 1 hello true req)) 1 0
    ≡ ok (
        message_event start 1 [] 1 alice req hello
        ∷ message_event start 1 [] 1 alice req hello
        ∷ [])
read_messages-send_message_example =
    read_messages-send_message (λ e. 200) start (sent_by (send_message start 1 [] 1 hello true req))
      1 1 [] hello req req true alice [] sent_lem found_alice refl tt
