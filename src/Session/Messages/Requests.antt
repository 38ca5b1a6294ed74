-- ===== src/Session/Messages/Requests.antt =====
-- internal/session/session.go: requests and replies.
pub mod Keeps
pub mod Replies
pub mod Delivery
mod Tests
use codewire.Base.{
  ℕ, ◌+◌, Bool, true, false, ◌&&◌, ◌||◌, not, ◌≡◌, refl, Option, none, some, List, [], ◌∷◌, ◌++◌,
  ltb, ◌==◌, if◌then◌else◌, length, drop, ◌-◌,
}
use codewire.Base.Text.{Text, ◌=ᵗ◌}
use codewire.Base.Map.{Map, nat_key, text_key, lookup, insert, remove}
use codewire.Base.Result.{Result, ok, err, ◌>>=◌, ◌>>◌, guard, or_fail}
use codewire.Session.Manager.{
  DirectMessageData, RequestData, ReplyData, Event, direct_message, request, reply, Session,
  PendingRequest, SessionManager, publish,
}
use codewire.Session.Messages.{
  MessageError, sender_not_found, recipient_not_found, no_pending_request, invalid_reply_token,
  not_the_replier, append_log, sender_name, is_there, tags_of, check_ends,
}

pub request_event : SessionManager → ℕ → Text → ℕ → Session → Text → Text → Text → Event
request_event m from override to target id token body = request (record {
  request_id = id;
  reply_token = token;
  from = from;
  from_name = sender_name override (lookup from m.sessions);
  to = to;
  to_name = target.name;
  body = body;
})

pub deliver_request : SessionManager → ℕ → ℕ → Session → Event → Bool → SessionManager
unfolding append_log is_there tags_of publish
deliver_request m from to target event mirror =
    let sender = lookup from m.sessions in
    let sent = publish to target.tags event (append_log to event m) in
    if mirror && is_there sender && not (from == to)
    then publish from (tags_of sender) event (append_log from event sent)
    else sent

-- The registration of the reply channel; the channel is made with room for one reply.
pub register : SessionManager → Text → Text → ℕ → Text → SessionManager
register m id token to to_name = record m {
  pending_requests =
      insert id
        (record {
          reply_channel = m.next_channel;
          reply_token = token;
          allowed_replier_session_id = to;
          allowed_replier_session_name = to_name;
        })
        m.pending_requests;
  channels = insert m.next_channel [] m.channels;
  next_channel = m.next_channel + 1;
}

-- `sendRequestWithMetadata`: the number of the channel, and the manager that is left.
pub send_request :
    SessionManager
    → ℕ
    → Text
    → ℕ
    → Text
    → Bool
    → Text
    → Text
    → Result MessageError (ℕ × SessionManager)
unfolding check_ends request_event deliver_request register
send_request m from override to body mirror id token = do
  target ← check_ends m from to
  ok (
    m.next_channel,
    register
        (deliver_request m from to target (request_event m from override to target id token body)
          mirror)
        id token to target.name,
  )

pub or_id : Option ℕ → ℕ → ℕ
or_id none id = id
or_id (some override) id = override

is_given : Option ℕ → Bool
is_given none = false
is_given (some override) = true

-- The session that a reply comes from.
pub effective_from : PendingRequest → ℕ → Text → Option ℕ → Text → ℕ
unfolding or_id is_given
effective_from p from name override token =
    if (or_id override from == 0) && (name =ᵗ []) && not (is_given override) && not (token =ᵗ [])
    then p.allowed_replier_session_id
    else or_id override from

-- The checks on the request that is found.
pub check_pending : PendingRequest → ℕ → Text → Option ℕ → Text → Text → Result MessageError ℕ
unfolding effective_from
check_pending p from name override id token = do
  guard ((token =ᵗ []) || (token =ᵗ p.reply_token)) (invalid_reply_token id)
  guard
      (not (effective_from p from name override token == 0)
        && (effective_from p from name override token == p.allowed_replier_session_id))
      (not_the_replier id)
  ok (effective_from p from name override token)

-- `sendReplyWithMetadata` up to its second lock: who replies.
pub check_reply : SessionManager → ℕ → Text → Option ℕ → Text → Text → Result MessageError ℕ
unfolding check_pending
check_reply m from name override id token = do
  p ← or_fail (lookup id m.pending_requests) (no_pending_request id)
  check_pending p from name override id token

-- The second lock: the request that is there is taken out.
pub claim : SessionManager → Text → Result MessageError (PendingRequest × SessionManager)
claim m id = do
  p ← or_fail (lookup id m.pending_requests) (no_pending_request id)
  ok (p, record m { pending_requests = remove id m.pending_requests })

-- A send that does not block, to a channel with room for one reply.
pub offer : ReplyData → Option (List ReplyData) → List ReplyData
offer r none = []
offer r (some []) = r ∷ []
offer r (some (first ∷ rest)) = first ∷ rest

pub send_to_channel : ℕ → ReplyData → SessionManager → SessionManager
unfolding offer
send_to_channel ch r m = record m {
  channels = insert ch (offer r (lookup ch m.channels)) m.channels;
}

pub reply_data : SessionManager → ℕ → Text → Text → Text → ReplyData
reply_data m from name id body = record {
  request_id = id;
  from = from;
  from_name = sender_name name (lookup from m.sessions);
  body = body;
}

pub deliver_reply : SessionManager → ℕ → Event → Bool → SessionManager
unfolding append_log publish
deliver_reply m from event log_sender =
    let logged = if log_sender then append_log from event m else m in
    if log_sender && not (from == 0) then publish from [] event logged else logged

-- `sendReplyWithMetadata` behind its second lock.
pub finish_reply : SessionManager → PendingRequest → ℕ → Text → Text → Text → Bool → SessionManager
unfolding reply_data deliver_reply send_to_channel
finish_reply m p from name id body log_sender =
    let r = reply_data m from name id body in
    send_to_channel p.reply_channel r (deliver_reply m from (reply r) log_sender)

-- `sendReplyWithMetadata`.
pub send_reply :
    SessionManager
    → ℕ
    → Text
    → Option ℕ
    → Text
    → Text
    → Text
    → Bool
    → Result MessageError SessionManager
unfolding check_reply claim finish_reply
send_reply m from name override id token body log_sender = do
  effective ← check_reply m from name override id token
  (p, taken) ← claim m id
  ok (finish_reply taken p effective name id body log_sender)

-- `CleanupRequest`.
pub cleanup_request : SessionManager → Text → SessionManager
cleanup_request m id = record m { pending_requests = remove id m.pending_requests }
