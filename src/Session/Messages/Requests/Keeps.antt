-- ===== src/Session/Messages/Requests/Keeps.antt =====
-- internal/session/session.go: what the logs and publications of a message do to pending requests.
use codewire.Base.{
  ℕ, Bool, ◌&&◌, not, ◌≡◌, refl, ◌∙◌, Option, none, some, List, [], ◌==◌, if◌then◌else◌, if_cases,
}
use codewire.Base.Text.{Text}
use codewire.Base.Map.{lookup, nat_key}
use codewire.Session.Manager.{Event, Session, SessionManager, publish}
use codewire.Session.Messages.{log_to, append_log, is_there, tags_of, deliver_message}
use codewire.Session.Messages.Requests.{deliver_request, deliver_reply}

pub Keeps : SessionManager → SessionManager → Type 0
Keeps m n =
    (n.pending_requests ≡ m.pending_requests)
    × (n.channels ≡ m.channels)
    × (n.next_channel ≡ m.next_channel)

pub Keeps-refl : (m : SessionManager) → Keeps m m
unfolding Keeps
Keeps-refl m = (refl, refl, refl)

pub Keeps-trans : (m n o : SessionManager) → Keeps m n → Keeps n o → Keeps m o
unfolding Keeps
Keeps-trans m n o (a, b, c) (x, y, z) = (x ∙ a, y ∙ b, z ∙ c)

log_to-Keeps :
    (id : ℕ) (event : Event) (m : SessionManager) (o : Option Session)
    → Keeps m (log_to id event m o)
unfolding Keeps log_to
log_to-Keeps id event m none = (refl, refl, refl)
log_to-Keeps id event m (some s) = (refl, refl, refl)

pub append_log-Keeps :
    (id : ℕ) (event : Event) (m : SessionManager) → Keeps m (append_log id event m)
unfolding append_log
append_log-Keeps id event m = log_to-Keeps id event m (lookup id m.sessions)

pub publish-Keeps :
    (id : ℕ) (tags : List Text) (event : Event) (m : SessionManager)
    → Keeps m (publish id tags event m)
unfolding Keeps publish
publish-Keeps id tags event m = (refl, refl, refl)

pub if-Keeps :
    (m : SessionManager) (b : Bool) (n o : SessionManager)
    → Keeps m n
    → Keeps m o
    → Keeps m (if b then n else o)
if-Keeps m b n o h k = if_cases (Keeps m) b (λ p. h) (λ p. k)

-- Logged for a session, then published for it.
pub send-Keeps :
    (id : ℕ) (tags : List Text) (event : Event) (m n : SessionManager)
    → Keeps m n
    → Keeps m (publish id tags event (append_log id event n))
send-Keeps id tags event m n h =
    Keeps-trans m (append_log id event n) (publish id tags event (append_log id event n))
      (Keeps-trans m n (append_log id event n) h (append_log-Keeps id event n))
      (publish-Keeps id tags event (append_log id event n))

pub deliver_request-Keeps :
    (m : SessionManager) (from to : ℕ) (target : Session) (event : Event) (mirror : Bool)
    → Keeps m (deliver_request m from to target event mirror)
unfolding deliver_request
deliver_request-Keeps m from to target event mirror =
    let sent = publish to target.tags event (append_log to event m) in
    let k = send-Keeps to target.tags event m m (Keeps-refl m) in
    let sender = lookup from m.sessions in
    if-Keeps m (mirror && is_there sender && not (from == to))
      (publish from (tags_of sender) event (append_log from event sent)) sent
      (send-Keeps from (tags_of sender) event m sent k) k

pub deliver_message-Keeps :
    (m : SessionManager) (from to : ℕ) (target : Session) (event : Event) (mirror : Bool)
    → Keeps m (deliver_message m from to target event mirror)
unfolding deliver_message
deliver_message-Keeps m from to target event mirror =
    let sender = lookup from m.sessions in
    let mirrored = if mirror && is_there sender then append_log from event m else m in
    let sent = publish to target.tags event (append_log to event mirrored) in
    let k = send-Keeps to target.tags event m mirrored (
      if-Keeps m (mirror && is_there sender) (append_log from event m) m
        (append_log-Keeps from event m) (Keeps-refl m)) in
    if-Keeps m (mirror && is_there sender && not (from == to))
      (publish from (tags_of sender) event sent) sent
      (Keeps-trans m sent (publish from (tags_of sender) event sent) k
        (publish-Keeps from (tags_of sender) event sent))
      k

pub deliver_reply-Keeps :
    (m : SessionManager) (from : ℕ) (event : Event) (log_sender : Bool)
    → Keeps m (deliver_reply m from event log_sender)
unfolding deliver_reply
deliver_reply-Keeps m from event log_sender =
    let logged = if log_sender then append_log from event m else m in
    let k =
      if-Keeps m log_sender (append_log from event m) m (append_log-Keeps from event m)
        (Keeps-refl m) in
    if-Keeps m (log_sender && not (from == 0)) (publish from [] event logged) logged
      (Keeps-trans m logged (publish from [] event logged) k (publish-Keeps from [] event logged)) k

pub Keeps-pending : (m n : SessionManager) → Keeps m n → n.pending_requests ≡ m.pending_requests
unfolding Keeps
Keeps-pending m n (a, b, c) = a

pub Keeps-channels :
    (m n : SessionManager)
    → Keeps m n
    → (n.channels ≡ m.channels) × (n.next_channel ≡ m.next_channel)
unfolding Keeps
Keeps-channels m n (a, b, c) = (b, c)
