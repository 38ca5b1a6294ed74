-- ===== src/Session/Messages/Logs.antt =====
-- internal/session/session.go: the message logs.
use codewire.Base.{
  ℕ, ◌<◌, ◌≤◌, ◌^◌, ltb, All, All-append, if_cases, Bool, true, false, ◌&&◌, ◌||◌, not, ◌≡◌, refl,
  sym, ap, subst, ◌∙◌, Option, none, some, List, [], ◌∷◌, ◌++◌, append_assoc, arith, ◌==◌,
  if◌then◌else◌, Option-elim, ==_refl, ==_iff,
}
use codewire.Base.Text.{Text}
use codewire.Base.Map.{Map, nat_key, lookup, lookup-insert}
use codewire.Base.Result.{Result, ok, err, ◌>>=◌, ◌>>◌, guard, or_fail, >>=-eq-ok}
use codewire.Session.Manager.{Event, Session, SessionManager, publish}
use codewire.Session.Messages.{
  sender_not_found, recipient_not_found, add_event, log_to, append_log, is_there, tags_of,
  check_ends, message_event, deliver_message, send_message, read_messages, read_tail, or_no_events,
  MessageError, line_too_long, LineSize, max_line, read_event_log, last_of,
}

log_of : Option Session → Option (List Event)
log_of none = none
log_of (some s) = s.message_log

log-log_to :
    (i j : ℕ) (event : Event) (m : SessionManager) (o : Option Session)
    → lookup i m.sessions ≡ o
    → log_of (lookup j (log_to i event m o).sessions) ≡ (
        if i == j
        then add_event event (log_of (lookup j m.sessions))
        else log_of (lookup j m.sessions))
unfolding log_to log_of add_event
log-log_to i j event m none h = ground (arith, ==_iff i j)
log-log_to i j event m (some s) h = ground (
  arith,
  ==_iff i j,
  lookup-insert i j (record s { message_log = add_event event s.message_log }) m.sessions,
)

-- The log of a session when an event was appended to one of them.
log-append_log :
    (i j : ℕ) (event : Event) (m : SessionManager)
    → log_of (lookup j (append_log i event m).sessions) ≡ (
        if i == j
        then add_event event (log_of (lookup j m.sessions))
        else log_of (lookup j m.sessions))
unfolding append_log
log-append_log i j event m = log-log_to i j event m (lookup i m.sessions) refl

sessions-publish_if :
    (b : Bool) (id : ℕ) (tags : List Text) (event : Event) (m : SessionManager)
    → (if b then publish id tags event m else m).sessions ≡ m.sessions
unfolding publish
sessions-publish_if true id tags event m = refl
sessions-publish_if false id tags event m = refl

log-mirrored :
    (b : Bool) (from to : ℕ) (event : Event) (m : SessionManager)
    → log_of (lookup to (if b then append_log from event m else m).sessions) ≡ (
        if b && (from == to)
        then add_event event (log_of (lookup to m.sessions))
        else log_of (lookup to m.sessions))
log-mirrored true from to event m = log-append_log from to event m
log-mirrored false from to event m = refl

log-deliver_message :
    (m : SessionManager) (from to : ℕ) (target : Session) (event : Event) (mirror : Bool)
    → log_of (lookup to (deliver_message m from to target event mirror).sessions)
      ≡ add_event event (
          if (mirror && is_there (lookup from m.sessions)) && (from == to)
          then add_event event (log_of (lookup to m.sessions))
          else log_of (lookup to m.sessions))
unfolding deliver_message
log-deliver_message m from to target event mirror =
    let sender = lookup from m.sessions in
    let mirrored = if mirror && is_there sender then append_log from event m else m in
    let sent = append_log to event mirrored in
    ap (λ (x : Map ℕ Session). log_of (lookup to x))
      (sessions-publish_if (mirror && is_there sender && not (from == to)) from (tags_of sender)
        event (publish to target.tags event sent))
    ∙ published_log sent
    ∙ log-append_log to to event mirrored
    ∙ rw (==_refl to)
        (ap (add_event event) (log-mirrored (mirror && is_there sender) from to event m))
  where
    published_log :
        (n : SessionManager)
        → log_of (lookup to (publish to target.tags event n).sessions)
          ≡ log_of (lookup to n.sessions)
    published_log n = unfold publish in refl

check_ends-found :
    (m : SessionManager) (from to : ℕ) (s : Session)
    → check_ends m from to ≡ ok s
    → lookup to m.sessions ≡ some s
unfolding check_ends
check_ends-found m from to s h =
    found (is_there (lookup from m.sessions) || (from == 0)) (lookup to m.sessions) h
  where
    found :
        (b : Bool) (o : Option Session)
        → (guard b (sender_not_found from) >> or_fail o (recipient_not_found to)) ≡ ok s
        → o ≡ some s
    found true none k = absurd cc
    found true (some t) k = cc
    found false o k = absurd cc

-- A log whose lines all fit is read as it is.
abbrev pub Fits : LineSize → Event → Type 0
Fits size e = size e < 2 ^ 20

read_event_log-whole :
    (size : LineSize) (log : List Event) → All (Fits size) log → read_event_log size log ≡ ok log
unfolding read_event_log
read_event_log-whole size [] h = refl
read_event_log-whole size (e ∷ log) (h, k) =
    let small : ltb (size e) max_line ≡ true = ground arith in
    rw (small, read_event_log-whole size log k) refl

-- One line that does not fit is enough for an error.
read_event_log-long :
    (size : LineSize) (log : List Event) (e : Event)
    → 2 ^ 20 ≤ size e
    → All (Fits size) log
    → (rest : List Event) → read_event_log size (log ++ e ∷ rest) ≡ err line_too_long
unfolding read_event_log
read_event_log-long size [] e h k rest =
    let large : ltb (size e) max_line ≡ false = ground arith in rw large refl
read_event_log-long size (d ∷ log) e h (k, l) rest =
    let small : ltb (size d) max_line ≡ true = ground arith in
    rw (small, read_event_log-long size log e h l rest) refl

read_tail-zero :
    (size : LineSize) (log : List Event) → read_tail size 0 log ≡ read_event_log size log
unfolding read_tail last_of
read_tail-zero size log = unit (read_event_log size log)
  where
    unit : (r : Result MessageError (List Event)) → (r >>= λ es. ok es) ≡ r
    unit (ok es) = refl
    unit (err e) = refl

read_messages-log :
    (size : LineSize) (m : SessionManager) (id : ℕ) (log : List Event)
    → log_of (lookup id m.sessions) ≡ some log
    → read_messages size m id 0 ≡ read_event_log size log
unfolding read_messages log_of or_no_events
read_messages-log size m id log h =
    Option-elim (lookup id m.sessions)
      (λ p. absurd (let q = log_of_nothing (lookup id m.sessions) p in cc))
      (λ s p. rw (p, logged s p) (read_tail-zero size log))
  where
    log_of_nothing : (o : Option Session) → o ≡ none → log_of o ≡ none
    log_of_nothing none e = refl
    log_of_nothing (some s) e = absurd cc

    logged : (s : Session) → lookup id m.sessions ≡ some s → s.message_log ≡ some log
    logged s p = rw (p) at h

added :
    (b t : Bool) (event : Event) (log : List Event)
    → (b ≡ true → t ≡ true)
    → (mirror : Bool)
    → add_event event (if (mirror && t) && b then add_event event (some log) else some log)
      ≡ some (log ++ (if mirror && b then event ∷ event ∷ [] else event ∷ []))
unfolding add_event
added true true event log h true = ap some (append_assoc log (event ∷ []) (event ∷ []))
added true false event log h true = absurd (let e = h refl in cc)
added false true event log h true = refl
added false false event log h true = refl
added b t event log h false = refl

-- The log of the recipient behind an accepted message.
log-send_message :
    (m n : SessionManager) (from to : ℕ) (override body id msg : Text) (mirror : Bool) (s : Session)
    (log : List Event)
    → send_message m from override to body mirror id ≡ ok (msg, n)
    → lookup to m.sessions ≡ some s
    → s.message_log ≡ some log
    → let event = message_event m from override to s id body in
      log_of (lookup to n.sessions)
      ≡ some (log ++ (if mirror && (from == to) then event ∷ event ∷ [] else event ∷ []))
unfolding send_message is_there log_of
log-send_message m n from to override body id msg mirror s log h p q =
    let (t, a, b) = >>=-eq-ok (check_ends m from to) _ h in
    let event = message_event m from override to s id body in
    let e : s ≡ t = let f = check_ends-found m from to t a in cc in
    let d0 : deliver_message m from to t (message_event m from override to t id body) mirror ≡ n =
      cc in
    let d =
      subst
        (λ (x : Session).
          deliver_message m from to x (message_event m from override to x id body) mirror ≡ n)
        (sym e) d0 in
    let there : (from == to) ≡ true → is_there (lookup from m.sessions) ≡ true =
      λ f. sender_there ((==_iff from to).0 f) in
    ap (λ (x : SessionManager). log_of (lookup to x.sessions)) (sym d)
    ∙ log-deliver_message m from to s event mirror
    ∙ rw (recipient_log)
        (added (from == to) (is_there (lookup from m.sessions)) event log there mirror)
  where
    sender_there : from ≡ to → is_there (lookup from m.sessions) ≡ true
    sender_there e = rw (e, p) refl

    recipient_log : log_of (lookup to m.sessions) ≡ some log
    recipient_log = rw (p, q) refl

-- When a message was accepted whose recipient has a log, each line of which fits into the
-- scanner of the log (with its newline, 1 MB), reading the whole log gives what it was and the
-- message at its end: once, but twice where a local session sends it to itself; but when the
-- line of the message does not fit, reading the log is an error.
pub read_messages-send_message :
    (size : LineSize) (m n : SessionManager) (from to : ℕ) (override body id msg : Text)
    (mirror : Bool) (s : Session) (log : List Event)
    → send_message m from override to body mirror id ≡ ok (msg, n)
    → lookup to m.sessions ≡ some s
    → s.message_log ≡ some log
    → All (Fits size) log
    → let event = message_event m from override to s id body in
      read_messages size n to 0 ≡ (
        if ltb (size event) (2 ^ 20)
        then ok (log ++ (if mirror && (from == to) then event ∷ event ∷ [] else event ∷ []))
        else err line_too_long)
read_messages-send_message size m n from to override body id msg mirror s log h p q fits =
    let event = message_event m from override to s id body in
    let logged =
      read_messages-log size n to _
        (log-send_message m n from to override body id msg mirror s log h p q) in
    let more = if mirror && (from == to) then event ∷ event ∷ [] else event ∷ [] in
    logged
    ∙ if_cases (λ r. read_event_log size (log ++ more) ≡ r) (ltb (size event) (2 ^ 20))
        (λ c.
          read_event_log-whole size _
            (All-append (Fits size) log _ fits (new event (ground arith))))
        (λ c. long event (ground arith))
  where
    new :
        (e : Event)
        → Fits size e
        → All (Fits size) (if mirror && (from == to) then e ∷ e ∷ [] else e ∷ [])
    new e k = if_cases (All (Fits size)) (mirror && (from == to)) (λ c. (k, (k, tt))) (λ c. (k, tt))

    long :
        (e : Event)
        → 2 ^ 20 ≤ size e
        → read_event_log size (log ++ (if mirror && (from == to) then e ∷ e ∷ [] else e ∷ []))
          ≡ err line_too_long
    long e k =
        if_cases (λ es. read_event_log size (log ++ es) ≡ err line_too_long)
          (mirror && (from == to)) (λ c. read_event_log-long size log e k fits (e ∷ []))
          (λ c. read_event_log-long size log e k fits [])
