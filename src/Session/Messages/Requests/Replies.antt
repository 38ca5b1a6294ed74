-- ===== src/Session/Messages/Requests/Replies.antt =====
-- internal/session/session.go: who may reply to a request, and how often.
use codewire.Base.{
  ℕ, Bool, false, ◌≡◌, ◌≢◌, ◌↔◌, ◌⊎◌, refl, ◌∙◌, Option, none, some, List, [], ◌∷◌, arith, All,
  Option-elim,
}
use codewire.Base.Text.{Text, =ᵗ_iff, =ᵗ-refl, =ᵗ_of_ne}
use codewire.Base.Map.{Map, nat_key, text_key, lookup, remove, lookup-remove, lookup-insert}
use codewire.Base.Result.{Result, ok, err}
use codewire.Session.Manager.{Event, reply, Session, PendingRequest, SessionManager}
use codewire.Session.Messages.Requests.Keeps.{
  Keeps, Keeps-pending, deliver_message-Keeps, deliver_request-Keeps, deliver_reply-Keeps,
}
use codewire.Session.Messages.{MessageError, no_pending_request, deliver_message}
use codewire.Session.Messages.Requests.{
  reply_data, send_to_channel, deliver_request, register, or_id, is_given, effective_from,
  check_reply, check_pending, claim, finish_reply, cleanup_request,
}

-- A caller has the right to reply to a request: a token that is given is the one of the request, and
-- the caller is the session that the request was sent to. It is so by its own identity, that of a
-- remote session, or, with no identity at all, by the token.
unfoldable pub HasRight : PendingRequest → ℕ → Text → Option ℕ → Text → ℕ → Type 0
HasRight p from name override token e =
    ((token ≡ []) ⊎ (token ≡ p.reply_token))
    × (e ≡ p.allowed_replier_session_id)
    × (e ≢ 0)
    × ((or_id override from ≡ e)
        ⊎ ((or_id override from ≡ 0) × (name ≡ []) × (override ≡ none) × (token ≢ [])))

unfoldable pub MayReply : SessionManager → ℕ → Text → Option ℕ → Text → Text → ℕ → Type 0
MayReply m from name override id token e =
    (p : PendingRequest) × ((lookup id m.pending_requests ≡ some p)
      × HasRight p from name override token e)

is_given_iff : (o : Option ℕ) → (is_given o ≡ false) ↔ (o ≡ none)
unfolding is_given
is_given_iff none = (λ h. refl, λ h. refl)
is_given_iff (some x) = (λ h. absurd cc, λ h. absurd cc)

check_pending_iff :
    (p : PendingRequest) (from : ℕ) (name : Text) (override : Option ℕ) (id token : Text) (e : ℕ)
    → (check_pending p from name override id token ≡ ok e) ↔ HasRight p from name override token e
unfolding HasRight check_pending effective_from
check_pending_iff p from name override id token e =
    let a = =ᵗ_iff token [] in
    let b = =ᵗ_iff token p.reply_token in
    let c = =ᵗ_iff name [] in
    let d = is_given_iff override in
    (λ h. (ground arith, ground arith, ground arith, ground arith), λ (x, y, z, w). ground arith)

-- Who may reply: a reply passes the checks, as one of session `e`, exactly when the request is
-- pending and the caller has the right to reply to it as `e`.
pub check_reply_iff :
    (m : SessionManager) (from : ℕ) (name : Text) (override : Option ℕ) (id token : Text) (e : ℕ)
    → (check_reply m from name override id token ≡ ok e) ↔ MayReply m from name override id token e
unfolding MayReply check_reply
check_reply_iff m from name override id token e =
    Option-elim (lookup id m.pending_requests)
      (λ h. rw (h) (λ q. absurd cc, λ (p, (q, r)). absurd cc))
      (λ p h. rw (h) (
        λ q. (p, (refl, (check_pending_iff p from name override id token e).0 q)),
        λ (r, (q, s)).
            let w : p ≡ r = cc in rw (w) ((check_pending_iff r from name override id token e).1 s),
      ))

-- The operations that run between two lock sections of a reply. A message or a request whose checks
-- fail changes nothing.
pub data Step : Type 0 where
  message : ℕ → ℕ → Session → Event → Bool → Step
  ask : ℕ → ℕ → Session → Event → Bool → Text → Text → Step
  take : Text → Step
  finish : PendingRequest → ℕ → Text → Text → Text → Bool → Step
  cleanup : Text → Step

after_claim :
    SessionManager → Result MessageError (PendingRequest × SessionManager) → SessionManager
after_claim m (ok (p, n)) = n
after_claim m (err e) = m

pub exec : SessionManager → Step → SessionManager
unfolding after_claim
exec m (message from to target event mirror) = deliver_message m from to target event mirror
exec m (ask from to target event mirror id token) =
    register (deliver_request m from to target event mirror) id token to target.name
exec m (take id) = after_claim m (claim m id)
exec m (finish p from name id body log_sender) = finish_reply m p from name id body log_sender
exec m (cleanup id) = cleanup_request m id

abbrev pub run : SessionManager → List Step → SessionManager
run m [] = m
run m (s ∷ steps) = run (exec m s) steps

-- The step is not a request with this identifier.
abbrev pub IsOther : Text → Step → Type 0
IsOther id (ask from to target event mirror other token) = other ≢ id
IsOther id _ = Unit

unclaimed-register :
    (m n : SessionManager) (id other token name : Text) (to : ℕ)
    → Keeps m n
    → other ≢ id
    → lookup id m.pending_requests ≡ none
    → lookup id (register n other token to name).pending_requests ≡ none
unfolding register
unclaimed-register m n id other token name to k h p =
    let keeps = Keeps-pending m n k in
    let stored : PendingRequest = record {
      reply_channel = n.next_channel;
      reply_token = token;
      allowed_replier_session_id = to;
      allowed_replier_session_name = name;
    } in
    lookup-insert other id stored n.pending_requests ∙ rw (=ᵗ_of_ne other id h, keeps, p)

unclaimed-remove :
    (id other : Text) (pending : Map Text PendingRequest)
    → lookup id pending ≡ none
    → lookup id (remove other pending) ≡ none
unclaimed-remove id other pending p = ground (arith, lookup-remove other id pending)

unclaimed-claim :
    (m : SessionManager) (id other : Text)
    → lookup id m.pending_requests ≡ none
    → lookup id (after_claim m (claim m other)).pending_requests ≡ none
unfolding after_claim claim
unclaimed-claim m id other p =
    Option-elim (lookup other m.pending_requests) (λ h. rw (h) p)
      (λ q h. rw (h) (unclaimed-remove id other m.pending_requests p))

-- A request that is not pending stays so, unless it is asked again.
exec-unclaimed :
    (m : SessionManager) (s : Step) (id : Text)
    → IsOther id s
    → lookup id m.pending_requests ≡ none
    → lookup id (exec m s).pending_requests ≡ none
unfolding exec finish_reply send_to_channel cleanup_request
exec-unclaimed m (message from to target event mirror) id h p =
    let k = Keeps-pending m _ (deliver_message-Keeps m from to target event mirror) in rw (k) p
exec-unclaimed m (ask from to target event mirror other token) id h p =
    unclaimed-register m (deliver_request m from to target event mirror) id other token target.name
      to (deliver_request-Keeps m from to target event mirror) h p
exec-unclaimed m (take other) id h p = unclaimed-claim m id other p
exec-unclaimed m (finish q from name other body log_sender) id h p =
    let e = reply (reply_data m from name other body) in
    let k = Keeps-pending m _ (deliver_reply-Keeps m from e log_sender) in rw (k) p
exec-unclaimed m (cleanup other) id h p = unclaimed-remove id other m.pending_requests p

run-unclaimed :
    (m : SessionManager) (steps : List Step) (id : Text)
    → All (IsOther id) steps
    → lookup id m.pending_requests ≡ none
    → lookup id (run m steps).pending_requests ≡ none
run-unclaimed m [] id h p = p
run-unclaimed m (s ∷ steps) id h p =
    run-unclaimed (exec m s) steps id h.1 (exec-unclaimed m s id h.0 p)

claim-removes :
    (m n : SessionManager) (id : Text) (p : PendingRequest)
    → claim m id ≡ ok (p, n)
    → lookup id n.pending_requests ≡ none
unfolding claim
claim-removes m n id p h = ground (arith, lookup-remove id id m.pending_requests, =ᵗ-refl id)

-- A request is answered at most once: when one reply has claimed it, every other reply fails,
-- also one that had passed its checks before, whatever messages, replies and requests with other
-- identifiers ran in between.
pub claimed_once :
    (m n : SessionManager) (id : Text) (p : PendingRequest) (between : List Step)
    → claim m id ≡ ok (p, n)
    → All (IsOther id) between
    → claim (run n between) id ≡ err (no_pending_request id)
unfolding claim
claimed_once m n id p between h k = rw (run-unclaimed n between id k (claim-removes m n id p h))
