-- ===== src/Session/Messages/Requests/Delivery.antt =====
-- internal/session/session.go: the way of a reply to the caller that waits for it.
use codewire.Base.{
  ℕ, Bool, true, ◌≡◌, ◌≢◌, refl, ap, subst, ◌∙◌, Option, none, some, [], ◌∷◌, ==_refl, inl, inr,
}
use codewire.Base.Text.{Text, =ᵗ-refl}
use codewire.Base.Map.{Map, nat_key, text_key, lookup, remove, lookup-remove, lookup-insert}
use codewire.Base.Result.{ok, >>=-eq-ok}
use codewire.Session.Manager.{reply, PendingRequest, SessionManager}
use codewire.Session.Messages.{check_ends}
use codewire.Session.Messages.Requests.{
  request_event, register, deliver_request, send_request, check_reply, claim, reply_data,
  finish_reply, send_to_channel, or_id, offer, deliver_reply, send_reply,
}
use codewire.Session.Messages.Requests.Keeps.{
  Keeps-pending, Keeps-channels, deliver_request-Keeps, deliver_reply-Keeps,
}
use codewire.Session.Messages.Requests.Replies.{HasRight, MayReply, check_reply_iff}

-- The request that waits on a channel to which nothing was sent.
pub IsWaiting : SessionManager → Text → PendingRequest → Type 0
IsWaiting m id p =
    (lookup id m.pending_requests ≡ some p) × (lookup p.reply_channel m.channels ≡ some [])

register-IsWaiting :
    (m : SessionManager) (id token name : Text) (to : ℕ)
    → IsWaiting (register m id token to name) id (record {
      reply_channel = m.next_channel;
      reply_token = token;
      allowed_replier_session_id = to;
      allowed_replier_session_name = name;
    })
unfolding IsWaiting register
register-IsWaiting m id token name to = (
  lookup-insert id id _ m.pending_requests ∙ rw (=ᵗ-refl id),
  lookup-insert m.next_channel m.next_channel [] m.channels ∙ rw (==_refl m.next_channel),
)

channels-finish_reply :
    (m : SessionManager) (p : PendingRequest) (e : ℕ) (name id body : Text) (log_sender : Bool)
    → lookup p.reply_channel m.channels ≡ some []
    → (lookup p.reply_channel (finish_reply m p e name id body log_sender).channels
        ≡ some (reply_data m e name id body ∷ []))
      × ((finish_reply m p e name id body log_sender).pending_requests ≡ m.pending_requests)
unfolding finish_reply send_to_channel offer
channels-finish_reply m p e name id body log_sender v =
    let r = reply_data m e name id body in
    let k = deliver_reply-Keeps m e (reply r) log_sender in
    let (a, b) = Keeps-channels m (deliver_reply m e (reply r) log_sender) k in
    (
      lookup-insert p.reply_channel p.reply_channel _ _ ∙ rw (==_refl p.reply_channel, a, v),
      Keeps-pending m (deliver_reply m e (reply r) log_sender) k,
    )

send_reply-IsWaiting :
    (m : SessionManager) (from : ℕ) (name : Text) (override : Option ℕ) (id token body : Text)
    (log_sender : Bool) (e : ℕ) (p : PendingRequest)
    → IsWaiting m id p
    → check_reply m from name override id token ≡ ok e
    → (n : SessionManager) × ((send_reply m from name override id token body log_sender ≡ ok n)
        × (lookup p.reply_channel n.channels ≡ some (reply_data m e name id body ∷ []))
        × (lookup id n.pending_requests ≡ none))
unfolding IsWaiting send_reply claim reply_data
send_reply-IsWaiting m from name override id token body log_sender e p (w, v) h =
    let taken : SessionManager = record m { pending_requests = remove id m.pending_requests } in
    let (a, b) = channels-finish_reply taken p e name id body log_sender v in
    (
      finish_reply taken p e name id body log_sender,
      (
        rw (h, w),
        a,
        ap (λ (x : Map Text PendingRequest). lookup id x) b
            ∙ lookup-remove id id m.pending_requests
            ∙ rw (=ᵗ-refl id),
      ),
    )

-- The request that `send_request` registers.
abbrev registered : SessionManager → Text → ℕ → Text → PendingRequest
registered m token to name = record {
  reply_channel = m.next_channel;
  reply_token = token;
  allowed_replier_session_id = to;
  allowed_replier_session_name = name;
}

send_request-IsWaiting :
    (m n : SessionManager) (from to ch : ℕ) (override body id token : Text) (mirror : Bool)
    → send_request m from override to body mirror id token ≡ ok (ch, n)
    → (name : Text) × ((ch ≡ m.next_channel) × IsWaiting n id (registered m token to name))
unfolding send_request
send_request-IsWaiting m n from to ch override body id token mirror h =
    let (s, a, b) = >>=-eq-ok (check_ends m from to) _ h in
    let event = request_event m from override to s id token body in
    let d = deliver_request m from to s event mirror in
    let k = Keeps-channels m d (deliver_request-Keeps m from to s event mirror) in
    let c : ch ≡ m.next_channel = cc in
    let e : register d id token to s.name ≡ n = cc in
    (
      s.name,
      (
        c,
        subst (λ x. IsWaiting x id (registered m token to s.name)) e
            (subst (λ x. IsWaiting (register d id token to s.name) id (at_channel x s.name)) k.1
              (register-IsWaiting d id token s.name to)),
      ),
    )
  where
    at_channel : ℕ → Text → PendingRequest
    at_channel x name = record {
      reply_channel = x;
      reply_token = token;
      allowed_replier_session_id = to;
      allowed_replier_session_name = name;
    }

-- What becomes of a reply: it is accepted, it is the one thing that the requester's channel holds,
-- and the request is settled.
pub Answered : SessionManager → ℕ → Text → Text → Text → ℕ → ℕ → Type 0
Answered m from id token text e ch =
    (n : SessionManager) × ((send_reply m from [] none id token text true ≡ ok n)
      × (lookup ch n.channels ≡ some (reply_data m e [] id text ∷ []))
      × (lookup id n.pending_requests ≡ none))

IsWaiting-Answered :
    (m : SessionManager) (from ch : ℕ) (id token text : Text) (p : PendingRequest)
    → IsWaiting m id p
    → ch ≡ p.reply_channel
    → HasRight p from [] none token p.allowed_replier_session_id
    → Answered m from id token text p.allowed_replier_session_id ch
unfolding Answered MayReply IsWaiting
IsWaiting-Answered m from ch id token text p w c r =
    let e = p.allowed_replier_session_id in
    rw (c) (
      send_reply-IsWaiting m from [] none id token text true e p w
        ((check_reply_iff m from [] none id token e).1 (p, (w.0, r))))

-- A request that was sent to a session, which has not the number 0, with a token that is not
-- empty, is answered by that session, under its own identity, or by a caller without any that
-- has the request's token: the reply, as one of that session, is the one thing that the
-- requester's channel then holds, and the request is settled.
pub send_reply-send_request :
    (m n : SessionManager) (from to ch : ℕ) (override body id token text : Text) (mirror : Bool)
    → send_request m from override to body mirror id token ≡ ok (ch, n)
    → to ≢ 0
    → token ≢ []
    → Answered n to id [] text to ch × Answered n 0 id token text to ch
send_reply-send_request m n from to ch override body id token text mirror h z t =
    let (name, (c, w)) = send_request-IsWaiting m n from to ch override body id token mirror h in
    let p = registered m token to name in
    (
      IsWaiting-Answered n to ch id [] text p w c (own p z refl),
      IsWaiting-Answered n 0 ch id token text p w c (by_token p z t refl),
    )
  where
    own :
        (p : PendingRequest)
        → to ≢ 0
        → to ≡ p.allowed_replier_session_id
        → HasRight p to [] none [] p.allowed_replier_session_id
    own p u e = unfold HasRight or_id in (inl refl, refl, subst (λ x. x ≢ 0) e u, inl e)

    by_token :
        (p : PendingRequest)
        → p.allowed_replier_session_id ≢ 0
        → token ≢ []
        → token ≡ p.reply_token
        → HasRight p 0 [] none token p.allowed_replier_session_id
    by_token p u v e = unfold HasRight or_id in (inr e, refl, u, inr (refl, refl, refl, v))
