-- ===== src/Relay/Groups/Entitled.antt =====
-- internal/relay/groups.go: what `requireOwner` and the scope of a session's requests let through.
use codewire.Base.{
  ℕ, Bool, true, false, not, ◌≡◌, refl, sym, ◌∙◌, ap, subst, inl, inr, Option, none, some, [],
  if_cases, if◌then◌else◌,
}
use codewire.Base.Text.{Text, codes, ◌=ᵗ◌, eq_of_=ᵗ}
use codewire.Base.Result.{Result, ok, err, guard, ok_injective}
use codewire.Base.Action.{Action, follow, follow_cases}
use codewire.Relay.{NodeRecord, StoreError, Store}
use codewire.Relay.Membership.{
  AuthIdentity, HttpError, bad_request, unauthorized, required_network_id, SubjectError, stored,
  membership_subject, membership_for_request, require_owner, answer_owner, demand_owner,
}
use codewire.Relay.Groups.{
  is_given, bearer, node_auth_from_request, node_scope, owner_scope, scope_of, session_scope,
}
use codewire.Relay.Groups.Changes.{ReadsKeep, IsOwner, MayBind}

node_scope-ok :
    (node : NodeRecord) (raw n d : Text)
    → node_scope node raw ≡ ok (n, d)
    → (node.network_id ≡ n) × (node.name ≡ d)
unfolding node_scope
node_scope-ok node raw n d =
    if_cases (λ r. r ≡ ok (n, d) → (node.network_id ≡ n) × (node.name ≡ d))
      ((if raw =ᵗ [] then node.name else raw) =ᵗ node.name)
      (λ c h.
        let same = ok_injective _ _ h in
        (
          ap (λ (p : Text × Text). p.0) same,
          sym (eq_of_=ᵗ _ _ c) ∙ ap (λ (p : Text × Text). p.1) same,
        ))
      (λ c h. cc)

module _ {ℓ} {S : Type ℓ} (st : Store S) (keeps : ReadsKeep st) (identity : Option AuthIdentity)
    (now : ℕ) where
  stored_state : {A : Type 0} (x : Result StoreError A × S) → (stored x).1 ≡ x.1
  unfolding stored
  stored_state (ok a, s) = refl
  stored_state (err e, s) = refl

  membership_keeps :
      (n : Text) (who : Option AuthIdentity) (s : S) → (membership_for_request st n who now s).1 ≡ s
  unfolding membership_for_request
  membership_keeps n none s = refl
  membership_keeps n (some i) s =
      if_cases (λ (m : Action S SubjectError _). (m s).1 ≡ s) i.is_admin (λ c. refl)
        (λ c.
          follow_cases (λ y. y.1 ≡ s) (membership_subject (some i), s) _ (λ e h. refl)
            (λ u h. stored_state (st.network_member_get n u s) ∙ keeps.network_member_get n u s))

  require_owner_keeps : (n : Text) (s : S) → (require_owner st n identity now s).1 ≡ s
  unfolding require_owner
  require_owner_keeps n s =
      follow_cases (λ y. y.1 ≡ s) (membership_for_request st n identity now s) _
        (λ e h. membership_keeps n identity s) (λ m h. membership_keeps n identity s)

  answer_owner_state : (x : Result SubjectError Bool × S) → (answer_owner x).1 ≡ x.1
  unfolding answer_owner
  answer_owner_state (ok true, s) = refl
  answer_owner_state (ok false, s) = refl
  answer_owner_state (err e, s) = refl

  answer_owner-ok : (x : Result SubjectError Bool × S) → (answer_owner x).0 ≡ ok tt → x.0 ≡ ok true
  unfolding answer_owner
  answer_owner-ok (ok true, s) h = refl
  answer_owner-ok (ok false, s) h = cc
  answer_owner-ok (err e, s) h = cc

  -- Behind the demand the storage is as it was, and who asks is an owner.
  pub demand_owner_cases {κ} :
      {B : Type 0} (Q : Result HttpError B × S → Type κ) (n : Text) (s : S)
      (next : Unit {0} → Action S HttpError B)
      → ((e : HttpError) → Q (err e, s))
      → (IsOwner st identity now s n → Q (next tt s))
      → Q (follow (demand_owner st n identity now s) next)
  unfolding demand_owner
  demand_owner_cases Q n s next h k =
      let x = require_owner st n identity now s in
      let same = answer_owner_state x ∙ require_owner_keeps n s in
      follow_cases Q (answer_owner x) next (λ e f. subst (λ t. Q (err e, t)) (sym same) (h e))
        (λ u f. subst (λ t. Q (next tt t)) (sym same) (k (answer_owner-ok x f)))

  -- What the scope of a request about a session gives.
  abbrev Scoped : S → Text → Result HttpError (Text × Text) × S → Type ℓ
  Scoped s header y =
      (y.1 ≡ s) × ((n d : Text) → y.0 ≡ ok (n, d) → MayBind st identity now header s n d)

  owner_scope-Scoped :
      (header raw d : Text) (s : S) → Scoped s header (owner_scope st identity raw d now s)
  unfolding owner_scope
  owner_scope-Scoped header raw d s =
      follow_cases (Scoped s header) (guard (is_given identity) unauthorized, s) _
        (λ e h. (refl, λ n g k. cc))
        (λ u h.
          follow_cases (Scoped s header) (required_network_id raw, s) _ (λ e g. (refl, λ n i k. cc))
            (λ n g.
              follow_cases (Scoped s header)
                (guard (not (d =ᵗ [])) (bad_request (codes "node_name required")), s) _
                (λ e i. (refl, λ m i k. cc))
                (λ v i.
                  demand_owner_cases (Scoped s header) n s _ (λ e. (refl, λ m j k. cc))
                    (λ own. (
                      refl,
                      λ m j k. inl (
                          subst (IsOwner st identity now s)
                            (ap (λ (p : Text × Text). p.0) (ok_injective _ _ k)) own),
                    )))))

  scope_of-Scoped :
      (header raw d : Text) (s : S) (x : Result StoreError (Option NodeRecord) × S)
      → x.1 ≡ s
      → (node_auth_from_request st header s).0 ≡ x.0
      → Scoped s header (scope_of st identity raw d now x)
  unfolding scope_of
  scope_of-Scoped header raw d s (ok (some node), t) e h =
      (e, λ n g k. let (same, named) = node_scope-ok node d n g k in inr (node, h, same, named))
  scope_of-Scoped header raw d s (ok none, t) e h =
      subst (λ u. Scoped s header (owner_scope st identity raw d now u)) (sym e)
        (owner_scope-Scoped header raw d s)
  scope_of-Scoped header raw d s (err f, t) e h =
      subst (λ u. Scoped s header (owner_scope st identity raw d now u)) (sym e)
        (owner_scope-Scoped header raw d s)

  pub node_auth_keeps : (header : Text) (s : S) → (node_auth_from_request st header s).1 ≡ s
  unfolding node_auth_from_request
  node_auth_keeps header s =
      if_cases (λ (m : Action S StoreError (Option NodeRecord)). (m s).1 ≡ s) (bearer header =ᵗ [])
        (λ c. refl) (λ c. keeps.node_get_by_token (bearer header) s)

  -- Behind the scope the storage is as it was, and who asks may bind that node's sessions.
  pub session_scope_cases {κ} :
      {B : Type 0} (Q : Result HttpError B × S → Type κ) (header raw d : Text) (s : S)
      (next : Text × Text → Action S HttpError B)
      → ((e : HttpError) → Q (err e, s))
      → ((n g : Text) → MayBind st identity now header s n g → Q (next (n, g) s))
      → Q (follow (session_scope st header identity raw d now s) next)
  unfolding session_scope
  session_scope_cases Q header raw d s next h k =
      let x = node_auth_from_request st header s in
      let y = scope_of st identity raw d now x in
      let (same, may) = scope_of-Scoped header raw d s x (node_auth_keeps header s) refl in
      follow_cases Q y next (λ e f. subst (λ t. Q (err e, t)) (sym same) (h e))
        (λ (n, g) f. subst (λ t. Q (next (n, g) t)) (sym same) (k n g (may n g f)))
