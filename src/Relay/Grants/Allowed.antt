-- ===== src/Relay/Grants/Allowed.antt =====
-- internal/relay/access.go: to whom `accessGrantGetHandler` shows a grant.
use codewire.Base.{
  ℕ, true, not, ◌≡◌, refl, sym, ◌∙◌, ap, subst, ◌⊎◌, inl, inr, Option, none, some, [], if_cases,
  if◌then◌else◌,
}
use codewire.Base.Text.{Text, codes, ◌=ᵗ◌, trim_space, eq_of_=ᵗ}
use codewire.Base.Result.{Result, ok, err, guard, or_fail, ok_injective}
use codewire.Base.Action.{Action, pure, follow, follow_cases}
use codewire.Relay.{StoreError, NetworkMember}
use codewire.Relay.Membership.{
  AuthIdentity, HttpError, bad_request, unauthorized, not_found, required_network_id, SubjectError,
  membership_subject, membership_for_request, demand_owner,
}
use codewire.Relay.Groups.{is_given, internal, internal_result}
use codewire.Relay.Groups.Changes.{ReadsKeep, IsOwner}
use codewire.Relay.Groups.Entitled.{demand_owner_cases}
use codewire.Relay.Groups.Steps.{internal_state}
use codewire.Relay.Grants.{AccessGrant, GrantStore, Libraries}
use codewire.Relay.Grants.Handlers.{is_audience, answer_member, demand_member, access_grant_get}

is_audience-true :
    (who : Result SubjectError Text) (g : AccessGrant)
    → is_audience who g ≡ true
    → who ≡ ok g.audience_subject_id
unfolding is_audience
is_audience-true (ok s) g h = ap ok (eq_of_=ᵗ s g.audience_subject_id h)
is_audience-true (err e) g h = cc

pub internal_result-ok {ℓ} :
    {S : Type ℓ} {A : Type 0} (x : Result StoreError A × S) (a : A)
    → (internal_result x).0 ≡ ok a
    → x.0 ≡ ok a
unfolding internal_result
internal_result-ok (ok b, s) a h = ap ok (ok_injective _ _ h)
internal_result-ok (err e, s) a h = cc

or_fail-some : {A E : Type 0} (o : Option A) (e : E) (a : A) → or_fail o e ≡ ok a → o ≡ some a
or_fail-some none e a h = cc
or_fail-some (some b) e a h = ap some (ok_injective _ _ h)

-- A read that leaves the storage as it is.
read_result {ℓ κ} :
    {S : Type ℓ} {A B : Type 0} (Q : Result HttpError B × S → Type κ) (call : Action S StoreError A)
    (s : S) (next : A → Action S HttpError B)
    → (call s).1 ≡ s
    → ((e : HttpError) → Q (err e, s))
    → ((a : A) → (call s).0 ≡ ok a → Q (next a s))
    → Q (follow (internal call s) next)
unfolding internal
read_result Q call s next same h k =
    let x = call s in
    let kept = internal_state x ∙ same in
    follow_cases Q (internal_result x) next (λ e f. subst (λ t. Q (err e, t)) (sym kept) (h e))
      (λ a f. subst (λ t. Q (next a t)) (sym kept) (k a (internal_result-ok x a f)))

module _ {ℓ} {S : Type ℓ} (st : GrantStore S) (identity : Option AuthIdentity) (now : ℕ) where
  -- Who asks is a member of the network.
  abbrev pub IsMember : S → Text → Type 0
  IsMember s n =
      (m : NetworkMember) × ((membership_for_request st.store n identity now s).0 ≡ ok (some m))

  -- A grant that the storage has, for a caller who may see it.
  abbrev pub Shown : S → Text → Text → AccessGrant → Type 0
  Shown s n id g =
      ((st.access_grant_get n id s).0 ≡ ok (some g))
      × (((membership_subject identity ≡ ok g.audience_subject_id) × IsMember s n)
          ⊎ IsOwner st.store identity now s n)

module _ {ℓ} {S : Type ℓ} (st : GrantStore S) (lib : Libraries) (identity : Option AuthIdentity)
    (now : ℕ) where
  answer_member-ok :
      (x : Result SubjectError (Option NetworkMember) × S)
      → (answer_member st lib identity now x).0 ≡ ok tt
      → (m : NetworkMember) × (x.0 ≡ ok (some m))
  unfolding answer_member
  answer_member-ok (ok (some m), s) h = (m, refl)
  answer_member-ok (ok none, s) h = cc
  answer_member-ok (err e, s) h = cc

  demand_member-ok :
      (n : Text) (s : S)
      → (demand_member st lib identity now n s).0 ≡ ok tt
      → IsMember st identity now s n
  unfolding demand_member
  demand_member-ok n s h = answer_member-ok (membership_for_request st.store n identity now s) h

  -- The last steps of the handler, with the grant that was found.
  found-Shown :
      (n id : Text) (f g : AccessGrant) (s : S)
      → ReadsKeep st.store
      → (st.access_grant_get n id s).0 ≡ ok (some f)
      → (follow
          ((if is_audience (membership_subject identity) f
              then demand_member st lib identity now n
              else demand_owner st.store n identity now)
            s)
          (λ u. pure (ok f))).0
        ≡ ok g
      → Shown st identity now s n id g
  found-Shown n id f g s keeps held =
      let Q : Result HttpError AccessGrant × S → Type 0 =
        λ y. y.0 ≡ ok g → Shown st identity now s n id g in
      if_cases (λ (m : Action S HttpError (Unit {0})). Q (follow (m s) (λ u. pure (ok f))))
        (is_audience (membership_subject identity) f)
        (λ c.
          follow_cases Q (demand_member st lib identity now n s) _ (λ e h k. cc)
            (λ u h k.
              subst (Shown st identity now s n id) (ok_injective _ _ k)
                (held, inl (is_audience-true _ f c, demand_member-ok n s h))))
        (λ c.
          demand_owner_cases st.store keeps identity now Q n s _ (λ e k. cc)
            (λ own k. subst (Shown st identity now s n id) (ok_injective _ _ k) (held, inr own)))

  -- On every storage whose reads leave it as it is, a grant is shown only to a caller who is its
  -- audience and a member of the network, or an owner of the network, and it is the one that the
  -- storage has under that identifier.
  pub access_grant_get-Shown :
      (raw_network_id raw_id : Text) (g : AccessGrant) (s : S)
      → ReadsKeep st.store
      → ((n id : Text) (u : S) → (st.access_grant_get n id u).1 ≡ u)
      → (access_grant_get st lib identity now raw_network_id raw_id s).0 ≡ ok g
      → (n : Text) × (required_network_id raw_network_id ≡ ok n)
        × Shown st identity now s n (trim_space raw_id) g
  unfolding access_grant_get internal
  access_grant_get-Shown raw_network_id raw_id g s keeps reads =
      let Q : Result HttpError AccessGrant × S → Type 0 = λ y.
        y.0 ≡ ok g
        → (n : Text) × (required_network_id raw_network_id ≡ ok n)
          × Shown st identity now s n (trim_space raw_id) g in
      follow_cases Q (guard (is_given identity) unauthorized, s) _ (λ e h k. cc)
        (λ u h.
          follow_cases Q (required_network_id raw_network_id, s) _ (λ e h k. cc)
            (λ n named.
              follow_cases Q
                (guard (not (trim_space raw_id =ᵗ [])) (bad_request (codes "grant id required")), s)
                _ (λ e h k. cc)
                (λ v i.
                  read_result Q (st.access_grant_get n (trim_space raw_id)) s _
                    (reads n (trim_space raw_id) s) (λ e k. cc)
                    (λ found j.
                      follow_cases Q (or_fail found (not_found (codes "access grant not found")), s)
                        _ (λ e h k. cc)
                        (λ f l. λ k. (
                          n,
                          named,
                          found-Shown n (trim_space raw_id) f g s keeps
                              (j ∙ ap ok (or_fail-some found _ f l)) k,
                        ))))))
