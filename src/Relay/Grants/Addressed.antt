-- ===== src/Relay/Grants/Addressed.antt =====
-- internal/relay/access.go: whom `resolveAccessGrantAudience` finds.
use codewire.Base.{
  true, ◌≡◌, refl, ap, subst, Option, none, some, List, [], ◌∷◌, ◌++◌, ◌||◌, if_cases, ℕ,
}
use codewire.Base.Text.{Text, codes, ◌=ᵗ◌, trim_space, has_prefix, eq_of_=ᵗ}
use codewire.Base.Result.{Result, ok, err, ok_injective}
use codewire.Base.Action.{Action, follow_cases}
use codewire.Relay.{StoreError}
use codewire.Relay.Membership.{AuthIdentity, HttpError, decimal}
use codewire.Relay.Grants.{
  User, OidcUser, GrantStore, Libraries, Audience, client_audience, github_matches, oidc_matches,
  only_match, is_explicit,
}
use codewire.Relay.Grants.Handlers.{
  audience_error, audience_call, lookup_audience, resolve_access_grant_audience,
}

abbrev client : Text → Text → Audience
client id display = record { subject_kind = codes "client"; subject_id = id; display = display }

-- The one principal that a text names in a storage: the administrator, an explicit subject, or the
-- only user with that name.
pub data AudienceOf {ℓ} {S : Type ℓ} (st : GrantStore S) (raw : Text) (s : S)
    : Audience → Type ℓ where
  admin : raw ≡ codes "admin" → AudienceOf st raw s (client (codes "admin") (codes "admin"))
  explicit :
      (has_prefix raw (codes "github:")
          || has_prefix raw (codes "oidc:")
          || has_prefix raw (codes "user:"))
        ≡ true
      → AudienceOf st raw s (client raw raw)
  github :
      (u : User)
      → (st.user_get_by_username raw s).0 ≡ ok (some u)
      → (st.oidc_user_list_by_username raw (st.user_get_by_username raw s).1).0 ≡ ok []
      → AudienceOf st raw s (client (codes "github:" ++ decimal u.github_id) u.username)
  oidc :
      (u : OidcUser)
      → (st.user_get_by_username raw s).0 ≡ ok none
      → (st.oidc_user_list_by_username raw (st.user_get_by_username raw s).1).0 ≡ ok (u ∷ [])
      → AudienceOf st raw s (client (codes "oidc:" ++ u.sub) u.username)

module _ {ℓ} {S : Type ℓ} (st : GrantStore S) (lib : Libraries) (identity : Option AuthIdentity)
    (now : ℕ) where
  audience_error-ok :
      {A : Type 0} (x : Result StoreError A × S) (a : A)
      → (audience_error st lib identity now x).0 ≡ ok a
      → x.0 ≡ ok a
  unfolding audience_error
  audience_error-ok (ok b, s) a h = ap ok (ok_injective _ _ h)
  audience_error-ok (err e, s) a h = cc

  audience_error-state :
      {A : Type 0} (x : Result StoreError A × S) → (audience_error st lib identity now x).1 ≡ x.1
  unfolding audience_error
  audience_error-state (ok b, s) = refl
  audience_error-state (err e, s) = refl

  matched :
      (raw : Text) (s : S) (user : Option User) (users : List OidcUser) (a : Audience)
      → (st.user_get_by_username raw s).0 ≡ ok user
      → (st.oidc_user_list_by_username raw (st.user_get_by_username raw s).1).0 ≡ ok users
      → only_match lib.quote raw (github_matches user ++ oidc_matches users) ≡ ok a
      → AudienceOf st raw s a
  unfolding only_match github_matches oidc_matches client_audience
  matched raw s none [] a h k e = cc
  matched raw s none (u ∷ []) a h k e =
      subst (AudienceOf st raw s) (ok_injective _ _ e) (oidc u h k)
  matched raw s none (u ∷ v ∷ us) a h k e = cc
  matched raw s (some u) [] a h k e =
      subst (AudienceOf st raw s) (ok_injective _ _ e) (github u h k)
  matched raw s (some u) (v ∷ us) a h k e = cc

  lookup-AudienceOf :
      (raw : Text) (s : S) (a : Audience)
      → (lookup_audience st lib identity now raw s).0 ≡ ok a
      → AudienceOf st raw s a
  unfolding lookup_audience audience_call
  lookup-AudienceOf raw s a =
      let Q : Result HttpError Audience × S → Type ℓ = λ y. y.0 ≡ ok a → AudienceOf st raw s a in
      let x = st.user_get_by_username raw s in
      follow_cases Q (audience_error st lib identity now x) _ (λ e h k. cc)
        (λ user h.
          let t = (audience_error st lib identity now x).1 in
          follow_cases Q (audience_error st lib identity now (st.oidc_user_list_by_username raw t))
            _ (λ e i k. cc)
            (λ users i k.
              matched raw s user users a (audience_error-ok x user h)
                (subst (λ u. (st.oidc_user_list_by_username raw u).0 ≡ ok users)
                  (audience_error-state x)
                  (audience_error-ok (st.oidc_user_list_by_username raw t) users i))
                k))

  pub resolve-AudienceOf :
      (raw : Text) (s : S) (a : Audience)
      → (resolve_access_grant_audience st lib identity now raw s).0 ≡ ok a
      → AudienceOf st (trim_space raw) s a
  unfolding resolve_access_grant_audience is_explicit client_audience
  resolve-AudienceOf raw s a =
      let Q : Action S HttpError Audience → Type ℓ =
        λ m. (m s).0 ≡ ok a → AudienceOf st (trim_space raw) s a in
      if_cases Q (trim_space raw =ᵗ []) (λ c h. cc)
        (λ _.
          if_cases Q (trim_space raw =ᵗ codes "admin")
            (λ c h.
              subst (AudienceOf st (trim_space raw) s) (ok_injective _ _ h)
                (admin (eq_of_=ᵗ _ _ c)))
            (λ _.
              if_cases Q (is_explicit (trim_space raw))
                (λ c h. subst (AudienceOf st (trim_space raw) s) (ok_injective _ _ h) (explicit c))
                (λ _. lookup-AudienceOf (trim_space raw) s a)))
