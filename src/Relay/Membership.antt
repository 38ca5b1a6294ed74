-- ===== src/Relay/Membership.antt =====
-- internal/relay/membership.go: who belongs to a network, and who owns it; with `requiredNetworkID` of
-- relay.go and the identity of internal/oauth/session.go.
use codewire.Base.{
  ℕ, zero, suc, ◌+◌, ◌/◌, ◌%◌, Bool, true, false, ◌||◌, not, Option, none, some, [], ◌∷◌, ◌++◌, ltb,
  ◌==◌, if◌then◌else◌, length, drop,
}
use codewire.Base.Text.{Text, codes, ◌=ᵗ◌, trim_space, to_lower, has_prefix}
use codewire.Base.Result.{Result, ok, err}
use codewire.Base.Action.{Action, pure, ◌>>=◌}
use codewire.NetworkAuth.{resolve_network_id}
use codewire.Relay.{NetworkMember, network_role_owner, StoreError, Store}

pub record AuthIdentity : Type 0 where
  pub user_id : ℕ
  pub sub : Text
  pub username : Text
  pub is_admin : Bool

-- An answer that is not a success: its status and its text.
pub record HttpError : Type 0 where
  pub status : ℕ
  pub message : Text

abbrev pub bad_request : Text → HttpError
bad_request s = record { status = 400; message = s }

abbrev pub unauthorized : HttpError
unauthorized = record { status = 401; message = codes "unauthorized" }

abbrev pub forbidden : Text → HttpError
forbidden s = record { status = 403; message = s }

abbrev pub not_found : Text → HttpError
not_found s = record { status = 404; message = s }

abbrev pub conflict : Text → HttpError
conflict s = record { status = 409; message = s }

abbrev pub internal_error : HttpError
internal_error = record { status = 500; message = codes "internal error" }

abbrev pub owner_required : HttpError
owner_required = forbidden (codes "owner access required")

-- `requiredNetworkID`.
unfoldable pub required_network_id : Text → Result HttpError Text
required_network_id raw =
    if resolve_network_id raw =ᵗ []
    then err (bad_request (codes "network_id required"))
    else ok (resolve_network_id raw)

-- The decimal digits of a number, `%d`.
decimal_loop : ℕ → ℕ → Text → Text
decimal_loop zero n acc = acc
decimal_loop (suc fuel) n acc = elim (ltb n 10) [
  | true ↦ (n + b'0') ∷ acc
  | false ↦ decimal_loop fuel (n / 10) ((n % 10 + b'0') ∷ acc)
]

unfoldable pub decimal : ℕ → Text
unfolding decimal_loop
decimal n = decimal_loop (suc n) n []

unfoldable pub normalize_trimmed : Text → Text
normalize_trimmed sub =
    if sub =ᵗ []
    then []
    else if has_prefix sub (codes "github:")
        || has_prefix sub (codes "oidc:")
        || has_prefix sub (codes "user:")
    then sub
    else if has_prefix sub (codes "platform:")
    then codes "user:" ++ drop (length (codes "platform:")) sub
    else codes "oidc:" ++ sub

-- `normalizeIdentitySubject`.
unfoldable pub normalize_identity_subject : Text → Text
unfolding normalize_trimmed
normalize_identity_subject sub = normalize_trimmed (trim_space sub)

pub data SubjectError : Type 0 where
  subject_unauthorized unsupported_identity : SubjectError
  subject_store : StoreError → SubjectError

-- `membershipSubject`.
unfoldable pub membership_subject : Option AuthIdentity → Result SubjectError Text
unfolding normalize_identity_subject decimal
membership_subject none = err subject_unauthorized
membership_subject (some i) =
    if i.is_admin
    then ok (codes "admin")
    else if not (i.sub =ᵗ [])
    then ok (normalize_identity_subject i.sub)
    else if not (i.user_id == 0)
    then ok (codes "github:" ++ decimal i.user_id)
    else err unsupported_identity

unfoldable pub admin_member : Text → ℕ → NetworkMember
admin_member network_id now = record {
  network_id = network_id;
  subject = codes "admin";
  role = network_role_owner;
  created_at = now;
  created_by = [];
}

-- `strings.EqualFold`, where the second text has no letter that a rune outside of ASCII folds to.
unfoldable pub equal_fold : Text → Text → Bool
equal_fold s t = to_lower s =ᵗ to_lower t

unfoldable pub is_owner : Option NetworkMember → Bool
unfolding equal_fold
is_owner none = false
is_owner (some m) = equal_fold m.role network_role_owner

module _ {ℓ} {S : Type ℓ} where
  -- An error of the storage, with the others.
  unfoldable pub stored : {A : Type 0} → Result StoreError A × S → Result SubjectError A × S
  stored (ok a, s) = (ok a, s)
  stored (err e, s) = (err (subject_store e), s)

  unfoldable pub answer_owner : Result SubjectError Bool × S → Result HttpError (Unit {0}) × S
  answer_owner (ok true, s) = (ok tt, s)
  answer_owner (ok false, s) = (err owner_required, s)
  answer_owner (err e, s) = (err internal_error, s)

module _ {ℓ} {S : Type ℓ} (st : Store S) where
  -- `membershipForRequest`, at a time.
  unfoldable pub membership_for_request :
      Text → Option AuthIdentity → ℕ → Action S SubjectError (Option NetworkMember)
  unfolding membership_subject admin_member stored
  membership_for_request network_id none now = pure (err subject_unauthorized)
  membership_for_request network_id (some i) now =
      if i.is_admin then pure (ok (some (admin_member network_id now))) else do
        subject ← pure (membership_subject (some i))
        λ s. stored (st.network_member_get network_id subject s)

  -- `requireMembership`, whose flag says whether the member is there, and `requireOwner`.
  unfoldable pub require_owner : Text → Option AuthIdentity → ℕ → Action S SubjectError Bool
  unfolding membership_for_request is_owner
  require_owner network_id identity now = do
    member ← membership_for_request network_id identity now
    pure (ok (is_owner member))

  -- What each handler does with the answer of `requireOwner`.
  unfoldable pub demand_owner : Text → Option AuthIdentity → ℕ → Action S HttpError (Unit {0})
  unfolding require_owner answer_owner
  demand_owner network_id identity now s = answer_owner (require_owner network_id identity now s)
