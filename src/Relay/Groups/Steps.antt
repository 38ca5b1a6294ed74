-- ===== src/Relay/Groups/Steps.antt =====
-- internal/relay/groups.go: the steps of a handler, for what holds of the storage behind it.
use codewire.Base.{◌≡◌, refl, sym, ◌∙◌, subst}
use codewire.Base.Text.{Text}
use codewire.Base.Result.{Result, ok, err}
use codewire.Base.Action.{Action, follow}
use codewire.Relay.{StoreError}
use codewire.Relay.Membership.{HttpError}
use codewire.Relay.Groups.{internal, internal_result, answer, answer_result}

module _ {ℓ} {S : Type ℓ} where
  pub internal_state : {A : Type 0} (x : Result StoreError A × S) → (internal_result x).1 ≡ x.1
  unfolding internal_result
  internal_state (ok a, s) = refl
  internal_state (err e, s) = refl

  pub answer_state :
      {A : Type 0} (known : Text) (respond : Text → HttpError) (x : Result StoreError A × S)
      → (answer_result known respond x).1 ≡ x.1
  unfolding answer_result
  answer_state known respond (ok a, s) = refl
  answer_state known respond (err e, s) = refl

  -- A step that does not look at the storage.
  pub pure_cases {κ} :
      {A B : Type 0} (P : S → Type κ) (r : Result HttpError A) (next : A → Action S HttpError B)
      (s : S)
      → P s
      → ((a : A) → P (next a s).1)
      → P (follow (r, s) next).1
  pure_cases P (ok a) next s h k = k a
  pure_cases P (err e) next s h k = h

  -- A step that leaves the storage as it is, or at one state, and the rest does.
  pub state_cases {κ} :
      {A B : Type 0} (P : S → Type κ) (x : Result HttpError A × S) (t : S)
      (next : A → Action S HttpError B)
      → x.1 ≡ t
      → P t
      → ((a : A) → P (next a t).1)
      → P (follow x next).1
  state_cases P (ok a, s) t next e h k = subst (λ u. P (next a u).1) (sym e) (k a)
  state_cases P (err f, s) t next e h k = subst P (sym e) h

  pub answer_cases {κ} :
      {A B : Type 0} (P : S → Type κ) (known : Text) (respond : Text → HttpError)
      (call : Action S StoreError A) (s : S) (next : A → Action S HttpError B)
      → P (call s).1
      → ((a : A) → P (next a (call s).1).1)
      → P (follow (answer known respond call s) next).1
  unfolding answer
  answer_cases P known respond call s next h k =
      state_cases P (answer_result known respond (call s)) (call s).1 next
        (answer_state known respond (call s)) h k

  pub read_cases {κ} :
      {A B : Type 0} (P : S → Type κ) (call : Action S StoreError A) (s : S)
      (next : A → Action S HttpError B)
      → (call s).1 ≡ s
      → P s
      → ((a : A) → P (next a s).1)
      → P (follow (internal call s) next).1
  unfolding internal
  read_cases P call s next e h k =
      state_cases P (internal_result (call s)) s next (internal_state (call s) ∙ e) h k
