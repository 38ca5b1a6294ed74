-- ===== src/Base/Action.antt =====
-- Go code that changes a state and may return an error; what it changed before the error stays.
use mathlib.Core.Path.{◌≡◌, refl, ap}
use mathlib.Core.Bool.{Bool}
use mathlib.Core.Option.{Option}
use codewire.Base.Result.{Result, ok, err, guard, or_fail}

abbrev pub Action {ℓ} : Type ℓ → Type 0 → Type 0 → Type ℓ
Action S E A = S → Result E A × S

module _ {ℓ} {S : Type ℓ} {E : Type 0} where
  abbrev pub pure : {A : Type 0} → Result E A → Action S E A
  pure r s = (r, s)

  abbrev pub follow : {A B : Type 0} → Result E A × S → (A → Action S E B) → Result E B × S
  follow (ok a, s) next = next a s
  follow (err e, s) next = (err e, s)

  infixl 5 ◌>>=◌
  abbrev pub ◌>>=◌ : {A B : Type 0} → Action S E A → (A → Action S E B) → Action S E B
  ◌>>=◌ first next s = follow (first s) next

  infixl 5 ◌>>◌
  abbrev pub ◌>>◌ : {B : Type 0} → Action S E (Unit {0}) → Action S E B → Action S E B
  first >> next = first >>= λ u. next

  abbrev pub check : Bool → E → Action S E (Unit {0})
  check holds e = pure (guard holds e)

  abbrev pub demand : {A : Type 0} → Option A → E → Action S E A
  demand o e = pure (or_fail o e)

  -- A chain that succeeds had a first step that did.
  pub follow-ok :
      {A B : Type 0} (first : Result E A × S) (next : A → Action S E B) (b : B) (t : S)
      → follow first next ≡ (ok b, t)
      → (a : A) × (s : S) × (first ≡ (ok a, s)) × (next a s ≡ (ok b, t))
  follow-ok (err e, s) next b t h = absurd (let k = ap (λ p. p.0) h in cc)
  follow-ok (ok a, s) next b t h = (a, s, refl, h)

  pub follow-pure :
      {A B : Type 0} (first : Result E A × S) (b c : B) (t : S)
      → follow first (λ a s. (ok b, s)) ≡ (ok c, t)
      → b ≡ c
  follow-pure (err e, s) b c t h = absurd (let k = ap (λ p. p.0) h in cc)
  follow-pure (ok a, s) b c t h = let k = ap (λ p. p.0) h in cc

  -- What holds at every error and behind every success of the first step holds of the chain.
  pub follow_cases {κ} :
      {A B : Type 0} (Q : Result E B × S → Type κ) (first : Result E A × S)
      (next : A → Action S E B)
      → ((e : E) → first.0 ≡ err e → Q (err e, first.1))
      → ((a : A) → first.0 ≡ ok a → Q (next a first.1))
      → Q (follow first next)
  follow_cases Q (err e, s) next h k = h e refl
  follow_cases Q (ok a, s) next h k = k a refl

  -- What holds behind every success of the first step whose rest succeeds, holds behind the chain.
  pub ok_cases {κ} :
      {A B : Type 0} (P : S → Type κ) (b : B) (first : Result E A × S) (next : A → Action S E B)
      → ((a : A) → first.0 ≡ ok a → (next a first.1).0 ≡ ok b → P (next a first.1).1)
      → (follow first next).0 ≡ ok b
      → P (follow first next).1
  ok_cases P b (err e, s) next h k = cc
  ok_cases P b (ok a, s) next h k = h a refl k
