-- ===== src/NetworkAuth/BundleCache.antt =====
-- internal/networkauth/cache.go: the cache of the verifier bundle. What fetches a bundle is a parameter,
-- an action on a state of its own; the time is an argument.
use codewire.Base.{
  ℕ, ◌+◌, ◌*◌, Bool, true, ltb, ◌≡◌, refl, sym, ◌∙◌, ap, if_cases, Option, none, some,
  if◌then◌else◌,
}
use codewire.Base.Result.{Result, ok, err, ok_injective}
use codewire.Base.Action.{Action}
use codewire.NetworkAuth.{VerifierBundle, second}

-- The error without a function that fetches, or that of the function.
pub data BundleError (E : Type 0) : Type 0 where
  fetcher_nil : BundleError E
  fetch_failed : E → BundleError E

-- `BundleCache`, without its function.
pub record BundleCache : Type 0 where
  pub bundle : Option VerifierBundle

-- Whether a bundle has more than half a minute left.
unfoldable pub is_fresh : ℕ → VerifierBundle → Bool
is_fresh now b = ltb (now + 30 * second) b.expires_at

-- The bundle that is not to be fetched anew.
unfoldable pub fresh : ℕ → Option VerifierBundle → Option VerifierBundle
unfolding is_fresh
fresh now none = none
fresh now (some b) = if is_fresh now b then some b else none

fresh-same :
    (now : ℕ) (o : Option VerifierBundle) (a : VerifierBundle) → fresh now o ≡ some a → o ≡ some a
unfolding fresh
fresh-same now none a h = h
fresh-same now (some b) a h =
    if_cases (λ x. x ≡ some a → some b ≡ some a) (is_fresh now b) (λ c k. k) (λ c k. cc) h

fresh-fresh :
    (now : ℕ) (o : Option VerifierBundle) (a : VerifierBundle)
    → o ≡ some a
    → is_fresh now a ≡ true
    → fresh now o ≡ some a
unfolding fresh
fresh-fresh now o a h k = rw (h, k) refl

module _ {ℓ} {S : Type ℓ} {E : Type 0} where
  unfoldable pub fetched :
      BundleCache
      → Result E VerifierBundle × S
      → Result (BundleError E) VerifierBundle × BundleCache × S
  fetched c (ok b, s) = (ok b, record { bundle = some b }, s)
  fetched c (err e, s) = (err (fetch_failed e), c, s)

  unfoldable pub get_or_fetch :
      Action S E VerifierBundle
      → Option VerifierBundle
      → BundleCache
      → S
      → Result (BundleError E) VerifierBundle × BundleCache × S
  unfolding fetched
  get_or_fetch fetch (some b) c s = (ok b, c, s)
  get_or_fetch fetch none c s = fetched c (fetch s)

  -- `Get`.
  unfoldable pub get :
      Option (Action S E VerifierBundle)
      → ℕ
      → BundleCache
      → S
      → Result (BundleError E) VerifierBundle × BundleCache × S
  unfolding fresh get_or_fetch
  get none now c s = (err fetcher_nil, c, s)
  get (some fetch) now c s = get_or_fetch fetch (fresh now c.bundle) c s

  fetched-bundle :
      (c d : BundleCache) (x : Result E VerifierBundle × S) (t : S) (b : VerifierBundle)
      → fetched c x ≡ (ok b, d, t)
      → d.bundle ≡ some b
  unfolding fetched
  fetched-bundle c d (ok a, s) t b k =
      sym (ap (λ p. p.1.bundle) k) ∙ ap some (ok_injective a b (ap (λ p. p.0) k))
  fetched-bundle c d (err e, s) t b k = absurd (let h = ap (λ p. p.0) k in cc)

  get_or_fetch-bundle :
      (fetch : Action S E VerifierBundle) (o : Option VerifierBundle) (c d : BundleCache) (s t : S)
      (b : VerifierBundle)
      → ((a : VerifierBundle) → o ≡ some a → c.bundle ≡ some a)
      → get_or_fetch fetch o c s ≡ (ok b, d, t)
      → d.bundle ≡ some b
  unfolding get_or_fetch
  get_or_fetch-bundle fetch (some a) c d s t b h k =
      sym (ap (λ p. p.1.bundle) k) ∙ h a refl ∙ ap some (ok_injective a b (ap (λ p. p.0) k))
  get_or_fetch-bundle fetch none c d s t b h k = fetched-bundle c d (fetch s) t b k

  -- A bundle that was given is given again, without a fetch, as long as it is fresh.
  pub get-get :
      (fetch again : Action S E VerifierBundle) (now later : ℕ) (c d : BundleCache) (s t u : S)
      (b : VerifierBundle)
      → get (some fetch) now c s ≡ (ok b, d, t)
      → is_fresh later b ≡ true
      → get (some again) later d u ≡ (ok b, d, u)
  unfolding get get_or_fetch
  get-get fetch again now later c d s t u b k is_left =
      let held =
        get_or_fetch-bundle fetch (fresh now c.bundle) c d s t b (fresh-same now c.bundle) k in
      rw (fresh-fresh later d.bundle b held is_left) refl
