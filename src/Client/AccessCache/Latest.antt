-- ===== src/Client/AccessCache/Latest.antt =====
-- internal/client/access_cache.go: which grant `ResolveAcceptedAccessGrant` picks.
use codewire.Base.{
  ℕ, ◌≤◌, Bool, true, false, ◌≡◌, refl, sym, ◌∙◌, subst, ◌⊎◌, inl, inr, List, [], ◌∷◌, arith, ltb,
  if_cases, All, Any, All-map, Any-map, Bool-cases,
}
use codewire.Base.Text.{Text}
use codewire.Base.Json.{Json}
use codewire.Base.Result.{Result, ok, err}
use codewire.Client.AccessCache.{
  AcceptedAccessGrant, Disk, CacheError, not_found, select, remove_accepted_access_grant,
}
use codewire.Client.AccessCache.Resolve.{insert_latest, sort_latest, Relay, drops, try_grants}

abbrev pub Grant : Type 0
Grant = AcceptedAccessGrant

-- No grant of the list expires later than that time.
abbrev pub UpTo : ℕ → List Grant → Type 0
UpTo t = All (λ h. h.expires_at ≤ t)

abbrev pub IsSorted : List Grant → Type 0
IsSorted [] = Unit
IsSorted (g ∷ gs) = UpTo g.expires_at gs × IsSorted gs

module _ (P : Grant → Type 0) where
  All-insert : (g : Grant) (gs : List Grant) → P g → All P gs → All P (insert_latest g gs)
  unfolding insert_latest
  All-insert g [] h k = (h, tt)
  All-insert g (x ∷ gs) h k =
      if_cases (All P) (ltb g.expires_at x.expires_at) (λ c. (k.0, All-insert g gs h k.1))
        (λ c. (h, k))

  insert-All : (g : Grant) (gs : List Grant) → All P (insert_latest g gs) → P g × All P gs
  unfolding insert_latest
  insert-All g [] h = h
  insert-All g (x ∷ gs) h =
      if_cases (λ l. All P l → P g × (P x × All P gs)) (ltb g.expires_at x.expires_at)
        (λ c k. let (a, b) = insert-All g gs k.1 in (a, (k.0, b))) (λ c k. k) h

  pub sort-All : (gs : List Grant) → All P (sort_latest gs) → All P gs
  unfolding sort_latest
  sort-All [] h = h
  sort-All (g ∷ gs) h = let (a, b) = insert-All g (sort_latest gs) h in (a, sort-All gs b)

  insert-Any : (g : Grant) (gs : List Grant) → Any P (insert_latest g gs) → P g ⊎ Any P gs
  unfolding insert_latest
  insert-Any g [] h = h
  insert-Any g (x ∷ gs) h =
      if_cases (λ l. Any P l → P g ⊎ (P x ⊎ Any P gs)) (ltb g.expires_at x.expires_at)
        (λ c k. elim k [
          | inl a ↦ inr (inl a)
          | inr b ↦ elim (insert-Any g gs b) [ inl d ↦ inl d | inr d ↦ inr (inr d) ]
        ])
        (λ c k. k) h

  pub sort-Any : (gs : List Grant) → Any P (sort_latest gs) → Any P gs
  unfolding sort_latest
  sort-Any [] h = h
  sort-Any (g ∷ gs) h = ground (arith, insert-Any g (sort_latest gs), sort-Any gs)

insert-IsSorted : (g : Grant) (gs : List Grant) → IsSorted gs → IsSorted (insert_latest g gs)
unfolding insert_latest
insert-IsSorted g [] h = (tt, tt)
insert-IsSorted g (x ∷ gs) h =
    if_cases IsSorted (ltb g.expires_at x.expires_at)
      (λ c. (
        All-insert (λ y. y.expires_at ≤ x.expires_at) g gs (ground arith) h.0,
        insert-IsSorted g gs h.1,
      ))
      (λ c.
        let le : x.expires_at ≤ g.expires_at = ground arith in
        (
          (
            le,
            All-map (λ y. y.expires_at ≤ x.expires_at) (λ y. y.expires_at ≤ g.expires_at) gs
                (λ y k. omega arith) h.0,
          ),
          h,
        ))

pub sort-IsSorted : (gs : List Grant) → IsSorted (sort_latest gs)
unfolding sort_latest
sort-IsSorted [] = tt
sort-IsSorted (g ∷ gs) = insert-IsSorted g (sort_latest gs) (sort-IsSorted gs)

-- What a loop over grants gives that takes the first one that is not dropped.
abbrev pub Outcome : (Grant → Bool) → List Grant → Result CacheError Text → Type 0
Outcome drop gs r =
    Any
      (λ g.
        (drop g ≡ false)
        × (r ≡ ok g.token)
        × All (λ h. drop h ≡ false → h.expires_at ≤ g.expires_at) gs)
      gs
    ⊎ ((r ≡ err not_found) × All (λ h. drop h ≡ true) gs)

Outcome-dropped :
    (drop : Grant → Bool) (g : Grant) (gs : List Grant) (r : Result CacheError Text)
    → drop g ≡ true
    → Outcome drop gs r
    → Outcome drop (g ∷ gs) r
Outcome-dropped drop g gs r d (inr (e, h)) = inr (e, (d, h))
Outcome-dropped drop g gs r d (inl a) =
    inl (inr (Any-map _ _ gs (λ x (k, e, h). (k, e, (λ p. absurd (let n = sym d ∙ p in cc), h))) a))

module _ {ℓ} {S : Type ℓ} (disk : Disk S) (json : Json (List Grant)) (relay : Relay) where
  try_grants_dropped :
      (auth : Text) (g : Grant) (gs : List Grant) (s : S)
      → drops relay auth g ≡ true
      → try_grants disk json relay auth (g ∷ gs) s
        ≡ try_grants disk json relay auth gs (remove_accepted_access_grant disk json g.grant_id s).1
  unfolding try_grants
  try_grants_dropped auth g gs s d = rw d refl

  try_grants_taken :
      (auth : Text) (g : Grant) (gs : List Grant) (s : S)
      → drops relay auth g ≡ false
      → try_grants disk json relay auth (g ∷ gs) s ≡ (ok g.token, s)
  unfolding try_grants
  try_grants_taken auth g gs s d = rw d refl

  pub try_grants-Outcome :
      (auth : Text) (gs : List Grant) (s : S)
      → IsSorted gs
      → Outcome (drops relay auth) gs (try_grants disk json relay auth gs s).0
  try_grants-Outcome auth [] s h = unfold try_grants in inr (refl, tt)
  try_grants-Outcome auth (g ∷ gs) s h = elim (Bool-cases (drops relay auth g)) [
    | inl d ↦
        subst (λ (x : Result CacheError Text × S). Outcome (drops relay auth) (g ∷ gs) x.0)
          (sym (try_grants_dropped auth g gs s d))
          (Outcome-dropped (drops relay auth) g gs _ d (
            try_grants-Outcome auth gs (remove_accepted_access_grant disk json g.grant_id s).1 h.1))
    | inr d ↦
        subst (λ (x : Result CacheError Text × S). Outcome (drops relay auth) (g ∷ gs) x.0)
          (sym (try_grants_taken auth g gs s d))
          (inl (
            inl (
              d,
              refl,
              (
                λ p. omega arith,
                All-map (λ x. x.expires_at ≤ g.expires_at)
                    (λ x. drops relay auth x ≡ false → x.expires_at ≤ g.expires_at) gs (λ x k p. k)
                    h.0,
              ),
            )))
  ]

pub select-All :
    (keep : Grant → Bool) (P : Grant → Type 0) (gs : List Grant)
    → All P (select keep gs)
    → All (λ g. keep g ≡ true → P g) gs
unfolding select
select-All keep P [] h = tt
select-All keep P (g ∷ gs) h =
    if_cases (λ l. All P l → (keep g ≡ true → P g) × All (λ x. keep x ≡ true → P x) gs) (keep g)
      (λ c k. (λ p. k.0, select-All keep P gs k.1))
      (λ c k. (λ p. absurd (let n = sym c ∙ p in cc), select-All keep P gs k)) h

pub select-Any :
    (keep : Grant → Bool) (P : Grant → Type 0) (gs : List Grant)
    → Any P (select keep gs)
    → Any (λ g. (keep g ≡ true) × P g) gs
unfolding select
select-Any keep P [] h = h
select-Any keep P (g ∷ gs) h =
    if_cases (λ l. Any P l → ((keep g ≡ true) × P g) ⊎ Any (λ x. (keep x ≡ true) × P x) gs) (keep g)
      (λ c k. elim k [ inl a ↦ inl (c, a) | inr b ↦ inr (select-Any keep P gs b) ])
      (λ c k. inr (select-Any keep P gs k)) h
