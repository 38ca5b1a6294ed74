-- ===== src/Client/AccessCache/Pick.antt =====
-- internal/client/access_cache.go: which grant `ResolveAcceptedAccessGrant` picks.
use codewire.Base.{
  ℕ, suc, ◌≤◌, Bool, true, false, not, ◌≡◌, refl, subst, ◌⊎◌, inl, inr, List, [], ◌∷◌, arith, ltb,
  ◌==◌, if_cases, length, All, Any-map, Any,
}
use codewire.Base.Text.{Text}
use codewire.Base.Json.{Json}
use codewire.Base.Result.{Result, ok, err, guard}
use codewire.Base.Action.{follow, follow-ok, follow-pure}
use codewire.Client.AccessCache.{
  Disk, CacheError, not_found, select, prune_accepted_grants, load_file,
  list_accepted_access_grants,
}
use codewire.Client.AccessCache.Resolve.{
  sort_latest, Relay, Wanted, suits, auth_network, drops, try_grants, resolve_accepted_access_grant,
}
use codewire.Client.AccessCache.Latest.{
  Grant, Outcome, sort-All, sort-Any, sort-IsSorted, try_grants-Outcome, select-All, select-Any,
}

All-prune :
    (now : ℕ) (gs : List Grant) → All (λ g. now ≤ g.expires_at) (prune_accepted_grants now gs)
unfolding prune_accepted_grants
All-prune now [] = tt
All-prune now (g ∷ gs) =
    if_cases (All (λ x. now ≤ x.expires_at)) (ltb g.expires_at now) (λ c. All-prune now gs)
      (λ c. (ground arith, All-prune now gs))

module _ {ℓ} {S : Type ℓ} (disk : Disk S) (json : Json (List Grant)) (relay : Relay) where
  -- What is listed has not expired.
  list_lives :
      (now : ℕ) (s t : S) (gs : List Grant)
      → list_accepted_access_grants disk json now s ≡ (ok gs, t)
      → All (λ g. now ≤ g.expires_at) gs
  unfolding list_accepted_access_grants
  list_lives now s t gs h =
      let (all, s1, loaded, rest) = follow-ok (load_file disk json s) _ gs t h in
      let same = follow-pure _ (prune_accepted_grants now all) gs t rest in
      subst (All (λ g. now ≤ g.expires_at)) same (All-prune now all)

  -- Where no grant is asked for, there is none to try either.
  try_grants_checked :
      (auth : Text) (gs : List Grant) (s : S)
      → follow
          (guard (not (length gs == 0)) not_found, s)
          (λ u. try_grants disk json relay auth (sort_latest gs))
        ≡ try_grants disk json relay auth (sort_latest gs) s
  unfolding sort_latest try_grants
  try_grants_checked auth [] s = refl
  try_grants_checked auth (g ∷ gs) s =
      let some_grant : (suc (length gs) == 0) ≡ false = ground arith in rw some_grant refl

  sort-Outcome :
      (q : Wanted) (drop : Grant → Bool) (gs : List Grant) (r : Result CacheError Text)
      → Outcome drop (sort_latest (select (suits q) gs)) r
      → Any
          (λ g.
            (suits q g ≡ true)
            × (drop g ≡ false)
            × (r ≡ ok g.token)
            × All (λ h. suits q h ≡ true → drop h ≡ false → h.expires_at ≤ g.expires_at) gs)
          gs
        ⊎ ((r ≡ err not_found) × All (λ h. suits q h ≡ true → drop h ≡ true) gs)
  sort-Outcome q drop gs r (inl a) = inl (
      Any-map
        (λ g.
          (suits q g ≡ true)
          × ((drop g ≡ false)
              × (r ≡ ok g.token)
              × All (λ h. drop h ≡ false → h.expires_at ≤ g.expires_at)
                  (sort_latest (select (suits q) gs))))
        (λ g.
          (suits q g ≡ true)
          × (drop g ≡ false)
          × (r ≡ ok g.token)
          × All (λ h. suits q h ≡ true → drop h ≡ false → h.expires_at ≤ g.expires_at) gs)
        gs
        (λ g (c, (d, e, h)).
          (c, d, e, select-All (suits q) _ gs (sort-All _ (select (suits q) gs) h)))
        (select-Any (suits q) _ gs (sort-Any _ (select (suits q) gs) a)))
  sort-Outcome q drop gs r (inr (e, h)) =
      inr (e, select-All (suits q) _ gs (sort-All _ (select (suits q) gs) h))

  -- Where the file can be listed, no listed grant has expired, and the token that is resolved is
  -- that of a listed grant which suits the request and which the relay, if it is asked, does not
  -- refuse, and of these one that expires last; where there is no such grant, none is found.
  pub resolve_accepted_access_grant-latest :
      (q : Wanted) (now : ℕ) (s t : S) (gs : List Grant)
      → list_accepted_access_grants disk json now s ≡ (ok gs, t)
      → let r = (resolve_accepted_access_grant disk json relay q now s).0 in
        let drop = drops relay (auth_network relay q.network_id) in
        All (λ g. now ≤ g.expires_at) gs
        × (Any
              (λ g.
                (suits q g ≡ true)
                × (drop g ≡ false)
                × (r ≡ ok g.token)
                × All (λ h. suits q h ≡ true → drop h ≡ false → h.expires_at ≤ g.expires_at) gs)
              gs
            ⊎ ((r ≡ err not_found) × All (λ h. suits q h ≡ true → drop h ≡ true) gs))
  unfolding resolve_accepted_access_grant
  resolve_accepted_access_grant-latest q now s t gs h = (
    list_lives now s t gs h,
    rw h (
        rw (try_grants_checked (auth_network relay q.network_id) (select (suits q) gs) t) (
          sort-Outcome q _ gs _ (
            try_grants-Outcome disk json relay (auth_network relay q.network_id)
              (sort_latest (select (suits q) gs)) t (sort-IsSorted (select (suits q) gs))))),
  )
