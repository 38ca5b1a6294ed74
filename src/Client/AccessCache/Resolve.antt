-- ===== src/Client/AccessCache/Resolve.antt =====
-- internal/client/access_cache.go: `ResolveAcceptedAccessGrant` and `PruneAcceptedAccessGrants`,
-- which ask the relay about the grants in the file.
use codewire.Base.{
  ℕ, ◌+◌, Bool, true, false, ◌&&◌, ◌||◌, not, Option, none, some, List, [], ◌∷◌, ltb, ◌==◌,
  if◌then◌else◌, length,
}
use codewire.Base.Text.{Text, ◌=ᵗ◌, trim_space}
use codewire.Base.Json.{Json}
use codewire.Base.Result.{ok, err}
use codewire.Base.Action.{Action, pure, ◌>>=◌, ◌>>◌, check}
use codewire.NetworkAuth.{resolve_network_id}
use codewire.Client.AccessCache.{
  AcceptedAccessGrant, Disk, CacheError, not_found, prune_accepted_grants,
  accepted_grant_allows_verb, accepted_grant_matches_session, accepted_grant_lookup_says_missing,
  select, load_file, save_file, list_accepted_access_grants, remove_accepted_access_grant,
}

-- What is used of the grant that the relay holds.
pub record CurrentGrant : Type 0 where
  pub revoked_at : Option ℕ
  pub expires_at : ℕ

-- What `GetAccessGrant` returns: a grant, nil, or an error with its message.
pub data Lookup : Type 0 where
  answered : Option CurrentGrant → Lookup
  lookup_failed : Text → Lookup

-- The relay: whether `loadRelayAuth` finds an access to it for a network, its answer on a grant of
-- a network, and the time at which that answer is looked at.
pub record Relay : Type 0 where
  pub has_auth : Text → Bool
  pub get_access_grant : Text → Text → Lookup
  pub looked_at : Text → ℕ

-- The grants that expire last come first.
unfoldable pub insert_latest :
    AcceptedAccessGrant → List AcceptedAccessGrant → List AcceptedAccessGrant
insert_latest g [] = g ∷ []
insert_latest g (h ∷ hs) =
    let rest = insert_latest g hs in if ltb g.expires_at h.expires_at then h ∷ rest else g ∷ h ∷ hs

-- `sort.Slice` by `After` on the expiry; the order of those that expire together does not matter.
unfoldable pub sort_latest : List AcceptedAccessGrant → List AcceptedAccessGrant
unfolding insert_latest
sort_latest [] = []
sort_latest (g ∷ gs) = insert_latest g (sort_latest gs)

-- What a request for a session asks of a grant.
pub record Wanted : Type 0 where
  pub network_id : Text
  pub target_node : Text
  pub session_id : Option ℕ
  pub session_name : Text
  pub verb : Text

-- The tests of the first loop of `ResolveAcceptedAccessGrant`.
unfoldable pub suits : Wanted → AcceptedAccessGrant → Bool
suits q g =
    (resolve_network_id g.network_id =ᵗ resolve_network_id q.network_id)
    && (trim_space g.target_node =ᵗ trim_space q.target_node)
    && accepted_grant_matches_session g q.session_id q.session_name
    && accepted_grant_allows_verb g.verbs q.verb

unfoldable pub is_set : Option ℕ → Bool
is_set none = false
is_set (some t) = true

-- Whether `ResolveAcceptedAccessGrant` drops a grant for the relay's answer.
unfoldable pub is_refused : ℕ → Lookup → Bool
unfolding is_set
is_refused now (lookup_failed message) = accepted_grant_lookup_says_missing message
is_refused now (answered none) = true
is_refused now (answered (some c)) = is_set c.revoked_at || ltb c.expires_at now

-- The network for which the relay is asked; it is not asked where this is empty.
unfoldable pub auth_network : Relay → Text → Text
auth_network relay network_id = if relay.has_auth network_id then network_id else []

unfoldable pub drops : Relay → Text → AcceptedAccessGrant → Bool
unfolding is_refused
drops relay auth g =
    not (auth =ᵗ [])
    && is_refused (relay.looked_at g.grant_id) (relay.get_access_grant auth g.grant_id)

-- What `PruneAcceptedAccessGrants` counts.
pub record AcceptedGrantPruneResult : Type 0 where
  pub removed_expired : ℕ
  pub removed_revoked : ℕ
  pub removed_missing : ℕ
  pub remaining : ℕ
  pub relay_checked : Bool

-- What the relay's answer makes of a grant.
pub data Verdict : Type 0 where
  kept missing revoked : Verdict

unfoldable pub verdict : ℕ → Lookup → Verdict
unfolding is_set
verdict now (lookup_failed message) =
    if accepted_grant_lookup_says_missing message then missing else kept
verdict now (answered none) = missing
verdict now (answered (some c)) =
    if is_set c.revoked_at || ltb c.expires_at now then revoked else kept

pub record Checked : Type 0 where
  pub grants : List AcceptedAccessGrant
  pub missing_count : ℕ
  pub revoked_count : ℕ

unfoldable pub counted : AcceptedAccessGrant → Verdict → Checked → Checked
counted g kept c = record c { grants = g ∷ c.grants }
counted g missing c = record c { missing_count = c.missing_count + 1 }
counted g revoked c = record c { revoked_count = c.revoked_count + 1 }

-- The second loop of `PruneAcceptedAccessGrants`.
unfoldable pub check_grants : Relay → ℕ → List AcceptedAccessGrant → Checked
unfolding counted verdict
check_grants relay now [] = record { grants = []; missing_count = 0; revoked_count = 0 }
check_grants relay now (g ∷ gs) =
    counted g (verdict now (relay.get_access_grant g.network_id g.grant_id))
      (check_grants relay now gs)

unfoldable pub checked : Relay → Text → ℕ → List AcceptedAccessGrant → Checked
unfolding check_grants
checked relay network_id now gs =
    if relay.has_auth network_id
    then check_grants relay now gs
    else record { grants = gs; missing_count = 0; revoked_count = 0 }

-- The first loop of `PruneAcceptedAccessGrants`, which leaves what `prune_accepted_grants` does.
unfoldable pub expired_count : ℕ → List AcceptedAccessGrant → ℕ
expired_count now [] = 0
expired_count now (g ∷ gs) =
    let rest = expired_count now gs in if ltb g.expires_at now then rest + 1 else rest

module _ {ℓ} {S : Type ℓ} (disk : Disk S) (json : Json (List AcceptedAccessGrant))
    (relay : Relay) where
  -- The last loop of `ResolveAcceptedAccessGrant`; the errors of the removals are not looked at.
  unfoldable pub try_grants : Text → List AcceptedAccessGrant → Action S CacheError Text
  unfolding drops remove_accepted_access_grant
  try_grants auth [] s = (err not_found, s)
  try_grants auth (g ∷ gs) s =
      let rest = try_grants auth gs (remove_accepted_access_grant disk json g.grant_id s).1 in
      if drops relay auth g then rest else (ok g.token, s)

  -- `ResolveAcceptedAccessGrant`.
  unfoldable pub resolve_accepted_access_grant : Wanted → ℕ → Action S CacheError Text
  unfolding list_accepted_access_grants select suits sort_latest auth_network try_grants
  resolve_accepted_access_grant q now = do
    gs ← list_accepted_access_grants disk json now
    check (not (length (select (suits q) gs) == 0)) not_found
    try_grants (auth_network relay q.network_id) (sort_latest (select (suits q) gs))

  -- `PruneAcceptedAccessGrants`, with the access for a network.
  unfoldable pub prune_accepted_access_grants :
      Text → ℕ → Action S CacheError AcceptedGrantPruneResult
  unfolding load_file save_file prune_accepted_grants checked expired_count
  prune_accepted_access_grants network_id now = do
    gs ← load_file disk json
    let c = checked relay network_id now (prune_accepted_grants now gs)
    save_file disk json c.grants
    pure (
        ok (record {
          removed_expired = expired_count now gs;
          removed_revoked = c.revoked_count;
          removed_missing = c.missing_count;
          remaining = length c.grants;
          relay_checked = relay.has_auth network_id;
        }))
