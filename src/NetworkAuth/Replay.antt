-- ===== src/NetworkAuth/Replay.antt =====
-- internal/networkauth/replay.go: `ReplayCache`.
pub mod Once
mod Tests
use codewire.Base.{
  ℕ, ◌+◌, Bool, true, false, ◌||◌, ◌&&◌, not, ◌≡◌, refl, Option, none, some, List, [], ◌∷◌, ◌++◌,
  ltb, if◌then◌else◌,
}
use codewire.Base.Text.{Text, codes, ◌=ᵗ◌, trim_space}
use codewire.Base.Map.{Map, text_key, lookup, insert, retain}
use codewire.Base.Result.{Result, ok, err}
use codewire.NetworkAuth.{
  resolve_network_id, max_clock_skew, RuntimeClaims, SenderDelegationClaims,
  ObserverDelegationClaims,
}

pub data ReplayError : Type 0 where
  claims_nil key_incomplete : ReplayError
  replay_detected : Text → ReplayError

pub record ReplayCache : Type 0 where
  pub seen : Map Text ℕ

abbrev pub new_replay_cache : ReplayCache
new_replay_cache = record { seen = [] }

pub replay_key : Text → Text → Text → Text
replay_key kind network_id jti =
    trim_space kind ++ (0 ∷ (resolve_network_id network_id ++ (0 ∷ trim_space jti)))

-- The deletion of the entries that have expired.
pub purge : ℕ → Map Text ℕ → Map Text ℕ
purge now seen = retain (λ exp. not (ltb exp now)) seen

is_used : Option ℕ → ℕ → Bool
is_used none now = false
is_used (some exp) now = ltb now exp

-- `consume` under the lock, on a cache that is not nil.
pub consume_locked :
    ReplayCache → Text → Text → Text → ℕ → ℕ → Result ReplayError (Unit {0}) × ReplayCache
unfolding replay_key purge is_used
consume_locked c kind network_id jti expires_at now =
    let key = replay_key kind network_id jti in
    let seen = purge now c.seen in
    if (trim_space kind =ᵗ []) || (trim_space jti =ᵗ [])
    then (err key_incomplete, c)
    else if is_used (lookup key seen) now
    then (err (replay_detected (trim_space kind)), record { seen = seen })
    else (ok tt, record { seen = insert key (expires_at + max_clock_skew) seen })

-- `consume`: a nil cache accepts everything.
pub consume :
    Option ReplayCache
    → Text
    → Text
    → Text
    → ℕ
    → ℕ
    → Result ReplayError (Unit {0}) × Option ReplayCache
consume none kind network_id jti expires_at now = (ok tt, none)
consume (some c) kind network_id jti expires_at now =
    let (r, d) = consume_locked c kind network_id jti expires_at now in (r, some d)

pub consume_runtime :
    Option ReplayCache
    → Option RuntimeClaims
    → ℕ
    → Result ReplayError (Unit {0}) × Option ReplayCache
consume_runtime c none now = (err claims_nil, c)
consume_runtime c (some claims) now =
    consume c (codes "runtime") claims.network_id claims.jti claims.expires_at now

pub consume_sender :
    Option ReplayCache
    → Option SenderDelegationClaims
    → ℕ
    → Result ReplayError (Unit {0}) × Option ReplayCache
consume_sender c none now = (err claims_nil, c)
consume_sender c (some claims) now =
    consume c (codes "sender") claims.network_id claims.jti claims.expires_at now

pub consume_observer :
    Option ReplayCache
    → Option ObserverDelegationClaims
    → ℕ
    → Result ReplayError (Unit {0}) × Option ReplayCache
consume_observer c none now = (err claims_nil, c)
consume_observer c (some claims) now =
    consume c (codes "observer") claims.network_id claims.jti claims.expires_at now
