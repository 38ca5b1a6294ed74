-- ===== src/NetworkAuth/Replay/Once.antt =====
-- internal/networkauth/replay.go: how often a credential is accepted.
use codewire.Base.{ℕ, ◌+◌, ◌<◌, ◌≤◌, false, ◌||◌, not, ◌≡◌, some, List, [], ◌∷◌, ltb, arith, All}
use codewire.Base.Text.{Text, ◌=ᵗ◌, =ᵗ_iff, =ᵗ-refl, trim_space}
use codewire.Base.Map.{Map, text_key, lookup, lookup-insert, lookup-retain}
use codewire.Base.Result.{Result, ok, err}
use codewire.NetworkAuth.{max_clock_skew}
use codewire.NetworkAuth.Replay.{
  ReplayError, replay_detected, ReplayCache, replay_key, purge, is_used, consume_locked,
}

-- One call of `consume`.
pub record Attempt : Type 0 where
  pub kind : Text
  pub network_id : Text
  pub jti : Text
  pub expires_at : ℕ
  pub now : ℕ

abbrev pub attempt : ReplayCache → Attempt → Result ReplayError (Unit {0}) × ReplayCache
attempt c a = consume_locked c a.kind a.network_id a.jti a.expires_at a.now

abbrev pub run : ReplayCache → List Attempt → ReplayCache
run c [] = c
run c (a ∷ rest) = run (attempt c a).1 rest

abbrev pub key_of : Attempt → Text
key_of a = replay_key a.kind a.network_id a.jti

lookup-purge :
    (k : Text) (d now : ℕ) (m : Map Text ℕ)
    → lookup k m ≡ some d
    → now ≤ d
    → lookup k (purge now m) ≡ some d
unfolding purge
lookup-purge k d now m h l = lookup-retain (λ exp. not (ltb exp now)) k d m h (ground arith)

-- What an attempt leaves in the cache.
attempt-keeps :
    (c : ReplayCache) (a : Attempt) (k : Text) (d : ℕ)
    → lookup k c.seen ≡ some d
    → a.now < d
    → lookup k (attempt c a).1.seen ≡ some d
unfolding consume_locked is_used
attempt-keeps c a k d h l = ground (
  arith,
  lookup-purge k d a.now c.seen h (omega arith),
  lookup-insert (key_of a) k (a.expires_at + max_clock_skew) (purge a.now c.seen),
  =ᵗ_iff (key_of a) k,
)

run-keeps :
    (c : ReplayCache) (attempts : List Attempt) (k : Text) (d : ℕ)
    → lookup k c.seen ≡ some d
    → All (λ a. a.now < d) attempts
    → lookup k (run c attempts).seen ≡ some d
run-keeps c [] k d h l = h
run-keeps c (a ∷ rest) k d h l =
    run-keeps (attempt c a).1 rest k d (attempt-keeps c a k d h l.0) l.1

-- An accepted credential is remembered for its lifetime and the clock skew, and its key is complete.
attempt-accepted :
    (c : ReplayCache) (a : Attempt)
    → (attempt c a).0 ≡ ok tt
    → (lookup (key_of a) (attempt c a).1.seen ≡ some (a.expires_at + max_clock_skew))
      × (((trim_space a.kind =ᵗ []) || (trim_space a.jti =ᵗ [])) ≡ false)
unfolding consume_locked
attempt-accepted c a h = ground (
  arith,
  lookup-insert (key_of a) (key_of a) (a.expires_at + max_clock_skew) (purge a.now c.seen),
  =ᵗ-refl (key_of a),
)

attempt-used :
    (c : ReplayCache) (a : Attempt) (d : ℕ)
    → lookup (key_of a) c.seen ≡ some d
    → a.now < d
    → ((trim_space a.kind =ᵗ []) || (trim_space a.jti =ᵗ [])) ≡ false
    → (attempt c a).0 ≡ err (replay_detected (trim_space a.kind))
unfolding consume_locked is_used
attempt-used c a d h l k = ground (arith, lookup-purge (key_of a) d a.now c.seen h (omega arith))

-- Once a credential was accepted, the same one is refused at every time before its expiry and
-- the clock skew have passed, whatever credentials were presented in between, if each was at
-- such a time too.
pub replay_refused :
    (c : ReplayCache) (a : Attempt) (between : List Attempt) (later : ℕ)
    → (attempt c a).0 ≡ ok tt
    → All (λ b. b.now < a.expires_at + max_clock_skew) between
    → later < a.expires_at + max_clock_skew
    → (attempt (run (attempt c a).1 between) (record a { now = later })).0
      ≡ err (replay_detected (trim_space a.kind))
replay_refused c a between later h l k =
    let (stored, complete) = attempt-accepted c a h in
    attempt-used (run (attempt c a).1 between) (record a { now = later })
      (a.expires_at + max_clock_skew)
      (run-keeps (attempt c a).1 between (key_of a) (a.expires_at + max_clock_skew) stored l) k
      complete

attempt-boundary :
    (c : ReplayCache) (a : Attempt)
    → lookup (key_of a) c.seen ≡ some a.now
    → ((trim_space a.kind =ᵗ []) || (trim_space a.jti =ᵗ [])) ≡ false
    → (attempt c a).0 ≡ ok tt
unfolding consume_locked is_used
attempt-boundary c a h k =
    ground (arith, lookup-purge (key_of a) a.now a.now c.seen h (omega arith))

-- At the last instant at which the verifiers still accept a credential, its expiry and the clock
-- skew, the cache accepts it again: it is then neither deleted nor taken for used.
pub replay_accepted_at_deadline :
    (c : ReplayCache) (a : Attempt)
    → (attempt c a).0 ≡ ok tt
    → (attempt (attempt c a).1 (record a { now = a.expires_at + max_clock_skew })).0 ≡ ok tt
replay_accepted_at_deadline c a h =
    let (stored, complete) = attempt-accepted c a h in
    attempt-boundary (attempt c a).1 (record a { now = a.expires_at + max_clock_skew }) stored
      complete
