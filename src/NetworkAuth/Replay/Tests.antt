-- ===== src/NetworkAuth/Replay/Tests.antt =====
-- Runs of the replay cache.
use codewire.Base.{◌+◌, ◌*◌, ◌≡◌, refl, [], ◌∷◌, arith}
use codewire.Base.Text.{codes, trim_space, ◌=ᵗ◌}
use codewire.Base.Map.{lookup, insert, retain}
use codewire.Base.Result.{ok, err}
use codewire.NetworkAuth.{second, max_clock_skew, resolve_network_id}
use codewire.NetworkAuth.Replay.{new_replay_cache, consume_locked, replay_detected}
use codewire.NetworkAuth.Replay.Once.{
  Attempt, attempt, run, replay_refused, replay_accepted_at_deadline,
}

abbrev first : Attempt
first = record {
  kind = codes "runtime";
  network_id = codes "net";
  jti = codes "rt_1";
  expires_at = 300 * second;
  now = 10 * second;
}

abbrev other : Attempt
other = record first { jti = codes "rt_2"; now = 20 * second }

first_accepted : (attempt new_replay_cache first).0 ≡ ok tt
unfolding consume_locked resolve_network_id trim_space ◌=ᵗ◌ lookup insert retain
first_accepted = refl

replay_refused_example :
    (attempt
      (run (attempt new_replay_cache first).1 (other ∷ []))
      (record first { now = 329 * second })).0
    ≡ err (replay_detected (trim_space (codes "runtime")))
replay_refused_example =
    replay_refused new_replay_cache first (other ∷ []) (329 * second) first_accepted (omega arith)
      (omega arith)

replay_accepted_at_deadline_example :
    (attempt
      (attempt new_replay_cache first).1
      (record first { now = 300 * second + max_clock_skew })).0
    ≡ ok tt
replay_accepted_at_deadline_example =
    replay_accepted_at_deadline new_replay_cache first first_accepted
