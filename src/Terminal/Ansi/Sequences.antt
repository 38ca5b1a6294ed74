-- ===== src/Terminal/Ansi/Sequences.antt =====
-- `consumeEscapeSequence` of internal/terminal/ansi.go, and what follows a sequence.
use codewire.Base.{
  ℕ, zero, suc, ◌+◌, ◌-◌, ◌≤◌, ◌<◌, true, ◌≡◌, refl, [], ◌∷◌, ◌++◌, arith, length, take, ap,
}
use codewire.Base.Text.{Text}
use codewire.Terminal.Ansi.{csi_scan, osc_scan, starts_with, consume_escape_sequence}

csi_scan-append :
    (k n : ℕ) (t u : Text) → csi_scan k t ≡ (n, true) → csi_scan k (t ++ u) ≡ (n, true)
unfolding csi_scan
csi_scan-append k n [] u h = cc
csi_scan-append k n (c ∷ t) u h = ground (arith, csi_scan-append (k + 1) n t u)

csi_scan_le : (k n : ℕ) (t : Text) → csi_scan k t ≡ (n, true) → n ≤ k + length t
unfolding csi_scan
csi_scan_le k n [] h = cc
csi_scan_le k n (c ∷ t) h = ground (arith, csi_scan_le (k + 1) n t)

osc_scan-append :
    (k n : ℕ) (t u : Text) → osc_scan k t ≡ (n, true) → osc_scan k (t ++ u) ≡ (n, true)
unfolding osc_scan starts_with
osc_scan-append k n [] u h = cc
osc_scan-append k n (c ∷ []) u h = ground arith
osc_scan-append k n (c ∷ d ∷ t) u h = ground (arith, osc_scan-append (k + 1) n (d ∷ t) u)

osc_scan_le : (k n : ℕ) (t : Text) → osc_scan k t ≡ (n, true) → n ≤ k + length t
unfolding osc_scan starts_with
osc_scan_le k n [] h = cc
osc_scan_le k n (c ∷ []) h = ground arith
osc_scan_le k n (c ∷ d ∷ t) h = ground (arith, osc_scan_le (k + 1) n (d ∷ t))

pub consume-append :
    (n : ℕ) (t u : Text)
    → consume_escape_sequence t ≡ (n, true)
    → consume_escape_sequence (t ++ u) ≡ (n, true)
unfolding consume_escape_sequence
consume-append n [] u h = cc
consume-append n (c ∷ []) u h = cc
consume-append n (c ∷ d ∷ r) u h = ground (arith, csi_scan-append 2 n r u, osc_scan-append 2 n r u)

pub consume_le : (n : ℕ) (t : Text) → consume_escape_sequence t ≡ (n, true) → n ≤ length t
unfolding consume_escape_sequence
consume_le n [] h = cc
consume_le n (c ∷ []) h = cc
consume_le n (c ∷ d ∷ r) h = ground (arith, csi_scan_le 2 n r, osc_scan_le 2 n r)

csi_scan_gt : (k n : ℕ) (t : Text) → csi_scan k t ≡ (n, true) → k < n
unfolding csi_scan
csi_scan_gt k n [] h = cc
csi_scan_gt k n (c ∷ t) h = ground (arith, csi_scan_gt (k + 1) n t)

osc_scan_gt : (k n : ℕ) (t : Text) → osc_scan k t ≡ (n, true) → k < n
unfolding osc_scan
osc_scan_gt k n [] h = cc
osc_scan_gt k n (c ∷ t) h = ground (arith, osc_scan_gt (k + 1) n t)

csi_scan-take :
    (m k n : ℕ) (t : Text)
    → n ≡ k + m
    → csi_scan k t ≡ (n, true)
    → csi_scan k (take m t) ≡ (n, true)
unfolding csi_scan
csi_scan-take zero k n t e h = absurd (omega (arith, csi_scan_gt k n t h))
csi_scan-take (suc m) k n [] e h = h
csi_scan-take (suc m) k n (c ∷ t) e h = ground (arith, csi_scan-take m (k + 1) n t (omega arith))

osc_scan-take :
    (m k n : ℕ) (t : Text)
    → n ≡ k + m
    → osc_scan k t ≡ (n, true)
    → osc_scan k (take m t) ≡ (n, true)
unfolding osc_scan starts_with
osc_scan-take zero k n t e h = absurd (omega (arith, osc_scan_gt k n t h))
osc_scan-take (suc m) k n [] e h = h
osc_scan-take (suc zero) k n (c ∷ []) e h = h
osc_scan-take (suc (suc m)) k n (c ∷ []) e h = h
osc_scan-take (suc zero) k n (c ∷ d ∷ t) e h = ground (arith, osc_scan_gt (k + 1) n (d ∷ t))
osc_scan-take (suc (suc m)) k n (c ∷ d ∷ t) e h =
    ground (arith, osc_scan-take (suc m) (k + 1) n (d ∷ t) (omega arith))

-- A complete sequence stays one, of the same length, when it stands alone.
pub consume-take :
    (n : ℕ) (t : Text)
    → consume_escape_sequence t ≡ (n, true)
    → consume_escape_sequence (take n t) ≡ (n, true)
unfolding consume_escape_sequence
consume-take n [] h = cc
consume-take n (c ∷ []) h = cc
consume-take zero (c ∷ d ∷ r) h = absurd (ground (arith, csi_scan_gt 2 0 r, osc_scan_gt 2 0 r))
consume-take (suc zero) (c ∷ d ∷ r) h =
    absurd (ground (arith, csi_scan_gt 2 1 r, osc_scan_gt 2 1 r))
consume-take (suc (suc m)) (c ∷ d ∷ r) h = ground (
  arith,
  csi_scan-take m 2 (suc (suc m)) r (omega arith),
  osc_scan-take m 2 (suc (suc m)) r (omega arith),
)

pub take-take : (n : ℕ) (t : Text) → take n (take n t) ≡ take n t
take-take zero t = refl
take-take (suc n) [] = refl
take-take (suc n) (c ∷ t) = ap (◌∷◌ c) (take-take n t)

pub suc-sub-one : (m : ℕ) → suc m - 1 ≡ m
suc-sub-one m = omega arith
