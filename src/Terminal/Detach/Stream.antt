-- ===== src/Terminal/Detach/Stream.antt =====
-- internal/terminal/detach.go: `FeedBuf` on a stream that is read in parts.
use codewire.Base.{
  ℕ, true, ◌≡◌, refl, sym, ap, ◌∙◌, inl, inr, [], ◌∷◌, ◌++◌, append-nil, append_assoc,
  if◌then◌else◌, Bool-cases,
}
use codewire.Base.Text.{Text}
use codewire.Terminal.Detach.{DetachDetector, Fed, fed, feed, feed_loop, feed_buf}

-- The same result, after bytes that were forwarded before.
abbrev pub prepend : Text → Fed → Fed
prepend f r = record r { forward = f ++ r.forward }

feed_loop-prepend :
    (f : Text) (d : DetachDetector) (s : Text) → feed_loop f d s ≡ prepend f (feed_loop [] d s)
unfolding feed_loop
feed_loop-prepend f d [] = simp append-nil
feed_loop-prepend f d (b ∷ s) = elim (Bool-cases (feed d b).detached) [
  | inl e ↦ rw e (simp append-nil)
  | inr e ↦ rw e (
      feed_loop-prepend (f ++ (feed d b).forward) (feed d b).detector s
      ∙ simp append_assoc
          (ap (prepend f) (sym (feed_loop-prepend (feed d b).forward (feed d b).detector s))))
]

-- One byte, then the rest of the buffer.
pub feed_buf-cons :
    (d : DetachDetector) (b : ℕ) (s : Text)
    → feed_buf d (b ∷ s) ≡ (
        if (feed d b).detached
        then fed true [] (feed d b).detector
        else prepend (feed d b).forward (feed_buf (feed d b).detector s))
unfolding feed_buf
feed_buf-cons d b s = elim (Bool-cases (feed d b).detached) [
  | inl e ↦ rw e
  | inr e ↦ rw e (feed_loop-prepend (feed d b).forward (feed d b).detector s)
]

-- A buffer that is cut in two gives what the whole gives: the first part's bytes are forwarded,
-- and the second part is fed to the detector that the first part left, unless that detached.
pub feed_buf-append :
    (d : DetachDetector) (s t : Text)
    → feed_buf d (s ++ t) ≡ (
        if (feed_buf d s).detached
        then feed_buf d s
        else prepend (feed_buf d s).forward (feed_buf (feed_buf d s).detector t))
feed_buf-append d [] t = unfold feed_buf in refl
feed_buf-append d (b ∷ s) t = elim (Bool-cases (feed d b).detached) [
  | inl e ↦ simp (feed_buf-cons, e)
  | inr e ↦
      simp (feed_buf-cons, e, feed_buf-append (feed d b).detector s t)
        (elim (Bool-cases (feed_buf (feed d b).detector s).detached) [
          | inl k ↦ rw k
          | inr k ↦ rw k (simp append_assoc)
        ])
]
