-- ===== src/Terminal/Detach/Params.antt =====
-- internal/terminal/detach.go: the parameters that the detector reads.
use codewire.Base.{
  ℕ, ◌≡◌, refl, [], ◌∷◌, ◌++◌, arith, leb, ◌==◌, ◌&&◌, if_cases, append-nil, drop, if◌then◌else◌,
}
use codewire.Base.Text.{Text}
use codewire.Terminal.Kitty.{is_kitty_ctrl_b, is_kitty_d}
use codewire.Terminal.Detach.{
  DetectState, normal, saw_prefix, saw_prefix_esc, saw_prefix_csi, esc, csi, DetachDetector, Fed,
  feed, dispatch, feed_normal, feed_saw_prefix, feed_saw_prefix_esc, feed_saw_prefix_csi, feed_esc,
  feed_csi, escape, ctrl_b,
}
use codewire.Terminal.Detach.Valid.{Holds, IsValid, at}

-- The parameter bytes of a sequence.
abbrev pub params_of : Text → Text
params_of [] = []
params_of (c ∷ s) = if leb 0x30 c && leb c 0x3f then c ∷ params_of s else params_of s

params_of-append : (s t : Text) → params_of (s ++ t) ≡ params_of s ++ params_of t
params_of-append [] t = refl
params_of-append (c ∷ s) t = ground (arith, params_of-append s t)

-- Within a CSI sequence that is no answer to the prefix key, the parameters are those of the bytes
-- that are held.
abbrev pub Parsed : DetectState → Text → Text → Type 0
Parsed csi buf params = params ≡ params_of (drop 2 buf)
Parsed _ buf params = Unit

abbrev pub IsParsed : DetachDetector → Type 0
IsParsed d = Parsed d.state d.buf d.params

abbrev ParsesOn : Fed → Type 0
ParsesOn r = IsParsed r.detector

module _ (buf params : Text) (b : ℕ) where
  csi-Parsed :
      Holds csi buf → Parsed csi buf params → IsParsed (feed_csi (at csi buf params) b).detector
  unfolding feed_csi
  csi-Parsed (inner, e, h) p =
      let q : params ≡ params_of inner = rw e at p in
      let grown : params_of (drop 2 (buf ++ b ∷ [])) ≡ params_of inner ++ params_of (b ∷ []) =
        rw e (params_of-append inner (b ∷ [])) in
      if_cases ParsesOn (leb 0x30 b && leb b 0x3f) (λ c. rw (grown, c, q) refl)
        λ k.
          if_cases ParsesOn (leb 0x20 b && leb b 0x2f) (λ c. rw (grown, k, q) (simp append-nil))
            λ _.
              if_cases ParsesOn (leb 0x40 b && leb b 0x7e)
                (λ _. if_cases ParsesOn ((b == b'u') && is_kitty_ctrl_b params) (λ c. tt) (λ c. tt))
                (λ c. tt)

  dispatch-Parsed :
      (s : DetectState)
      → Holds s buf
      → Parsed s buf params
      → IsParsed (dispatch s (at s buf params) b).detector
  unfolding dispatch
  dispatch-Parsed normal h p =
      unfold feed_normal in
      if_cases ParsesOn (b == ctrl_b) (λ c. tt)
        (λ _. if_cases ParsesOn (b == escape) (λ c. tt) (λ c. tt))
  dispatch-Parsed saw_prefix h p =
      unfold feed_saw_prefix in
      if_cases ParsesOn (b == b'd') (λ c. tt)
        (λ _. if_cases ParsesOn (b == escape) (λ c. tt) (λ c. tt))
  dispatch-Parsed saw_prefix_esc h p =
      unfold feed_saw_prefix_esc in if_cases ParsesOn (b == b'[') (λ c. tt) (λ c. tt)
  dispatch-Parsed saw_prefix_csi h p =
      unfold feed_saw_prefix_csi in
      if_cases ParsesOn (leb 0x20 b && leb b 0x3f) (λ c. tt)
        λ _.
          if_cases ParsesOn (leb 0x40 b && leb b 0x7e)
            (λ _.
              if_cases ParsesOn (b == b'u')
                (λ _. if_cases ParsesOn (is_kitty_d (buf ++ b ∷ [])) (λ c. tt) (λ c. tt)) (λ c. tt))
            (λ c. tt)
  dispatch-Parsed esc h p =
      unfold feed_esc in if_cases ParsesOn (b == b'[') (λ c. rw h refl) (λ c. tt)
  dispatch-Parsed csi h p = csi-Parsed h p

pub feed-IsParsed :
    (d : DetachDetector) (b : ℕ) → IsValid d → IsParsed d → IsParsed (feed d b).detector
unfolding feed
feed-IsParsed d b h p = dispatch-Parsed d.buf d.params b d.state h p
