-- ===== src/Terminal/Detach/Outcome.antt =====
-- internal/terminal/detach.go: what one byte does to the bytes that the detector holds.
use codewire.Base.{
  ℕ, Bool, true, false, ◌≡◌, refl, [], ◌∷◌, ◌++◌, arith, All, All-append, ◌≤◌, leb, ◌==◌, ◌&&◌,
  if_cases, ==_iff, append-nil, ap, subst, suc, length, length-append, ◌+◌, if◌then◌else◌, drop,
  ◌↔◌,
}
use codewire.Base.Text.{Text}
use codewire.Terminal.Kitty.{
  IsKey, is_kitty_ctrl_b, is_kitty_d, is_kitty_ctrl_b_iff, is_kitty_d_iff,
}
use codewire.Terminal.Detach.{
  DetectState, normal, saw_prefix, saw_prefix_esc, saw_prefix_csi, esc, csi, DetachDetector, Fed,
  feed, feed_buf, dispatch, feed_normal, feed_saw_prefix, feed_saw_prefix_esc, feed_saw_prefix_csi,
  feed_esc, feed_csi, escape, ctrl_b,
}
use codewire.Terminal.Detach.Stream.{feed_buf-cons}
use codewire.Terminal.Detach.Valid.{InCsi, Holds, IsValid, at}
use codewire.Terminal.Detach.Params.{IsParsed, feed-IsParsed}

-- Whether the prefix key has been taken out of the input, and waits for its command.
abbrev pub in_prefix : DetectState → Bool
in_prefix saw_prefix = true
in_prefix saw_prefix_esc = true
in_prefix saw_prefix_csi = true
in_prefix _ = false

-- Whether a byte completes the prefix key: it is Ctrl+B, or the `u` of its Kitty code.
abbrev pub PrefixKey : ℕ → DetectState → Text → Type 0
PrefixKey b normal params = b ≡ ctrl_b
PrefixKey b csi params = (b ≡ b'u') × IsKey 98 5 params
PrefixKey b _ params = ⊥

abbrev pub IsPrefixKey : DetachDetector → ℕ → Type 0
IsPrefixKey d b = PrefixKey b d.state d.params

-- Whether a byte completes the command: it is `d`, or the `u` of its Kitty code.
abbrev pub CommandKey : ℕ → DetectState → Text → Type 0
CommandKey b saw_prefix buf = b ≡ b'd'
CommandKey b saw_prefix_csi buf = (b ≡ b'u') × IsKey 100 1 (drop 2 buf)
CommandKey b _ buf = ⊥

abbrev pub IsCommandKey : DetachDetector → ℕ → Type 0
IsCommandKey d b = CommandKey b d.state d.buf

pub data Outcome (d : DetachDetector) (b : ℕ) (r : Fed) : Type 0 where
  -- The bytes go on in their order, forwarded or held.
  kept :
      ¬ IsPrefixKey d b
      → ¬ IsCommandKey d b
      → r.detached ≡ false
      → in_prefix r.detector.state ≡ in_prefix d.state
      → r.forward ++ r.detector.buf ≡ d.buf ++ b ∷ []
      → Outcome d b r
  -- The held bytes and this one are the prefix key, which is not forwarded.
  begun :
      IsPrefixKey d b
      → r.detached ≡ false
      → in_prefix d.state ≡ false
      → r.detector.state ≡ saw_prefix
      → r.forward ≡ []
      → Outcome d b r
  -- Another key came: the prefix key is given back, before the held bytes.
  cancelled :
      ¬ IsCommandKey d b
      → r.detached ≡ false
      → in_prefix d.state ≡ true
      → r.detector.state ≡ normal
      → r.forward ≡ ctrl_b ∷ d.buf ++ b ∷ []
      → Outcome d b r
  -- The command key came.
  finished :
      IsCommandKey d b
      → r.detached ≡ true
      → in_prefix d.state ≡ true
      → r.detector.state ≡ normal
      → r.forward ≡ []
      → Outcome d b r

module _ (buf params : Text) (b : ℕ) where
  abbrev Goal : DetectState → Fed → Type 0
  Goal s r = IsValid r.detector × Outcome (at s buf params) b r

  normal-Goal : Holds normal buf → Goal normal (feed_normal (at normal buf params) b)
  unfolding feed_normal
  normal-Goal h =
      if_cases (Goal normal) (b == ctrl_b)
        (λ c. (h, begun ((==_iff b ctrl_b).0 c) refl refl refl refl))
        λ c.
          let other : ¬ (b ≡ ctrl_b) = λ k. ground arith in
          if_cases (Goal normal) (b == escape)
            (λ e. (rw ((==_iff b escape).0 e), kept other (λ k. k) refl refl (rw h)))
            λ _. (h, kept other (λ k. k) refl refl (rw h))

  saw_prefix-Goal :
      Holds saw_prefix buf → Goal saw_prefix (feed_saw_prefix (at saw_prefix buf params) b)
  unfolding feed_saw_prefix
  saw_prefix-Goal h =
      if_cases (Goal saw_prefix) (b == b'd')
        (λ c. (h, finished ((==_iff b b'd').0 c) refl refl refl refl))
        λ c.
          let other : ¬ (b ≡ b'd') = λ k. ground arith in
          if_cases (Goal saw_prefix) (b == escape)
            (λ e. (rw ((==_iff b escape).0 e), kept (λ k. k) other refl refl (rw h)))
            λ _. (h, cancelled other refl refl refl (rw h))

  saw_prefix_esc-Goal :
      Holds saw_prefix_esc buf
      → Goal saw_prefix_esc (feed_saw_prefix_esc (at saw_prefix_esc buf params) b)
  unfolding feed_saw_prefix_esc
  saw_prefix_esc-Goal h =
      if_cases (Goal saw_prefix_esc) (b == b'[')
        (λ e. (([], rw (h, (==_iff b b'[').0 e), tt), kept (λ k. k) (λ k. k) refl refl refl))
        λ _. (refl, kept (λ k. k) (λ k. k) refl refl (simp append-nil))

  esc-Goal : Holds esc buf → Goal esc (feed_esc (at esc buf params) b)
  unfolding feed_esc
  esc-Goal h =
      if_cases (Goal esc) (b == b'[')
        (λ e. (([], rw (h, (==_iff b b'[').0 e), tt), kept (λ k. k) (λ k. k) refl refl refl))
        λ _. (refl, kept (λ k. k) (λ k. k) refl refl (simp append-nil))

  InCsi-append :
      (inner : Text)
      → buf ≡ escape ∷ b'[' ∷ inner
      → All InCsi inner
      → InCsi b
      → Holds csi (buf ++ b ∷ [])
  InCsi-append inner e h k = (inner ++ b ∷ [], rw e, All-append InCsi inner (b ∷ []) h (k, tt))

  csi-Goal : Holds csi buf → Goal csi (feed_csi (at csi buf params) b)
  unfolding feed_csi
  csi-Goal (inner, e, h) =
      let no : (¬ (b ≡ b'u')) → ¬ IsPrefixKey (at csi buf params) b = λ n (u, k). n u in
      if_cases (Goal csi) (leb 0x30 b && leb b 0x3f)
        (λ c. (
          InCsi-append inner e h (ground arith),
          kept (no (λ k. ground arith)) (λ k. k) refl refl refl,
        ))
        λ _.
          if_cases (Goal csi) (leb 0x20 b && leb b 0x2f)
            (λ c. (
              InCsi-append inner e h (ground arith),
              kept (no (λ k. ground arith)) (λ k. k) refl refl refl,
            ))
            λ _.
              if_cases (Goal csi) (leb 0x40 b && leb b 0x7e)
                (λ _.
                  if_cases (Goal csi) ((b == b'u') && is_kitty_ctrl_b params)
                    (λ c. (
                      refl,
                      begun (ground arith, (is_kitty_ctrl_b_iff params).0 (ground arith)) refl refl
                          refl refl,
                    ))
                    (λ c. (
                      refl,
                      kept (λ (u, k). let y = (is_kitty_ctrl_b_iff params).1 k in ground arith)
                          (λ k. k) refl refl (simp append-nil),
                    )))
                λ c. (refl, kept (no (λ k. ground arith)) (λ k. k) refl refl (simp append-nil))

  kitty_d_iff :
      (inner : Text)
      → buf ≡ escape ∷ b'[' ∷ inner
      → (b == b'u') ≡ true
      → (is_kitty_d (buf ++ b ∷ []) ≡ true) ↔ IsKey 100 1 (drop 2 buf)
  kitty_d_iff inner e u = rw (e, (==_iff b b'u').0 u) (is_kitty_d_iff inner)

  command :
      (inner : Text)
      → buf ≡ escape ∷ b'[' ∷ inner
      → (b == b'u') ≡ true
      → is_kitty_d (buf ++ b ∷ []) ≡ true
      → IsCommandKey (at saw_prefix_csi buf params) b
  command inner e u c = ((==_iff b b'u').0 u, (kitty_d_iff inner e u).0 c)

  no_command :
      (inner : Text)
      → buf ≡ escape ∷ b'[' ∷ inner
      → (b == b'u') ≡ true
      → is_kitty_d (buf ++ b ∷ []) ≡ false
      → ¬ IsCommandKey (at saw_prefix_csi buf params) b
  no_command inner e u c (_, k) = let y = (kitty_d_iff inner e u).1 k in cc

  saw_prefix_csi-Goal :
      Holds saw_prefix_csi buf
      → Goal saw_prefix_csi (feed_saw_prefix_csi (at saw_prefix_csi buf params) b)
  unfolding feed_saw_prefix_csi
  saw_prefix_csi-Goal (inner, e, h) =
      let no : (¬ (b ≡ b'u')) → ¬ IsCommandKey (at saw_prefix_csi buf params) b = λ n (u, k). n u in
      if_cases (Goal saw_prefix_csi) (leb 0x20 b && leb b 0x3f)
        (λ c. (
          InCsi-append inner e h (ground arith),
          kept (λ k. k) (no (λ k. ground arith)) refl refl refl,
        ))
        λ _.
          if_cases (Goal saw_prefix_csi) (leb 0x40 b && leb b 0x7e)
            (λ _.
              if_cases (Goal saw_prefix_csi) (b == b'u')
                (λ u.
                  if_cases (Goal saw_prefix_csi) (is_kitty_d (buf ++ b ∷ []))
                    (λ c. (refl, finished (command inner e u c) refl refl refl refl))
                    (λ c. (refl, cancelled (no_command inner e u c) refl refl refl refl)))
                (λ c. (refl, kept (λ k. k) (no (λ k. ground arith)) refl refl (simp append-nil))))
            λ c. (refl, cancelled (no (λ k. ground arith)) refl refl refl refl)

dispatch-Outcome :
    (s : DetectState) (buf params : Text) (b : ℕ)
    → Holds s buf
    → Goal buf params b s (dispatch s (at s buf params) b)
unfolding dispatch
dispatch-Outcome normal = normal-Goal
dispatch-Outcome saw_prefix = saw_prefix-Goal
dispatch-Outcome saw_prefix_esc = saw_prefix_esc-Goal
dispatch-Outcome saw_prefix_csi = saw_prefix_csi-Goal
dispatch-Outcome esc = esc-Goal
dispatch-Outcome csi = csi-Goal

feed-Goal :
    (d : DetachDetector) (b : ℕ) → IsValid d → IsValid (feed d b).detector × Outcome d b (feed d b)
unfolding feed
feed-Goal d b h = dispatch-Outcome d.state d.buf d.params b h

-- From a valid detector, whose parameters are those of the sequence that it holds, a byte leads
-- to such a detector again. If the byte completes the prefix key, which is Ctrl+B or a Kitty
-- code with code point 98 and modifier 5, the prefix begins and nothing is forwarded; if it
-- completes the command, which is `d` or a Kitty code with 100 and 1, behind the prefix, the
-- detector detaches and nothing is forwarded. Any other byte is kept in its place behind the
-- held bytes, or cancels the prefix, which is then forwarded as one Ctrl+B before the held bytes
-- and this one.
pub feed-Outcome :
    (d : DetachDetector) (b : ℕ)
    → IsValid d
    → IsParsed d
    → IsValid (feed d b).detector × IsParsed (feed d b).detector × Outcome d b (feed d b)
feed-Outcome d b h p =
    let (valid, outcome) = feed-Goal d b h in (valid, feed-IsParsed d b h p, outcome)

-- The bytes that the detector holds, a recognised prefix key counting as one.
abbrev pub held : DetachDetector → ℕ
held d = length d.buf + (if in_prefix d.state then 1 else 0)

Outcome-length :
    (d : DetachDetector) (b : ℕ) (r : Fed)
    → IsValid r.detector
    → Outcome d b r
    → length r.forward + held r.detector ≤ held d + 1
Outcome-length d b r v (kept _ _ _ p e) = rw p (
    omega
      (arith, ap length e, length-append r.forward r.detector.buf, length-append d.buf (b ∷ [])))
Outcome-length d b r v (begun _ _ p s e) =
    let z : r.detector.buf ≡ [] = subst (λ t. Holds t r.detector.buf) s v in
    rw (p, s, e, z) (omega arith)
Outcome-length d b r v (cancelled _ _ p s e) =
    let z : r.detector.buf ≡ [] = subst (λ t. Holds t r.detector.buf) s v in
    rw (p, s, e, z) (omega (arith, length-append d.buf (b ∷ [])))
Outcome-length d b r v (finished _ _ p s e) =
    let z : r.detector.buf ≡ [] = subst (λ t. Holds t r.detector.buf) s v in
    rw (p, s, e, z) (omega arith)

feed-length :
    (d : DetachDetector) (b : ℕ)
    → IsValid d
    → length (feed d b).forward + held (feed d b).detector ≤ held d + 1
feed-length d b h = Outcome-length d b (feed d b) (feed-Goal d b h).0 (feed-Goal d b h).1

-- However many bytes are fed to a valid detector, it forwards no more than it took in and held:
-- what it forwards and what it still holds (a recognised prefix key counting as one byte)
-- together.
pub feed_buf-length :
    (d : DetachDetector) (s : Text)
    → IsValid d
    → length (feed_buf d s).forward + held (feed_buf d s).detector ≤ held d + length s
feed_buf-length d [] h = unfold feed_buf in omega arith
feed_buf-length d (b ∷ s) h = rw feed_buf-cons (
    if_cases (λ (r : Fed). length r.forward + held r.detector ≤ held d + suc (length s))
      (feed d b).detached (λ _. omega (arith, feed-length d b h))
      λ _. omega (
        arith,
        feed-length d b h,
        length-append (feed d b).forward (feed_buf (feed d b).detector s).forward,
        feed_buf-length (feed d b).detector s (feed-Goal d b h).0,
      ))
