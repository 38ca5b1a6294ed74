-- ===== src/Terminal/Detach/Keys.antt =====
-- internal/terminal/detach.go: which key sequences detach.
use codewire.Base.{
  ℕ, true, false, ◌≡◌, ◌≢◌, refl, List, [], ◌∷◌, ◌++◌, arith, All, ◌≤◌, ◌==◌, ◌&&◌, append-nil,
  append_assoc, Bool-cases, inl, inr, if◌then◌else◌, ap, ◌∙◌,
}
use codewire.Base.Text.{Text}
use codewire.Terminal.Kitty.{is_kitty_ctrl_b}
use codewire.Terminal.Detach.{
  normal, saw_prefix, saw_prefix_csi, saw_prefix_esc, esc, csi, fed, feed, feed_buf, escape, ctrl_b,
  new_detach_detector,
}
use codewire.Terminal.Detach.Stream.{feed_buf-cons, prepend}
use codewire.Terminal.Detach.Valid.{InCsi, at}

abbrev pub csi_sequence : Text → ℕ → Text
csi_sequence inner final = escape ∷ b'[' ∷ inner ++ final ∷ []

abbrev pub IsParam : ℕ → Type 0
IsParam b = (0x30 ≤ b) × (b ≤ 0x3f)

abbrev pub IsFinal : ℕ → Type 0
IsFinal b = (0x40 ≤ b) × (b ≤ 0x7e)

abbrev pub IsPlain : ℕ → Type 0
IsPlain b = (b ≢ escape) × (b ≢ ctrl_b)

feed-plain :
    (p : Text) (b : ℕ) → IsPlain b → feed (at normal [] p) b ≡ fed false (b ∷ []) (at normal [] p)
unfolding feed
feed-plain p b h = ground arith

feed-param :
    (buf params : Text) (b : ℕ)
    → IsParam b
    → feed (at csi buf params) b ≡ fed false [] (at csi (buf ++ b ∷ []) (params ++ b ∷ []))
unfolding feed
feed-param buf params b h = ground arith

feed-inner :
    (buf params : Text) (b : ℕ)
    → InCsi b
    → feed (at saw_prefix_csi buf params) b
      ≡ fed false [] (at saw_prefix_csi (buf ++ b ∷ []) params)
unfolding feed
feed-inner buf params b h = ground arith

feed-report :
    (buf params : Text) (b : ℕ)
    → IsFinal b
    → b ≢ b'u'
    → feed (at saw_prefix_csi buf params) b ≡ fed false (buf ++ b ∷ []) (at saw_prefix [] params)
unfolding feed
feed-report buf params b h k = ground arith

feed-final :
    (buf params : Text) (b : ℕ)
    → IsFinal b
    → feed (at csi buf params) b ≡ (
        if (b == b'u') && is_kitty_ctrl_b params
        then fed false [] (at saw_prefix [] [])
        else fed false (buf ++ b ∷ []) new_detach_detector)
unfolding feed
feed-final buf params b h = ground arith

feed_buf-params :
    (buf params ps t : Text)
    → All IsParam ps
    → feed_buf (at csi buf params) (ps ++ t) ≡ feed_buf (at csi (buf ++ ps) (params ++ ps)) t
feed_buf-params buf params [] t h = simp append-nil
feed_buf-params buf params (b ∷ ps) t h =
    simp (feed_buf-cons, feed-param buf params b h.0)
      (feed_buf-params (buf ++ b ∷ []) (params ++ b ∷ []) ps t h.1 ∙ simp append_assoc)

feed_buf-inner :
    (buf params inner t : Text)
    → All InCsi inner
    → feed_buf (at saw_prefix_csi buf params) (inner ++ t)
      ≡ feed_buf (at saw_prefix_csi (buf ++ inner) params) t
feed_buf-inner buf params [] t h = simp append-nil
feed_buf-inner buf params (b ∷ inner) t h =
    simp (feed_buf-cons, feed-inner buf params b h.0)
      (feed_buf-inner (buf ++ b ∷ []) params inner t h.1 ∙ simp append_assoc)

feed-escape : (p : Text) → feed (at normal [] p) escape ≡ fed false [] (at esc (escape ∷ []) p)
unfolding feed
feed-escape p = refl

feed-ctrl_b : (p : Text) → feed (at normal [] p) ctrl_b ≡ fed false [] (at saw_prefix [] p)
unfolding feed
feed-ctrl_b p = refl

feed-d : (p : Text) → feed (at saw_prefix [] p) b'd' ≡ fed true [] (at normal [] p)
unfolding feed
feed-d p = refl

feed-bracket :
    (p : Text) → feed (at esc (escape ∷ []) p) b'[' ≡ fed false [] (at csi (escape ∷ b'[' ∷ []) [])
unfolding feed
feed-bracket p = refl

feed-escape_prefix :
    (p : Text) → feed (at saw_prefix [] p) escape ≡ fed false [] (at saw_prefix_esc (escape ∷ []) p)
unfolding feed
feed-escape_prefix p = refl

feed-bracket_prefix :
    (p : Text)
    → feed (at saw_prefix_esc (escape ∷ []) p) b'['
      ≡ fed false [] (at saw_prefix_csi (escape ∷ b'[' ∷ []) p)
unfolding feed
feed-bracket_prefix p = refl

-- At a new detector, a CSI sequence with parameter bytes only is taken for the prefix key
-- exactly when it is the Kitty code of Ctrl+B, and then nothing of it is forwarded; any other
-- goes through unchanged and leaves the detector new.
pub csi_key :
    (params : Text) (final : ℕ)
    → All IsParam params
    → IsFinal final
    → feed_buf new_detach_detector (csi_sequence params final) ≡ (
        if (final == b'u') && is_kitty_ctrl_b params
        then fed false [] (at saw_prefix [] [])
        else fed false (csi_sequence params final) new_detach_detector)
csi_key params final h f =
    simp (feed_buf-cons, feed-escape, feed-bracket, feed_buf-params, h)
      (simp (feed-final, f)
        (elim (Bool-cases ((final == b'u') && is_kitty_ctrl_b params)) [
          | inl e ↦ rw e (unfold feed_buf in refl)
          | inr e ↦ rw e (unfold feed_buf in simp append-nil)
        ]))

-- A report that the terminal sends by itself: any CSI sequence that is not a Kitty key.
abbrev pub IsReport : Text × ℕ → Type 0
IsReport (inner, final) = All InCsi inner × IsFinal final × (final ≢ b'u')

abbrev pub reports_text : List (Text × ℕ) → Text
reports_text [] = []
reports_text ((inner, final) ∷ rs) = csi_sequence inner final ++ reports_text rs

feed_buf-report :
    (p inner t : Text) (final : ℕ)
    → IsReport (inner, final)
    → feed_buf (at saw_prefix [] p) (csi_sequence inner final ++ t)
      ≡ prepend (csi_sequence inner final) (feed_buf (at saw_prefix [] p) t)
feed_buf-report p inner t final (h, f, k) =
    simp (append_assoc, feed_buf-cons, feed-escape_prefix, feed-bracket_prefix, feed_buf-inner, h)
      (simp (feed-report, f, k) (simp append_assoc))

feed_buf-reports :
    (p t : Text) (rs : List (Text × ℕ))
    → All IsReport rs
    → feed_buf (at saw_prefix [] p) (reports_text rs ++ t)
      ≡ prepend (reports_text rs) (feed_buf (at saw_prefix [] p) t)
feed_buf-reports p t [] h = refl
feed_buf-reports p t ((inner, final) ∷ rs) h =
    ap (feed_buf (at saw_prefix [] p)) (append_assoc (csi_sequence inner final) (reports_text rs) t)
    ∙ feed_buf-report p inner (reports_text rs ++ t) final h.0
    ∙ ap (prepend (csi_sequence inner final)) (feed_buf-reports p t rs h.1)
    ∙ simp append_assoc

feed_buf-plain :
    (p s t : Text)
    → All IsPlain s
    → feed_buf (at normal [] p) (s ++ t) ≡ prepend s (feed_buf (at normal [] p) t)
feed_buf-plain p [] t h = refl
feed_buf-plain p (b ∷ s) t h = simp (feed_buf-cons, feed-plain p b h.0, feed_buf-plain p s t h.1)

-- Input with no Escape and no Ctrl+B goes through; Ctrl+B and `d` detach, whatever the user
-- types behind them, also when the terminal has put reports of its own between the two: what
-- came before and the reports are forwarded, and neither key is.
pub detach_through_reports :
    (typed rest : Text) (reports : List (Text × ℕ))
    → All IsPlain typed
    → All IsReport reports
    → feed_buf new_detach_detector (typed ++ (ctrl_b ∷ (reports_text reports ++ b'd' ∷ rest)))
      ≡ fed true (typed ++ reports_text reports) new_detach_detector
detach_through_reports typed rest reports h k =
    feed_buf-plain [] typed (ctrl_b ∷ (reports_text reports ++ b'd' ∷ rest)) h
    ∙ simp (feed_buf-cons, feed-ctrl_b, feed_buf-reports, k, feed-d) (simp append-nil)
