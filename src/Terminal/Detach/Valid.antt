-- ===== src/Terminal/Detach/Valid.antt =====
-- internal/terminal/detach.go: the bytes that the detector holds.
use codewire.Base.{ℕ, ◌≡◌, ◌≤◌, [], ◌∷◌, All}
use codewire.Base.Text.{Text}
use codewire.Terminal.Detach.{
  DetectState, normal, saw_prefix, saw_prefix_esc, saw_prefix_csi, esc, csi, DetachDetector, escape,
}

-- A byte inside a CSI sequence, before its final byte.
abbrev pub InCsi : ℕ → Type 0
InCsi b = (0x20 ≤ b) × (b ≤ 0x3f)

-- The sequence that has been read so far, in each state.
abbrev pub Holds : DetectState → Text → Type 0
Holds normal buf = buf ≡ []
Holds saw_prefix buf = buf ≡ []
Holds saw_prefix_esc buf = buf ≡ escape ∷ []
Holds esc buf = buf ≡ escape ∷ []
Holds saw_prefix_csi buf = (inner : Text) × (buf ≡ escape ∷ b'[' ∷ inner) × All InCsi inner
Holds csi buf = (inner : Text) × (buf ≡ escape ∷ b'[' ∷ inner) × All InCsi inner

abbrev pub IsValid : DetachDetector → Type 0
IsValid d = Holds d.state d.buf

abbrev pub at : DetectState → Text → Text → DetachDetector
at s buf params = record { state = s; buf = buf; params = params }
