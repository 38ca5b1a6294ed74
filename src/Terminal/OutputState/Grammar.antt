-- ===== src/Terminal/OutputState/Grammar.antt =====
-- internal/terminal/output_state.go: an output as a sequence of tokens, and `Feed` on it.
use codewire.Base.{
  ℕ, Bool, true, false, ◌≤◌, ◌≢◌, ◌≡◌, refl, ◌∙◌, ap, List, [], ◌∷◌, ◌++◌, arith, All, append-nil,
  append_assoc, ◌||◌, ◌==◌, if◌then◌else◌,
}
use codewire.Base.Text.{Text, codes, ◌=ᵗ◌}
use codewire.Terminal.OutputState.{
  ParserState, ground_state, csi, osc, OutputState, feed, feed_byte, apply_csi, safe_to_inject,
  new_output_state,
}

pub data Token : Type 0 where
  -- A byte of text.
  char : ℕ → Token
  -- `ESC [`, parameter bytes, intermediate bytes, and a final byte.
  control : Text → Text → ℕ → Token
  -- `ESC ]`, a body, and BEL; or a body and the string terminator.
  osc_bel : Text → Token
  osc_st : Text → Token
  -- `ESC` and a byte that opens no sequence.
  short : ℕ → Token

abbrev pub IsToken : Token → Type 0
IsToken (char b) = b ≢ 0x1b
IsToken (control params inner final) =
    All (λ b. (0x30 ≤ b) × (b ≤ 0x3f)) params
    × All (λ b. (0x20 ≤ b) × (b ≤ 0x2f)) inner
    × (0x40 ≤ final)
    × (final ≤ 0x7e)
IsToken (osc_bel body) = All (λ b. (b ≢ 0x07) × (b ≢ 0x1b)) body
IsToken (osc_st body) = All (λ b. (b ≢ 0x07) × (b ≢ 0x1b)) body
IsToken (short b) = (b ≢ b'[') × (b ≢ b']')

abbrev pub encode_token : Token → Text
encode_token (char b) = b ∷ []
encode_token (control params inner final) = 0x1b ∷ b'[' ∷ (params ++ (inner ++ final ∷ []))
encode_token (osc_bel body) = 0x1b ∷ b']' ∷ (body ++ 0x07 ∷ [])
encode_token (osc_st body) = 0x1b ∷ b']' ∷ (body ++ 0x1b ∷ b'\\' ∷ [])
encode_token (short b) = 0x1b ∷ b ∷ []

abbrev pub encode : List Token → Text
encode [] = []
encode (t ∷ ts) = encode_token t ++ encode ts

-- The private modes of the alternate screen.
abbrev pub screen_modes : List Text
screen_modes = codes "?1049" ∷ codes "?1047" ∷ codes "?47" ∷ []

-- Setting such a mode, `h`, turns the alternate screen on, and resetting it, `l`, off.
abbrev pub switched : Bool → ℕ → Bool → Bool
switched true final alt = if final == b'h' then true else if final == b'l' then false else alt
switched false final alt = alt

abbrev pub is_one_of : Text → List Text → Bool
is_one_of t [] = false
is_one_of t (m ∷ ms) = (t =ᵗ m) || is_one_of t ms

apply_csi-switched :
    (params : Text) (final : ℕ) (alt : Bool)
    → apply_csi params final alt ≡ switched (is_one_of params screen_modes) final alt
unfolding apply_csi
apply_csi-switched params final alt = ground arith

-- What the tokens do to the screen.
abbrev pub screen_after : Bool → List Token → Bool
screen_after alt [] = alt
screen_after alt (control params inner final ∷ ts) =
    screen_after (switched (is_one_of params screen_modes) final alt) ts
screen_after alt (t ∷ ts) = screen_after alt ts

abbrev pub at : ParserState → Text → Bool → OutputState
at s ps alt = record { state = s; csi_params = ps; alt_screen = alt }

feed-append : (s : OutputState) (a b : Text) → feed s (a ++ b) ≡ feed (feed s a) b
unfolding feed
feed-append s [] b = refl
feed-append s (c ∷ a) b = feed-append (feed_byte s c) a b

abbrev IsParam : ℕ → Type 0
IsParam b = (0x30 ≤ b) × (b ≤ 0x3f)

abbrev IsInner : ℕ → Type 0
IsInner b = (0x20 ≤ b) × (b ≤ 0x2f)

abbrev IsBody : ℕ → Type 0
IsBody b = (b ≢ 0x07) × (b ≢ 0x1b)

-- One byte in the middle of a sequence.
feed_byte-param :
    (ps : Text) (alt : Bool) (b : ℕ)
    → IsParam b
    → feed_byte (at csi ps alt) b ≡ at csi (ps ++ b ∷ []) alt
unfolding feed_byte
feed_byte-param ps alt b h = ground arith

feed_byte-inner :
    (ps : Text) (alt : Bool) (b : ℕ) → IsInner b → feed_byte (at csi ps alt) b ≡ at csi ps alt
unfolding feed_byte
feed_byte-inner ps alt b h = ground arith

feed_byte-final :
    (ps : Text) (alt : Bool) (b : ℕ)
    → 0x40 ≤ b
    → b ≤ 0x7e
    → feed_byte (at csi ps alt) b ≡ at ground_state [] (apply_csi ps b alt)
unfolding feed_byte
feed_byte-final ps alt b h k = ground arith

feed_byte-body :
    (ps : Text) (alt : Bool) (b : ℕ) → IsBody b → feed_byte (at osc ps alt) b ≡ at osc ps alt
unfolding feed_byte
feed_byte-body ps alt b h = ground arith

feed-params :
    (ps params : Text) (alt : Bool)
    → All IsParam params
    → feed (at csi ps alt) params ≡ at csi (ps ++ params) alt
unfolding feed
feed-params ps [] alt h = simp append-nil
feed-params ps (b ∷ params) alt h = rw (feed_byte-param ps alt b h.0) (
    feed-params (ps ++ b ∷ []) params alt h.1
    ∙ ap (λ t. at csi t alt) (append_assoc ps (b ∷ []) params))

feed-inner :
    (ps inner : Text) (alt : Bool) → All IsInner inner → feed (at csi ps alt) inner ≡ at csi ps alt
unfolding feed
feed-inner ps [] alt h = refl
feed-inner ps (b ∷ inner) alt h = rw (feed_byte-inner ps alt b h.0) (feed-inner ps inner alt h.1)

feed-body :
    (ps body : Text) (alt : Bool) → All IsBody body → feed (at osc ps alt) body ≡ at osc ps alt
unfolding feed
feed-body ps [] alt h = refl
feed-body ps (b ∷ body) alt h = rw (feed_byte-body ps alt b h.0) (feed-body ps body alt h.1)

-- The openings of the two kinds of sequences.
feed-open_csi :
    (ps t : Text) (alt : Bool)
    → feed (at ground_state ps alt) (0x1b ∷ b'[' ∷ t) ≡ feed (at csi [] alt) t
unfolding feed feed_byte
feed-open_csi ps t alt = refl

feed-open_osc :
    (ps t : Text) (alt : Bool)
    → feed (at ground_state ps alt) (0x1b ∷ b']' ∷ t) ≡ feed (at osc ps alt) t
unfolding feed feed_byte
feed-open_osc ps t alt = refl

feed-unfinished_csi :
    (params inner : Text) (alt : Bool)
    → All IsParam params
    → All IsInner inner
    → feed (at ground_state [] alt) (0x1b ∷ b'[' ∷ (params ++ inner)) ≡ at csi params alt
feed-unfinished_csi params inner alt h k =
    simp (feed-open_csi, feed-append, feed-params, h, feed-inner, k)

feed-token :
    (t : Token) (alt : Bool)
    → IsToken t
    → feed (at ground_state [] alt) (encode_token t)
      ≡ at ground_state [] (screen_after alt (t ∷ []))
feed-token (char b) alt h = unfold feed feed_byte in ground arith
feed-token (control params inner final) alt (h, k, l, r) =
    simp (feed-open_csi, feed-append, feed-params, h, feed-inner, k)
      (unfold feed in
        feed_byte-final params alt final l r
        ∙ ap (at ground_state []) (apply_csi-switched params final alt))
feed-token (osc_bel body) alt h =
    simp (feed-open_osc, feed-append, feed-body, h) (unfold feed feed_byte in refl)
feed-token (osc_st body) alt h =
    simp (feed-open_osc, feed-append, feed-body, h) (unfold feed feed_byte in refl)
feed-token (short b) alt h = unfold feed feed_byte in ground arith

screen_after-cons :
    (alt : Bool) (t : Token) (ts : List Token)
    → screen_after alt (t ∷ ts) ≡ screen_after (screen_after alt (t ∷ [])) ts
screen_after-cons alt (control params inner final) ts = refl
screen_after-cons alt _ ts = refl

-- The parser reads any sequence of complete tokens back to its ground state, and by then the
-- alternate screen is on exactly if the last of the control sequences that set or reset it set
-- it, and as it was where there is none: those with the parameters `?1049`, `?1047` or `?47`,
-- which set it with `h` and reset it with `l`.
pub feed-encode :
    (ts : List Token) (alt : Bool)
    → All IsToken ts
    → feed (at ground_state [] alt) (encode ts) ≡ at ground_state [] (screen_after alt ts)
feed-encode [] alt h = unfold feed in refl
feed-encode (t ∷ ts) alt h =
    rw
      (
        feed-append (at ground_state [] alt) (encode_token t) (encode ts),
        feed-token t alt h.0,
        screen_after-cons alt t ts,
      )
      (feed-encode ts (screen_after alt (t ∷ [])) h.1)

-- Between complete tokens it is safe to inject, and it is not wherever the output breaks off
-- within a control sequence or an operating system command before the end of it: directly behind
-- the escape, behind the parameters and intermediate bytes, behind any part of the body, and
-- behind the escape that begins the string terminator.
pub safe_to_inject-feed :
    (ts : List Token) (params inner body : Text)
    → All IsToken ts
    → All IsParam params
    → All IsInner inner
    → All IsBody body
    → (safe_to_inject (feed new_output_state (encode ts)) ≡ true)
      × (safe_to_inject (feed new_output_state (encode ts ++ 0x1b ∷ b'[' ∷ (params ++ inner)))
          ≡ false)
      × (safe_to_inject (feed new_output_state (encode ts ++ 0x1b ∷ b']' ∷ body)) ≡ false)
      × (safe_to_inject (feed new_output_state (encode ts ++ 0x1b ∷ b']' ∷ (body ++ 0x1b ∷ [])))
          ≡ false)
      × (safe_to_inject (feed new_output_state (encode ts ++ 0x1b ∷ [])) ≡ false)
unfolding safe_to_inject
safe_to_inject-feed ts params inner body h k l m = (
  rw (feed-encode ts false h),
  simp (feed-append, feed-encode, h, feed-unfinished_csi, k, l),
  simp (feed-append, feed-encode, h, feed-open_osc, feed-body, m),
  simp (feed-append, feed-encode, h, feed-open_osc, feed-body, m) (unfold feed feed_byte in refl),
  simp (feed-append, feed-encode, h) (unfold feed feed_byte in refl),
)
