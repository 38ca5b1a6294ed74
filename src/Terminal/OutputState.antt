-- ===== src/Terminal/OutputState.antt =====
-- internal/terminal/output_state.go: when the client may draw its status bar into a session's output.
pub mod Grammar
mod Tests
use codewire.Base.{
  ℕ, Bool, true, false, ◌&&◌, ◌||◌, not, ◌≡◌, refl, List, [], ◌∷◌, ◌++◌, leb, ◌==◌, if◌then◌else◌,
}
use codewire.Base.Text.{Text, codes, ◌=ᵗ◌}

pub data ParserState : Type 0 where
  ground_state esc csi osc osc_esc : ParserState

pub record OutputState : Type 0 where
  pub state : ParserState
  pub csi_params : Text
  pub alt_screen : Bool

abbrev pub new_output_state : OutputState
new_output_state = record { state = ground_state; csi_params = []; alt_screen = false }

pub safe_to_inject : OutputState → Bool
safe_to_inject s = is_ground s.state
  where
    is_ground : ParserState → Bool
    is_ground ground_state = true
    is_ground _ = false

-- `applyCSI`.
unfoldable pub apply_csi : Text → ℕ → Bool → Bool
unfolding ◌=ᵗ◌
apply_csi params final alt =
    if not (final == b'h') && not (final == b'l')
    then alt
    else if params =ᵗ codes "?1049"
    then final == b'h'
    else if params =ᵗ codes "?1047"
    then final == b'h'
    else if params =ᵗ codes "?47"
    then final == b'h'
    else alt

-- The body of the loop of `Feed`, one function for each state.
feed_ground : OutputState → ℕ → OutputState
feed_ground s b = if b == 0x1b then record s { state = esc } else s

feed_esc : OutputState → ℕ → OutputState
feed_esc s b =
    if b == b'['
    then record s { state = csi; csi_params = [] }
    else if b == b']'
    then record s { state = osc }
    else record s { state = ground_state }

feed_csi : OutputState → ℕ → OutputState
feed_csi s b =
    if leb 0x30 b && leb b 0x3f
    then record s { csi_params = s.csi_params ++ b ∷ [] }
    else if leb 0x20 b && leb b 0x2f
    then s
    else if leb 0x40 b && leb b 0x7e
    then record {
      state = ground_state;
      csi_params = [];
      alt_screen = apply_csi s.csi_params b s.alt_screen;
    }
    else record s { state = ground_state; csi_params = [] }

feed_osc : OutputState → ℕ → OutputState
feed_osc s b =
    if b == 0x07
    then record s { state = ground_state }
    else if b == 0x1b
    then record s { state = osc_esc }
    else s

feed_osc_esc : OutputState → ℕ → OutputState
feed_osc_esc s b =
    if b == b'\\' then record s { state = ground_state } else record s { state = osc }

dispatch : ParserState → OutputState → ℕ → OutputState
dispatch ground_state = feed_ground
dispatch esc = feed_esc
dispatch csi = feed_csi
dispatch osc = feed_osc
dispatch osc_esc = feed_osc_esc

feed_byte : OutputState → ℕ → OutputState
unfolding dispatch feed_ground feed_esc feed_csi feed_osc feed_osc_esc
feed_byte s b = dispatch s.state s b

-- `Feed`.
pub feed : OutputState → Text → OutputState
feed s [] = s
feed s (b ∷ rest) = feed (feed_byte s b) rest
