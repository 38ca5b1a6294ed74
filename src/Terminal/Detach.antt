-- ===== src/Terminal/Detach.antt =====
-- internal/terminal/detach.go: `DetachDetector`. A byte is a number, and a buffer a list of bytes.
pub mod Stream
pub mod Valid
pub mod Params
pub mod Outcome
pub mod Keys
mod Tests
use codewire.Base.{
  ℕ, Bool, true, false, ◌&&◌, ◌≡◌, refl, List, [], ◌∷◌, ◌++◌, arith, leb, ◌==◌, if◌then◌else◌,
}
use codewire.Base.Text.{Text, codes}
use codewire.Terminal.Kitty.{is_kitty_ctrl_b, is_kitty_d}

pub data DetectState : Type 0 where
  normal saw_prefix saw_prefix_esc saw_prefix_csi esc csi : DetectState

pub record DetachDetector : Type 0 where
  pub state : DetectState
  pub buf : Text
  pub params : Text

abbrev pub new_detach_detector : DetachDetector
new_detach_detector = record { state = normal; buf = []; params = [] }

abbrev pub escape : ℕ
escape = 0x1b

abbrev pub ctrl_b : ℕ
ctrl_b = 0x02

-- What `Feed` returns, with the detector that it leaves.
pub record Fed : Type 0 where
  pub detached : Bool
  pub forward : Text
  pub detector : DetachDetector

abbrev pub fed : Bool → Text → DetachDetector → Fed
fed b f d = record { detached = b; forward = f; detector = d }

feed_normal : DetachDetector → ℕ → Fed
feed_normal d b =
    if b == ctrl_b
    then fed false [] (record d { state = saw_prefix })
    else if b == escape
    then fed false [] (record d { state = esc; buf = b ∷ [] })
    else fed false (b ∷ []) d

feed_saw_prefix : DetachDetector → ℕ → Fed
feed_saw_prefix d b =
    if b == b'd'
    then fed true [] (record d { state = normal })
    else if b == escape
    then fed false [] (record d { state = saw_prefix_esc; buf = b ∷ [] })
    else fed false (ctrl_b ∷ b ∷ []) (record d { state = normal })

feed_saw_prefix_esc : DetachDetector → ℕ → Fed
feed_saw_prefix_esc d b =
    let buf = d.buf ++ b ∷ [] in
    if b == b'['
    then fed false [] (record d { state = saw_prefix_csi; buf = buf })
    else fed false buf (record d { state = saw_prefix; buf = [] })

feed_saw_prefix_csi : DetachDetector → ℕ → Fed
unfolding is_kitty_d
feed_saw_prefix_csi d b =
    let buf = d.buf ++ b ∷ [] in
    if leb 0x20 b && leb b 0x3f
    then fed false [] (record d { buf = buf })
    else if leb 0x40 b && leb b 0x7e
    then (if b == b'u'
        then (if is_kitty_d buf
            then fed true [] (record d { state = normal; buf = [] })
            else fed false (ctrl_b ∷ buf) (record d { state = normal; buf = [] }))
        else fed false buf (record d { state = saw_prefix; buf = [] }))
    else fed false (ctrl_b ∷ buf) (record d { state = normal; buf = [] })

feed_esc : DetachDetector → ℕ → Fed
feed_esc d b =
    let buf = d.buf ++ b ∷ [] in
    if b == b'['
    then fed false [] (record { state = csi; buf = buf; params = [] })
    else fed false buf (record d { state = normal; buf = [] })

feed_csi : DetachDetector → ℕ → Fed
unfolding is_kitty_ctrl_b
feed_csi d b =
    let buf = d.buf ++ b ∷ [] in
    if leb 0x30 b && leb b 0x3f
    then fed false [] (record d { buf = buf; params = d.params ++ b ∷ [] })
    else if leb 0x20 b && leb b 0x2f
    then fed false [] (record d { buf = buf })
    else if leb 0x40 b && leb b 0x7e
    then (if (b == b'u') && is_kitty_ctrl_b d.params
        then fed false [] (record { state = saw_prefix; buf = []; params = [] })
        else fed false buf (record { state = normal; buf = []; params = [] }))
    else fed false buf (record { state = normal; buf = []; params = [] })

dispatch : DetectState → DetachDetector → ℕ → Fed
dispatch normal = feed_normal
dispatch saw_prefix = feed_saw_prefix
dispatch saw_prefix_esc = feed_saw_prefix_esc
dispatch saw_prefix_csi = feed_saw_prefix_csi
dispatch esc = feed_esc
dispatch csi = feed_csi

pub feed : DetachDetector → ℕ → Fed
unfolding dispatch feed_normal feed_saw_prefix feed_saw_prefix_esc feed_saw_prefix_csi feed_esc
    feed_csi
feed d b = dispatch d.state d b

-- `FeedBuf`: what was forwarded so far is the accumulator, as in the loop.
feed_loop : Text → DetachDetector → Text → Fed
feed_loop forward d [] = fed false forward d
feed_loop forward d (b ∷ rest) =
    let r = feed d b in
    let more = feed_loop (forward ++ r.forward) r.detector rest in
    if r.detached then fed true forward r.detector else more

pub feed_buf : DetachDetector → Text → Fed
unfolding feed_loop
feed_buf d buf = feed_loop [] d buf
