-- ===== src/Terminal/Detach/Tests.antt =====
-- Runs of the detach detector.
use codewire.Base.{◌+◌, ◌≤◌, true, false, ◌≡◌, refl, none, some, [], ◌∷◌, ◌++◌, arith, length}
use codewire.Base.Text.{codes}
use codewire.Terminal.Kitty.{parse_kitty, is_kitty_d, is_kitty_ctrl_b}
use codewire.Terminal.Detach.{
  DetachDetector, saw_prefix, csi, fed, feed, feed_buf, escape, ctrl_b, new_detach_detector,
}
use codewire.Terminal.Detach.Stream.{feed_buf-append, prepend}
use codewire.Terminal.Detach.Valid.{IsValid, at}
use codewire.Terminal.Detach.Params.{IsParsed}
use codewire.Terminal.Detach.Outcome.{feed-Outcome, feed_buf-length, Outcome, held}
use codewire.Terminal.Detach.Keys.{csi_key, csi_sequence, detach_through_reports, reports_text}

parse_kitty_tests :
    (parse_kitty (codes "98;5") ≡ some (98, 5))
    × (parse_kitty (codes "100:68;1:2;100") ≡ some (100, 1))
    × (parse_kitty (codes "100") ≡ some (100, 1))
    × (parse_kitty (codes ";1") ≡ none)
    × (parse_kitty (codes "4294967296") ≡ none)
unfolding parse_kitty
parse_kitty_tests = (refl, refl, refl, refl, refl)

is_kitty_d_test : is_kitty_d (0x1b ∷ codes "[100;1u") ≡ true
unfolding is_kitty_d
is_kitty_d_test = refl

legacy_test : (feed_buf new_detach_detector (codes "ls" ++ ctrl_b ∷ codes "dx")).detached ≡ true
unfolding feed_buf feed
legacy_test = refl

kitty_test :
    feed_buf new_detach_detector (escape ∷ codes "[98;5u" ++ escape ∷ codes "[100u")
    ≡ fed true [] new_detach_detector
unfolding feed_buf feed
kitty_test = refl

-- Half of a Kitty Ctrl+B has been read.
abbrev half_key : DetachDetector
half_key = at csi (escape ∷ codes "[98") (codes "98")

half_key-IsValid : IsValid half_key
half_key-IsValid = (codes "98", refl, omega arith)

feed_buf-append_example :
    feed_buf half_key (codes ";5" ++ codes "ud")
    ≡ prepend
        (feed_buf half_key (codes ";5")).forward
        (feed_buf (feed_buf half_key (codes ";5")).detector (codes "ud"))
unfolding feed_buf feed
feed_buf-append_example = feed_buf-append half_key (codes ";5") (codes "ud")

feed-Outcome_example :
    IsValid (feed half_key b';').detector
    × IsParsed (feed half_key b';').detector
    × Outcome half_key b';' (feed half_key b';')
feed-Outcome_example = feed-Outcome half_key b';' half_key-IsValid refl

feed_buf-length_example :
    length (feed_buf half_key (codes "5u")).forward + held (feed_buf half_key (codes "5u")).detector
    ≤ 6
feed_buf-length_example = feed_buf-length half_key (codes "5u") half_key-IsValid

kitty_key_test :
    feed_buf new_detach_detector (csi_sequence (codes "98;5") b'u')
    ≡ fed false [] (at saw_prefix [] [])
unfolding is_kitty_ctrl_b
kitty_key_test = csi_key (codes "98;5") b'u' (omega arith) (omega arith)

detach_through_reports_example :
    feed_buf new_detach_detector
      (codes "ls" ++ (ctrl_b ∷ (reports_text ((codes "12;40", b'R') ∷ []) ++ b'd' ∷ codes "x")))
    ≡ fed true (codes "ls" ++ reports_text ((codes "12;40", b'R') ∷ [])) new_detach_detector
detach_through_reports_example =
    detach_through_reports (codes "ls") (codes "x") ((codes "12;40", b'R') ∷ []) (omega arith)
      (omega arith)
