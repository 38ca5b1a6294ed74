-- ===== src/Terminal/OutputState/Tests.antt =====
-- Runs of the output state.
use codewire.Base.{◌≡◌, refl, true, false, List, [], ◌∷◌, ◌++◌, arith}
use codewire.Base.Text.{codes, ◌=ᵗ◌}
use codewire.Terminal.OutputState.{
  ground_state, feed, feed_byte, apply_csi, new_output_state, safe_to_inject,
}
use codewire.Terminal.OutputState.Grammar.{
  Token, char, control, encode, at, feed-encode, safe_to_inject-feed,
}

alt_screen_test : (feed new_output_state (codes "x" ++ 0x1b ∷ codes "[?1049hvim")).alt_screen ≡ true
unfolding feed feed_byte apply_csi
alt_screen_test = refl

abbrev full_screen : List Token
full_screen = char b'x' ∷ control (codes "?1049") [] b'h' ∷ []

feed-encode_example : feed new_output_state (encode full_screen) ≡ at ground_state [] true
unfolding ◌=ᵗ◌
feed-encode_example = feed-encode full_screen false (omega arith)

safe_to_inject-feed_example :
    (safe_to_inject (feed new_output_state (encode full_screen)) ≡ true)
    × (safe_to_inject
          (feed new_output_state (encode full_screen ++ 0x1b ∷ b'[' ∷ (codes "1;3" ++ codes " ")))
        ≡ false)
    × (safe_to_inject (feed new_output_state (encode full_screen ++ 0x1b ∷ b']' ∷ codes "0;t"))
        ≡ false)
    × (safe_to_inject
          (feed new_output_state (encode full_screen ++ 0x1b ∷ b']' ∷ (codes "0;t" ++ 0x1b ∷ [])))
        ≡ false)
    × (safe_to_inject (feed new_output_state (encode full_screen ++ 0x1b ∷ [])) ≡ false)
safe_to_inject-feed_example =
    safe_to_inject-feed full_screen (codes "1;3") (codes " ") (codes "0;t") (omega arith)
      (omega arith) (omega arith) (omega arith)
