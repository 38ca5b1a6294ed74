-- ===== src/Terminal/Ansi/Tests.antt =====
-- Runs of the filters and of the responder.
use codewire.Base.{◌≡◌, refl, List, [], ◌∷◌, ◌++◌, arith, All}
use codewire.Base.Text.{Text, codes, ◌=ᵗ◌, contains, has_suffix, has_prefix}
use codewire.Terminal.Ansi.{
  escape, bell, strip_ansi, strip_terminal_queries, consume_escape_sequence, csi_scan, osc_scan,
  starts_with, feed, query_response, respond_loop, new_query_auto_responder,
}
use codewire.Terminal.Ansi.Strip.{IsText, strip_ansi_clean}
use codewire.Terminal.Ansi.Queries.{strip_terminal_queries-encode}
use codewire.Terminal.OutputState.Grammar.{Token, char, control, osc_bel, osc_st, short, encode}
use codewire.Terminal.Ansi.Responder.{feed-append, feed_answers, feed_stuck}

strip_ansi_test :
    strip_ansi (codes "a" ++ escape ∷ codes "[31mb" ++ escape ∷ codes "]0;t" ++ bell ∷ codes "c")
    ≡ codes "abc"
unfolding strip_ansi consume_escape_sequence csi_scan osc_scan starts_with
strip_ansi_test = refl

feed_test :
    feed new_query_auto_responder (codes "x" ++ escape ∷ codes "[6ny" ++ escape ∷ codes "[")
    ≡ (escape ∷ codes "[1;1R", record { tail = escape ∷ codes "[" })
unfolding feed respond_loop consume_escape_sequence csi_scan query_response ◌=ᵗ◌
feed_test = refl

abbrev colored : Text
colored = codes "a" ++ (escape ∷ codes "[31mb")

abbrev clears_screen : Text
clears_screen = escape ∷ codes "[2J"

strip_ansi_clean_example :
    All IsText (strip_ansi colored)
    × (All IsText colored → strip_ansi colored ≡ colored)
    × (strip_ansi (strip_ansi colored) ≡ strip_ansi colored)
strip_ansi_clean_example = strip_ansi_clean colored

abbrev asking : List Token
asking =
    char b'a'
    ∷ control (codes "6") [] b'n'
    ∷ control (codes "31") [] b'm'
    ∷ osc_bel (codes "11;?")
    ∷ osc_st (codes "0;t")
    ∷ short b'7'
    ∷ []

strip_terminal_queries-encode_example :
    (strip_terminal_queries (encode asking)
      ≡ codes "a" ++ (escape ∷ codes "[31m") ++ (escape ∷ codes "]0;t") ++ escape ∷ b'\\' ∷ [])
    × (strip_ansi (strip_terminal_queries (encode asking)) ≡ strip_ansi (encode asking))
unfolding contains has_suffix has_prefix
strip_terminal_queries-encode_example = strip_terminal_queries-encode asking (ground arith)

feed-append_example :
    feed new_query_auto_responder (escape ∷ codes "[6" ++ codes "nx")
    ≡ (escape ∷ codes "[1;1R", record { tail = [] })
unfolding feed respond_loop consume_escape_sequence csi_scan query_response ◌=ᵗ◌
feed-append_example = feed-append new_query_auto_responder (escape ∷ codes "[6") (codes "nx")

answered_test :
    feed new_query_auto_responder (codes "x" ++ (escape ∷ (codes "[6n" ++ codes "y"))) ≡ (
      query_response (escape ∷ codes "[6n") ++ (feed new_query_auto_responder (codes "y")).0,
      (feed new_query_auto_responder (codes "y")).1,
    )
unfolding consume_escape_sequence csi_scan
answered_test = feed_answers (codes "x") (codes "[6n") (codes "y") (omega arith) refl

feed_stuck_example :
    (feed new_query_auto_responder (codes "x" ++ escape ∷ b'7' ∷ [])
      ≡ ([], record { tail = escape ∷ b'7' ∷ [] }))
    × (feed (record { tail = escape ∷ b'7' ∷ [] }) (escape ∷ codes "[6n")
        ≡ ([], record { tail = escape ∷ b'7' ∷ escape ∷ codes "[6n" }))
feed_stuck_example =
    feed_stuck (codes "x") [] (escape ∷ codes "[6n") b'7' (omega arith) (omega arith) (omega arith)
