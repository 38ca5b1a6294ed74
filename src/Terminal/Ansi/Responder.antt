-- ===== src/Terminal/Ansi/Responder.antt =====
-- `QueryAutoResponder.Feed` of internal/terminal/ansi.go over a stream of reads.
use codewire.Base.{
  take-append_left, ℕ, zero, suc, ◌-◌, ◌≤◌, ◌≢◌, true, ◌≡◌, refl, [], ◌∷◌, ◌++◌, arith, ◌==◌,
  length, Bool-cases, inl, inr, ap, append_assoc, All, take_left,
}
use codewire.Base.Text.{Text}
use codewire.Terminal.Ansi.{
  consume_escape_sequence, escape, respond_loop, QueryAutoResponder, new_query_auto_responder, feed,
  query_response,
}
use codewire.Terminal.Ansi.Sequences.{consume-append, consume_le, suc-sub-one}
use codewire.Terminal.Ansi.Strip.{IsText}

-- The responses of two scans, the second of which starts from the tail of the first.
abbrev then_scan : Text × Text → Text → Text × Text
then_scan (out, tail) u = (out ++ (respond_loop 0 (tail ++ u)).0, (respond_loop 0 (tail ++ u)).1)

respond_loop-append :
    (k : ℕ) (s u : Text) → k ≤ length s → respond_loop k (s ++ u) ≡ then_scan (respond_loop k s) u
unfolding respond_loop
respond_loop-append zero [] u h = refl
respond_loop-append (suc k) [] u h = elim h [ ]
respond_loop-append (suc k) (c ∷ r) u h = respond_loop-append k r u (omega arith)
respond_loop-append zero (c ∷ r) u h = elim (Bool-cases (c == escape)) [
  | inr e ↦ rw e (respond_loop-append 0 r u (omega arith))
  | inl e ↦ elim (Bool-cases (consume_escape_sequence (c ∷ r)).1) [
    | inr p ↦ rw (e, p) (rw e)
    | inl p ↦
        let n = (consume_escape_sequence (c ∷ r)).0 in
        let whole : consume_escape_sequence (c ∷ r) ≡ (n, true) = ap (λ b. (n, b)) p in
        let bound = consume_le n (c ∷ r) whole in
        rw
          (
            e,
            consume-append n (c ∷ r) u whole,
            p,
            take-append_left n (c ∷ r) u bound,
            respond_loop-append (n - 1) r u (omega arith),
          )
          (simp append_assoc)
  ]
]

-- However the output of the child is cut into reads, the responses are the same and in the same
-- order, and so is the tail that is kept at the end.
pub feed-append :
    (q : QueryAutoResponder) (s u : Text)
    → feed q (s ++ u) ≡ ((feed q s).0 ++ (feed (feed q s).1 u).0, (feed (feed q s).1 u).1)
unfolding feed
feed-append q s u =
    rw (← append_assoc q.tail s u, respond_loop-append 0 (q.tail ++ s) u (omega arith))

respond_loop-text : (p s : Text) → All IsText p → respond_loop 0 (p ++ s) ≡ respond_loop 0 s
unfolding respond_loop
respond_loop-text [] s h = refl
respond_loop-text (c ∷ p) s h = ground (arith, respond_loop-text p s h.1)

respond_loop-skip : (seq s : Text) → respond_loop (length seq) (seq ++ s) ≡ respond_loop 0 s
unfolding respond_loop
respond_loop-skip [] s = refl
respond_loop-skip (c ∷ seq) s = respond_loop-skip seq s

-- A complete sequence is answered at once, wherever it stands between texts without an escape.
pub feed_answers :
    (p seq s : Text)
    → All IsText p
    → consume_escape_sequence (escape ∷ seq) ≡ (length (escape ∷ seq), true)
    → feed new_query_auto_responder (p ++ (escape ∷ (seq ++ s))) ≡ (
      query_response (escape ∷ seq) ++ (feed new_query_auto_responder s).0,
      (feed new_query_auto_responder s).1,
    )
unfolding feed
feed_answers p seq s h w = rw (respond_loop-text p (escape ∷ (seq ++ s)) h) (
    unfold respond_loop in
    rw (
      consume-append (length (escape ∷ seq)) (escape ∷ seq) s w,
      take_left (escape ∷ seq) s,
      suc-sub-one (length seq),
      respond_loop-skip seq s,
    ))

respond_loop_stuck :
    (c : ℕ) (t : Text)
    → c ≢ b'['
    → c ≢ b']'
    → respond_loop 0 (escape ∷ c ∷ t) ≡ ([], escape ∷ c ∷ t)
unfolding respond_loop consume_escape_sequence
respond_loop_stuck c t h k = ground arith

-- Behind a text without an escape, an escape that is followed by any byte but `[` or `]`, as in
-- the two-byte sequences that save the cursor or choose a character set, stops the responder for
-- good: it answers none of the queries that come behind it, in this read or in any later one,
-- and it keeps all of the output from there on.
pub feed_stuck :
    (p t later : Text) (c : ℕ)
    → All IsText p
    → c ≢ b'['
    → c ≢ b']'
    → (feed new_query_auto_responder (p ++ escape ∷ c ∷ t) ≡ ([], record { tail = escape ∷ c ∷ t }))
      × (feed (record { tail = escape ∷ c ∷ t }) later
          ≡ ([], record { tail = escape ∷ c ∷ (t ++ later) }))
unfolding feed
feed_stuck p t later c h b o = (
  rw (respond_loop-text p (escape ∷ c ∷ t) h, respond_loop_stuck c t b o),
  rw (respond_loop_stuck c (t ++ later) b o),
)
