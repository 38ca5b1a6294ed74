-- ===== src/Terminal/Ansi/Strip.antt =====
-- `StripANSI` and `StripTerminalQueries` of internal/terminal/ansi.go.
use codewire.Base.{
  take-append_left, ℕ, zero, suc, ◌-◌, ◌≤◌, ◌≢◌, Bool, true, false, not, ◌≡◌, refl, ◌∙◌, [], ◌∷◌,
  ◌++◌, arith, ◌==◌, length, take, Bool-cases, inl, inr, ap, All, length-take, if_cases,
}
use codewire.Base.Text.{Text}
use codewire.Terminal.Ansi.{
  consume_escape_sequence, escape, strip_loop, strip_ansi, strip_queries_loop, kept_sequence,
  strip_terminal_queries, is_terminal_query,
}
use codewire.Terminal.Ansi.Sequences.{
  consume-append, consume_le, consume-take, take-take, suc-sub-one,
}

abbrev pub IsText : ℕ → Type 0
IsText c = c ≢ escape

strip_loop-IsText : (k : ℕ) (s : Text) → All IsText (strip_loop k s)
unfolding strip_loop
strip_loop-IsText k [] = tt
strip_loop-IsText (suc k) (c ∷ r) = strip_loop-IsText k r
strip_loop-IsText zero (c ∷ r) = elim (Bool-cases (c == escape)) [
  | inl e ↦ rw e (strip_loop-IsText ((consume_escape_sequence (c ∷ r)).0 - 1) r)
  | inr e ↦ rw e (ground arith, strip_loop-IsText 0 r)
]

strip_loop-text : (s : Text) → All IsText s → strip_loop 0 s ≡ s
unfolding strip_loop
strip_loop-text [] h = refl
strip_loop-text (c ∷ r) h = ground (arith, strip_loop-text r h.1)

-- No escape byte is left in a stripped text, a text with none is left as it is, and so stripping
-- twice is stripping once.
pub strip_ansi_clean :
    (s : Text)
    → All IsText (strip_ansi s)
      × (All IsText s → strip_ansi s ≡ s)
      × (strip_ansi (strip_ansi s) ≡ strip_ansi s)
unfolding strip_ansi
strip_ansi_clean s = (
  strip_loop-IsText 0 s,
  strip_loop-text s,
  strip_loop-text (strip_loop 0 s) (strip_loop-IsText 0 s),
)

strip_loop-skip :
    (m : ℕ) (r x : Text) → m ≤ length r → strip_loop m (take m r ++ x) ≡ strip_loop 0 x
unfolding strip_loop
strip_loop-skip zero r x h = refl
strip_loop-skip (suc m) [] x h = elim h [ ]
strip_loop-skip (suc m) (c ∷ r) x h = strip_loop-skip m r x (omega arith)

strip_queries_loop-skip :
    (m : ℕ) (r x : Text)
    → m ≤ length r
    → strip_queries_loop m (take m r ++ x) ≡ strip_queries_loop 0 x
unfolding strip_queries_loop
strip_queries_loop-skip zero r x h = refl
strip_queries_loop-skip (suc m) [] x h = elim h [ ]
strip_queries_loop-skip (suc m) (c ∷ r) x h = strip_queries_loop-skip m r x (omega arith)

-- A complete sequence in front of a text is read alone.
consume-alone :
    (m : ℕ) (c : ℕ) (r x : Text)
    → consume_escape_sequence (c ∷ r) ≡ (suc m, true)
    → consume_escape_sequence (c ∷ (take m r ++ x)) ≡ (suc m, true)
consume-alone m c r x h = consume-append (suc m) (c ∷ take m r) x (consume-take (suc m) (c ∷ r) h)

-- The sequence at the start of a text is dropped, or kept whole.
abbrev Kept {ℓ} : Type ℓ → ℕ → Text → Type ℓ
Kept P c r =
    (m : ℕ)
    → consume_escape_sequence (c ∷ r) ≡ (suc m, true)
    → m ≤ length r
    → is_terminal_query (c ∷ take m r) ≡ false
    → kept_sequence (c ∷ r) ≡ c ∷ take m r
    → P

module _ {ℓ} {P : Type ℓ} (c : ℕ) (r : Text) where
  kept_split :
      (n : ℕ) (keep : Bool)
      → consume_escape_sequence (c ∷ r) ≡ (n, keep)
      → (kept_sequence (c ∷ r) ≡ [] → P)
      → Kept P c r
      → P
  unfolding kept_sequence
  kept_split n false e dropped kept = dropped (rw e)
  kept_split zero true e dropped kept =
      dropped
        (rw e (if_cases (λ (t : Text). t ≡ []) (not (is_terminal_query [])) (λ _. refl) λ _. refl))
  kept_split (suc m) true e dropped kept = elim (Bool-cases (is_terminal_query (c ∷ take m r))) [
    | inl q ↦ dropped (rw (e, q))
    | inr q ↦ kept m e (omega (arith, consume_le (suc m) (c ∷ r) e)) q (rw (e, q))
  ]

  kept_cases : (kept_sequence (c ∷ r) ≡ [] → P) → Kept P c r → P
  kept_cases = kept_split _ _ refl

module _ (m c : ℕ) (r x : Text) (e : (c == escape) ≡ true)
    (h : consume_escape_sequence (c ∷ r) ≡ (suc m, true)) (b : m ≤ length r) where
  strip_loop-sequence : strip_loop 0 (c ∷ (take m r ++ x)) ≡ strip_loop 0 x
  unfolding strip_loop
  strip_loop-sequence = rw (e, consume-alone m c r x h, suc-sub-one m) (strip_loop-skip m r x b)

  kept_sequence-sequence :
      is_terminal_query (c ∷ take m r) ≡ false → kept_sequence (c ∷ (take m r ++ x)) ≡ c ∷ take m r
  unfolding kept_sequence
  kept_sequence-sequence q = rw (consume-alone m c r x h, take_whole, q)
    where
      take_whole : take m (take m r ++ x) ≡ take m r
      take_whole = take-append_left m (take m r) x (omega (arith, length-take m r)) ∙ take-take m r

  strip_queries_loop-sequence :
      is_terminal_query (c ∷ take m r) ≡ false
      → strip_queries_loop 0 (c ∷ (take m r ++ x)) ≡ c ∷ (take m r ++ strip_queries_loop 0 x)
  unfolding strip_queries_loop
  strip_queries_loop-sequence q =
      rw (e, kept_sequence-sequence q, consume-alone m c r x h, suc-sub-one m)
        (ap (λ (t : Text). c ∷ (take m r ++ t)) (strip_queries_loop-skip m r x b))

strip-strip_queries_loop :
    (k : ℕ) (s : Text) → strip_loop 0 (strip_queries_loop k s) ≡ strip_loop k s
unfolding strip_loop strip_queries_loop
strip-strip_queries_loop k [] = refl
strip-strip_queries_loop (suc k) (c ∷ r) = strip-strip_queries_loop k r
strip-strip_queries_loop zero (c ∷ r) = elim (Bool-cases (c == escape)) [
  | inr e ↦ rw (e, e) (ap (◌∷◌ c) (strip-strip_queries_loop 0 r))
  | inl e ↦
      let n = (consume_escape_sequence (c ∷ r)).0 - 1 in
      let ih = strip-strip_queries_loop n r in
      rw e (
        kept_cases c r (λ k. rw k ih)
          λ m h b _ k. rw k (strip_loop-sequence m c r (strip_queries_loop n r) e h b ∙ ih))
]

strip_queries_loop_twice :
    (k : ℕ) (s : Text) → strip_queries_loop 0 (strip_queries_loop k s) ≡ strip_queries_loop k s
unfolding strip_queries_loop
strip_queries_loop_twice k [] = refl
strip_queries_loop_twice (suc k) (c ∷ r) = strip_queries_loop_twice k r
strip_queries_loop_twice zero (c ∷ r) = elim (Bool-cases (c == escape)) [
  | inr e ↦ rw (e, e) (ap (◌∷◌ c) (strip_queries_loop_twice 0 r))
  | inl e ↦
      let n = (consume_escape_sequence (c ∷ r)).0 - 1 in
      let ih = strip_queries_loop_twice n r in
      rw e (
        kept_cases c r (λ k. rw k ih)
          λ m h b q k. rw k (
            strip_queries_loop-sequence m c r (strip_queries_loop n r) e h b q
            ∙ ap (λ (t : Text). c ∷ (take m r ++ t)) ih))
]

-- Taking the terminal queries out of a text leaves what StripANSI shows of it, and doing it twice
-- is doing it once.
pub strip_ansi-strip_terminal_queries :
    (s : Text)
    → (strip_ansi (strip_terminal_queries s) ≡ strip_ansi s)
      × (strip_terminal_queries (strip_terminal_queries s) ≡ strip_terminal_queries s)
unfolding strip_ansi strip_terminal_queries
strip_ansi-strip_terminal_queries s = (strip-strip_queries_loop 0 s, strip_queries_loop_twice 0 s)
