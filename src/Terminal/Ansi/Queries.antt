-- ===== src/Terminal/Ansi/Queries.antt =====
-- internal/terminal/ansi.go: `StripTerminalQueries` on an output of complete sequences.
use codewire.Base.{
  ℕ, suc, ◌+◌, ◌-◌, ◌≤◌, ◌≢◌, Bool, true, false, not, ◌&&◌, ◌||◌, ◌≡◌, refl, ◌∙◌, sym, ap, List, [],
  ◌∷◌, ◌++◌, arith, ◌==◌, length, take, All, if◌then◌else◌, append_assoc, length-append,
}
use mathlib.Core.List
use codewire.Base.Text.{Text, codes, has_prefix, has_suffix, contains}
use codewire.Terminal.OutputState.Grammar.{
  Token, char, control, osc_bel, osc_st, short, IsToken, encode_token, encode,
}
use codewire.Terminal.Ansi.{
  consume_escape_sequence, csi_scan, osc_scan, starts_with, escape, bell, strip_queries_loop,
  kept_sequence, strip_ansi, strip_terminal_queries, is_terminal_query, osc_body, ends_with,
}
use codewire.Terminal.Ansi.Sequences.{suc-sub-one}
use codewire.Terminal.Ansi.Strip.{strip_ansi-strip_terminal_queries}

-- An operating system command that asks.
abbrev pub is_asking : Text → Bool
is_asking body = contains body (codes ";?") || has_suffix body (codes "?")

-- The tokens that are no queries; an escape that opens no sequence is none either.
abbrev pub is_kept : Token → Bool
is_kept (char b) = true
is_kept (control params inner final) = not (final == b'n')
is_kept (osc_bel body) = not (is_asking body)
is_kept (osc_st body) = not (is_asking body)
is_kept (short b) = false

abbrev pub without_queries : List Token → List Token
without_queries [] = []
without_queries (t ∷ ts) = if is_kept t then t ∷ without_queries ts else without_queries ts

take_whole : (r x : Text) → take (length r) (r ++ x) ≡ r
take_whole [] x = refl
take_whole (c ∷ r) x = ap (◌∷◌ c) (take_whole r x)

skip_whole : (r x : Text) → strip_queries_loop (length r) (r ++ x) ≡ strip_queries_loop 0 x
unfolding strip_queries_loop
skip_whole [] x = refl
skip_whole (c ∷ r) x = skip_whole r x

-- A sequence that is read whole is kept, or it is left out.
strip_sequence :
    (r x : Text) (complete : Bool)
    → consume_escape_sequence (escape ∷ (r ++ x)) ≡ (suc (length r), complete)
    → strip_queries_loop 0 (escape ∷ (r ++ x))
      ≡ (if complete && not (is_terminal_query (escape ∷ r)) then escape ∷ r else [])
        ++ strip_queries_loop 0 x
unfolding strip_queries_loop kept_sequence
strip_sequence r x complete h = rw (h, suc-sub-one (length r), take_whole r x, skip_whole r x) refl

csi_scan-whole :
    (n : ℕ) (body x : Text) (final : ℕ)
    → All (λ b. (0x20 ≤ b) × (b ≤ 0x3f)) body
    → (0x40 ≤ final) × (final ≤ 0x7e)
    → csi_scan n (body ++ final ∷ x) ≡ (n + length body + 1, true)
unfolding csi_scan
csi_scan-whole n [] x final h k = ground arith
csi_scan-whole n (b ∷ body) x final (h, l) k =
    ground (arith, csi_scan-whole (n + 1) body x final l k)

osc_scan-bel :
    (n : ℕ) (body x : Text)
    → All (λ b. (b ≢ 0x07) × (b ≢ 0x1b)) body
    → osc_scan n (body ++ bell ∷ x) ≡ (n + length body + 1, true)
unfolding osc_scan
osc_scan-bel n [] x h = ground arith
osc_scan-bel n (b ∷ body) x (h, l) = ground (arith, osc_scan-bel (n + 1) body x l)

osc_scan-st :
    (n : ℕ) (body x : Text)
    → All (λ b. (b ≢ 0x07) × (b ≢ 0x1b)) body
    → osc_scan n (body ++ escape ∷ b'\\' ∷ x) ≡ (n + length body + 2, true)
unfolding osc_scan starts_with
osc_scan-st n [] x h = ground arith
osc_scan-st n (b ∷ body) x (h, l) = ground (arith, osc_scan-st (n + 1) body x l)

ends_with-last : (c d : ℕ) (s : Text) → ends_with c (s ++ d ∷ []) ≡ (d == c)
unfolding ends_with
ends_with-last c d [] = refl
ends_with-last c d (e ∷ []) = refl
ends_with-last c d (e ∷ f ∷ s) = ends_with-last c d (f ∷ s)

has_suffix-bel : (s : Text) → has_suffix (s ++ bell ∷ []) (bell ∷ []) ≡ true
unfolding has_suffix has_prefix
has_suffix-bel s = rw (List.reverse-append s (bell ∷ [])) refl

has_suffix-st : (s : Text) → has_suffix (s ++ escape ∷ b'\\' ∷ []) (escape ∷ b'\\' ∷ []) ≡ true
unfolding has_suffix has_prefix
has_suffix-st s = rw (List.reverse-append s (escape ∷ b'\\' ∷ [])) refl

has_suffix-st_bel : (s : Text) → has_suffix (s ++ escape ∷ b'\\' ∷ []) (bell ∷ []) ≡ false
unfolding has_suffix has_prefix
has_suffix-st_bel s = rw (List.reverse-append s (escape ∷ b'\\' ∷ [])) refl

take_front : (n : ℕ) (r x : Text) → n ≡ length r → take n (r ++ x) ≡ r
take_front n r x h = rw h (take_whole r x)

query-bel : (body : Text) → is_terminal_query (escape ∷ b']' ∷ (body ++ bell ∷ [])) ≡ is_asking body
unfolding is_terminal_query osc_body
query-bel body =
    let some_body : (length (body ++ bell ∷ []) == 0) ≡ false =
      ground (arith, length-append body (bell ∷ [])) in
    rw
      (
        some_body,
        has_suffix-bel body,
        take_front (length (body ++ bell ∷ []) - 1) body (bell ∷ [])
            (omega (arith, length-append body (bell ∷ []))),
      )
      refl

query-st :
    (body : Text)
    → is_terminal_query (escape ∷ b']' ∷ (body ++ escape ∷ b'\\' ∷ [])) ≡ is_asking body
unfolding is_terminal_query osc_body
query-st body =
    let end : Text = escape ∷ b'\\' ∷ [] in
    let some_body : (length (body ++ end) == 0) ≡ false = ground (arith, length-append body end) in
    rw
      (
        some_body,
        has_suffix-st_bel body,
        has_suffix-st body,
        take_front (length (body ++ end) - 2) body end (omega (arith, length-append body end)),
      )
      refl

query-control :
    (body : Text) (final : ℕ)
    → is_terminal_query (escape ∷ b'[' ∷ (body ++ final ∷ [])) ≡ (final == b'n')
unfolding is_terminal_query
query-control body final = ends_with-last b'n' final (escape ∷ b'[' ∷ body)

-- What is written for one token.
abbrev Stripped : Token → Text → Type 0
Stripped t x =
    strip_queries_loop 0 (encode_token t ++ x)
    ≡ (if is_kept t then encode_token t else []) ++ strip_queries_loop 0 x

strip-control :
    (body x : Text) (final : ℕ)
    → All (λ b. (0x20 ≤ b) × (b ≤ 0x3f)) body
    → (0x40 ≤ final) × (final ≤ 0x7e)
    → strip_queries_loop 0 (escape ∷ b'[' ∷ ((body ++ final ∷ []) ++ x))
      ≡ (if not (final == b'n') then escape ∷ b'[' ∷ (body ++ final ∷ []) else [])
        ++ strip_queries_loop 0 x
strip-control body x final h k =
    strip_sequence (b'[' ∷ (body ++ final ∷ [])) x true whole ∙ rw (query-control body final) refl
  where
    whole :
        consume_escape_sequence (escape ∷ b'[' ∷ ((body ++ final ∷ []) ++ x))
        ≡ (suc (suc (length (body ++ final ∷ []))), true)
    whole =
        unfold consume_escape_sequence in
        ap (csi_scan 2) (append_assoc body (final ∷ []) x)
        ∙ csi_scan-whole 2 body x final h k
        ∙ ap (λ n. (n, true)) (omega (arith, length-append body (final ∷ [])))

strip-bel : (body x : Text) → All (λ b. (b ≢ 0x07) × (b ≢ 0x1b)) body → Stripped (osc_bel body) x
strip-bel body x h =
    strip_sequence (b']' ∷ (body ++ bell ∷ [])) x true whole ∙ rw (query-bel body) refl
  where
    whole :
        consume_escape_sequence (escape ∷ b']' ∷ ((body ++ bell ∷ []) ++ x))
        ≡ (suc (suc (length (body ++ bell ∷ []))), true)
    whole =
        unfold consume_escape_sequence in
        ap (osc_scan 2) (append_assoc body (bell ∷ []) x)
        ∙ osc_scan-bel 2 body x h
        ∙ ap (λ n. (n, true)) (omega (arith, length-append body (bell ∷ [])))

strip-st : (body x : Text) → All (λ b. (b ≢ 0x07) × (b ≢ 0x1b)) body → Stripped (osc_st body) x
strip-st body x h =
    strip_sequence (b']' ∷ (body ++ escape ∷ b'\\' ∷ [])) x true whole ∙ rw (query-st body) refl
  where
    whole :
        consume_escape_sequence (escape ∷ b']' ∷ ((body ++ escape ∷ b'\\' ∷ []) ++ x))
        ≡ (suc (suc (length (body ++ escape ∷ b'\\' ∷ []))), true)
    whole =
        unfold consume_escape_sequence in
        ap (osc_scan 2) (append_assoc body (escape ∷ b'\\' ∷ []) x)
        ∙ osc_scan-st 2 body x h
        ∙ ap (λ n. (n, true)) (omega (arith, length-append body (escape ∷ b'\\' ∷ [])))

All-inner :
    (params inner : Text)
    → All (λ b. (0x30 ≤ b) × (b ≤ 0x3f)) params
    → All (λ b. (0x20 ≤ b) × (b ≤ 0x2f)) inner
    → All (λ b. (0x20 ≤ b) × (b ≤ 0x3f)) (params ++ inner)
All-inner [] [] h k = tt
All-inner [] (b ∷ inner) h (k, l) = ((omega arith, omega arith), All-inner [] inner h l)
All-inner (b ∷ params) inner (h, l) k = ((omega arith, omega arith), All-inner params inner l k)

strip-token : (t : Token) (x : Text) → IsToken t → Stripped t x
strip-token (char b) x h = unfold strip_queries_loop in ground arith
strip-token (control params inner final) x (h, k, l, r) =
    rw (sym (append_assoc params inner (final ∷ [])))
      (strip-control (params ++ inner) x final (All-inner params inner h k) (l, r))
strip-token (osc_bel body) x h = strip-bel body x h
strip-token (osc_st body) x h = strip-st body x h
strip-token (short b) x h =
    strip_sequence (b ∷ []) x false (unfold consume_escape_sequence in ground arith)

strip-encode :
    (ts : List Token)
    → All IsToken ts
    → strip_queries_loop 0 (encode ts) ≡ encode (without_queries ts)
strip-encode [] h = unfold strip_queries_loop in refl
strip-encode (t ∷ ts) (h, k) =
    strip-token t (encode ts) h ∙ rw (strip-encode ts k) (kept_first (is_kept t))
  where
    kept_first :
        (keep : Bool)
        → (if keep then encode_token t else []) ++ encode (without_queries ts)
          ≡ encode (if keep then t ∷ without_queries ts else without_queries ts)
    kept_first true = refl
    kept_first false = refl

-- Of an output of complete tokens, what StripTerminalQueries leaves is the output of the tokens
-- that are no queries, in their order and byte for byte: a control sequence is a query iff its
-- final byte is `n`, an operating system command iff its body has `;?` in it or ends in `?`, and
-- an escape that opens neither is taken out too. What StripANSI shows is the same as before.
pub strip_terminal_queries-encode :
    (ts : List Token)
    → All IsToken ts
    → (strip_terminal_queries (encode ts) ≡ encode (without_queries ts))
      × (strip_ansi (strip_terminal_queries (encode ts)) ≡ strip_ansi (encode ts))
unfolding strip_terminal_queries
strip_terminal_queries-encode ts h =
    (strip-encode ts h, (strip_ansi-strip_terminal_queries (encode ts)).0)
