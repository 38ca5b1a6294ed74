-- ===== src/Terminal/Ansi.antt =====
-- internal/terminal/ansi.go. An index into the text is the suffix that starts there: a loop that
-- jumps to `next` skips the bytes up to it.
pub mod Sequences
pub mod Strip
pub mod Queries
pub mod Responder
mod Tests
use codewire.Base.{
  ℕ, zero, suc, ◌+◌, ◌-◌, Bool, true, false, ◌&&◌, ◌||◌, not, ◌≡◌, refl, Option, none, some, List,
  [], ◌∷◌, ◌++◌, arith, ltb, leb, ◌==◌, if◌then◌else◌, length, take, drop,
}
use codewire.Base.Text.{Text, codes, ◌=ᵗ◌, has_prefix, has_suffix, contains}

abbrev pub escape : ℕ
escape = 0x1b

abbrev pub bell : ℕ
bell = 0x07

-- The loops of `consumeEscapeSequence`, with the offset of the byte that is read next.
csi_scan : ℕ → Text → ℕ × Bool
csi_scan n [] = (n, false)
csi_scan n (c ∷ r) =
    let rest = csi_scan (n + 1) r in if ltb c 0x40 || ltb 0x7e c then rest else (n + 1, true)

starts_with : ℕ → Text → Bool
starts_with c [] = false
starts_with c (d ∷ r) = d == c

osc_scan : ℕ → Text → ℕ × Bool
osc_scan n [] = (n, false)
osc_scan n (c ∷ r) =
    let rest = osc_scan (n + 1) r in
    if c == bell
    then (n + 1, true)
    else if (c == escape) && starts_with b'\\' r
    then (n + 2, true)
    else rest

-- `consumeEscapeSequence`: the length of the sequence, and whether it is complete.
pub consume_escape_sequence : Text → ℕ × Bool
consume_escape_sequence [] = (1, false)
consume_escape_sequence (c ∷ []) = (1, false)
consume_escape_sequence (c ∷ d ∷ r) =
    if d == b'[' then csi_scan 2 r else if d == b']' then osc_scan 2 r else (2, false)

strip_loop : ℕ → Text → Text
strip_loop skip [] = []
strip_loop (suc skip) (c ∷ r) = strip_loop skip r
strip_loop zero (c ∷ r) =
    let rest = strip_loop (if c == escape then (consume_escape_sequence (c ∷ r)).0 - 1 else 0) r in
    if c == escape then rest else c ∷ rest

-- `StripANSI`.
pub strip_ansi : Text → Text
unfolding strip_loop
strip_ansi s = strip_loop 0 s

-- `oscBody`.
pub osc_body : Text → Text
osc_body (c ∷ d ∷ body) =
    if (length body == 0) || not (c == escape) || not (d == b']')
    then []
    else if has_suffix body (bell ∷ [])
    then take (length body - 1) body
    else if has_suffix body (escape ∷ b'\\' ∷ [])
    then take (length body - 2) body
    else body
osc_body seq = []

ends_with : ℕ → Text → Bool
ends_with c [] = false
ends_with c (d ∷ []) = d == c
ends_with c (d ∷ e ∷ r) = ends_with c (e ∷ r)

-- `isTerminalQuery`.
pub is_terminal_query : Text → Bool
unfolding osc_body ends_with
is_terminal_query (c ∷ d ∷ r) =
    if not (c == escape)
    then false
    else if d == b'['
    then ends_with b'n' (c ∷ d ∷ r)
    else if d == b']'
    then contains (osc_body (c ∷ d ∷ r)) (codes ";?")
      || has_suffix (osc_body (c ∷ d ∷ r)) (codes "?")
    else false
is_terminal_query seq = false

-- What `StripTerminalQueries` writes for the sequence at the start of a text.
kept_sequence : Text → Text
kept_sequence t =
    let (n, keep) = consume_escape_sequence t in
    if keep && not (is_terminal_query (take n t)) then take n t else []

strip_queries_loop : ℕ → Text → Text
strip_queries_loop skip [] = []
strip_queries_loop (suc skip) (c ∷ r) = strip_queries_loop skip r
strip_queries_loop zero (c ∷ r) =
    let rest =
      strip_queries_loop (if c == escape then (consume_escape_sequence (c ∷ r)).0 - 1 else 0) r in
    if c == escape then kept_sequence (c ∷ r) ++ rest else c ∷ rest

-- `StripTerminalQueries`.
pub strip_terminal_queries : Text → Text
strip_terminal_queries s = strip_queries_loop 0 s

-- `queryResponse`; an empty response stands for nil.
pub query_response : Text → Text
unfolding osc_body
query_response (c ∷ d ∷ r) =
    let seq = c ∷ d ∷ r in
    if not (c == escape)
    then []
    else if d == b'['
    then (if seq =ᵗ escape ∷ codes "[6n"
        then escape ∷ codes "[1;1R"
        else if (seq =ᵗ escape ∷ codes "[c") || (seq =ᵗ escape ∷ codes "[0c")
        then escape ∷ codes "[?6c"
        else if (seq =ᵗ escape ∷ codes "[>c") || (seq =ᵗ escape ∷ codes "[>0c")
        then escape ∷ codes "[>0;0;0c"
        else if seq =ᵗ escape ∷ codes "[>q"
        then escape ∷ codes "P>|cw" ++ escape ∷ b'\\' ∷ []
        else if seq =ᵗ escape ∷ codes "[?u"
        then escape ∷ codes "[?0u"
        else [])
    else if d == b']'
    then (if has_prefix (osc_body seq) (codes "10;?")
        then escape ∷ codes "]10;rgb:c0c0/c0c0/c0c0" ++ bell ∷ []
        else if has_prefix (osc_body seq) (codes "11;?")
        then escape ∷ codes "]11;rgb:0000/0000/0000" ++ bell ∷ []
        else if has_prefix (osc_body seq) (codes "12;?")
        then escape ∷ codes "]12;rgb:c0c0/c0c0/c0c0" ++ bell ∷ []
        else [])
    else []
query_response seq = []

-- The loop of `Feed`: the responses, and the tail that is kept for the next call.
respond_loop : ℕ → Text → Text × Text
respond_loop skip [] = ([], [])
respond_loop (suc skip) (c ∷ r) = respond_loop skip r
respond_loop zero (c ∷ r) =
    let (n, complete) = consume_escape_sequence (c ∷ r) in
    let (out, tail) = respond_loop (if c == escape then n - 1 else 0) r in
    if c == escape
    then (if complete then (query_response (take n (c ∷ r)) ++ out, tail) else ([], c ∷ r))
    else (out, tail)

pub record QueryAutoResponder : Type 0 where
  pub tail : Text

abbrev pub new_query_auto_responder : QueryAutoResponder
new_query_auto_responder = record { tail = [] }

-- `Feed`.
pub feed : QueryAutoResponder → Text → Text × QueryAutoResponder
feed q chunk = let (out, tail) = respond_loop 0 (q.tail ++ chunk) in (out, record { tail = tail })
