-- ===== src/GuestAgent/Console.antt =====
-- internal/guestagent/client.go: what Exec shows of a process.
use codewire.Base.{
  Bool, true, false, ◌≡◌, refl, ◌∙◌, List, [], ◌∷◌, ◌++◌, arith, ltb, lt→ltb, if◌then◌else◌, length,
  append_assoc, append-nil, sym, ap, if_cases,
}
use codewire.Base.Text.{Text, ◌=ᵗ◌}
use codewire.GuestAgent.Client.{Console, show}
use codewire.GuestAgent.Agent.{Pipe, stdout, stderr, output_response}
use codewire.GuestAgent.Streams.{Chunk, chunks, merged}

unfoldable pub show_chunk : Console → Chunk → Console
unfolding show
show_chunk c x = if ltb 0 (length x.bytes) then show (output_response x.pipe x.bytes) c else c

unfoldable pub show_chunks : Console → List Chunk → Console
unfolding show_chunk
show_chunks c [] = c
show_chunks c (x ∷ xs) = show_chunks (show_chunk c x) xs

is_from : Pipe → Pipe → Bool
is_from stdout stdout = true
is_from stderr stderr = true
is_from _ _ = false

-- The bytes that were read from one of the pipes.
unfoldable pub written : Pipe → List Chunk → Text
unfolding is_from
written p [] = []
written p (x ∷ xs) = if is_from p x.pipe then x.bytes ++ written p xs else written p xs

unfoldable pub shown : Console → List Chunk → Console
shown c xs = record {
  stdout = c.stdout ++ written stdout xs;
  stderr = c.stderr ++ written stderr xs;
}

show_chunk-shown :
    (p : Pipe) (s : Text) (c : Console) (xs : List Chunk)
    → let x : Chunk = record { pipe = p; bytes = s } in shown (show_chunk c x) xs ≡ shown c (x ∷ xs)
unfolding shown show_chunk show ◌=ᵗ◌ written is_from
show_chunk-shown stdout [] c xs = refl
show_chunk-shown stderr [] c xs = refl
show_chunk-shown stdout (b ∷ s) c xs =
    rw (lt→ltb 0 (length (b ∷ s)) (omega arith), append_assoc c.stdout (b ∷ s) (written stdout xs))
      refl
show_chunk-shown stderr (b ∷ s) c xs =
    rw (lt→ltb 0 (length (b ∷ s)) (omega arith), append_assoc c.stderr (b ∷ s) (written stderr xs))
      refl

pub show_chunks_lem : (c : Console) (xs : List Chunk) → show_chunks c xs ≡ shown c xs
unfolding show_chunks
show_chunks_lem c [] = unfold shown written in rw (append-nil c.stdout, append-nil c.stderr) refl
show_chunks_lem c (x ∷ xs) =
    show_chunks_lem (show_chunk c x) xs ∙ show_chunk-shown x.pipe x.bytes c xs

-- All that was read of a pipe.
abbrev pub concat : List Text → Text
concat [] = []
concat (s ∷ reads) = s ++ concat reads

written-append :
    (p : Pipe) (xs ys : List Chunk) → written p (xs ++ ys) ≡ written p xs ++ written p ys
unfolding written
written-append p [] ys = refl
written-append p (x ∷ xs) ys =
    if_cases
      (λ s.
        s ≡ (if is_from p x.pipe then x.bytes ++ written p xs else written p xs) ++ written p ys)
      (is_from p x.pipe)
      (λ c.
        rw (c, written-append p xs ys) (sym (append_assoc x.bytes (written p xs) (written p ys))))
      (λ c. rw (c, written-append p xs ys) refl)

written-chunks :
    (reads : List Text)
    → (written stdout (chunks stdout reads) ≡ concat reads)
      × (written stderr (chunks stdout reads) ≡ [])
      × (written stderr (chunks stderr reads) ≡ concat reads)
      × (written stdout (chunks stderr reads) ≡ [])
unfolding written is_from
written-chunks [] = (refl, refl, refl, refl)
written-chunks (s ∷ reads) =
    let (a, b, c, d) = written-chunks reads in (ap (λ t. s ++ t) a, b, ap (λ t. s ++ t) c, d)

-- In whatever order the messages come, each pipe's bytes are shown in their own.
pub written-merged :
    (order : List Pipe) (outs errs : List Text)
    → (written stdout (merged order outs errs) ≡ concat outs)
      × (written stderr (merged order outs errs) ≡ concat errs)
unfolding written is_from
written-merged [] outs errs =
    let (a, b, _, _) = written-chunks outs in
    let (_, _, c, d) = written-chunks errs in
    (
      written-append stdout (chunks stdout outs) (chunks stderr errs)
          ∙ rw (a, d) (append-nil (concat outs)),
      written-append stderr (chunks stdout outs) (chunks stderr errs) ∙ rw (b, c) refl,
    )
written-merged (stdout ∷ order) [] errs = written-merged order [] errs
written-merged (stdout ∷ order) (s ∷ outs) errs =
    let (a, b) = written-merged order outs errs in (ap (λ t. s ++ t) a, b)
written-merged (stderr ∷ order) outs [] = written-merged order outs []
written-merged (stderr ∷ order) outs (s ∷ errs) =
    let (a, b) = written-merged order outs errs in (a, ap (λ t. s ++ t) b)
