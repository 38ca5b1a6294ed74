-- ===== src/GuestAgent/Streams.antt =====
-- cmd/cw-guest-agent/main.go: two goroutines of which neither writes between the two writes of a message of
-- the other one.
use codewire.Base.{
  ◌<◌, ◌%◌, ◌^◌, ◌≡◌, refl, ap, ◌∙◌, sym, none, List, [], ◌∷◌, ◌++◌, ltb, lt→ltb, if◌then◌else◌,
  length, All, All-append, append_assoc, Bool,
}
use codewire.Base.Text.{Text}
use codewire.Base.Json.{Json}
use codewire.Protocol.Bytes.{put_uint32}
use codewire.Protocol.Frame.{buffer}
use codewire.GuestAgent.{Response, write_length, write_text}
use codewire.GuestAgent.Agent.{
  Pipe, stdout, stderr, output_response, send, texts, new_goroutine, Goroutine, advance_from,
  advance, write_texts, finish_from, finish, alternate,
}
use codewire.GuestAgent.Packets.{Carries, packet, mod_length, write_message-buffer}

-- A read of a pipe.
pub record Chunk : Type 0 where
  pub pipe : Pipe
  pub bytes : Text

abbrev pub chunks : Pipe → List Text → List Chunk
chunks pipe [] = []
chunks pipe (s ∷ reads) = record { pipe = pipe; bytes = s } ∷ chunks pipe reads

-- Each goroutine makes its two writes in a row.
abbrev pub twice : List Pipe → List Pipe
twice [] = []
twice (p ∷ order) = p ∷ p ∷ twice order

-- The reads in the order in which they are written.
abbrev pub merged : List Pipe → List Text → List Text → List Chunk
merged [] outs errs = chunks stdout outs ++ chunks stderr errs
merged (stdout ∷ order) [] errs = merged order [] errs
merged (stdout ∷ order) (s ∷ outs) errs =
    record { pipe = stdout; bytes = s } ∷ merged order outs errs
merged (stderr ∷ order) outs [] = merged order outs []
merged (stderr ∷ order) outs (s ∷ errs) =
    record { pipe = stderr; bytes = s } ∷ merged order outs errs

abbrev pub IsWritten : Json Response → Pipe → Text → Type 0
IsWritten json pipe s = (0 < length s) × Carries json (output_response pipe s)

abbrev pub IsWrittenChunk : Json Response → Chunk → Type 0
IsWrittenChunk json x = IsWritten json x.pipe x.bytes

module _ (json : Json Response) where
  -- The messages of the reads, one after the other.
  unfoldable pub send_chunk : Text → Chunk → Text
  send_chunk w x =
      if ltb 0 (length x.bytes) then send json buffer w (output_response x.pipe x.bytes) else w

  unfoldable pub send_chunks : Text → List Chunk → Text
  unfolding send_chunk
  send_chunks w [] = w
  send_chunks w (x ∷ xs) = send_chunks (send_chunk w x) xs

  pub send-buffer :
      (w : Text) (m : Response) (h : Carries json m) → send json buffer w m ≡ w ++ packet h.text
  unfolding send
  send-buffer w m h = ap (λ (p : Bool × Text). p.1) (write_message-buffer json m h w)

  send_chunks-append :
      (w : Text) (xs ys : List Chunk) → send_chunks w (xs ++ ys) ≡ send_chunks (send_chunks w xs) ys
  unfolding send_chunks
  send_chunks-append w [] ys = refl
  send_chunks-append w (x ∷ xs) ys = send_chunks-append (send_chunk w x) xs ys

  texts-cons :
      (pipe : Pipe) (s : Text) (reads : List Text) (h : IsWritten json pipe s)
      → texts json buffer pipe (s ∷ reads) ≡ h.1.text ∷ texts json buffer pipe reads
  unfolding texts
  texts-cons pipe s reads (l, h) = rw (lt→ltb 0 (length s) l, h.marshals) refl

  send_chunk-packet :
      (w : Text) (x : Chunk) (h : IsWrittenChunk json x) → send_chunk w x ≡ w ++ packet h.1.text
  unfolding send_chunk
  send_chunk-packet w x (l, h) =
      rw (lt→ltb 0 (length x.bytes) l) (send-buffer w (output_response x.pipe x.bytes) h)

  two_writes :
      (w : Text) (x : Chunk) (h : IsWrittenChunk json x)
      → (w ++ put_uint32 (length h.1.text % 2 ^ 32)) ++ h.1.text ≡ send_chunk w x
  two_writes w x h = sym (
      send_chunk-packet w x h
      ∙ unfold packet in
        rw
          (
            mod_length (length h.1.text) h.1.small,
            append_assoc w (put_uint32 (length h.1.text)) h.1.text,
          )
          refl)

  write_texts-cons :
      (pipe : Pipe) (s : Text) (reads : List Text) (w : Text) (h : IsWritten json pipe s)
      → write_texts json buffer w (texts json buffer pipe (s ∷ reads))
        ≡ write_texts json buffer
            (send_chunk w (record { pipe = pipe; bytes = s }))
            (texts json buffer pipe reads)
  unfolding write_texts write_text write_length
  write_texts-cons pipe s reads w h =
      ap (write_texts json buffer w) (texts-cons pipe s reads h)
      ∙ ap (λ v. write_texts json buffer v (texts json buffer pipe reads))
          (two_writes w (record { pipe = pipe; bytes = s }) h)

  write_texts-chunks :
      (pipe : Pipe) (reads : List Text) (w : Text)
      → All (IsWritten json pipe) reads
      → write_texts json buffer w (texts json buffer pipe reads) ≡ send_chunks w (chunks pipe reads)
  unfolding send_chunks texts write_texts
  write_texts-chunks pipe [] w h = refl
  write_texts-chunks pipe (s ∷ reads) w (h, k) =
      write_texts-cons pipe s reads w h
      ∙ write_texts-chunks pipe reads (send_chunk w (record { pipe = pipe; bytes = s })) k

  -- A goroutine that writes twice in a row.
  abbrev advance_twice : Text → Goroutine → Text × Goroutine
  advance_twice w g = let (v, g1) = advance json buffer w g in advance json buffer v g1

  advance_twice-none :
      (pipe : Pipe) (w : Text)
      → advance_twice w (new_goroutine json buffer pipe []) ≡ (w, new_goroutine json buffer pipe [])
  unfolding advance advance_from new_goroutine texts
  advance_twice-none pipe w = refl

  advance_twice-message :
      (pipe : Pipe) (s : Text) (reads : List Text) (w : Text)
      → IsWritten json pipe s
      → advance_twice w (new_goroutine json buffer pipe (s ∷ reads))
        ≡ (send_chunk w (record { pipe = pipe; bytes = s }), new_goroutine json buffer pipe reads)
  unfolding advance advance_from new_goroutine write_length
  advance_twice-message pipe s reads w h =
      ap (λ l. advance_twice w (record { pending = none; left = l })) (texts-cons pipe s reads h)
      ∙ ap (λ v. (v, new_goroutine json buffer pipe reads))
          (two_writes w (record { pipe = pipe; bytes = s }) h)

  -- Where each goroutine makes its two writes in a row, the messages are written whole.
  pub alternate-twice :
      (order : List Pipe) (w : Text) (outs errs : List Text)
      → All (IsWritten json stdout) outs
      → All (IsWritten json stderr) errs
      → alternate json buffer
          (twice order)
          w
          (new_goroutine json buffer stdout outs)
          (new_goroutine json buffer stderr errs)
        ≡ send_chunks w (merged order outs errs)
  unfolding alternate new_goroutine finish finish_from send_chunks
  alternate-twice [] w outs errs h k =
      ap (λ v. write_texts json buffer v (texts json buffer stderr errs))
        (write_texts-chunks stdout outs w h)
      ∙ write_texts-chunks stderr errs (send_chunks w (chunks stdout outs)) k
      ∙ sym (send_chunks-append w (chunks stdout outs) (chunks stderr errs))
  alternate-twice (stdout ∷ order) w [] errs h k =
      ap
        (λ (p : Text × Goroutine).
          alternate json buffer (twice order) p.0 p.1 (new_goroutine json buffer stderr errs))
        (advance_twice-none stdout w)
      ∙ alternate-twice order w [] errs h k
  alternate-twice (stdout ∷ order) w (s ∷ outs) errs (h, l) k =
      ap
        (λ (p : Text × Goroutine).
          alternate json buffer (twice order) p.0 p.1 (new_goroutine json buffer stderr errs))
        (advance_twice-message stdout s outs w h)
      ∙ alternate-twice order (send_chunk w (record { pipe = stdout; bytes = s })) outs errs l k
  alternate-twice (stderr ∷ order) w outs [] h k =
      ap
        (λ (p : Text × Goroutine).
          alternate json buffer (twice order) p.0 (new_goroutine json buffer stdout outs) p.1)
        (advance_twice-none stderr w)
      ∙ alternate-twice order w outs [] h k
  alternate-twice (stderr ∷ order) w outs (s ∷ errs) h (k, l) =
      ap
        (λ (p : Text × Goroutine).
          alternate json buffer (twice order) p.0 (new_goroutine json buffer stdout outs) p.1)
        (advance_twice-message stderr s errs w k)
      ∙ alternate-twice order (send_chunk w (record { pipe = stderr; bytes = s })) outs errs h l

  chunks-IsWritten :
      (pipe : Pipe) (reads : List Text)
      → All (IsWritten json pipe) reads
      → All (IsWrittenChunk json) (chunks pipe reads)
  chunks-IsWritten pipe [] h = tt
  chunks-IsWritten pipe (s ∷ reads) (h, k) = (h, chunks-IsWritten pipe reads k)

  pub merged-IsWritten :
      (order : List Pipe) (outs errs : List Text)
      → All (IsWritten json stdout) outs
      → All (IsWritten json stderr) errs
      → All (IsWrittenChunk json) (merged order outs errs)
  merged-IsWritten [] outs errs h k =
      All-append (IsWrittenChunk json) (chunks stdout outs) (chunks stderr errs)
        (chunks-IsWritten stdout outs h) (chunks-IsWritten stderr errs k)
  merged-IsWritten (stdout ∷ order) [] errs h k = merged-IsWritten order [] errs h k
  merged-IsWritten (stdout ∷ order) (s ∷ outs) errs (h, l) k =
      (h, merged-IsWritten order outs errs l k)
  merged-IsWritten (stderr ∷ order) outs [] h k = merged-IsWritten order outs [] h k
  merged-IsWritten (stderr ∷ order) outs (s ∷ errs) h (k, l) =
      (k, merged-IsWritten order outs errs h l)
