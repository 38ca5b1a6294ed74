-- ===== src/Protocol/Frame/Cut.antt =====
-- internal/protocol/protocol.go: `ReadFrame` on a connection that breaks off.
use codewire.Base.{
  ℕ, zero, suc, ◌<◌, ◌≤◌, Bool, false, ◌≡◌, refl, sym, ◌∙◌, ap, inl, inr, [], ◌∷◌, ◌++◌, arith, ltb,
  if◌then◌else◌, take-append_left, drop-append_left, ltb→lt, length-append, Bool-cases, length,
  take, drop,
}
use codewire.Base.Text.{Text}
use codewire.Protocol.Bytes.{
  put_uint32, uint32-put_uint32, eof, read_full, read_full-long, read_full-short, stop_error,
}
use codewire.Protocol.Frame.{
  max_payload, Frame, reading_payload, closed, failed, header_stopped, payload_read, read_payload,
  read_body, header_read, read_frame, write_frame, buffer,
}
use codewire.Protocol.Frame.RoundTrip.{IsFrame, write_frame-buffer}

header_short : (s : Text) → header_stopped (stop_error eof s) ≡ closed
unfolding header_stopped stop_error
header_short [] = refl
header_short (c ∷ s) = refl

payload_short :
    (t n : ℕ) (s : Text)
    → length s < n
    → read_payload t n (record { bytes = s; end = eof })
      ≡ failed (reading_payload (stop_error eof s))
unfolding read_payload payload_read
payload_short t zero s h = elim h [ ]
payload_short t (suc n) s h = rw (read_full-short (suc n) s eof h)

length-header : (t n : ℕ) → length (t ∷ put_uint32 n) ≡ 5
unfolding put_uint32
length-header t n = refl

not_large : (n : ℕ) → n ≤ max_payload → ltb max_payload n ≡ false
not_large n h = ground arith

-- The header is whole, and the payload breaks off.
module _ (f : Frame) (s t : Text) (h : IsFrame f)
    (whole : s ++ t ≡ (f.type ∷ put_uint32 (length f.payload)) ++ f.payload) (k : 0 < length t)
    (l : 5 ≤ length s) where
  cut_front : take 5 s ≡ f.type ∷ put_uint32 (length f.payload)
  unfolding put_uint32
  cut_front = sym (take-append_left 5 s t l) ∙ ap (take 5) whole

  cut_back : drop 5 s ++ t ≡ f.payload
  unfolding put_uint32
  cut_back = sym (drop-append_left 5 s t l) ∙ ap (drop 5) whole

  cut_payload :
      header_read (read_full 5 (record { bytes = s; end = eof }))
      ≡ failed (reading_payload (stop_error eof (drop 5 s)))
  unfolding header_read read_body
  cut_payload =
      rw
        (
          read_full-long 5 s eof l,
          cut_front,
          uint32-put_uint32 (length f.payload) (omega (arith, h.small)),
          not_large (length f.payload) h.small,
        )
        (payload_short f.type (length f.payload) (drop 5 s)
          (omega (arith, ap length cut_back, length-append (drop 5 s) t)))

-- At a frame of a known type and of an allowed size, a connection that breaks off within the
-- header is taken for one that was closed; one that breaks off within the payload is an error.
pub read_frame_cut :
    (f : Frame) (s t : Text)
    → IsFrame f
    → s ++ t ≡ (write_frame buffer [] f).1
    → 0 < length t
    → read_frame (record { bytes = s; end = eof })
      ≡ (if ltb (length s) 5 then closed else failed (reading_payload (stop_error eof (drop 5 s))))
unfolding read_frame
read_frame_cut f s t h e k = elim (Bool-cases (ltb (length s) 5)) [
  | inl c ↦
      rw (c, read_full-short 5 s eof (ltb→lt (length s) 5 c)) (unfold header_read in header_short s)
  | inr c ↦ rw c (
      cut_payload f s t h (e ∙ ap (λ (p : Bool × Text). p.1) (write_frame-buffer [] f h.small)) k
        (ground arith))
]
