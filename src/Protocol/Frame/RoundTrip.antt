-- ===== src/Protocol/Frame/RoundTrip.antt =====
-- internal/protocol/protocol.go: `WriteFrame` against `ReadFrame`.
use native.Mathlib.Nat.{mod-eq_of_lt}
use codewire.Base.{
  ℕ, zero, suc, ◌^◌, ◌<◌, ◌≤◌, true, false, ◌≡◌, refl, sym, ◌∙◌, ap, ◌⊎◌, inl, inr, [], ◌∷◌, ◌++◌,
  arith, ltb, lt→ltb, subst, All-left, Bool-cases, length, All, append_assoc, append-nil,
}
use codewire.Base.Text.{Text}
use codewire.Protocol.Bytes.{
  IsByte, put_uint32, uint32, uint32-put_uint32, put_uint32-uint32, End, Reader, read_eof,
  read_unexpected_eof, read_failure, Read, got, stopped, read_full, read_full-append, read_full-got,
}
use codewire.Protocol.Frame.{
  frame_control, frame_data, max_payload, Frame, too_large, frame, failed, check_type, payload_read,
  read_payload, read_body, header_read, read_frame, write_frame, buffer,
}

abbrev pub frame_bytes : Frame → Text
frame_bytes f = (f.type ∷ put_uint32 (length f.payload)) ++ f.payload

pub record IsFrame (f : Frame) : Type 0 where
  pub known : (f.type ≡ frame_control) ⊎ (f.type ≡ frame_data)
  pub small : length f.payload ≤ max_payload

write_frame-payload :
    (w : Text) (t : ℕ) (p : Text)
    → length p ≤ max_payload
    → write_frame buffer w (record { type = t; payload = p })
      ≡ (true, w ++ frame_bytes (record { type = t; payload = p }))
unfolding write_frame
write_frame-payload w t [] h = simp append-nil
write_frame-payload w t (c ∷ p) h = rw (
  lt→ltb 0 (length (c ∷ p)) (omega arith),
  mod-eq_of_lt (small_length (c ∷ p) h),
  append_assoc w (t ∷ put_uint32 (length (c ∷ p))) (c ∷ p),
)
  where
    small_length : (s : Text) → length s ≤ max_payload → length s < 2 ^ 32
    small_length s k = omega arith

-- What is written is the header and the payload, behind what was there.
pub write_frame-buffer :
    (w : Text) (f : Frame)
    → length f.payload ≤ max_payload
    → write_frame buffer w f ≡ (true, w ++ frame_bytes f)
write_frame-buffer w f h = write_frame-payload w f.type f.payload h

check_type-known : (f : Frame) (r : Reader) → IsFrame f → check_type f.type f.payload r ≡ frame f r
unfolding check_type
check_type-known f r h = ground arith

read_payload-append :
    (t : ℕ) (s rest : Text) (e : End)
    → read_payload t (length s) (record { bytes = s ++ rest; end = e })
      ≡ check_type t s (record { bytes = rest; end = e })
unfolding read_payload
read_payload-append t [] rest e = refl
read_payload-append t (c ∷ s) rest e = rw (read_full-append (c ∷ s) rest e, read_payload)

read_body-frame :
    (f : Frame) (rest : Text) (e : End)
    → IsFrame f
    → read_body
        (f.type ∷ put_uint32 (length f.payload))
        (record { bytes = f.payload ++ rest; end = e })
      ≡ frame f (record { bytes = rest; end = e })
unfolding read_body
read_body-frame f rest e h = rw (uint32-put_uint32 (length f.payload) (omega (arith, h.small))) (
    rw (not_large f.payload h.small)
      (read_payload-append f.type f.payload rest e ∙ check_type-known f _ h))
  where
    not_large : (s : Text) → length s ≤ max_payload → ltb max_payload (length s) ≡ false
    not_large s k = ground arith

read_full-header :
    (t n : ℕ) (s : Text) (e : End)
    → read_full 5 (record { bytes = t ∷ (put_uint32 n ++ s); end = e })
      ≡ got (t ∷ put_uint32 n) (record { bytes = s; end = e })
unfolding put_uint32
read_full-header t n s e = read_full-append (t ∷ put_uint32 n) s e

-- A frame of a known type and of an allowed size that was written is read back, whatever stands
-- behind it, and the reader is left there.
pub read_frame-write_frame :
    (f : Frame) (rest : Text) (e : End)
    → IsFrame f
    → read_frame (record { bytes = (write_frame buffer [] f).1 ++ rest; end = e })
      ≡ frame f (record { bytes = rest; end = e })
unfolding read_frame
read_frame-write_frame f rest e h =
    rw
      (
        write_frame-buffer [] f h.small,
        append_assoc (f.type ∷ put_uint32 (length f.payload)) f.payload rest,
        read_full-header f.type (length f.payload) (f.payload ++ rest) e,
      )
      (read_body-frame f rest e h)

check_type-frame :
    (t : ℕ) (s : Text) (r q : Reader) (f : Frame)
    → check_type t s r ≡ frame f q
    → (f.type ≡ t) × (f.payload ≡ s) × (r ≡ q) × ((t ≡ frame_control) ⊎ (t ≡ frame_data))
unfolding check_type
check_type-frame t s r q f h = ground arith

payload_read-frame :
    (t n : ℕ) (r q : Reader) (f : Frame) (x : Read)
    → read_full n r ≡ x
    → payload_read t x ≡ frame f q
    → (f.type ≡ t)
      × (length f.payload ≡ n)
      × (f.payload ++ q.bytes ≡ r.bytes)
      × ((t ≡ frame_control) ⊎ (t ≡ frame_data))
payload_read-frame t n r q f (stopped e) g h = absurd (unfold payload_read in cc)
payload_read-frame t n r q f (got s p) g h =
    let (front, long, _) = read_full-got n r p s g in
    let (a, b, c, d) = check_type-frame t s p q f (unfold payload_read in h) in
    (a, ap length b ∙ long, rw (b, ← c) front, d)

read_payload-frame :
    (t n : ℕ) (r q : Reader) (f : Frame)
    → read_payload t n r ≡ frame f q
    → (f.type ≡ t)
      × (length f.payload ≡ n)
      × (f.payload ++ q.bytes ≡ r.bytes)
      × ((t ≡ frame_control) ⊎ (t ≡ frame_data))
unfolding read_payload
read_payload-frame t zero r q f h =
    let (a, b, c, d) = check_type-frame t [] r q f h in (a, ap length b, rw (b, c), d)
read_payload-frame t (suc n) r q f h = payload_read-frame t (suc n) r q f _ refl h

-- The four length bytes of a frame that was read are those that its payload is written with.
read_body-frame_lem :
    (t : ℕ) (size : Text) (r q : Reader) (f : Frame)
    → length size ≡ 4
    → All IsByte size
    → read_body (t ∷ size) r ≡ frame f q
    → IsFrame f × (frame_bytes f ++ q.bytes ≡ (t ∷ size) ++ r.bytes)
unfolding read_body
read_body-frame_lem t size r q f four bytes h = elim (Bool-cases (ltb max_payload (uint32 size))) [
  | inl e ↦ absurd (let bad : failed (too_large (uint32 size)) ≡ frame f q = rw e at h in cc)
  | inr e ↦
      let (a, b, c, d) = read_payload-frame t (uint32 size) r q f (rw e at h) in
      let same : put_uint32 (length f.payload) ≡ size = rw b (put_uint32-uint32 size four bytes) in
      (
        record { known = rw a d; small = ground arith },
        rw (a, same, append_assoc size f.payload q.bytes, c),
      )
]

header_read-frame :
    (r q : Reader) (f : Frame) (x : Read)
    → All IsByte r.bytes
    → read_full 5 r ≡ x
    → header_read x ≡ frame f q
    → IsFrame f × (frame_bytes f ++ q.bytes ≡ r.bytes)
unfolding header_read
header_read-frame r q f (stopped read_eof) bytes g h = cc
header_read-frame r q f (stopped read_unexpected_eof) bytes g h = cc
header_read-frame r q f (stopped read_failure) bytes g h = cc
header_read-frame r q f (got [] p) bytes g h = absurd (omega (arith, (read_full-got 5 r p [] g).1))
header_read-frame r q f (got (t ∷ size) p) bytes g h =
    let (front, long, _) = read_full-got 5 r p (t ∷ size) g in
    let whole = subst (All IsByte) (sym front) bytes in
    let (a, b) =
      read_body-frame_lem t size p q f (omega (arith, long)) (All-left IsByte size p.bytes whole.1)
        h in
    (a, b ∙ front)

-- Every frame that is read from bytes below 256 has a known type and at most 16 MB of payload,
-- and the bytes that were taken from the reader are exactly those that writing the frame gives.
pub write_frame-read_frame :
    (r q : Reader) (f : Frame)
    → All IsByte r.bytes
    → read_frame r ≡ frame f q
    → IsFrame f × ((write_frame buffer [] f).1 ++ q.bytes ≡ r.bytes)
write_frame-read_frame r q f bytes h =
    let (a, b) = header_read-frame r q f _ bytes refl (unfold read_frame in h) in
    (a, rw (write_frame-buffer [] f a.small) b)
