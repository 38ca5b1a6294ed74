-- ===== src/Protocol/Frame.antt =====
-- internal/protocol/protocol.go: `ReadFrame` and `WriteFrame`.
pub mod RoundTrip
pub mod Cut
mod Tests
use codewire.Base.{
  ℕ, zero, suc, ◌+◌, ◌*◌, ◌%◌, ◌^◌, ◌<◌, ◌≤◌, ◌≢◌, Bool, true, false, ◌||◌, ◌≡◌, refl, sym, ◌∙◌, ap,
  ◌⊎◌, inl, inr, Option, none, some, List, [], ◌∷◌, ◌++◌, arith, ltb, ◌==◌, if◌then◌else◌, length,
  take, drop, All, append_assoc,
}
use codewire.Base.Text.{Text}
use codewire.Protocol.Bytes.{
  IsByte, put_uint32, uint32, uint32-put_uint32, put_uint32-uint32, End, eof, failure, Reader,
  ReadError, read_eof, read_unexpected_eof, read_failure, Read, got, stopped, read_full,
  read_full-append, read_full-got, stop_error,
}

abbrev pub frame_control : ℕ
frame_control = 0x00

abbrev pub frame_data : ℕ
frame_data = 0x01

abbrev pub max_payload : ℕ
max_payload = 16 * 1024 * 1024

pub record Frame : Type 0 where
  pub type : ℕ
  pub payload : Text

pub data FrameError : Type 0 where
  reading_header reading_payload : ReadError → FrameError
  too_large unknown_type : ℕ → FrameError

-- What `ReadFrame` returns: a frame and the reader behind it, nil and nil, or an error.
pub data FrameRead : Type 0 where
  frame : Frame → Reader → FrameRead
  closed : FrameRead
  failed : FrameError → FrameRead

header_stopped : ReadError → FrameRead
header_stopped read_eof = closed
header_stopped read_unexpected_eof = closed
header_stopped read_failure = failed (reading_header read_failure)

check_type : ℕ → Text → Reader → FrameRead
check_type t payload r =
    if (t == frame_control) || (t == frame_data)
    then frame (record { type = t; payload = payload }) r
    else failed (unknown_type t)

payload_read : ℕ → Read → FrameRead
unfolding check_type
payload_read t (stopped e) = failed (reading_payload e)
payload_read t (got payload r) = check_type t payload r

-- An empty payload is not read.
read_payload : ℕ → ℕ → Reader → FrameRead
unfolding payload_read
read_payload t zero r = check_type t [] r
read_payload t n r = payload_read t (read_full n r)

read_body : Text → Reader → FrameRead
unfolding read_payload uint32
read_body [] r = closed
read_body (t ∷ size) r =
    if ltb max_payload (uint32 size)
    then failed (too_large (uint32 size))
    else read_payload t (uint32 size) r

header_read : Read → FrameRead
unfolding header_stopped read_body
header_read (stopped e) = header_stopped e
header_read (got header r) = read_body header r

pub read_frame : Reader → FrameRead
unfolding header_read
read_frame r = header_read (read_full 5 r)

-- An `io.Writer`: its `Write` says whether it failed.
pub record Writer {ℓ} (W : Type ℓ) : Type ℓ where
  pub write : W → Text → Bool × W

-- `WriteFrame`; the result is false where it returns an error.
pub write_frame {ℓ} : {W : Type ℓ} → Writer W → W → Frame → Bool × W
write_frame io w f =
    let (header_ok, w1) = io.write w (f.type ∷ put_uint32 (length f.payload % 2 ^ 32)) in
    let (payload_ok, w2) = io.write w1 f.payload in
    if header_ok
    then (if ltb 0 (length f.payload) then (payload_ok, w2) else (true, w1))
    else (false, w1)

-- A writer that collects what is written, as a `bytes.Buffer` does.
abbrev pub buffer : Writer Text
buffer = record { write = λ w s. (true, w ++ s) }
