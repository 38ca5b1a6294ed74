-- ===== src/GuestAgent.antt =====
-- internal/guestagent/protocol.go: the messages between a host and the agent of its guest.
pub mod Client
pub mod Agent
pub mod Packets
pub mod Streams
pub mod Console
pub mod Loop
pub mod Exec
pub mod Torn
mod Tests
use codewire.Base.{
  ℕ, ◌*◌, ◌%◌, ◌^◌, Bool, true, false, Option, none, some, List, ltb, if◌then◌else◌, length,
}
use codewire.Base.Text.{Text}
use codewire.Base.Int.{ℤ}
use codewire.Base.Json.{Json}
use codewire.Protocol.Bytes.{put_uint32, uint32, Reader, ReadError, Read, got, stopped, read_full}
use codewire.Protocol.Frame.{Writer}

pub record Request : Type 0 where
  pub type : Text
  pub command : List Text
  pub workdir : Text
  pub port : ℤ

pub record Response : Type 0 where
  pub type : Text
  pub content : Text
  pub stream : Text
  pub exit_code : ℤ
  pub message : Text

abbrev pub max_message_size : ℕ
max_message_size = 4 * 1024 * 1024

-- The two writes of `WriteMessage`: the length, and the text.
unfoldable pub write_length {ℓ} : {W : Type ℓ} → Writer W → W → Text → Bool × W
write_length io w s = io.write w (put_uint32 (length s % 2 ^ 32))

unfoldable pub write_text {ℓ} : {W : Type ℓ} → Writer W → W → Text → Bool × W
unfolding write_length
write_text io w s =
    let (length_ok, w1) = write_length io w s in
    let (text_ok, w2) = io.write w1 s in if length_ok then (text_ok, w2) else (false, w1)

unfoldable pub write_marshalled {ℓ} : {W : Type ℓ} → Writer W → W → Option Text → Bool × W
unfolding write_text
write_marshalled io w none = (false, w)
write_marshalled io w (some s) = write_text io w s

-- `WriteMessage`; the result is false where it returns an error.
unfoldable pub write_message {ℓ} : {W : Type ℓ} {A : Type 0} → Json A → Writer W → W → A → Bool × W
unfolding write_marshalled
write_message json io w m = write_marshalled io w (json.marshal m)

pub data MessageError : Type 0 where
  reading : ReadError → MessageError
  too_large : ℕ → MessageError
  unmarshalling : MessageError

-- What `ReadMessage` gives: a message and the reader behind it, or an error.
pub data MessageRead (A : Type 0) : Type 0 where
  message : A → Reader → MessageRead A
  failed : MessageError → MessageRead A

unfoldable pub decoded : {A : Type 0} → Option A → Reader → MessageRead A
decoded none r = failed unmarshalling
decoded (some m) r = message m r

unfoldable pub text_read : {A : Type 0} → Json A → Read → MessageRead A
unfolding decoded
text_read json (stopped e) = failed (reading e)
text_read json (got s r) = decoded (json.unmarshal s) r

unfoldable pub length_read : {A : Type 0} → Json A → Read → MessageRead A
unfolding text_read
length_read json (stopped e) = failed (reading e)
length_read json (got s r) =
    if ltb max_message_size (uint32 s)
    then failed (too_large (uint32 s))
    else text_read json (read_full (uint32 s) r)

-- `ReadMessage`.
unfoldable pub read_message : {A : Type 0} → Json A → Reader → MessageRead A
unfolding length_read
read_message json r = length_read json (read_full 4 r)
