-- ===== src/Protocol/Bytes.antt =====
-- What the framed formats use of `encoding/binary` and of `io`: big-endian words, and `io.ReadFull`.
use codewire.Base.{
  ℕ, ◌+◌, ◌*◌, ◌/◌, ◌%◌, ◌^◌, ◌<◌, ◌≤◌, ◌≡◌, [], ◌∷◌, ◌++◌, arith, leb, if◌then◌else◌, length, take,
  drop, All, take_left, drop_left, length-append, le→leb, take-append-drop, length-take,
}
use codewire.Base.Text.{Text}

abbrev pub IsByte : ℕ → Type 0
IsByte b = b < 256

-- `binary.BigEndian.PutUint32`.
unfoldable pub put_uint32 : ℕ → Text
put_uint32 n = n / 2 ^ 24 % 256 ∷ n / 2 ^ 16 % 256 ∷ n / 2 ^ 8 % 256 ∷ n % 256 ∷ []

-- `binary.BigEndian.Uint32`; it is called on four bytes.
unfoldable pub uint32 : Text → ℕ
uint32 (a ∷ b ∷ c ∷ d ∷ []) = a * 2 ^ 24 + b * 2 ^ 16 + c * 2 ^ 8 + d
uint32 _ = 0

pub uint32-put_uint32 : (n : ℕ) → n < 2 ^ 32 → uint32 (put_uint32 n) ≡ n
unfolding uint32 put_uint32
uint32-put_uint32 n h = omega arith

pub put_uint32-uint32 : (s : Text) → length s ≡ 4 → All IsByte s → put_uint32 (uint32 s) ≡ s
unfolding uint32 put_uint32
put_uint32-uint32 (a ∷ b ∷ c ∷ d ∷ []) h k = ground arith
put_uint32-uint32 [] h k = absurd (omega arith)
put_uint32-uint32 (a ∷ []) h k = absurd (omega arith)
put_uint32-uint32 (a ∷ b ∷ []) h k = absurd (omega arith)
put_uint32-uint32 (a ∷ b ∷ c ∷ []) h k = absurd (omega arith)
put_uint32-uint32 (a ∷ b ∷ c ∷ d ∷ e ∷ r) h k = absurd (omega arith)

-- How a reader ends after its bytes: with `io.EOF`, or with another error.
pub data End : Type 0 where
  eof failure : End

pub record Reader : Type 0 where
  pub bytes : Text
  pub end : End

pub data ReadError : Type 0 where
  read_eof read_unexpected_eof read_failure : ReadError

pub data Read : Type 0 where
  got : Text → Reader → Read
  stopped : ReadError → Read

unfoldable pub stop_error : End → Text → ReadError
stop_error failure s = read_failure
stop_error eof [] = read_eof
stop_error eof (c ∷ s) = read_unexpected_eof

-- `io.ReadFull(r, buf)` at a buffer of `n` bytes.
unfoldable pub read_full : ℕ → Reader → Read
unfolding stop_error
read_full n r =
    if leb n (length r.bytes)
    then got (take n r.bytes) (record r { bytes = drop n r.bytes })
    else stopped (stop_error r.end r.bytes)

pub read_full-append :
    (s t : Text) (e : End)
    → read_full (length s) (record { bytes = s ++ t; end = e })
      ≡ got s (record { bytes = t; end = e })
unfolding read_full
read_full-append s t e = rw (
  le→leb (length s) (length (s ++ t)) (omega (arith, length-append s t)),
  take_left s t,
  drop_left s t,
)

pub read_full-long :
    (n : ℕ) (s : Text) (e : End)
    → n ≤ length s
    → read_full n (record { bytes = s; end = e })
      ≡ got (take n s) (record { bytes = drop n s; end = e })
unfolding read_full
read_full-long n s e h = rw (le→leb n (length s) h)

pub read_full-short :
    (n : ℕ) (s : Text) (e : End)
    → length s < n
    → read_full n (record { bytes = s; end = e }) ≡ stopped (stop_error e s)
unfolding read_full
read_full-short n s e h = ground arith

-- What was read is the front of the reader, and as long as was asked.
pub read_full-got :
    (n : ℕ) (r q : Reader) (s : Text)
    → read_full n r ≡ got s q
    → (s ++ q.bytes ≡ r.bytes) × (length s ≡ n) × (q.end ≡ r.end)
unfolding read_full
read_full-got n r q s h = ground (arith, take-append-drop n r.bytes, length-take n r.bytes)
