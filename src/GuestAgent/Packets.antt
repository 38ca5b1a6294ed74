-- ===== src/GuestAgent/Packets.antt =====
-- internal/guestagent/protocol.go: `WriteMessage` against `ReadMessage`.
use codewire.Base.{
  ℕ, ◌+◌, ◌%◌, ◌^◌, ◌≤◌, true, false, ◌≡◌, refl, ap, subst, inl, inr, Option, none, some,
  if◌then◌else◌, ◌++◌, arith, ltb, length, append_assoc, length-append, Bool-cases,
}
use codewire.Base.Text.{Text}
use codewire.Base.Json.{Json}
use codewire.Protocol.Bytes.{
  put_uint32, uint32, uint32-put_uint32, End, Reader, Read, got, stopped, read_full,
  read_full-append, read_full-got,
}
use codewire.Protocol.Frame.{buffer}
use codewire.GuestAgent.{
  max_message_size, write_text, write_length, write_marshalled, write_message, too_large, message,
  failed, decoded, text_read, length_read, read_message,
}

-- JSON carries the message: it decodes what it encodes, in a text of an allowed size.
pub record Carries {A : Type 0} (json : Json A) (m : A) : Type 0 where
  pub text : Text
  pub marshals : json.marshal m ≡ some text
  pub unmarshals : json.unmarshal text ≡ some m
  pub small : length text ≤ max_message_size

unfoldable pub packet : Text → Text
packet s = put_uint32 (length s) ++ s

pub length-packet : (s : Text) → length (packet s) ≡ 4 + length s
unfolding packet put_uint32
length-packet s = omega arith

pub mod_length : (n : ℕ) → n ≤ max_message_size → n % 2 ^ 32 ≡ n
mod_length n h = omega arith

pub not_large : (n : ℕ) → n ≤ max_message_size → ltb max_message_size n ≡ false
not_large n h = ground arith

pub read_full-header :
    (n : ℕ) (t : Text) (e : End)
    → read_full 4 (record { bytes = put_uint32 n ++ t; end = e })
      ≡ got (put_uint32 n) (record { bytes = t; end = e })
unfolding put_uint32
read_full-header n t e = read_full-append (put_uint32 n) t e

module _ {A : Type 0} (json : Json A) (m : A) (h : Carries json m) where
  pub write_message-buffer : (w : Text) → write_message json buffer w m ≡ (true, w ++ packet h.text)
  unfolding write_message write_marshalled write_text write_length packet
  write_message-buffer w = rw (
    h.marshals,
    mod_length (length h.text) h.small,
    append_assoc w (put_uint32 (length h.text)) h.text,
  )

  pub read_message-packet :
      (rest : Text) (e : End)
      → read_message json (record { bytes = packet h.text ++ rest; end = e })
        ≡ message m (record { bytes = rest; end = e })
  unfolding read_message length_read text_read decoded packet
  read_message-packet rest e =
      rw
        (
          append_assoc (put_uint32 (length h.text)) h.text rest,
          read_full-header (length h.text) (h.text ++ rest) e,
          uint32-put_uint32 (length h.text) (omega (arith, h.small)),
          not_large (length h.text) h.small,
          read_full-append h.text rest e,
          h.unmarshals,
        )
        refl

decoded-message :
    {A : Type 0} (o : Option A) (r q : Reader) (m : A) → decoded o r ≡ message m q → r ≡ q
unfolding decoded
decoded-message none r q m h = cc
decoded-message (some n) r q m h = cc

-- A read leaves no more than there was, and takes what it was asked for.
read_full_shorter :
    (n : ℕ) (r t : Reader) (s : Text)
    → read_full n r ≡ got s t
    → length t.bytes + n ≡ length r.bytes
read_full_shorter n r t s h =
    let (whole, long, _) = read_full-got n r t s h in
    omega (arith, long, ap length whole, length-append s t.bytes)

text_read_shorter :
    {A : Type 0} (json : Json A) (n : ℕ) (r q : Reader) (m : A) (x : Read)
    → read_full n r ≡ x
    → text_read json x ≡ message m q
    → length q.bytes ≤ length r.bytes
unfolding text_read
text_read_shorter json n r q m (stopped e) l h = cc
text_read_shorter json n r q m (got s t) l h =
    let same = decoded-message (json.unmarshal s) t q m h in
    omega (arith, read_full_shorter n r t s l, ap (λ (x : Reader). length x.bytes) same)

length_read_shorter :
    {A : Type 0} (json : Json A) (n : ℕ) (r q : Reader) (m : A) (x : Read)
    → read_full n r ≡ x
    → length_read json x ≡ message m q
    → length q.bytes + n ≤ length r.bytes
unfolding length_read
length_read_shorter json n r q m (stopped e) l h = cc
length_read_shorter json n r q m (got s t) l h =
    elim (Bool-cases (ltb max_message_size (uint32 s))) [
      | inl c ↦ absurd (
          let k =
            subst
              (λ b.
                (if b
                  then failed (too_large (uint32 s))
                  else text_read json (read_full (uint32 s) t))
                ≡ message m q)
              c h in
          cc)
      | inr c ↦
          let k = text_read_shorter json (uint32 s) t q m (read_full (uint32 s) t) refl (
            subst
              (λ b.
                (if b
                  then failed (too_large (uint32 s))
                  else text_read json (read_full (uint32 s) t))
                ≡ message m q)
              c h) in
          omega (arith, k, read_full_shorter n r t s l)
    ]

-- A message takes at least the four bytes of its length.
pub read_message_shorter :
    {A : Type 0} (json : Json A) (r q : Reader) (m : A)
    → read_message json r ≡ message m q
    → length q.bytes + 4 ≤ length r.bytes
unfolding read_message
read_message_shorter json r q m h = length_read_shorter json 4 r q m (read_full 4 r) refl h
