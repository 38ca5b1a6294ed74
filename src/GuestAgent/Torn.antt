-- ===== src/GuestAgent/Torn.antt =====
-- cmd/cw-guest-agent/main.go: `handleExec` streams the two pipes of a process from two goroutines,
-- which call `WriteMessage` on one connection without a lock; its two writes may alternate.
use codewire.Base.{
  ℕ, zero, suc, ◌<◌, ◌≤◌, ◌≡◌, refl, ap, none, some, [], ◌∷◌, ◌++◌, arith, length, take, drop,
  append_assoc, length-append,
}
use codewire.Base.Text.{Text}
use codewire.Base.Json.{Json}
use codewire.Base.Result.{err}
use codewire.Protocol.Bytes.{put_uint32, uint32-put_uint32, End, read_full-long}
use codewire.Protocol.Frame.{buffer}
use codewire.GuestAgent.{
  Response, max_message_size, write_length, unmarshalling, failed, decoded, text_read, length_read,
  read_message,
}
use codewire.GuestAgent.Client.{Console, read_response, read_failed, exec_loop}
use codewire.GuestAgent.Packets.{read_full-header, not_large, mod_length}
use codewire.GuestAgent.Loop.{loop_failed}

-- The writes of two messages: both lengths, and then both texts.
pub torn : Text → Text → Text
unfolding write_length
torn s t =
    let lengths = (write_length buffer (write_length buffer [] s).1 t).1 in
    (buffer.write (buffer.write lengths s).1 t).1

torn_lem :
    (s t : Text)
    → length s ≤ max_message_size
    → length t ≤ max_message_size
    → torn s t ≡ put_uint32 (length s) ++ (put_uint32 (length t) ++ (s ++ t))
unfolding torn put_uint32
torn_lem s t h k = rw (mod_length (length s) h, mod_length (length t) k) refl

-- What is read for the first text begins with a zero, from the second length.
starts_with_zero :
    (n size : ℕ) (u : Text)
    → 0 < n
    → size ≤ max_message_size
    → (v : Text) × (take n (put_uint32 size ++ u) ≡ 0 ∷ v)
unfolding put_uint32
starts_with_zero zero size u h k = absurd (omega arith)
starts_with_zero (suc n) size u h k =
    let back = take n (drop 1 (put_uint32 size ++ u)) in (back, ap (λ b. b ∷ back) (omega arith))

read_behind :
    (json : Json Response) (n : ℕ) (u : Text) (e : End)
    → n ≤ max_message_size
    → n ≤ length u
    → json.unmarshal (take n u) ≡ none
    → read_message json (record { bytes = put_uint32 n ++ u; end = e }) ≡ failed unmarshalling
unfolding read_message length_read text_read decoded
read_behind json n u e h k l =
    rw
      (
        read_full-header n u e,
        uint32-put_uint32 n (omega arith),
        not_large n h,
        read_full-long n u e k,
        l,
      )
      refl

-- Two messages of an allowed size, the first not empty, whose lengths are both written before
-- their texts, end the command with an error: JSON, which is to have no text that begins with a
-- zero byte, does not decode what is read for the first one.
pub exec_loop-torn :
    (json : Json Response) (s t rest : Text) (e : End) (fuel : ℕ) (c : Console)
    → ((u : Text) → json.unmarshal (0 ∷ u) ≡ none)
    → 0 < length s
    → length s ≤ max_message_size
    → length t ≤ max_message_size
    → 0 < fuel
    → exec_loop json fuel (record { bytes = torn s t ++ rest; end = e }) c
      ≡ some (record { result = err (read_response unmarshalling); console = c })
unfolding read_failed
exec_loop-torn json s t rest e fuel c refuses h k l m =
    loop_failed json fuel _ c unmarshalling m read_torn
  where
    behind : Text
    behind = put_uint32 (length t) ++ ((s ++ t) ++ rest)

    whole : torn s t ++ rest ≡ put_uint32 (length s) ++ behind
    whole = rw (
      torn_lem s t k l,
      append_assoc (put_uint32 (length s)) (put_uint32 (length t) ++ (s ++ t)) rest,
      append_assoc (put_uint32 (length t)) (s ++ t) rest,
    )

    long : length s ≤ length behind
    long = omega (
      arith,
      length-append (put_uint32 (length t)) ((s ++ t) ++ rest),
      length-append (s ++ t) rest,
      length-append s t,
    )

    decodes_not : json.unmarshal (take (length s) behind) ≡ none
    decodes_not =
        let (u, zero_first) = starts_with_zero (length s) (length t) ((s ++ t) ++ rest) h l in
        rw zero_first (refuses u)

    read_torn :
        read_message json (record { bytes = torn s t ++ rest; end = e }) ≡ failed unmarshalling
    read_torn = rw whole (read_behind json (length s) behind e k long decodes_not)
