-- ===== src/Protocol/Frame/Tests.antt =====
-- Runs of the frame reader.
use codewire.Base.{◌≡◌, refl, inr, [], ◌∷◌, ◌++◌, arith}
use codewire.Base.Text.{Text, codes}
use codewire.Protocol.Bytes.{put_uint32, uint32, eof, read_full, stop_error, read_unexpected_eof}
use codewire.Protocol.Frame.{
  Frame, frame, failed, reading_payload, read_frame, write_frame, buffer, frame_data,
}
use codewire.Protocol.Frame.RoundTrip.{IsFrame, read_frame-write_frame, write_frame-read_frame}
use codewire.Protocol.Frame.Cut.{read_frame_cut}

abbrev hello : Frame
hello = record { type = frame_data; payload = codes "hello" }

hello-IsFrame : IsFrame hello
hello-IsFrame = record { known = inr refl; small = omega arith }

abbrev wire : Text
wire = 1 ∷ 0 ∷ 0 ∷ 0 ∷ 5 ∷ codes "hello"

read_frame-write_frame_example :
    read_frame (record { bytes = (write_frame buffer [] hello).1 ++ codes "x"; end = eof })
    ≡ frame hello (record { bytes = codes "x"; end = eof })
read_frame-write_frame_example = read_frame-write_frame hello (codes "x") eof hello-IsFrame

write_frame-read_frame_example :
    IsFrame hello × ((write_frame buffer [] hello).1 ++ codes "x" ≡ wire ++ codes "x")
unfolding read_frame read_full uint32
write_frame-read_frame_example =
    write_frame-read_frame (record { bytes = wire ++ codes "x"; end = eof })
      (record { bytes = codes "x"; end = eof }) hello (omega arith) refl

read_frame_cut_example :
    read_frame (record { bytes = 1 ∷ 0 ∷ 0 ∷ 0 ∷ 5 ∷ codes "he"; end = eof })
    ≡ failed (reading_payload read_unexpected_eof)
unfolding write_frame put_uint32 stop_error
read_frame_cut_example =
    read_frame_cut hello (1 ∷ 0 ∷ 0 ∷ 0 ∷ 5 ∷ codes "he") (codes "llo") hello-IsFrame refl
      (omega arith)
