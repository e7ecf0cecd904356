-- ===== src/Framing/Tests.antt =====
-- Frames at concrete values.
use reticulum.Prelude.{◌≡◌, refl, Bytes, List, [], ◌∷◌, arith}
use reticulum.Framing.{replace}
use reticulum.Framing.Hdlc.{escape, frame, start, read}
use reticulum.Framing.HdlcRoundTrip.{frames, Between, read-frames}

-- Both reserved bytes, and the bytes that stand for them.
abbrev packets : List Bytes
packets = (0x7E ∷ 0x7D ∷ 0x5E ∷ []) ∷ (0x5D ∷ []) ∷ []

read-frames_example :
    ((read 564 (frames packets) start).0 ≡ packets) × Between (read 564 (frames packets) start).1
read-frames_example = read-frames 564 packets start (refl, refl) (omega arith)

frame_bytes : frame (0x7E ∷ 1 ∷ []) ≡ 0x7E ∷ 0x7D ∷ 0x5E ∷ 1 ∷ 0x7E ∷ []
unfolding frame escape replace
frame_bytes = refl
