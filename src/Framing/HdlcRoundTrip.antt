-- ===== src/Framing/HdlcRoundTrip.antt =====
-- What a serial interface reads of what one has written.
use mathlib.Core.List.{append_assoc, append-nil}
use reticulum.Prelude.{
  ℕ, ◌+◌, ◌≤◌, ◌<◌, ◌≡◌, refl, ap, ◌∙◌, Bytes, length, length-append, List, [], ◌∷◌, ◌++◌, All,
  true, false, ◌==◌, arith, if◌then◌else◌,
}
use reticulum.Framing.{replace}
use reticulum.Framing.Hdlc.{
  flag, esc, flag_masked, esc_masked, escape, frame, Reader, start, read_byte, read,
}

-- How one byte is escaped.
abbrev pub escape_byte : ℕ → Bytes
escape_byte b =
    if b == esc then esc ∷ esc_masked ∷ [] else if b == flag then esc ∷ flag_masked ∷ [] else b ∷ []

escape_cons : (b : ℕ) (bs : Bytes) → escape (b ∷ bs) ≡ escape_byte b ++ escape bs
unfolding escape replace
escape_cons b bs = ground arith

-- A reader within a frame, with nothing escaped.
abbrev inside : Bytes → Reader
inside buffer = record { in_frame = true; escaped = false; buffer = buffer }

read_escaped :
    (hw_mtu b : ℕ) (rest buffer : Bytes)
    → length buffer < hw_mtu
    → read hw_mtu (escape_byte b ++ rest) (inside buffer)
      ≡ read hw_mtu rest (inside (buffer ++ b ∷ []))
unfolding read read_byte
read_escaped hw_mtu b rest buffer h = ground arith

read_payload :
    (hw_mtu : ℕ) (payload rest buffer : Bytes)
    → length buffer + length payload ≤ hw_mtu
    → read hw_mtu (escape payload ++ rest) (inside buffer)
      ≡ read hw_mtu rest (inside (buffer ++ payload))
read_payload hw_mtu [] rest buffer h = rw append-nil (unfold escape replace in refl)
read_payload hw_mtu (b ∷ bs) rest buffer h =
    rw (escape_cons b bs, append_assoc (escape_byte b) (escape bs) rest)
      (read_escaped hw_mtu b (escape bs ++ rest) buffer (omega arith)
        ∙ read_payload hw_mtu bs rest (buffer ++ b ∷ [])
            (omega (arith, length-append buffer (b ∷ [])))
        ∙ ap (λ (t : Bytes). read hw_mtu rest (inside t)) (append_assoc buffer (b ∷ []) bs))

pub frames : List Bytes → Bytes
frames [] = []
frames (p ∷ ps) = frame p ++ frames ps

-- Out of a frame: the state between two packets.
abbrev pub Between : Reader → Type 0
Between r = (r.in_frame ≡ false) × (r.escaped ≡ false)

abbrev after : Bytes → Reader
after payload = record { in_frame = false; escaped = false; buffer = payload }

read_open :
    (hw_mtu : ℕ) (rest : Bytes) (r : Reader)
    → Between r
    → read hw_mtu (flag ∷ rest) r ≡ read hw_mtu rest (inside [])
unfolding read read_byte
read_open hw_mtu rest r (out, plain) = ground arith

read_close :
    (hw_mtu : ℕ) (rest buffer : Bytes)
    → read hw_mtu (flag ∷ rest) (inside buffer)
      ≡ (buffer ∷ (read hw_mtu rest (after buffer)).0, (read hw_mtu rest (after buffer)).1)
unfolding read read_byte
read_close hw_mtu rest buffer = ground arith

read-frame :
    (hw_mtu : ℕ) (payload rest : Bytes) (r : Reader)
    → Between r
    → length payload ≤ hw_mtu
    → read hw_mtu (frame payload ++ rest) r
      ≡ (payload ∷ (read hw_mtu rest (after payload)).0, (read hw_mtu rest (after payload)).1)
unfolding frame
read-frame hw_mtu payload rest r b fits = rw (append_assoc (escape payload) (flag ∷ []) rest) (
    read_open hw_mtu _ r b
    ∙ read_payload hw_mtu payload (flag ∷ rest) [] (omega arith)
    ∙ read_close hw_mtu rest payload)

-- Every packet that fits the hardware MTU is read as it was written, whatever bytes it holds, and
-- nothing else is: any number of frames in a row give back their packets, in order, and leave the
-- reader out of a frame with nothing escaped.
pub read-frames :
    (hw_mtu : ℕ) (ps : List Bytes) (r : Reader)
    → Between r
    → All (λ p. length p ≤ hw_mtu) ps
    → ((read hw_mtu (frames ps) r).0 ≡ ps) × Between (read hw_mtu (frames ps) r).1
unfolding frames
read-frames hw_mtu [] r b h = unfold read in (refl, b)
read-frames hw_mtu (p ∷ ps) r b h =
    let (same, out) = read-frames hw_mtu ps (after p) (refl, refl) h.1 in
    rw (read-frame hw_mtu p (frames ps) r b h.0) (ap (◌∷◌ p) same, out)

-- Within a frame, behind an escape byte.
abbrev escaped : Bytes → Reader
escaped buffer = record { in_frame = true; escaped = true; buffer = buffer }

read-esc :
    (hw_mtu : ℕ) (rest : Bytes)
    → 0 < hw_mtu
    → read hw_mtu (esc ∷ rest) (inside []) ≡ read hw_mtu rest (escaped [])
unfolding read read_byte
read-esc hw_mtu rest h = ground arith

read_cut_off :
    (hw_mtu : ℕ) (rest : Bytes)
    → (read hw_mtu (flag ∷ flag ∷ rest) (escaped [])).0 ≡ [] ∷ (read hw_mtu rest (escaped [])).0
unfolding read read_byte
read_cut_off hw_mtu rest = refl

read_masked :
    (hw_mtu : ℕ) (rest : Bytes)
    → 0 < hw_mtu
    → read hw_mtu (flag_masked ∷ rest) (escaped []) ≡ read hw_mtu rest (inside (flag ∷ []))
unfolding read read_byte
read_masked hw_mtu rest h = ground arith

masked_start :
    (hw_mtu : ℕ) (payload : Bytes)
    → 0 < hw_mtu
    → read hw_mtu (escape (flag_masked ∷ payload) ++ flag ∷ []) (escaped [])
      ≡ read hw_mtu (escape payload ++ flag ∷ []) (inside (flag ∷ []))
masked_start hw_mtu payload h = rw escape_cons (read_masked hw_mtu (escape payload ++ flag ∷ []) h)

-- A frame that is cut off behind an escape byte leaves the escape pending: the first byte of the
-- next packet, where it is 0x5E, is then read as 0x7E.
pub read-pending_escape :
    (hw_mtu : ℕ) (payload : Bytes)
    → length payload < hw_mtu
    → (read hw_mtu (flag ∷ esc ∷ flag ∷ frame (flag_masked ∷ payload)) start).0
      ≡ [] ∷ (flag ∷ payload) ∷ []
unfolding read frame
read-pending_escape hw_mtu payload h =
    let last : Bytes = frame (flag_masked ∷ payload) in
    ap (λ (t : List Bytes × Reader). t.0)
      (read_open hw_mtu (esc ∷ flag ∷ last) start (refl, refl)
        ∙ read-esc hw_mtu (flag ∷ last) (omega arith))
    ∙ read_cut_off hw_mtu (escape (flag_masked ∷ payload) ++ flag ∷ [])
    ∙ ap (λ (t : List Bytes × Reader). [] ∷ t.0)
        (masked_start hw_mtu payload (omega arith)
          ∙ read_payload hw_mtu payload (flag ∷ []) (flag ∷ []) (omega arith)
          ∙ read_close hw_mtu [] (flag ∷ payload))
