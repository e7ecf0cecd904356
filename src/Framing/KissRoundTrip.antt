-- ===== src/Framing/KissRoundTrip.antt =====
-- What a KISS interface reads of what one has written, and the order in which it writes.
use mathlib.Core.List.{append_assoc, append-nil}
use reticulum.Prelude.{
  ℕ, ◌+◌, ◌≤◌, ◌<◌, ◌≡◌, refl, sym, ap, ◌∙◌, Bytes, length, length-append, List, [], ◌∷◌, ◌++◌, map,
  All, ◌⊎◌, inl, inr, true, false, ◌==◌, arith, if◌then◌else◌,
}
use reticulum.Framing.{replace}
use reticulum.Framing.Kiss.{
  fend, fesc, tfend, tfesc, cmd_data, escape, frame, Reader, read_byte, read, Sender,
  process_outgoing, process_queue,
}

abbrev escape_byte : ℕ → Bytes
escape_byte b =
    if b == fesc then fesc ∷ tfesc ∷ [] else if b == fend then fesc ∷ tfend ∷ [] else b ∷ []

escape_cons : (b : ℕ) (bs : Bytes) → escape (b ∷ bs) ≡ escape_byte b ++ escape bs
unfolding escape replace
escape_cons b bs = ground arith

-- A reader within a frame of data, with nothing escaped.
abbrev inside : Bytes → Reader
inside buffer = record { in_frame = true; escaped = false; command = cmd_data; buffer = buffer }

read_escaped :
    (hw_mtu b : ℕ) (rest buffer : Bytes)
    → length buffer < hw_mtu
    → read hw_mtu (escape_byte b ++ rest) (inside buffer)
      ≡ read hw_mtu rest (inside (buffer ++ b ∷ []))
unfolding read read_byte
read_escaped hw_mtu b rest buffer h = ground arith

read_payload :
    (hw_mtu : ℕ) (payload rest buffer : Bytes)
    → length buffer + length payload ≤ hw_mtu
    → read hw_mtu (escape payload ++ rest) (inside buffer)
      ≡ read hw_mtu rest (inside (buffer ++ payload))
read_payload hw_mtu [] rest buffer h = rw append-nil (unfold escape replace in refl)
read_payload hw_mtu (b ∷ bs) rest buffer h =
    rw (escape_cons b bs, append_assoc (escape_byte b) (escape bs) rest)
      (read_escaped hw_mtu b (escape bs ++ rest) buffer (omega arith)
        ∙ read_payload hw_mtu bs rest (buffer ++ b ∷ [])
            (omega (arith, length-append buffer (b ∷ [])))
        ∙ ap (λ (t : Bytes). read hw_mtu rest (inside t)) (append_assoc buffer (b ∷ []) bs))

pub frames : List Bytes → Bytes
frames [] = []
frames (p ∷ ps) = frame p ++ frames ps

-- Out of a frame: the state between two packets.
abbrev pub Outside : Reader → Type 0
Outside r = (r.in_frame ≡ false) × (r.escaped ≡ false)

abbrev after : Bytes → Reader
after payload = record { in_frame = false; escaped = false; command = cmd_data; buffer = payload }

read_start :
    (hw_mtu : ℕ) (rest : Bytes) (r : Reader)
    → Outside r
    → 0 < hw_mtu
    → read hw_mtu (fend ∷ cmd_data ∷ rest) r ≡ read hw_mtu rest (inside [])
unfolding read read_byte
read_start hw_mtu rest r (out, plain) h = ground arith

read_close :
    (hw_mtu : ℕ) (rest buffer : Bytes)
    → read hw_mtu (fend ∷ rest) (inside buffer)
      ≡ (buffer ∷ (read hw_mtu rest (after buffer)).0, (read hw_mtu rest (after buffer)).1)
unfolding read read_byte
read_close hw_mtu rest buffer = ground arith

read-kiss_frame :
    (hw_mtu : ℕ) (payload rest : Bytes) (r : Reader)
    → Outside r
    → 0 < hw_mtu
    → length payload ≤ hw_mtu
    → read hw_mtu (frame payload ++ rest) r
      ≡ (payload ∷ (read hw_mtu rest (after payload)).0, (read hw_mtu rest (after payload)).1)
unfolding frame
read-kiss_frame hw_mtu payload rest r b h fits =
    rw (append_assoc (escape payload) (fend ∷ []) rest) (
      read_start hw_mtu _ r b h
      ∙ read_payload hw_mtu payload (fend ∷ rest) [] (omega arith)
      ∙ read_close hw_mtu rest payload)

-- Every packet that fits the hardware MTU is read from its KISS frame as it was written, whatever
-- bytes it holds, and nothing else is: any number of frames in a row give back their packets, in
-- order, and leave the reader out of a frame with nothing escaped.
pub read-kiss_frames :
    (hw_mtu : ℕ) (ps : List Bytes) (r : Reader)
    → Outside r
    → 0 < hw_mtu
    → All (λ p. length p ≤ hw_mtu) ps
    → ((read hw_mtu (frames ps) r).0 ≡ ps) × Outside (read hw_mtu (frames ps) r).1
unfolding frames
read-kiss_frames hw_mtu [] r b big h = unfold read in (refl, b)
read-kiss_frames hw_mtu (p ∷ ps) r b big h =
    let (same, out) = read-kiss_frames hw_mtu ps (after p) (refl, refl) big h.1 in
    rw (read-kiss_frame hw_mtu p (frames ps) r b big h.0) (ap (◌∷◌ p) same, out)

-- What happens to the sending side, in any order: a packet to send, or a READY from the device.
pub data Event : Type 0 where
  sends : ℕ → Bytes → Event
  device_ready : ℕ → Event

pub step : Event → Sender → Sender
unfolding process_outgoing process_queue
step (sends now p) s = process_outgoing now p s
step (device_ready now) s = process_queue now s

pub run : List Event → Sender → Sender
unfolding step
run [] s = s
run (e ∷ es) s = run es (step e s)

pub payloads : List Event → List Bytes
payloads [] = []
payloads (sends now p ∷ es) = p ∷ payloads es
payloads (device_ready now ∷ es) = payloads es

-- What is written and what waits: the frames on the port, then those of the queue.
abbrev pub in_order : Sender → List Bytes
in_order s = s.written ++ map frame s.packet_queue

-- An interface that is online, and either ready with nothing waiting or locked by flow control.
abbrev pub IsOrderly : Sender → Type 0
IsOrderly s =
    (s.online ≡ true)
    × (((s.interface_ready ≡ true) × (s.packet_queue ≡ []))
        ⊎ ((s.flow_control ≡ true) × (s.interface_ready ≡ false)))

map-frame-append :
    (q : List Bytes) (p : Bytes) → map frame (q ++ p ∷ []) ≡ map frame q ++ frame p ∷ []
map-frame-append [] p = refl
map-frame-append (x ∷ q) p = ap (◌∷◌ (frame x)) (map-frame-append q p)

process_outgoing-in_order :
    (now : ℕ) (p : Bytes) (s : Sender)
    → IsOrderly s
    → IsOrderly (process_outgoing now p s)
      × (in_order (process_outgoing now p s) ≡ in_order s ++ frame p ∷ [])
unfolding process_outgoing
process_outgoing-in_order now p s (on, inl (is_ready, empty)) =
    ground (arith, append-nil s.written, append-nil (s.written ++ frame p ∷ []))
process_outgoing-in_order now p s (on, inr (flow, locked)) = ground (
  arith,
  map-frame-append s.packet_queue p,
  append_assoc s.written (map frame s.packet_queue) (frame p ∷ []),
)

process_queue-in_order :
    (now : ℕ) (s : Sender)
    → IsOrderly s
    → IsOrderly (process_queue now s) × (in_order (process_queue now s) ≡ in_order s)
unfolding process_queue process_outgoing
process_queue-in_order now s (on, h) = go s.packet_queue refl
  where
    go :
        (q : List Bytes)
        → s.packet_queue ≡ q
        → IsOrderly (process_queue now s) × (in_order (process_queue now s) ≡ in_order s)
    go [] e = ground arith
    go (p ∷ ps) e = ground (arith, append_assoc s.written (frame p ∷ []) (map frame ps))

-- Whatever is sent and whenever the device says that it is ready: the frames on the port, and after
-- them those of the packets that wait, are what they were before and then the frames of the packets
-- that were sent, in order. None is lost, and none passes another.
pub run-in_order :
    (es : List Event) (s : Sender)
    → IsOrderly s
    → IsOrderly (run es s) × (in_order (run es s) ≡ in_order s ++ map frame (payloads es))
unfolding run step payloads
run-in_order [] s h = (h, sym (append-nil (in_order s)))
run-in_order (sends now p ∷ es) s h =
    let (orderly, one) = process_outgoing-in_order now p s h in
    let (still, more) = run-in_order es (process_outgoing now p s) orderly in
    (still, more ∙ rw one (append_assoc (in_order s) (frame p ∷ []) (map frame (payloads es))))
run-in_order (device_ready now ∷ es) s h =
    let (orderly, same) = process_queue-in_order now s h in
    let (still, more) = run-in_order es (process_queue now s) orderly in
    (still, more ∙ rw same refl)
