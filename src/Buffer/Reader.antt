-- ===== src/Buffer/Reader.antt =====
-- RawChannelReader: the messages that arrive for a stream, and the reads of its bytes.
use mathlib.Core.List.{append_assoc, append-nil}
use reticulum.Prelude.{
  ℕ, ◌<◌, ◌≡◌, refl, sym, ap, ◌∙◌, Bytes, List, [], ◌∷◌, ◌++◌, length, take, drop, take-append-drop,
  length-take, Bool, true, false, ◌||◌, ltb, ◌==◌, Option, none, some, arith, if◌then◌else◌,
}
use reticulum.Buffer.Stream.{StreamDataMessage}

-- A message of the channel: one of a stream, or of another type.
pub data Incoming : Type 0 where
  stream : StreamDataMessage → Incoming
  other : Incoming

-- A listener is known by a number.
pub record Reader : Type 0 where
  pub stream_id : ℕ
  pub buffer : Bytes
  pub eof : Bool
  pub listeners : List ℕ

abbrev pub is_for : Option ℕ → ℕ → Bool
is_for none id = false
is_for (some j) id = j == id

-- The calls of the listeners, each in a thread, with the length of the buffer.
abbrev pub notify : ℕ → List ℕ → List (ℕ × ℕ)
notify ready [] = []
notify ready (l ∷ ls) = (l, ready) ∷ notify ready ls

-- The answer, the calls, and the reader after the message.
unfoldable pub handle_message : Incoming → Reader → Bool × List (ℕ × ℕ) × Reader
handle_message other r = (false, [], r)
handle_message (stream m) r =
    if is_for m.stream_id r.stream_id
    then (let buffer = r.buffer ++ m.payload in
        (
          true,
          notify (length buffer) r.listeners,
          record r { buffer = buffer; eof = r.eof || m.eof },
        ))
    else (false, [], r)

-- `len(result) > 0`
abbrev has_bytes : Bytes → Bool
has_bytes bs = ltb 0 (length bs)

unfoldable pub read : ℕ → Reader → Option Bytes × Reader
read size r =
    let result = take size r.buffer in
    (
      if has_bytes result || r.eof then some result else none,
      record r { buffer = drop size r.buffer },
    )

-- `ready` is copied to the front of the caller's buffer, and its length given back.
unfoldable pub readinto : Bytes → Reader → Option ℕ × Bytes × Reader
unfolding read
readinto target r =
    let (ready, r') = read (length target) r in
    elim ready [
      | none ↦ (none, target, r')
      | some bs ↦ (some (length bs), bs ++ drop (length bs) target, r')
    ]

-- What happens to a reader, in any order.
pub data Event : Type 0 where
  arrives : Incoming → Event
  reads : ℕ → Event

abbrev pub bytes_of : Option Bytes → Bytes
bytes_of none = []
bytes_of (some bs) = bs

-- The bytes that a run of events reads, and the reader after it.
pub run : List Event → Reader → Bytes × Reader
unfolding handle_message read
run [] r = ([], r)
run (arrives m ∷ es) r = run es (handle_message m r).2
run (reads size ∷ es) r =
    let (got, r') = read size r in let (more, r'') = run es r' in (bytes_of got ++ more, r'')

-- The bytes that a run brings for a stream.
abbrev pub payload_for : ℕ → Incoming → Bytes
payload_for id other = []
payload_for id (stream m) = if is_for m.stream_id id then m.payload else []

pub arrived : ℕ → List Event → Bytes
arrived id [] = []
arrived id (arrives m ∷ es) = payload_for id m ++ arrived id es
arrived id (reads size ∷ es) = arrived id es

handle_message_lem :
    (m : Incoming) (r : Reader)
    → ((handle_message m r).2.buffer ≡ r.buffer ++ payload_for r.stream_id m)
      × ((handle_message m r).2.stream_id ≡ r.stream_id)
unfolding handle_message
handle_message_lem other r = (sym (append-nil r.buffer), refl)
handle_message_lem (stream m) r = ground (arith, append-nil r.buffer)

answer_lem :
    (bs : Bytes) (eof : Bool) → bytes_of (if has_bytes bs || eof then some bs else none) ≡ bs
answer_lem [] true = refl
answer_lem [] false = refl
answer_lem (b ∷ bs) eof = ground arith

read_lem : (size : ℕ) (r : Reader) → bytes_of (read size r).0 ≡ take size r.buffer
unfolding read
read_lem size r = answer_lem (take size r.buffer) r.eof

-- However arrivals and reads alternate, the bytes that are read, and after them those still in the
-- buffer, are the bytes that were there before and then the payloads of the stream's messages, in
-- the order in which they arrived: none is lost, doubled or moved.
pub run-stream :
    (es : List Event) (r : Reader)
    → (run es r).0 ++ (run es r).1.buffer ≡ r.buffer ++ arrived r.stream_id es
unfolding run arrived read
run-stream [] r = sym (append-nil r.buffer)
run-stream (arrives m ∷ es) r =
    let (bytes, id) = handle_message_lem m r in
    run-stream es (handle_message m r).2
    ∙ rw (bytes, id) (append_assoc r.buffer (payload_for r.stream_id m) (arrived r.stream_id es))
run-stream (reads size ∷ es) r =
    let after : Reader = (read size r).1 in
    append_assoc (bytes_of (read size r).0) (run es after).0 (run es after).1.buffer
    ∙ ap (◌++◌ (bytes_of (read size r).0)) (run-stream es after)
    ∙ ap (λ bs. bs ++ (drop size r.buffer ++ arrived r.stream_id es)) (read_lem size r)
    ∙ sym (append_assoc (take size r.buffer) (drop size r.buffer) (arrived r.stream_id es))
    ∙ ap (λ bs. bs ++ arrived r.stream_id es) (take-append-drop size r.buffer)

-- A read of at least one byte gives no bytes only at the end: where the buffer is empty, and the
-- answer is then `None` or, behind the end of the stream, an empty byte string.
pub read-empty :
    (size : ℕ) (r : Reader)
    → 0 < size
    → bytes_of (read size r).0 ≡ []
    → (r.buffer ≡ []) × ((read size r).0 ≡ (if r.eof then some [] else none))
unfolding read
read-empty size r h e = ground (arith, length-take size r.buffer)
