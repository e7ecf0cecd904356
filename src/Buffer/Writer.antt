-- ===== src/Buffer/Writer.antt =====
-- RawChannelWriter.write and close. Sending on the channel is a parameter: it returns, or raises a
-- channel exception of which only "link not ready" is caught.
use native.Mathlib.Nat.{div-le_self}
use reticulum.Prelude.{
  ℕ, zero, suc, ◌+◌, ◌*◌, ◌-◌, ◌/◌, ◌≤◌, ◌<◌, ◌≡◌, refl, sym, ap, ◌∙◌, Bytes, [], length, take,
  length-take, take-length-take, take-take, ◌⊎◌, Bool, true, false, ◌&&◌, ltb, le→ltb, Option, none,
  some, arith, if◌then◌else◌, Bool-cases, inl, inr,
}
use reticulum.Prelude.Results.{Result, ok, err}
use reticulum.Buffer.Stream.{
  StreamDataMessage, StreamError, channel_error, max_data_len, stream_id_max, init, pack, unpack,
  expand, unpack-pack,
}

abbrev pub max_chunk_len : ℕ
max_chunk_len = 1024 * 16

-- COMPRESSION_TRIES; the loop stops before the last.
abbrev pub compression_tries : ℕ
compression_tries = 4

pub record Writer : Type 0 where
  pub stream_id : ℕ
  pub eof : Bool

-- What sending a message on the channel gives.
pub data Sending : Type 0 where
  accepted link_not_ready raised : Sending

-- The chunk of a message, how many bytes of the input it stands for, and whether it is compressed.
pub record Chunk : Type 0 where
  pub payload : Bytes
  pub processed : ℕ
  pub compressed : Bool

module _ (compress : Bytes → Bytes) where
  -- The loop, with `left` tries to go: the first compressed segment that is small enough.
  unfoldable pub try_compress : ℕ → Bytes → Option Chunk
  try_compress zero bs = none
  try_compress (suc left) bs =
      let segment = length bs / (compression_tries - suc left) in
      let chunk = compress (take segment bs) in
      let rest = try_compress left bs in
      if ltb (length chunk) max_data_len && ltb (length chunk) segment
      then some (record { payload = chunk; processed = segment; compressed = true })
      else rest

  abbrev pub plain : Bytes → Chunk
  plain bs = record {
    payload = take max_data_len bs;
    processed = length (take max_data_len bs);
    compressed = false;
  }

  abbrev pub or_plain : Option Chunk → Bytes → Chunk
  or_plain none bs = plain bs
  or_plain (some c) bs = c

  -- `bs` is the input, cut to the longest chunk.
  unfoldable pub make_chunk : Bytes → Chunk
  unfolding try_compress
  make_chunk bs =
      let cut_input = if ltb max_chunk_len (length bs) then take max_chunk_len bs else bs in
      or_plain
        (if ltb 32 (length cut_input) then try_compress (compression_tries - 1) cut_input else none)
        cut_input

  -- The answer of `write`, or that it raises; and the message, if one was handed to the channel.
  unfoldable pub write :
      (StreamDataMessage → Sending)
      → Writer
      → Bytes
      → Result StreamError ℕ × Option StreamDataMessage
  unfolding make_chunk
  write send w bs =
      let c = make_chunk bs in
      elim (init (some w.stream_id) c.payload w.eof c.compressed) [
        | err e ↦ (err e, none)
        | ok m ↦ elim (send m) [
          | accepted ↦ (ok c.processed, some m)
          | link_not_ready ↦ (ok 0, none)
          | raised ↦ (err channel_error, none)
        ]
      ]

  -- The end of the stream: an empty chunk, marked.
  unfoldable pub close :
      (StreamDataMessage → Sending)
      → Writer
      → (Result StreamError ℕ × Option StreamDataMessage) × Writer
  unfolding write
  close send w = let w' : Writer = record w { eof = true } in (write send w' [], w')

-- A chunk for some input: it expands to the bytes that it stands for.
abbrev pub IsChunk : (Bytes → Option Bytes) → Bytes → Chunk → Type 0
IsChunk decompress bs c =
    (expand decompress c.compressed c.payload ≡ some (take c.processed bs))
    × (c.processed ≤ length bs)
    × (length c.payload ≤ max_data_len)
    × ((0 < length bs) → 0 < c.processed)

try_compress-IsChunk :
    (compress : Bytes → Bytes) (decompress : Bytes → Option Bytes)
    → ((bs : Bytes) → decompress (compress bs) ≡ some bs)
    → (left : ℕ) (bs : Bytes) (c : Chunk) → try_compress compress left bs ≡ some c
    → IsChunk decompress bs c
unfolding try_compress
try_compress-IsChunk compress decompress inv zero bs c h = absurd (ground arith)
try_compress-IsChunk compress decompress inv (suc left) bs c h =
    let segment : ℕ = length bs / (compression_tries - suc left) in
    elim (Bool-cases (
      ltb (length (compress (take segment bs))) max_data_len
      && ltb (length (compress (take segment bs))) segment)) [
        | inl small ↦
            let found : Chunk = record {
              payload = compress (take segment bs);
              processed = segment;
              compressed = true;
            } in
            let same : found ≡ c = ap (λ o. or_plain compress o bs) (rw small at h) in
            let fits : (length found.payload < max_data_len) × (length found.payload < segment) =
              ground (arith, small) in
            rw (sym same) (
              inv (take segment bs),
              div-le_self (length bs) (compression_tries - suc left),
              omega (arith, fits.0),
              λ _. omega (arith, fits.1),
            )
        | inr large ↦ try_compress-IsChunk compress decompress inv left bs c (rw large at h)
      ]

-- The input, cut to the longest chunk.
abbrev cut_input : Bytes → Bytes
cut_input bs = if ltb max_chunk_len (length bs) then take max_chunk_len bs else bs

plain-IsChunk :
    (compress : Bytes → Bytes) (decompress : Bytes → Option Bytes) (bs : Bytes)
    → IsChunk decompress bs (plain compress bs)
plain-IsChunk compress decompress bs = (
  ap some (sym (take-length-take max_data_len bs)),
  omega (arith, length-take max_data_len bs),
  omega (arith, length-take max_data_len bs),
  λ h. omega (arith, h, length-take max_data_len bs),
)

-- A chunk that is made expands to the bytes that it stands for: a beginning of the input, of at
-- least one byte where there is one. It is no longer than a message may carry.
make_chunk-cut_input :
    (compress : Bytes → Bytes) (decompress : Bytes → Option Bytes)
    → ((bs : Bytes) → decompress (compress bs) ≡ some bs)
    → (bs : Bytes) → IsChunk decompress (cut_input bs) (make_chunk compress bs)
unfolding make_chunk
make_chunk-cut_input compress decompress inv bs = go (Bool-cases (ltb 32 (length (cut_input bs))))
  where
    tried :
        (o : Option Chunk)
        → try_compress compress 3 (cut_input bs) ≡ o
        → IsChunk decompress (cut_input bs) (or_plain compress o (cut_input bs))
    tried none e = plain-IsChunk compress decompress (cut_input bs)
    tried (some c) e = try_compress-IsChunk compress decompress inv 3 (cut_input bs) c e

    go :
        (ltb 32 (length (cut_input bs)) ≡ true) ⊎ (ltb 32 (length (cut_input bs)) ≡ false)
        → IsChunk decompress (cut_input bs) (make_chunk compress bs)
    go (inl long) = rw long (tried (try_compress compress 3 (cut_input bs)) refl)
    go (inr short) = rw short (plain-IsChunk compress decompress (cut_input bs))

abbrev cut_at : ℕ → Bytes → Bytes
cut_at n bs = if ltb n (length bs) then take n bs else bs

length-cut_at :
    (n : ℕ) (bs : Bytes)
    → 0 < n
    → 0 < length bs
    → (length (cut_at n bs) ≤ length bs) × (0 < length (cut_at n bs))
length-cut_at n bs h some_bytes = ground (arith, length-take n bs)

take-cut_at : (m n : ℕ) (bs : Bytes) → m ≤ length (cut_at n bs) → take m (cut_at n bs) ≡ take m bs
take-cut_at m n bs h = elim (Bool-cases (ltb n (length bs))) [
  | inl long ↦
      (let short : length (take n bs) ≤ n = omega (arith, length-take n bs) in
        rw long (take-take m n bs (omega (arith, short, rw long at h))))
  | inr all ↦ rw all refl
]

init_lem :
    (id : ℕ) (payload : Bytes) (eof compressed : Bool)
    → id ≤ stream_id_max
    → init (some id) payload eof compressed
      ≡ ok (record { stream_id = some id; compressed = compressed; payload = payload; eof = eof })
unfolding init
init_lem id payload eof compressed h = rw (init, le→ltb stream_id_max id h) refl

-- Written bytes arrive: where the channel takes the message, the answer is the number of bytes
-- that it stands for, at most all and at least one of them; the message packs within its limit; and
-- the other side unpacks from it just these bytes, from the beginning of the input, for the
-- writer's stream.
pub write-unpack :
    (compress : Bytes → Bytes) (decompress : Bytes → Option Bytes)
    → ((bs : Bytes) → decompress (compress bs) ≡ some bs)
    → (send : StreamDataMessage → Sending) (w : Writer) (bs : Bytes)
    → ((m : StreamDataMessage) → send m ≡ accepted)
    → w.stream_id ≤ stream_id_max
    → 0 < length bs
    → (n : ℕ) × (m : StreamDataMessage) × (raw : Bytes) × (write compress send w bs
        ≡ (ok n, some m))
      × (0 < n)
      × (n ≤ length bs)
      × (pack m ≡ ok raw)
      × (length raw ≤ 2 + max_data_len)
      × (unpack decompress raw ≡ ok (record m { payload = take n bs }))
      × (m.stream_id ≡ some w.stream_id)
unfolding write make_chunk
write-unpack compress decompress inv send w bs takes small some_bytes =
    let c : Chunk = make_chunk compress bs in
    let m : StreamDataMessage = record {
      stream_id = some w.stream_id;
      compressed = c.compressed;
      payload = c.payload;
      eof = w.eof;
    } in
    let (expands, most, fits, progress) = make_chunk-cut_input compress decompress inv bs in
    let sizes = length-cut_at max_chunk_len bs (omega arith) some_bytes in
    let (raw, packs, long, unpacks) =
      unpack-pack decompress m w.stream_id (take c.processed (cut_input bs)) refl small expands in
    (
      c.processed,
      m,
      raw,
      rw (write, init_lem w.stream_id c.payload w.eof c.compressed small, takes m) refl,
      progress sizes.1,
      omega (arith, most, sizes.0),
      packs,
      omega (arith, long, fits),
      unpacks
          ∙ ap (λ bytes. ok (record m { payload = bytes }))
              (take-cut_at c.processed max_chunk_len bs most),
      refl,
    )
