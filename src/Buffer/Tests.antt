-- ===== src/Buffer/Tests.antt =====
-- Streams at concrete values.
use reticulum.Prelude.{
  ◌≡◌, ◌<◌, ◌≤◌, ◌+◌, ℕ, refl, Bytes, List, [], ◌∷◌, ◌++◌, length, take, true, false, Option, none,
  some, arith, replicate,
}
use reticulum.Prelude.Results.{ok}
use reticulum.Buffer.Stream.{StreamDataMessage, pack, unpack, max_data_len}
use reticulum.Buffer.Reader.{
  Reader, Event, stream, other, arrives, reads, run, arrived, run-stream, read, bytes_of,
}
use reticulum.Buffer.Writer.{Writer, Sending, accepted, write, write-unpack}

abbrev hello : StreamDataMessage
hello = record { stream_id = some 7; compressed = false; payload = 1 ∷ 2 ∷ 3 ∷ []; eof = true }

abbrev reader : Reader
reader = record { stream_id = 7; buffer = 9 ∷ []; eof = false; listeners = 4 ∷ [] }

abbrev events : List Event
events = arrives (stream hello) ∷ reads 2 ∷ arrives other ∷ reads 1 ∷ []

run-stream_example :
    (run events reader).0 ++ (run events reader).1.buffer ≡ (9 ∷ []) ++ arrived 7 events
run-stream_example = run-stream events reader

abbrev drained : Reader
drained = record reader { buffer = []; eof = true }

nothing_left : bytes_of (read 5 drained).0 ≡ []
unfolding read
nothing_left = refl

-- A writer whose compression adds a byte: plain chunks are sent.
abbrev writer : Writer
writer = record { stream_id = 7; eof = false }

abbrev taken : StreamDataMessage → Sending
taken m = accepted

abbrev grow : Bytes → Bytes
grow bs = 0 ∷ bs

abbrev shrink : Bytes → Option Bytes
shrink [] = none
shrink (b ∷ bs) = some bs

write-unpack_example :
    (n : ℕ) × (m : StreamDataMessage) × (raw : Bytes) × (write grow taken writer (replicate 40 5)
      ≡ (ok n, some m))
    × (0 < n)
    × (n ≤ 40)
    × (pack m ≡ ok raw)
    × (length raw ≤ 2 + max_data_len)
    × (unpack shrink raw ≡ ok (record m { payload = take n (replicate 40 5) }))
    × (m.stream_id ≡ some 7)
write-unpack_example =
    write-unpack grow shrink (λ bs. refl) taken writer (replicate 40 5) (λ m. refl) (omega arith)
      (omega arith)
