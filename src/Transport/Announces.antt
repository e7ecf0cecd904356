-- ===== src/Transport/Announces.antt =====
-- Transport.inbound on a valid announce: whether it is entered into the path table; with
-- timebase_from_random_blob, timebase_from_random_blobs and announce_emitted. Times are seconds.
use reticulum.Prelude.{
  ℕ, ◌+◌, ◌*◌, Bytes, take, drop, bytes_eq, List, [], ◌∷◌, Bool, true, false, not, ◌&&◌, ◌||◌, none,
  some, max, ltb, leb, ◌==◌, if◌then◌else◌,
}
use reticulum.Transport.Paths.{
  PathEntry, unknown, Tables, find, mark_path, path_is_unresponsive, pathfinder_m,
}

-- int.from_bytes(bs, "big")
unfoldable pub from_bytes : ℕ → Bytes → ℕ
from_bytes acc [] = acc
from_bytes acc (b ∷ bs) = from_bytes (acc * 256 + b) bs

unfoldable pub timebase_from_random_blob : Bytes → ℕ
timebase_from_random_blob blob = from_bytes 0 (take 5 (drop 5 blob))

unfoldable pub timebase_from : ℕ → List Bytes → ℕ
timebase_from timebase [] = timebase
timebase_from timebase (blob ∷ blobs) =
    let emitted = timebase_from_random_blob blob in
    timebase_from (if ltb timebase emitted then emitted else timebase) blobs

unfoldable pub timebase_from_random_blobs : List Bytes → ℕ
timebase_from_random_blobs = timebase_from 0

-- The blob behind the public key and the name hash of an announce.
abbrev pub random_blob : Bytes → Bytes
random_blob payload = take 10 (drop 74 payload)

unfoldable pub announce_emitted : Bytes → ℕ
announce_emitted payload = timebase_from_random_blob (random_blob payload)

unfoldable pub contains : Bytes → List Bytes → Bool
contains b [] = false
contains b (x ∷ xs) = bytes_eq x b || contains b xs

-- The latest emission of the known blobs, as far as the loop goes: it stops at `target`.
unfoldable pub emitted_until : ℕ → ℕ → List Bytes → ℕ
emitted_until target latest [] = latest
emitted_until target latest (blob ∷ blobs) =
    let latest' = max latest (timebase_from_random_blob blob) in
    let rest = emitted_until target latest' blobs in if leb target latest' then latest' else rest

pub record Announce : Type 0 where
  pub destination_hash : Bytes
  pub payload : Bytes
  pub hops : ℕ

-- The decision where a path is known.
unfoldable pub known_should_add : ℕ → Announce → PathEntry → Tables → Bool × Tables
unfolding announce_emitted timebase_from_random_blobs
known_should_add now a path t =
    let emitted = announce_emitted a.payload in
    let blob = random_blob a.payload in
    let seen = contains blob path.random_blobs in
    let marked = (mark_path unknown a.destination_hash t).1 in
    if leb a.hops path.hops
    then if not seen && ltb (timebase_from_random_blobs path.random_blobs) emitted
      then (true, marked)
      else (false, t)
    else if leb path.expires now
    then if not seen then (true, marked) else (false, t)
    else (let path_emitted = emitted_until emitted 0 path.random_blobs in
        if ltb path_emitted emitted
        then if not seen then (true, marked) else (false, t)
        else if emitted == path_emitted
        then (path_is_unresponsive a.destination_hash t, t)
        else (false, t))

-- `is_local` is whether the destination is one of this system's own.
unfoldable pub should_add : ℕ → Bool → Announce → Tables → Bool × Tables
should_add now is_local a t =
    if not is_local && ltb a.hops (pathfinder_m + 1)
    then elim (find a.destination_hash t.path_table) [
      | none ↦ (true, t)
      | some path ↦ known_should_add now a path t
    ]
    else (false, t)
