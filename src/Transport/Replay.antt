-- ===== src/Transport/Replay.antt =====
-- Which announces can change a path that is known: replays cannot, but for one case.
use mathlib.Core.Bool.{false≢true}
use reticulum.Prelude.{
  ℕ, ◌≤◌, ◌<◌, ◌≡◌, inl, inr, Bytes, List, [], ◌∷◌, All, Bool, Bool-cases, true, false, not, ◌&&◌,
  some, ltb, arith, if◌then◌else◌,
}
use reticulum.Transport.Paths.{PathEntry, Tables, find, path_is_unresponsive}
use reticulum.Transport.Announces.{
  Announce, random_blob, timebase_from_random_blob, timebase_from, timebase_from_random_blobs,
  announce_emitted, contains, known_should_add, should_add,
}

timebase_from-max :
    (timebase : ℕ) (blobs : List Bytes)
    → (timebase ≤ timebase_from timebase blobs)
      × All (λ b. timebase_from_random_blob b ≤ timebase_from timebase blobs) blobs
unfolding timebase_from
timebase_from-max timebase [] = (omega arith, tt)
timebase_from-max timebase (b ∷ blobs) =
    let (low, rest) =
      timebase_from-max
        (if ltb timebase (timebase_from_random_blob b)
          then timebase_from_random_blob b
          else timebase)
        blobs in
    (ground arith, (ground arith, rest))

All-below :
    (latest emitted : ℕ) (blobs : List Bytes)
    → latest < emitted
    → All (λ b. timebase_from_random_blob b ≤ latest) blobs
    → All (λ b. timebase_from_random_blob b < emitted) blobs
All-below latest emitted [] h all = tt
All-below latest emitted (b ∷ blobs) h all =
    (omega (arith, all.0), All-below latest emitted blobs h all.1)

module _ (now : ℕ) (is_local : Bool) (a : Announce) (t : Tables) (path : PathEntry)
    (known : find a.destination_hash t.path_table ≡ some path)
    (added : (should_add now is_local a t).0 ≡ true) where
  -- The announce is not for this system, has not travelled too far, and the path decides.
  by_path : (is_local ≡ false) × (a.hops ≤ 128) × ((known_should_add now a path t).0 ≡ true)
  unfolding should_add
  by_path = elim (Bool-cases (not is_local && ltb a.hops 129)) [
    | inl open_to ↦ (ground arith, ground arith, rw (should_add, open_to, known) at added)
    | inr shut ↦ absurd (false≢true (rw (should_add, shut) at added))
  ]

  -- An announce whose random blob was heard before replaces a known path only if it comes over more
  -- hops than the path has, the path has not expired, and it has been marked as unresponsive.
  pub should_add-replay :
      contains (random_blob a.payload) path.random_blobs ≡ true
      → (path.hops < a.hops)
        × (now < path.expires)
        × (path_is_unresponsive a.destination_hash t ≡ true)
  unfolding known_should_add
  should_add-replay seen =
      let decided : (known_should_add now a path t).0 ≡ true = by_path.2 in ground arith

  -- An announce over no more hops than the known path replaces it only if its random blob is new
  -- and it was emitted after every announce whose blob is remembered.
  pub should_add-nearer :
      a.hops ≤ path.hops
      → (contains (random_blob a.payload) path.random_blobs ≡ false)
        × All (λ b. timebase_from_random_blob b < announce_emitted a.payload) path.random_blobs
  unfolding known_should_add timebase_from_random_blobs
  should_add-nearer near =
      let decided : (known_should_add now a path t).0 ≡ true = by_path.2 in
      (
        ground arith,
        All-below (timebase_from 0 path.random_blobs) _ path.random_blobs (ground arith)
            (timebase_from-max 0 path.random_blobs).1,
      )
