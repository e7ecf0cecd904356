-- ===== src/Transport/Tests.antt =====
-- Transport headers, seen hashes and announces at concrete values.
use reticulum.Prelude.{ℕ, ◌<◌, ◌≡◌, refl, Bytes, replicate, none, [], ◌∷◌, ◌++◌, true, false, arith}
use reticulum.Packet.Hash.{get_hash}
use reticulum.Transport.Header.{insert_transport, get_hash-insert_transport}
use reticulum.Transport.Rate.{RateEntry, RateLimit}
use reticulum.Transport.Filter.{Hashes, Incoming, IsTracked, packet_filter}
use reticulum.Transport.Paths.{PathEntry, Tables, unresponsive, path_is_unresponsive, find}
use reticulum.Transport.Announces.{
  Announce, timebase_from_random_blob, announce_emitted, contains, should_add, known_should_add,
  emitted_until, from_bytes,
}
use reticulum.Transport.Replay.{should_add-replay}

abbrev node : Bytes
node = replicate 16 9

get_hash-insert_transport_example :
    get_hash (λ bs. bs) 1 (insert_transport 3 node (3 ∷ 5 ∷ 1 ∷ 2 ∷ []))
    ≡ get_hash (λ bs. bs) 0 (3 ∷ 8 ∷ 1 ∷ 2 ∷ [])
get_hash-insert_transport_example =
    get_hash-insert_transport (λ bs. bs) 3 5 8 node (1 ∷ 2 ∷ []) (omega arith) refl

abbrev hashes : Hashes
hashes = record { current = []; previous = []; maxsize = 1; is_client = false; identity = node }

abbrev seen : Incoming
seen = record {
  transport_id = none;
  packet_type = 0;
  destination_type = 0;
  context = 0;
  hops = 2;
  packet_hash = 4 ∷ 5 ∷ [];
}

seen-IsTracked : IsTracked seen
seen-IsTracked = record {
  ordinary = refl;
  not_plain = omega arith;
  not_group = omega arith;
  not_announce = omega arith;
}

unseen_passes : packet_filter hashes seen ≡ true
unfolding packet_filter
unseen_passes = refl

-- A blob of ten bytes whose last five are the time of emission.
abbrev blob : ℕ → Bytes
blob emitted = 1 ∷ 2 ∷ 3 ∷ 4 ∷ 5 ∷ 0 ∷ 0 ∷ 0 ∷ 0 ∷ emitted ∷ []

abbrev announce : ℕ → ℕ → Announce
announce hops emitted = record {
  destination_hash = node;
  payload = replicate 74 0 ++ blob emitted;
  hops = hops;
}

abbrev path : PathEntry
path = record {
  timestamp = 10;
  next_hop = node;
  hops = 2;
  expires = 1000;
  random_blobs = blob 30 ∷ [];
  interface = 0;
}

abbrev tables : Tables
tables = record {
  path_table = (node, path) ∷ [];
  path_states = (node, unresponsive) ∷ [];
  tables_last_culled = 0;
}

should_add-replay_example : (2 < 3) × (500 < 1000) × (path_is_unresponsive node tables ≡ true)
unfolding should_add known_should_add announce_emitted timebase_from_random_blob from_bytes
    emitted_until contains find path_is_unresponsive
should_add-replay_example = should_add-replay 500 false (announce 3 30) tables path refl refl refl

-- An announce ten seconds after the last, with a target of an hour, uses up the grace.
abbrev rate_entry : RateEntry
rate_entry = record { last = 1000; rate_violations = 2; blocked_until = 0; timestamps = 1000 ∷ [] }

abbrev hourly : RateLimit
hourly = record { target = 3600; grace = 2; penalty = 60 }
