-- ===== src/Resource/Tests.antt =====
-- Resources at concrete values, with simple functions for the hash, the cipher and bz2.
use reticulum.Prelude.{
  ◌<◌, ◌≡◌, inl, inr, refl, ap, ◌∙◌, sym, Bytes, replicate, length-replicate, Option, none, some,
  List, [], ◌∷◌, ◌++◌, length, drop, get_elem?, true, false, arith,
}
use reticulum.Transport.Announces.{contains}
use reticulum.Resource.{transferring, complete, awaiting_proof}
use reticulum.Resource.Slices.{slices}
use reticulum.Resource.Mapping.{
  Sending, get_map_hash, map_parts, map_until_ok, init, encrypted_data, push_guard,
}
use reticulum.Resource.Mapped.{IsPart}
use reticulum.Resource.Request.{Receiver, Request, sends, request_next}
use reticulum.Resource.Receive.{receive_part, filled_prefix}
use reticulum.Resource.Consistent.{IsConsistent}
use reticulum.Resource.Invariant.{arrives, updates, times_out, run, run-IsConsistent}
use reticulum.Resource.Progress.{receive_part_next}
use reticulum.Resource.Ignored.{receive_part_ignored}
use reticulum.Resource.Assemble.{accepted, assemble, validate_proof}
use reticulum.Resource.Transfer.{assemble-init}
use reticulum.Resource.Agreement.{Agrees, receive_part-Agrees}
use reticulum.Resource.Serve.{Part, Server, raised, requested_parts, send_parts, request}
use reticulum.Resource.Served.{request_revived}

abbrev sha256 : Bytes → Bytes
sha256 bs = replicate 32 (length bs)

abbrev compress : Bytes → Bytes
compress bs = 0 ∷ bs

abbrev decompress : Bytes → Option Bytes
decompress [] = none
decompress (b ∷ bs) = some bs

abbrev encrypt : Bytes → Bytes
encrypt bs = bs

abbrev decrypt : Bytes → Option Bytes
decrypt bs = some bs

abbrev prefix : Bytes
prefix = 1 ∷ 2 ∷ 3 ∷ 4 ∷ []

abbrev random_hash : Bytes
random_hash = 5 ∷ 6 ∷ 7 ∷ 8 ∷ []

abbrev payload : Bytes
payload = 10 ∷ 11 ∷ 12 ∷ 13 ∷ 14 ∷ []

abbrev first_part : Bytes
first_part = 1 ∷ 2 ∷ 3 ∷ 4 ∷ 10 ∷ 11 ∷ []

abbrev second_part : Bytes
second_part = 12 ∷ 13 ∷ 14 ∷ []

-- The payload behind its prefix, in two parts.
abbrev sending : Sending
sending = record {
  random_hash = random_hash;
  hash = replicate 32 9;
  expected_proof = replicate 32 37;
  hashmap = replicate 4 10 ∷ replicate 4 7 ∷ [];
  parts = first_part ∷ second_part ∷ [];
}

assemble-init_example :
    (assemble sha256 decrypt decompress
        (some first_part ∷ some second_part ∷ [])
        (accepted sending false)
      ≡ (
        some (record {
          metadata = none;
          stored = payload;
          proof_data = replicate 32 9 ++ replicate 32 37;
        }),
        record (accepted sending false) { status = complete },
      ))
    × (validate_proof sending.expected_proof (replicate 32 9 ++ replicate 32 37) awaiting_proof
        ≡ (true, complete))
unfolding init map_until_ok map_parts encrypted_data slices get_map_hash push_guard
assemble-init_example =
    assemble-init sha256 compress encrypt decrypt decompress (λ bs. length-replicate 32 (length bs))
      (λ bs. refl) (λ bs. refl) 6 true prefix random_hash [] payload sending (omega arith) refl refl
      refl (some first_part ∷ some second_part ∷ []) awaiting_proof (refl, (refl, tt)) refl refl

-- A hash that depends on the last byte of a random hash, for parts of five bytes.
abbrev digest : Bytes → Bytes
digest bs = drop (elim (get_elem? bs 8) [ none ↦ 0 | some k ↦ k ]) bs

abbrev likes : List Bytes
likes = (1 ∷ 1 ∷ 1 ∷ 1 ∷ 2 ∷ []) ∷ (1 ∷ 1 ∷ 1 ∷ 1 ∷ 3 ∷ []) ∷ []

-- Its hashes are those of the second part, which was the variable's value at the collision.
abbrev remapped : Sending
remapped = record {
  random_hash = 9 ∷ 9 ∷ 9 ∷ 1 ∷ [];
  hash = 1 ∷ 1 ∷ 1 ∷ 3 ∷ 9 ∷ 9 ∷ 9 ∷ 1 ∷ [];
  expected_proof = digest ((1 ∷ 1 ∷ 1 ∷ 1 ∷ 3 ∷ []) ++ remapped_hash);
  hashmap = (1 ∷ 1 ∷ 1 ∷ 2 ∷ []) ∷ (1 ∷ 1 ∷ 1 ∷ 3 ∷ []) ∷ [];
  parts = likes;
}
  where
    remapped_hash : Bytes
    remapped_hash = 1 ∷ 1 ∷ 1 ∷ 3 ∷ 9 ∷ 9 ∷ 9 ∷ 1 ∷ []

abbrev map_hash : Bytes → Bytes
map_hash bs = length bs ∷ []

abbrev three_parts : List Bytes
three_parts = (0 ∷ []) ∷ (0 ∷ 0 ∷ []) ∷ (0 ∷ 0 ∷ 0 ∷ []) ∷ []

-- The first of three parts is there, and the window has two.
abbrev receiver : Receiver
receiver = record {
  status = transferring;
  total_parts = 3;
  parts = some (0 ∷ []) ∷ none ∷ none ∷ [];
  hashmap = some (1 ∷ []) ∷ some (2 ∷ []) ∷ some (3 ∷ []) ∷ [];
  hashmap_height = 3;
  completed = 1;
  received_count = 1;
  requested = 1;
  arrived = 1;
  window = 2;
  window_min = 2;
  window_max = 10;
  fast_rate_rounds = 0;
  very_slow_rate_rounds = 0;
  retries_left = 16;
  waiting_for_hmu = false;
  assembly_lock = false;
  waits_for_response = false;
}

abbrev receiver-IsConsistent : IsConsistent receiver
unfolding filled_prefix
receiver-IsConsistent = record {
  counted = refl;
  pointed = refl;
  all_parts = refl;
  all_hashes = refl;
  narrowest = omega arith;
  wide = omega arith;
}

run-IsConsistent_example :
    IsConsistent
      (run map_hash
        (arrives none (some 9000) true (0 ∷ 0 ∷ [])
          ∷ times_out true
          ∷ updates true 0 (3 ∷ 3 ∷ 3 ∷ 3 ∷ [])
          ∷ [])
        receiver).1
run-IsConsistent_example =
    run-IsConsistent map_hash
      (arrives none (some 9000) true (0 ∷ 0 ∷ [])
        ∷ times_out true
        ∷ updates true 0 (3 ∷ 3 ∷ 3 ∷ 3 ∷ [])
        ∷ [])
      receiver receiver-IsConsistent

receive_part_next_example :
    1 < (receive_part map_hash none none true (0 ∷ 0 ∷ []) receiver).1.completed
receive_part_next_example =
    receive_part_next map_hash none none true (0 ∷ 0 ∷ []) receiver receiver-IsConsistent refl
      (omega arith) refl

receive_part_ignored_example :
    (q : Request) × ((request_next true receiver).0 ≡ sends q)
    × IsPart (3 ∷ []) q.requested_hashes
    × ((receive_part map_hash none none true
          (0 ∷ 0 ∷ 0 ∷ [])
          (request_next true receiver).1).1.parts
        ≡ receiver.parts)
receive_part_ignored_example =
    receive_part_ignored map_hash none none true (0 ∷ 0 ∷ 0 ∷ []) receiver 1 refl refl
      (((2 ∷ []), refl), (((3 ∷ []), refl), tt)) refl refl (refl, (refl, tt))

only_second :
    (s : Bytes) → IsPart s three_parts → map_hash s ≡ map_hash (0 ∷ 0 ∷ []) → s ≡ 0 ∷ 0 ∷ []
only_second s (inl e) h =
    let clash : map_hash (0 ∷ []) ≡ map_hash (0 ∷ 0 ∷ []) = ap map_hash e ∙ h in
    absurd (ground (arith, clash))
only_second s (inr (inl e)) h = sym e
only_second s (inr (inr (inl e))) h =
    let clash : map_hash (0 ∷ 0 ∷ 0 ∷ []) ≡ map_hash (0 ∷ 0 ∷ []) = ap map_hash e ∙ h in
    absurd (ground (arith, clash))
only_second s (inr (inr (inr e))) h = absurd e

receive_part-Agrees_example :
    Agrees three_parts (receive_part map_hash none none true (0 ∷ 0 ∷ []) receiver).1.parts
receive_part-Agrees_example =
    receive_part-Agrees map_hash none none true (0 ∷ 0 ∷ []) three_parts receiver
      (refl, (refl, (refl, tt))) only_second (refl, tt)

abbrev second : Part
second = record { map_hash = 2 ∷ []; payload = 0 ∷ 0 ∷ []; sent = true }

-- Both parts were sent.
abbrev server : Server
server = record {
  status = transferring;
  hash = replicate 32 7;
  parts = record { map_hash = 1 ∷ []; payload = 0 ∷ []; sent = true } ∷ second ∷ [];
  sent_parts = 2;
  retries_left = 16;
  receiver_min_consecutive_height = 0;
}

request_revived_example :
    (request
      (λ bs. raised)
      true
      (record { last_map_hash = none; requested_hashes = (2 ∷ []) ∷ [] })
      server).1.status
    ≡ awaiting_proof
unfolding requested_parts send_parts contains
request_revived_example =
    request_revived (λ bs. raised) true ((2 ∷ []) ∷ []) server refl (refl, tt) refl
