-- ===== src/Packet/Tests.antt =====
-- Packets and receipts at concrete values.
use reticulum.Prelude.{
  ◌≡◌, ◌⊎◌, refl, Bytes, length, take, replicate, none, some, List, [], ◌∷◌, Bool, true, false, leb,
  arith,
}
use reticulum.Packet.{Packet, Target}
use reticulum.Packet.Flags.{get_packed_flags, unpack_flags}
use reticulum.Packet.Pack.{unpack, is_unencrypted}
use reticulum.Packet.RoundTrip.{IsTyped, RoundTrips, unpack-pack_1}
use reticulum.Packet.Receipt.{Receipt, sent, delivered, after, validate_proof, check_timeout}
use reticulum.Packet.Send
use reticulum.Packet.Send.{Outgoing, transmit, send-failed}
use reticulum.Prelude.Results.{ok}
use reticulum.Packet.Proofs.{Event, proof, check, run, SomeProves, SomeResponds, run-Proves, step}

abbrev digest : Bytes → Bytes
digest bs = bs

abbrev address : Bytes
address = 1 ∷ 2 ∷ 3 ∷ 4 ∷ 5 ∷ 6 ∷ 7 ∷ 8 ∷ 9 ∷ 10 ∷ 11 ∷ 12 ∷ 13 ∷ 14 ∷ 15 ∷ 16 ∷ []

abbrev target : Target
target = record { hash = address; kind = 0; link_id = none; encrypt = λ bs. 99 ∷ bs }

-- A data packet with a header of type 1, and an announce with one of type 2.
abbrev plain : Packet
plain = record {
  header_type = 0;
  packet_type = 0;
  transport_type = 0;
  context = 0;
  context_flag = 1;
  hops = 3;
  destination = target;
  destination_hash = [];
  destination_type = 0;
  transport_id = none;
  payload = 5 ∷ 6 ∷ [];
  flags = 32;
  header = [];
  ciphertext = none;
  raw = [];
  packed = false;
  mtu = 500;
  packet_hash = none;
}

abbrev relayed : Packet
relayed = record plain {
  header_type = 1;
  packet_type = 1;
  transport_type = 1;
  context_flag = 0;
  flags = 81;
  transport_id = some address;
}

plain-IsTyped : IsTyped plain
unfolding get_packed_flags
plain-IsTyped = record {
  header = omega arith;
  flag = omega arith;
  transport = omega arith;
  kind = omega arith;
  packet = omega arith;
  made = refl;
}

relayed-IsTyped : IsTyped relayed
unfolding get_packed_flags
relayed-IsTyped = record {
  header = omega arith;
  flag = omega arith;
  transport = omega arith;
  kind = omega arith;
  packet = omega arith;
  made = refl;
}

unpack-pack_1_example : RoundTrips digest plain relayed none (99 ∷ 5 ∷ 6 ∷ [])
unfolding is_unencrypted
unpack-pack_1_example =
    unpack-pack_1 digest plain relayed plain-IsTyped (omega arith) (omega arith) (omega arith) refl
      (99 ∷ 5 ∷ 6 ∷ []) refl refl (omega arith)

-- Eighteen bytes are too few for a header of type 1.
abbrev short : Packet
short = record plain { raw = 0 ∷ 0 ∷ address }

short_refused : (unpack digest short).0 ≡ false
unfolding unpack unpack_flags
short_refused = refl

-- A receipt for a packet whose hash is 32 zeros, and an identity that accepts one signature.
abbrev accepts : Bytes → Bytes → Bool
accepts signature message = leb 7 (length (take 7 signature))

abbrev fresh : Receipt
fresh = record {
  hash = replicate 32 0;
  status = sent;
  proved = false;
  sent_at = 100;
  concluded_at = none;
  timeout = after 50;
  proof_packet = none;
  identity = some accepts;
  has_delivery = true;
  has_timeout = false;
  delivery_calls = 0;
  timeout_calls = 0;
}

-- The timeout comes first, and then a late proof.
abbrev events : List Event
events = check 151 ∷ proof (replicate 64 1) 160 ∷ []

events_deliver : (run events fresh).status ≡ delivered
unfolding run step validate_proof check_timeout
events_deliver = refl

run-Proves_example : SomeProves (replicate 32 0) (some accepts) events ⊎ SomeResponds events
run-Proves_example = run-Proves events fresh (λ e. cc) events_deliver

abbrev unsent : Outgoing
unsent = record {
  packet = record plain { packed = true };
  sent = false;
  receipt = some 4;
  link = record { closed = false; last_outbound = 0; tx = 0; txbytes = 0 };
}

-- No interface takes the packet.
abbrev refuse : Outgoing → Bool × Outgoing
refuse o = (false, o)

refused : (Send.send digest refuse 9 unsent).0 ≡ ok Send.failed
unfolding Send.send transmit
refused = refl
