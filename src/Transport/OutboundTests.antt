-- ===== src/Transport/OutboundTests.antt =====
-- Packets of this node that go out by the path table and on all interfaces, at concrete values.
use reticulum.Prelude.{
  ℕ, ◌≢◌, ◌≡◌, ◌⊎◌, refl, Bytes, replicate, [], ◌∷◌, ◌++◌, true, false, none, some, arith,
  if◌then◌else◌,
}
use reticulum.Packet.{header_1}
use reticulum.Transport.Paths.{PathEntry, find, next_hop_interface}
use reticulum.Transport.Filter.{add_packet_hash}
use reticulum.Transport.Outbound.{Outgoing, Port, Outbox, transmit_on, path_of}
use reticulum.Transport.Outbound.Broadcast.{port_of, outbound}
use reticulum.Transport.Outbound.Goes.{Goes}
use reticulum.Transport.Outbound.Sent.{Broadcasts, outbound-Broadcasts}
use reticulum.Transport.Outbound.OnPath.{NeedsTransport, Inserted, outbound-OnPath}

abbrev far_node : Bytes
far_node = replicate 16 9

abbrev next_node : Bytes
next_node = replicate 16 4

abbrev way : PathEntry
way = record {
  timestamp = 5;
  next_hop = next_node;
  hops = 3;
  expires = 900;
  random_blobs = [];
  interface = 2;
}

abbrev port : ℕ → ℕ → Port
port n mode = record {
  number = n;
  is_out = true;
  mode = mode;
  bitrate = some 1000;
  announce_allowed_at = 0;
  announce_queue = [];
  sent_announces = [];
}

abbrev box : Outbox
box = record {
  tables = record { path_table = (far_node, way) ∷ []; path_states = []; tables_last_culled = 0 };
  hashes = record {
    current = [];
    previous = [];
    maxsize = 100;
    is_client = false;
    identity = replicate 16 1;
  };
  ports = port 1 1 ∷ port 2 3 ∷ [];
  transmitted = [];
  receipts = 0;
}

abbrev message : Outgoing
message = record {
  raw = 0 ∷ 0 ∷ (far_node ++ (0 ∷ 7 ∷ []));
  flags = 0;
  hops = 0;
  header_type = 0;
  packet_type = 0;
  context = 0;
  kind = 0;
  destination_hash = far_node;
  packet_hash = 1 ∷ [];
  payload = 7 ∷ [];
  create_receipt = true;
  attached_interface = none;
  link = none;
}

-- A packet of a link on the second interface.
abbrev of_link : Outgoing
of_link = record message { destination_hash = replicate 16 3; kind = 3; link = some (false, 2) }

abbrev wait : Port → Bytes → ℕ
wait p raw = 1

link_sent : (outbound 10 wait false of_link box).1.transmitted ≡ (2, of_link.raw) ∷ []
unfolding outbound path_of find
link_sent = refl

no_path : path_of of_link box ≡ none
unfolding path_of find
no_path = refl

known_path : path_of message box ≡ some way
unfolding path_of find
known_path = refl

outbound-Broadcasts_example :
    Broadcasts
      (Goes 10 wait false
        (port_of (next_hop_interface of_link.destination_hash box.tables) box.ports)
        of_link)
      of_link
      box.ports
      box
      (outbound 10 wait false of_link box).0
      (outbound 10 wait false of_link box).1
    × ((outbound 10 wait false of_link box).1.hashes ≡ (
        if (outbound 10 wait false of_link box).0
        then add_packet_hash of_link.packet_hash box.hashes
        else box.hashes))
outbound-Broadcasts_example = outbound-Broadcasts 10 wait false of_link box no_path

outbound-OnPath_example :
    ((¬ (NeedsTransport way box))
      × (outbound 10 wait false message box ≡ (true, transmit_on message 2 message.raw box)))
    ⊎ ((NeedsTransport way box
          × (message.header_type ≡ header_1)
          × ((outbound 10 wait false message box).0 ≡ true)
          × Inserted
              (λ bs. bs)
              message
              0
              (far_node ++ (0 ∷ 7 ∷ []))
              way
              box
              (outbound 10 wait false message box).1)
        ⊎ (NeedsTransport way box
            × (message.header_type ≢ header_1)
            × (outbound 10 wait false message box ≡ (false, box))))
outbound-OnPath_example =
    outbound-OnPath (λ bs. bs) 10 wait false message 0 (far_node ++ (0 ∷ 7 ∷ [])) way box refl
      (omega arith) refl known_path
