-- ===== src/Transport/CullingTests.antt =====
-- The culling of tables at concrete values.
use reticulum.Prelude.{
  ℕ, ◌≡◌, ◌≢◌, refl, All, Bytes, replicate, List, [], ◌∷◌, true, false, Option, none, some, arith,
}
use reticulum.Transport.Paths.{PathEntry, find, has_path, hops_to, expire_path, mark_path}
use reticulum.Transport.Forward.{LinkEntry, ReverseEntry}
use reticulum.Transport.Culling.Rediscover.{
  Shared, cull_tables, search_paths, check_links, requested_on, items, is_throttled,
}
use reticulum.Transport.Culling.Kept.{
  Stays, ReverseLasts, LinkLasts, PathLasts, culled, searched, cull_tables-Stays,
}
use reticulum.Transport.Culling.Expired.{cull_tables-expire_path}
use reticulum.Transport.Culling.Blocked.{Blocks, cull_tables-blocked}

abbrev near_node : Bytes
near_node = replicate 16 9

abbrev lost_node : Bytes
lost_node = replicate 16 4

abbrev way : PathEntry
way = record {
  timestamp = 604700;
  next_hop = near_node;
  hops = 1;
  expires = 900;
  random_blobs = [];
  interface = 2;
}

abbrev first_link : LinkEntry
first_link = record {
  timestamp = 604790;
  next_hop = near_node;
  next_hop_interface = 2;
  remaining_hops = 1;
  received_on = 1;
  hops = 2;
  destination_hash = near_node;
  validated = false;
  proof_timeout = 604800;
}

-- Another link, to a destination whose path is gone.
abbrev second_link : LinkEntry
second_link = record first_link { received_on = 3; destination_hash = lost_node }

abbrev answer_way : ReverseEntry
answer_way = record { received_on = 1; outbound_interface = 2; timestamp = 604500 }

abbrev shared : Shared
shared = record {
  routes = record {
    tables = record {
      path_table = (near_node, way) ∷ [];
      path_states = [];
      tables_last_culled = 604800;
    };
    link_table = (2 ∷ [], second_link) ∷ (1 ∷ [], first_link) ∷ [];
    reverse_table = (5 ∷ [], answer_way) ∷ [];
    hashes = record {
      current = [];
      previous = [];
      maxsize = 100;
      is_client = false;
      identity = replicate 16 1;
    };
    sent = [];
  };
  path_requests = [];
  discovery_timeouts = [];
}

abbrev mode_of : ℕ → Option ℕ
mode_of n = some 1

abbrev ports : List ℕ
ports = 1 ∷ 2 ∷ 3 ∷ []

found_way : find near_node shared.routes.tables.path_table ≡ some way
unfolding find
found_way = refl

found_reverse : find (5 ∷ []) shared.routes.reverse_table ≡ some answer_way
unfolding find
found_reverse = refl

found_link : find (1 ∷ []) shared.routes.link_table ≡ some first_link
unfolding find
found_link = refl

found_searched : find near_node (searched mode_of ports true 604806 [] shared) ≡ some way
unfolding find search_paths check_links items has_path hops_to mark_path
found_searched = refl

in_order : items shared.routes.link_table ≡ (1 ∷ [], first_link) ∷ (2 ∷ [], second_link) ∷ []
unfolding items
in_order = refl

first-Blocks : Blocks 604806 [] first_link shared.routes.tables
unfolding has_path hops_to is_throttled find
first-Blocks = ((refl, refl), refl, refl, refl, refl)

no_way : find lost_node shared.routes.tables.path_table ≡ none
unfolding find
no_way = refl

cull_tables-Stays_example :
    Stays
      (5 ∷ [])
      answer_way
      (ReverseLasts ports 604806 answer_way)
      (culled mode_of ports true 604806 [] shared).reverse_table
    × Stays
        (1 ∷ [])
        first_link
        (LinkLasts ports 604806 first_link)
        (culled mode_of ports true 604806 [] shared).link_table
    × Stays near_node way
        (PathLasts ports 604806 mode_of way)
        (culled mode_of ports true 604806 [] shared).tables.path_table
cull_tables-Stays_example =
    cull_tables-Stays mode_of ports true 604806 [] shared (5 ∷ []) (1 ∷ []) near_node answer_way
      first_link way (omega arith) found_reverse found_link found_searched

cull_tables-expire_path_example :
    has_path near_node
      (cull_tables mode_of ports false 604806 [] (record shared {
        routes = record shared.routes { tables = (expire_path near_node shared.routes.tables).1 };
      })).0.routes.tables
    ≡ false
cull_tables-expire_path_example =
    cull_tables-expire_path mode_of ports false 604806 [] near_node way shared (omega arith)
      found_way

none_earlier : find {V = Option ℕ} lost_node [] ≡ none
unfolding find
none_earlier = refl

cull_tables-blocked_example :
    (find lost_node (cull_tables mode_of ports true 604806 [] shared).1 ≡ some (some 1))
    × All (λ (t : Bytes × Option ℕ). t.1 ≢ some 1) (requested_on ports lost_node (some 1))
cull_tables-blocked_example =
    cull_tables-blocked mode_of ports true 604806 [] shared (1 ∷ []) (2 ∷ []) first_link second_link
      (omega arith) in_order first-Blocks (refl, refl) no_way none_earlier
