-- ===== src/Transport/Culling/Rediscover.antt =====
-- Transport.jobs where it looks for a new path after a link that was never established, and the
-- culling of all tables as a whole.
use reticulum.Prelude.{
  ℕ, ◌+◌, Bytes, bytes_eq, List, [], ◌∷◌, Bool, true, false, not, ◌&&◌, Option, none, some, ltb,
  ◌==◌, if◌then◌else◌,
}
use reticulum.Transport.Outbound.Broadcast.{mode_boundary}
use reticulum.Transport.Paths.{
  PathEntry, PathState, Tables, unresponsive, find, has_path, hops_to, expire_path, mark_path,
}
use reticulum.Transport.Forward.{LinkEntry, Routes}
use reticulum.Transport.Culling.{cull, is_outdated, reverse_is_stale, link_is_stale}

-- PATH_REQUEST_MI and tables_cull_interval
abbrev pub path_request_mi : ℕ
path_request_mi = 20

abbrev pub tables_cull_interval : ℕ
tables_cull_interval = 5

-- The variables of `jobs` that the loop over the links uses: the destinations to request, each with
-- the interface on which not to, and `blocked_if`; and the tables of paths.
pub record Search : Type 0 where
  pub tables : Tables
  pub requests : List (Bytes × Option ℕ)
  pub blocked_if : Option ℕ

-- What `jobs` shares: `path_requests` has the times of the last requests, `discovery_timeouts` the
-- ends of the requests on behalf of others.
pub record Shared : Type 0 where
  pub routes : Routes
  pub path_requests : List (Bytes × ℕ)
  pub discovery_timeouts : List (Bytes × ℕ)

module _ {V : Type 0} where
  -- A write to a dictionary, which keeps the place of a key.
  unfoldable pub write_item : Bytes → V → List (Bytes × V) → List (Bytes × V)
  write_item k v [] = (k, v) ∷ []
  write_item k v ((j, w) ∷ d) =
      let rest = write_item k v d in if bytes_eq j k then (j, v) ∷ d else (j, w) ∷ rest

  -- The items of the dictionary that a list of writes leaves, in Python's order.
  unfoldable pub items : List (Bytes × V) → List (Bytes × V)
  unfolding write_item
  items [] = []
  items ((k, v) ∷ older) = write_item k v (items older)

  abbrev pub in_table : Bytes → List (Bytes × V) → Bool
  in_table k d = elim (find k d) [ none ↦ false | some v ↦ true ]

-- The states of destinations that have a path in `paths`.
unfoldable pub cull_states :
    List (Bytes × PathEntry) → List (Bytes × PathState) → List (Bytes × PathState)
cull_states paths [] = []
cull_states paths ((d, state) ∷ states) =
    let rest = cull_states paths states in if in_table d paths then (d, state) ∷ rest else rest

abbrev pub may_mark : Option ℕ → Bool
may_mark none = false
may_mark (some mode) = not (mode == mode_boundary)

unfoldable pub last_request : Bytes → List (Bytes × ℕ) → ℕ
last_request d path_requests = elim (find d path_requests) [ none ↦ 0 | some time ↦ time ]

unfoldable pub is_throttled : ℕ → List (Bytes × ℕ) → Bytes → Bool
unfolding last_request
is_throttled now path_requests d = ltb now (last_request d path_requests + path_request_mi)

-- Where `path_request_conditions` holds.
unfoldable pub ask : Bool → Bytes → Search → Search
ask transport_enabled d s = record s {
  requests = if in_table d s.requests then s.requests else (d, s.blocked_if) ∷ s.requests;
  tables = if transport_enabled then s.tables else (expire_path d s.tables).1;
}

-- `blocked_if` is set to the interface of the link, and the path is marked.
unfoldable pub block : (ℕ → Option ℕ) → Bool → LinkEntry → Search → Search
block modes transport_enabled e s = record s {
  blocked_if = some e.received_on;
  tables =
      if transport_enabled && may_mark (modes e.received_on)
      then (mark_path unresponsive e.destination_hash s.tables).1
      else s.tables;
}

module _ (modes : ℕ → Option ℕ) (transport_enabled : Bool) (now : ℕ)
    (path_requests : List (Bytes × ℕ)) where
  -- After a link that was never established.
  unfoldable pub rediscover : LinkEntry → Search → Search
  unfolding block ask is_throttled
  rediscover e s =
      let d = e.destination_hash in
      if not (has_path d s.tables)
      then ask transport_enabled d s
      else if not (is_throttled now path_requests d) && (e.hops == 0)
      then ask transport_enabled d s
      else if not (is_throttled now path_requests d) && (hops_to d s.tables == 1)
      then ask transport_enabled d (block modes transport_enabled e s)
      else if not (is_throttled now path_requests d) && (e.hops == 1)
      then ask transport_enabled d (block modes transport_enabled e s)
      else s

  unfoldable pub check_link : LinkEntry → Search → Search
  unfolding rediscover
  check_link e s = if not e.validated && ltb e.proof_timeout now then rediscover e s else s

  unfoldable pub check_links : List (Bytes × LinkEntry) → Search → Search
  unfolding check_link
  check_links [] s = s
  check_links ((link_id, e) ∷ links) s = check_links links (check_link e s)

unfoldable pub all_but : ℕ → Bytes → List ℕ → List (Bytes × Option ℕ)
all_but blocked d [] = []
all_but blocked d (i ∷ interfaces) =
    let rest = all_but blocked d interfaces in if i == blocked then rest else (d, some i) ∷ rest

-- The calls of request_path after a round: everywhere, or on each interface but the blocked one.
unfoldable pub requested_on : List ℕ → Bytes → Option ℕ → List (Bytes × Option ℕ)
unfolding all_but
requested_on interfaces d none = (d, none) ∷ []
requested_on interfaces d (some blocked) = all_but blocked d interfaces

-- `earlier` has the requests that `jobs` made in this round before, for links of its own; each is
-- for everywhere.
module _ (modes : ℕ → Option ℕ) (interfaces : List ℕ) (transport_enabled : Bool) (now : ℕ)
    (earlier : List (Bytes × Option ℕ)) where
  unfoldable pub search_paths : Shared → Search
  search_paths s =
      check_links modes transport_enabled now s.path_requests (items s.routes.link_table)
        (record { tables = s.routes.tables; requests = earlier; blocked_if = none })

  -- One round of culling, with the path requests that follow it.
  unfoldable pub cull_tables : Shared → Shared × List (Bytes × Option ℕ)
  unfolding cull search_paths cull_states
  cull_tables s =
      let search = search_paths s in
      let r = s.routes in
      if ltb (r.tables.tables_last_culled + tables_cull_interval) now
      then (
        record s {
          routes = record r {
            reverse_table = cull (reverse_is_stale interfaces now) r.reverse_table r.reverse_table;
            link_table = cull (link_is_stale interfaces now) r.link_table r.link_table;
            tables = record {
              path_table =
                  cull (is_outdated modes interfaces now) search.tables.path_table
                    search.tables.path_table;
              path_states = cull_states r.tables.path_table search.tables.path_states;
              tables_last_culled = now;
            };
          };
          discovery_timeouts =
              cull (λ timeout. ltb timeout now) s.discovery_timeouts s.discovery_timeouts;
        },
        search.requests,
      )
      else (s, earlier)
