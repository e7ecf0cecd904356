-- ===== src/Transport/Culling/Expired.antt =====
-- A path that Transport.expire_path gave up, and the culling after it.
use reticulum.Prelude.{
  ℕ, if-cases, ◌+◌, ◌<◌, ◌≤◌, ◌≡◌, refl, inl, inr, Bytes, bytes_eq, bytes_eq_refl, lt→ltb,
  Option-cases, List, [], ◌∷◌, Bool, Bool-cases, true, false, not, ◌&&◌, Option, none, some, ltb,
  ◌==◌, arith,
}
use reticulum.Transport.Paths.{
  PathEntry, Tables, unresponsive, find, has_path, hops_to, expire_path, mark_path,
}
use reticulum.Transport.Forward.{LinkEntry}
use reticulum.Transport.Culling.{cull, path_time, is_outdated, destination_timeout}
use reticulum.Transport.Culling.Entries.{find-cull_self}
use reticulum.Transport.Culling.Rediscover.{
  Search, Shared, block, ask, may_mark, rediscover, is_throttled, check_link, check_links,
  search_paths, cull_tables, tables_cull_interval, items,
}

-- The path table has the destination, with a time long ago.
abbrev Spent : Bytes → Tables → Type 0
Spent d t = (e : PathEntry) × (find d t.path_table ≡ some e) × (e.timestamp ≡ 0)

expire_path-Spent : (d other : Bytes) (t : Tables) → Spent d t → Spent d (expire_path other t).1
unfolding expire_path find
expire_path-Spent d other t (e, found, spent) = elim (Option-cases (find other t.path_table)) [
  | inl unknown ↦ rw (expire_path, unknown) (e, found, spent)
  | inr (e', known) ↦ elim (Bool-cases (bytes_eq other d)) [
    | inl same ↦ rw (expire_path, known) (record e' { timestamp = 0 }, rw same refl, refl)
    | inr apart ↦ rw (expire_path, known) (e, rw apart found, spent)
  ]
]

mark_path-Spent :
    (d other : Bytes) (t : Tables) → Spent d t → Spent d (mark_path unresponsive other t).1
unfolding mark_path
mark_path-Spent d other t h = elim (Option-cases (find other t.path_table)) [
  | inl unknown ↦ rw (mark_path, unknown) h
  | inr (e', known) ↦ rw (mark_path, known) h
]

module _ (modes : ℕ → Option ℕ) (transport_enabled : Bool) (now : ℕ)
    (path_requests : List (Bytes × ℕ)) (d : Bytes) where
  block-Spent :
      (e : LinkEntry) (s : Search)
      → Spent d s.tables
      → Spent d (block modes transport_enabled e s).tables
  unfolding block
  block-Spent e s h =
      if-cases (Spent d) (transport_enabled && may_mark (modes e.received_on)) _ _
        (λ marks. mark_path-Spent d e.destination_hash s.tables h) h

  ask-Spent :
      (other : Bytes) (s : Search)
      → Spent d s.tables
      → Spent d (ask transport_enabled other s).tables
  unfolding ask
  ask-Spent other s h =
      if-cases (Spent d) transport_enabled _ _ (λ enabled. h) (expire_path-Spent d other s.tables h)

  rediscover-Spent :
      (e : LinkEntry) (s : Search)
      → Spent d s.tables
      → Spent d (rediscover modes transport_enabled now path_requests e s).tables
  unfolding rediscover
  rediscover-Spent e s h =
      let Kept : Search → Type 0 = λ s'. Spent d s'.tables in
      let k : Bytes = e.destination_hash in
      let throttled : Bool = is_throttled now path_requests k in
      let blocked = ask-Spent k (block modes transport_enabled e s) (block-Spent e s h) in
      if-cases Kept (not (has_path k s.tables)) _ _ (λ x. ask-Spent k s h)
        (if-cases Kept (not throttled && (e.hops == 0)) _ _ (λ x. ask-Spent k s h)
          (if-cases Kept (not throttled && (hops_to k s.tables == 1)) _ _ (λ x. blocked)
            (if-cases Kept (not throttled && (e.hops == 1)) _ _ (λ x. blocked) h)))

  check_links-Spent :
      (links : List (Bytes × LinkEntry)) (s : Search)
      → Spent d s.tables
      → Spent d (check_links modes transport_enabled now path_requests links s).tables
  unfolding check_links check_link
  check_links-Spent [] s h = h
  check_links-Spent ((link_id, e) ∷ links) s h =
      let Kept : Search → Type 0 = λ s'. Spent d s'.tables in
      check_links-Spent links _ (
        if-cases Kept (not e.validated && ltb e.proof_timeout now) _ _ (λ x. rediscover-Spent e s h)
          h)

time_lem : (o : Option ℕ) → path_time o ≤ destination_timeout
time_lem none = omega arith
time_lem (some mode) = ground arith

module _ (modes : ℕ → Option ℕ) (interfaces : List ℕ) (transport_enabled : Bool) (now : ℕ)
    (earlier : List (Bytes × Option ℕ)) where
  spent-is_outdated :
      (e : PathEntry)
      → destination_timeout < now
      → e.timestamp ≡ 0
      → is_outdated modes interfaces now e ≡ true
  unfolding is_outdated
  spent-is_outdated e late spent =
      let limit = time_lem (modes e.interface) in
      rw
        (lt→ltb (e.timestamp + path_time (modes e.interface)) now
          (omega (arith, late, limit, spent)))
        refl

  search-Spent :
      (d : Bytes) (s : Shared)
      → Spent d s.routes.tables
      → Spent d (search_paths modes interfaces transport_enabled now earlier s).tables
  unfolding search_paths
  search-Spent d s h =
      check_links-Spent modes transport_enabled now s.path_requests d (items s.routes.link_table)
        (record { tables = s.routes.tables; requests = earlier; blocked_if = none }) h

  cull_tables-Spent :
      (d : Bytes) (s : Shared)
      → destination_timeout < now
      → ltb (s.routes.tables.tables_last_culled + tables_cull_interval) now ≡ true
      → Spent d s.routes.tables
      → has_path d (cull_tables modes interfaces transport_enabled now earlier s).0.routes.tables
        ≡ false
  unfolding cull_tables has_path
  cull_tables-Spent d s late due h =
      let (e, found, spent) = search-Spent d s h in
      let table : List (Bytes × PathEntry) =
        (search_paths modes interfaces transport_enabled now earlier s).tables.path_table in
      let gone : find d (cull (is_outdated modes interfaces now) table table) ≡ none =
        rw (spent-is_outdated e late spent) at
          (find-cull_self (is_outdated modes interfaces now) d e table found) in
      rw (cull_tables, due) (rw (has_path, gone) refl)

  -- Once a path is given up by expire_path, the next round of culling removes it, whatever links it
  -- meets, and does so at once: after the first week of the clock.
  pub cull_tables-expire_path :
      (d : Bytes) (e : PathEntry) (s : Shared)
      → destination_timeout < now
      → find d s.routes.tables.path_table ≡ some e
      → has_path d
          (cull_tables modes interfaces transport_enabled now earlier (record s {
            routes = record s.routes { tables = (expire_path d s.routes.tables).1 };
          })).0.routes.tables
        ≡ false
  unfolding expire_path find
  cull_tables-expire_path d e s late known =
      rw (expire_path, known)
        (cull_tables-Spent d _ late (lt→ltb 5 now (omega (arith, late)))
          (record e { timestamp = 0 }, rw (bytes_eq_refl d) refl, refl))
