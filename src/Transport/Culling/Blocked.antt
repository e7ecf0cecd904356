-- ===== src/Transport/Culling/Blocked.antt =====
-- The interface that a link blocks for path requests in Transport.jobs, and the links after it in the
-- same round.
use reticulum.Prelude.{
  ℕ, ◌+◌, ◌<◌, lt→ltb, ◌∙◌, if-cases, ◌≡◌, ◌≢◌, refl, inl, inr, Bytes, bytes_eq, bytes_eq_sound,
  bytes_eq_refl, All, Option-cases, List, [], ◌∷◌, Bool, Bool-cases, true, false, ◌&&◌, Option,
  none, some, ltb, ◌==◌, arith,
}
use reticulum.Transport.Paths.{
  Tables, unresponsive, find, has_path, hops_to, expire_path, mark_path,
}
use reticulum.Transport.Forward.{LinkEntry}
use reticulum.Transport.Culling.Rediscover.{
  Search, Shared, block, ask, may_mark, in_table, rediscover, is_throttled, check_link, check_links,
  all_but, requested_on, cull_tables, search_paths, items, tables_cull_interval,
}

-- A request that leaves an interface out is not sent there.
all_but-never :
    (d : Bytes) (blocked : ℕ) (interfaces : List ℕ)
    → All (λ (t : Bytes × Option ℕ). t.1 ≢ some blocked) (all_but blocked d interfaces)
unfolding all_but
all_but-never d blocked [] = tt
all_but-never d blocked (i ∷ interfaces) = elim (Bool-cases (i == blocked)) [
  | inl same ↦ rw (all_but, same) (all_but-never d blocked interfaces)
  | inr other ↦ rw (all_but, other) (λ e. ground arith, all_but-never d blocked interfaces)
]

abbrev Missing : Bytes → Tables → Type 0
Missing d t = find d t.path_table ≡ none

expire_path-Missing :
    (d other : Bytes) (t : Tables) → Missing d t → Missing d (expire_path other t).1
unfolding expire_path find
expire_path-Missing d other t h = elim (Option-cases (find other t.path_table)) [
  | inl unknown ↦ rw (expire_path, unknown) h
  | inr (e, known) ↦ elim (Bool-cases (bytes_eq other d)) [
    | inl same ↦
        let found : find d t.path_table ≡ some e = rw (bytes_eq_sound other d same) at known in
        absurd (cc (found, h))
    | inr apart ↦ rw (expire_path, known) (rw apart h)
  ]
]

mark_path-Missing :
    (d other : Bytes) (t : Tables) → Missing d t → Missing d (mark_path unresponsive other t).1
unfolding mark_path
mark_path-Missing d other t h = elim (Option-cases (find other t.path_table)) [
  | inl unknown ↦ rw (mark_path, unknown) h
  | inr (e, known) ↦ rw (mark_path, known) h
]

-- A link that was never established, and is over.
abbrev pub IsOver : ℕ → LinkEntry → Type 0
IsOver now e = (e.validated ≡ false) × (ltb e.proof_timeout now ≡ true)

-- Its destination is one hop away, and no path was asked for lately.
abbrev pub Blocks : ℕ → List (Bytes × ℕ) → LinkEntry → Tables → Type 0
Blocks now path_requests e t =
    IsOver now e
    × (has_path e.destination_hash t ≡ true)
    × (is_throttled now path_requests e.destination_hash ≡ false)
    × ((e.hops == 0) ≡ false)
    × (hops_to e.destination_hash t ≡ 1)

module _ (modes : ℕ → Option ℕ) (transport_enabled : Bool) (now : ℕ)
    (path_requests : List (Bytes × ℕ)) where
  after_block :
      (e : LinkEntry) (s : Search)
      → Blocks now path_requests e s.tables
      → check_link modes transport_enabled now path_requests e s
        ≡ ask transport_enabled e.destination_hash (block modes transport_enabled e s)
  unfolding check_link rediscover
  after_block e s ((waiting, over), known, free, some_hops, one) =
      simp (waiting, over, known, free, some_hops, one) refl

  after_missing :
      (e : LinkEntry) (s : Search)
      → IsOver now e
      → has_path e.destination_hash s.tables ≡ false
      → check_link modes transport_enabled now path_requests e s
        ≡ ask transport_enabled e.destination_hash s
  unfolding check_link rediscover
  after_missing e s (waiting, over) missing = simp (waiting, over, missing) refl

  block-Missing :
      (d : Bytes) (e : LinkEntry) (s : Search)
      → Missing d s.tables
      → Missing d (block modes transport_enabled e s).tables
  unfolding block
  block-Missing d e s h =
      if-cases (Missing d) (transport_enabled && may_mark (modes e.received_on)) _ _
        (λ marks. mark_path-Missing d e.destination_hash s.tables h) h

  ask-Missing :
      (d other : Bytes) (s : Search)
      → Missing d s.tables
      → Missing d (ask transport_enabled other s).tables
  unfolding ask
  ask-Missing d other s h =
      if-cases (Missing d) transport_enabled _ _ (λ enabled. h)
        (expire_path-Missing d other s.tables h)

  find-ask :
      (d : Bytes) (s : Search)
      → find d s.requests ≡ none
      → find d (ask transport_enabled d s).requests ≡ some s.blocked_if
  unfolding ask find
  find-ask d s h =
      if-cases (λ r. find d r ≡ some s.blocked_if) (in_table d s.requests) _ _
        (λ asked. absurd (cc (rw (in_table, h) at asked))) (rw (bytes_eq_refl d) refl)

  find-ask_other :
      (d other : Bytes) (s : Search)
      → bytes_eq other d ≡ false
      → find d (ask transport_enabled other s).requests ≡ find d s.requests
  unfolding ask find
  find-ask_other d other s apart =
      if-cases (λ r. find d r ≡ find d s.requests) (in_table other s.requests) _ _ (λ asked. refl)
        (rw apart refl)

  missing_lem : (d : Bytes) (t : Tables) → Missing d t → has_path d t ≡ false
  unfolding has_path
  missing_lem d t h = rw (has_path, h) refl

  -- The second of two links, where the first blocks an interface.
  check_links-blocked :
      (id1 id2 : Bytes) (e1 e2 : LinkEntry) (s : Search)
      → Blocks now path_requests e1 s.tables
      → IsOver now e2
      → Missing e2.destination_hash s.tables
      → find e2.destination_hash s.requests ≡ none
      → find e2.destination_hash
          (check_links modes transport_enabled now path_requests
            ((id1, e1) ∷ (id2, e2) ∷ [])
            s).requests
        ≡ some (some e1.received_on)
  unfolding check_links block
  check_links-blocked id1 id2 e1 e2 s blocks over missing new =
      let d1 : Bytes = e1.destination_hash in
      let d2 : Bytes = e2.destination_hash in
      let s1 : Search = ask transport_enabled d1 (block modes transport_enabled e1 s) in
      let gone : Missing d2 s1.tables =
        ask-Missing d2 d1 (block modes transport_enabled e1 s) (block-Missing d2 e1 s missing) in
      let apart : bytes_eq d1 d2 ≡ false = elim (Bool-cases (bytes_eq d1 d2)) [
        | inl same ↦
            let there : has_path d2 s.tables ≡ true =
              rw (bytes_eq_sound d1 d2 same) at (blocks.1) in
            absurd (cc (there, missing_lem d2 s.tables missing))
        | inr apart ↦ apart
      ] in
      let still : find d2 s1.requests ≡ none =
        find-ask_other d2 d1 (block modes transport_enabled e1 s) apart ∙ new in
      rw (after_block e1 s blocks, after_missing e2 s1 over (missing_lem d2 s1.tables gone))
        (find-ask d2 s1 still)

module _ (modes : ℕ → Option ℕ) (interfaces : List ℕ) (transport_enabled : Bool) (now : ℕ)
    (earlier : List (Bytes × Option ℕ)) where
  -- In a round of culling, more than five seconds after the last, let two links be the only ones in
  -- the table, in this order, neither of them established and the time of both over. The first came in
  -- over at least one hop, its destination has a path of one hop and no path request in the last 20
  -- seconds; the second's destination has no path and no earlier request in this round. Then the
  -- request for the second's is not sent on the interface that the first link came in on, although
  -- that has nothing to do with it.
  pub cull_tables-blocked :
      (s : Shared) (id1 id2 : Bytes) (e1 e2 : LinkEntry)
      → s.routes.tables.tables_last_culled + tables_cull_interval < now
      → items s.routes.link_table ≡ (id1, e1) ∷ (id2, e2) ∷ []
      → Blocks now s.path_requests e1 s.routes.tables
      → IsOver now e2
      → find e2.destination_hash s.routes.tables.path_table ≡ none
      → find e2.destination_hash earlier ≡ none
      → (find e2.destination_hash (cull_tables modes interfaces transport_enabled now earlier s).1
          ≡ some (some e1.received_on))
        × All
            (λ (t : Bytes × Option ℕ). t.1 ≢ some e1.received_on)
            (requested_on interfaces e2.destination_hash (some e1.received_on))
  unfolding cull_tables search_paths requested_on
  cull_tables-blocked s id1 id2 e1 e2 due links blocks over missing new =
      let is_due = lt→ltb (s.routes.tables.tables_last_culled + tables_cull_interval) now due in
      let start : Search = record {
        tables = s.routes.tables;
        requests = earlier;
        blocked_if = none;
      } in
      (
        rw (cull_tables, is_due, search_paths, links)
            (check_links-blocked modes transport_enabled now s.path_requests id1 id2 e1 e2 start
              blocks over missing new),
        all_but-never e2.destination_hash e1.received_on interfaces,
      )
