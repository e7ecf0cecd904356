-- ===== src/Transport/Culling/Kept.antt =====
-- What stays in the tables after a round of culling in Transport.jobs.
use reticulum.Prelude.{
  ℕ, ◌+◌, ◌<◌, ◌≤◌, ◌≡◌, ◌⊎◌, refl, inl, inr, Bytes, lt→ltb, ltb→lt, List, [], ◌∷◌, Bool,
  Bool-cases, true, false, not, Option, none, some, ltb, ◌==◌, ◌||◌, arith, ==_iff, ltb→le,
}
use mathlib.Core.List.{Mem, mem-cons_self, mem-cons_of_mem, not-mem-nil, mem_of_ne_of_mem}
use reticulum.Transport.Paths.{PathEntry, find}
use reticulum.Transport.Forward.{LinkEntry, ReverseEntry, Routes}
use reticulum.Transport.Culling.{
  cull, path_time, is_listed, is_outdated, reverse_is_stale, link_is_stale, reverse_timeout,
  link_timeout,
}
use reticulum.Transport.Culling.Rediscover.{Shared, search_paths, cull_tables, tables_cull_interval}
use reticulum.Transport.Culling.Entries.{find-cull_self}

listed_mem : (n : ℕ) (l : List ℕ) → is_listed n l ≡ true → Mem n l
listed_mem n [] h = absurd (cc h)
listed_mem n (i ∷ l) h = elim (Bool-cases (i == n)) [
  | inl same ↦ rw ((==_iff i n).0 same) mem-cons_self
  | inr other ↦ mem-cons_of_mem i (listed_mem n l (rw other at h))
]

not-listed_mem : (n : ℕ) (l : List ℕ) → is_listed n l ≡ false → ¬ (Mem n l)
not-listed_mem n [] h m = not-mem-nil m
not-listed_mem n (i ∷ l) h m = elim (Bool-cases (i == n)) [
  | inl same ↦ absurd (cc (rw same at h))
  | inr other ↦ not-listed_mem n l (rw other at h) (mem_of_ne_of_mem (λ e. ground arith) m)
]

-- A test for what does not last.
abbrev pub Exactly : Bool → Type 0 → Type 0
Exactly is_stale Lasts = ((is_stale ≡ true) × ¬ Lasts) ⊎ ((is_stale ≡ false) × Lasts)

module _ (interfaces : List ℕ) (now : ℕ) where
  -- Used within eight minutes, between two interfaces that are there.
  abbrev pub ReverseLasts : ReverseEntry → Type 0
  ReverseLasts e =
      (now ≤ e.timestamp + reverse_timeout)
      × Mem e.outbound_interface interfaces
      × Mem e.received_on interfaces

  -- Established, used within 15 minutes, between two interfaces that are there; or waiting for its
  -- proof.
  abbrev pub LinkLasts : LinkEntry → Type 0
  LinkLasts e =
      ((e.validated ≡ true)
        × (now ≤ e.timestamp + link_timeout)
        × Mem e.next_hop_interface interfaces
        × Mem e.received_on interfaces)
      ⊎ ((e.validated ≡ false) × (now ≤ e.proof_timeout))

  -- Used within the time that its interface allows, which is there.
  abbrev pub PathLasts : (ℕ → Option ℕ) → PathEntry → Type 0
  PathLasts modes e =
      (now ≤ e.timestamp + path_time (modes e.interface)) × Mem e.interface interfaces

  between_lem :
      (limit a b : ℕ)
      → Exactly
          (ltb limit now || (not (is_listed a interfaces) || not (is_listed b interfaces)))
          ((now ≤ limit) × Mem a interfaces × Mem b interfaces)
  between_lem limit a b =
      let fresh : (is_listed a interfaces ≡ true)
          → (is_listed b interfaces ≡ true)
          → (ltb limit now ≡ false)
          → (now ≤ limit) × Mem a interfaces × Mem b interfaces =
        λ la lb t. (ltb→le limit now t, listed_mem a interfaces la, listed_mem b interfaces lb) in
      elim (Bool-cases (ltb limit now)) [
        | inl late ↦
            inl (rw late refl, λ (t, ma, mb). absurd (omega (arith, t, ltb→lt limit now late)))
        | inr t ↦ elim (Bool-cases (is_listed a interfaces)) [
          | inr out ↦ inl (rw (t, out) refl, λ (i, ma, mb). not-listed_mem a interfaces out ma)
          | inl la ↦ elim (Bool-cases (is_listed b interfaces)) [
            | inr out ↦
                inl (rw (t, la, out) refl, λ (i, ma, mb). not-listed_mem b interfaces out mb)
            | inl lb ↦ inr (rw (t, la, lb) refl, fresh la lb t)
          ]
        ]
      ]

  reverse_lem : (e : ReverseEntry) → Exactly (reverse_is_stale interfaces now e) (ReverseLasts e)
  unfolding reverse_is_stale
  reverse_lem e = between_lem (e.timestamp + reverse_timeout) e.outbound_interface e.received_on

  valid_lem :
      (e : LinkEntry)
      → e.validated ≡ true
      → Exactly
          (ltb (e.timestamp + link_timeout) now
            || (not (is_listed e.next_hop_interface interfaces)
                || not (is_listed e.received_on interfaces)))
          ((now ≤ e.timestamp + link_timeout)
            × Mem e.next_hop_interface interfaces
            × Mem e.received_on interfaces)
      → Exactly (link_is_stale interfaces now e) (LinkLasts e)
  unfolding link_is_stale
  valid_lem e valid (inl (stale, gone)) = inl (
    rw (link_is_stale, valid) stale,
    λ lasts. elim lasts [
      | inl (v, t, a, b) ↦ gone (t, a, b)
      | inr (v, rest) ↦ absurd (cc (v, valid))
    ],
  )
  valid_lem e valid (inr (fresh, lasts)) =
      inr (rw (link_is_stale, valid) fresh, inl (valid, lasts.0, lasts.1, lasts.2))

  waiting_lem :
      (e : LinkEntry) → e.validated ≡ false → Exactly (link_is_stale interfaces now e) (LinkLasts e)
  unfolding link_is_stale
  waiting_lem e waiting = elim (Bool-cases (ltb e.proof_timeout now)) [
    | inl late ↦ inl (
      rw (link_is_stale, waiting) late,
      λ lasts. elim lasts [
        | inl (v, t, a, b) ↦ absurd (cc (v, waiting))
        | inr (v, t) ↦ absurd (omega (arith, t, ltb→lt e.proof_timeout now late))
      ],
    )
    | inr t ↦ inr (rw (link_is_stale, waiting) t, inr (waiting, ltb→le e.proof_timeout now t))
  ]

  link_lem : (e : LinkEntry) → Exactly (link_is_stale interfaces now e) (LinkLasts e)
  unfolding link_is_stale
  link_lem e = elim (Bool-cases e.validated) [
    | inl valid ↦
        valid_lem e valid
          (between_lem (e.timestamp + link_timeout) e.next_hop_interface e.received_on)
    | inr waiting ↦ waiting_lem e waiting
  ]

  path_lem :
      (modes : ℕ → Option ℕ) (e : PathEntry)
      → Exactly (is_outdated modes interfaces now e) (PathLasts modes e)
  unfolding is_outdated
  path_lem modes e =
      let limit : ℕ = e.timestamp + path_time (modes e.interface) in
      elim (Bool-cases (ltb limit now)) [
        | inl late ↦ inl (rw late refl, λ (t, m). absurd (omega (arith, t, ltb→lt limit now late)))
        | inr t ↦ elim (Bool-cases (is_listed e.interface interfaces)) [
          | inr out ↦ inl (rw (t, out) refl, λ (i, m). not-listed_mem e.interface interfaces out m)
          | inl here ↦
              inr (rw (t, here) refl, (ltb→le limit now t, listed_mem e.interface interfaces here))
        ]
      ]

-- An entry that lasts stays, any other is gone.
abbrev pub Stays : {V : Type 0} → Bytes → V → Type 0 → List (Bytes × V) → Type 0
Stays k e Lasts after = ((¬ Lasts) × (find k after ≡ none)) ⊎ (Lasts × (find k after ≡ some e))

stays_lem :
    {V : Type 0} (is_stale : V → Bool) (k : Bytes) (e : V) (table : List (Bytes × V))
    (Lasts : Type 0)
    → Exactly (is_stale e) Lasts
    → find k table ≡ some e
    → Stays k e Lasts (cull is_stale table table)
stays_lem is_stale k e table Lasts (inl (stale, gone)) h =
    inl (gone, rw stale at (find-cull_self is_stale k e table h))
stays_lem is_stale k e table Lasts (inr (fresh, lasts)) h =
    inr (lasts, rw fresh at (find-cull_self is_stale k e table h))

module _ (modes : ℕ → Option ℕ) (interfaces : List ℕ) (transport_enabled : Bool) (now : ℕ)
    (earlier : List (Bytes × Option ℕ)) (s : Shared) where
  abbrev pub culled : Routes
  culled = (cull_tables modes interfaces transport_enabled now earlier s).0.routes

  abbrev pub searched : List (Bytes × PathEntry)
  searched = (search_paths modes interfaces transport_enabled now earlier s).tables.path_table

  -- A round of culling, more than five seconds after the last, removes from the tables exactly what
  -- does not last: reverse entries after eight minutes, established links after 15 minutes without
  -- use, paths after a day on access points, six hours on roaming interfaces and a week on others, and
  -- any of these whose interfaces are not all there; a link that waits for its proof goes when the time
  -- for the proof is over, and stays until then whichever its interfaces. What lasts stays as it is.
  -- The paths are those that the search for new paths leaves.
  pub cull_tables-Stays :
      (packet_hash link_id d : Bytes) (r : ReverseEntry) (l : LinkEntry) (e : PathEntry)
      → s.routes.tables.tables_last_culled + tables_cull_interval < now
      → find packet_hash s.routes.reverse_table ≡ some r
      → find link_id s.routes.link_table ≡ some l
      → find d searched ≡ some e
      → Stays packet_hash r (ReverseLasts interfaces now r) culled.reverse_table
        × Stays link_id l (LinkLasts interfaces now l) culled.link_table
        × Stays d e (PathLasts interfaces now modes e) culled.tables.path_table
  unfolding cull_tables
  cull_tables-Stays packet_hash link_id d r l e due fr fl fe =
      let is_due = lt→ltb (s.routes.tables.tables_last_culled + tables_cull_interval) now due in
      rw (culled, cull_tables, is_due)
        (
          stays_lem (reverse_is_stale interfaces now) packet_hash r s.routes.reverse_table _
              (reverse_lem interfaces now r) fr,
          stays_lem (link_is_stale interfaces now) link_id l s.routes.link_table _
              (link_lem interfaces now l) fl,
          stays_lem (is_outdated modes interfaces now) d e searched _
              (path_lem interfaces now modes e) fe,
        )
