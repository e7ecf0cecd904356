-- ===== src/Transport/Paths.antt =====
-- The path table and path states of Transport: has_path, hops_to, next_hop, next_hop_interface,
-- expire_path and the three operations on the state of a path. Times are seconds.
use reticulum.Prelude.{
  ℕ, ◌≡◌, refl, Bytes, bytes_eq, bytes_eq_refl, List, [], ◌∷◌, Bool, true, false, Option, none,
  some, if◌then◌else◌,
}

pub record PathEntry : Type 0 where
  pub timestamp : ℕ
  pub next_hop : Bytes
  pub hops : ℕ
  pub expires : ℕ
  pub random_blobs : List Bytes
  pub interface : ℕ

pub data PathState : Type 0 where
  unknown unresponsive responsive : PathState

-- Dictionaries by destination hash, as the lists of their writes, latest first.
pub record Tables : Type 0 where
  pub path_table : List (Bytes × PathEntry)
  pub path_states : List (Bytes × PathState)
  pub tables_last_culled : ℕ

module _ {V : Type 0} where
  unfoldable pub find : Bytes → List (Bytes × V) → Option V
  find k [] = none
  find k ((j, v) ∷ d) = if bytes_eq j k then some v else find k d

  pub find-own : (k : Bytes) (v : V) (d : List (Bytes × V)) → find k ((k, v) ∷ d) ≡ some v
  unfolding find
  find-own k v d = rw (bytes_eq_refl k) refl

-- PATHFINDER_M
abbrev pub pathfinder_m : ℕ
pathfinder_m = 128

unfoldable pub has_path : Bytes → Tables → Bool
has_path d t = elim (find d t.path_table) [ none ↦ false | some e ↦ true ]

unfoldable pub hops_to : Bytes → Tables → ℕ
hops_to d t = elim (find d t.path_table) [ none ↦ pathfinder_m | some e ↦ e.hops ]

unfoldable pub next_hop : Bytes → Tables → Option Bytes
next_hop d t = elim (find d t.path_table) [ none ↦ none | some e ↦ some e.next_hop ]

unfoldable pub next_hop_interface : Bytes → Tables → Option ℕ
next_hop_interface d t = elim (find d t.path_table) [ none ↦ none | some e ↦ some e.interface ]

unfoldable pub expire_path : Bytes → Tables → Bool × Tables
expire_path d t = elim (find d t.path_table) [
  | none ↦ (false, t)
  | some e ↦ (
    true,
    record t {
      path_table = (d, record e { timestamp = 0 }) ∷ t.path_table;
      tables_last_culled = 0;
    },
  )
]

-- mark_path_unresponsive, mark_path_responsive and mark_path_unknown_state
unfoldable pub mark_path : PathState → Bytes → Tables → Bool × Tables
mark_path state d t = elim (find d t.path_table) [
  | none ↦ (false, t)
  | some e ↦ (true, record t { path_states = (d, state) ∷ t.path_states })
]

abbrev pub is_unresponsive : PathState → Bool
is_unresponsive unresponsive = true
is_unresponsive _ = false

unfoldable pub path_is_unresponsive : Bytes → Tables → Bool
path_is_unresponsive d t = elim (find d t.path_states) [
  | none ↦ false
  | some state ↦ is_unresponsive state
]
