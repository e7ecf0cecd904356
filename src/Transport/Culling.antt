-- ===== src/Transport/Culling.antt =====
-- Transport.jobs where it culls the tables: reverse entries, links, paths, the states of paths and
-- the path requests on behalf of others. The tunnels are left out. Times are seconds.
pub mod Rediscover
pub mod Entries
pub mod Kept
pub mod Expired
pub mod Blocked
use reticulum.Prelude.{
  ℕ, ◌+◌, ◌*◌, Bytes, List, [], ◌∷◌, Bool, true, false, not, Option, none, some, ltb, ◌==◌, ◌||◌,
  if◌then◌else◌,
}
use reticulum.Transport.Outbound.Broadcast.{mode_access_point, mode_roaming}
use reticulum.Transport.Paths.{PathEntry, find}
use reticulum.Transport.Forward.{LinkEntry, ReverseEntry}

-- AP_PATH_TIME, ROAMING_PATH_TIME, DESTINATION_TIMEOUT, REVERSE_TIMEOUT and LINK_TIMEOUT
abbrev pub ap_path_time : ℕ
ap_path_time = 60 * 60 * 24

abbrev pub roaming_path_time : ℕ
roaming_path_time = 60 * 60 * 6

abbrev pub destination_timeout : ℕ
destination_timeout = 60 * 60 * 24 * 7

abbrev pub reverse_timeout : ℕ
reverse_timeout = 8 * 60

abbrev pub link_timeout : ℕ
link_timeout = 900

-- An interface may have no mode.
abbrev pub path_time : Option ℕ → ℕ
path_time none = destination_timeout
path_time (some mode) =
    if mode == mode_access_point
    then ap_path_time
    else if mode == mode_roaming
    then roaming_path_time
    else destination_timeout

abbrev pub is_listed : ℕ → List ℕ → Bool
is_listed n [] = false
is_listed n (i ∷ interfaces) = (i == n) || is_listed n interfaces

module _ {V : Type 0} where
  -- The table without the keys whose entry, as it is in `all`, is stale.
  unfoldable pub cull : (V → Bool) → List (Bytes × V) → List (Bytes × V) → List (Bytes × V)
  cull is_stale all [] = []
  cull is_stale all ((d, e) ∷ table) =
      let rest = cull is_stale all table in
      elim (find d all) [
        | none ↦ rest
        | some current ↦ if is_stale current then rest else (d, e) ∷ rest
      ]

module _ (modes : ℕ → Option ℕ) (interfaces : List ℕ) (now : ℕ) where
  -- `modes` gives the mode of an interface, `interfaces` are those of Transport.
  unfoldable pub is_outdated : PathEntry → Bool
  is_outdated e =
      ltb (e.timestamp + path_time (modes e.interface)) now
      || not (is_listed e.interface interfaces)

module _ (interfaces : List ℕ) (now : ℕ) where
  unfoldable pub reverse_is_stale : ReverseEntry → Bool
  reverse_is_stale e =
      ltb (e.timestamp + reverse_timeout) now
      || (not (is_listed e.outbound_interface interfaces)
          || not (is_listed e.received_on interfaces))

  -- A link that was never established lasts until the time for its proof is over.
  unfoldable pub link_is_stale : LinkEntry → Bool
  link_is_stale e =
      if e.validated
      then ltb (e.timestamp + link_timeout) now
        || (not (is_listed e.next_hop_interface interfaces)
            || not (is_listed e.received_on interfaces))
      else ltb e.proof_timeout now
