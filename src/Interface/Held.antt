-- ===== src/Interface/Held.antt =====
-- Interface.hold_announce and process_held_announces.
use reticulum.Prelude.{
  ℕ, suc, ◌+◌, ◌≤◌, ◌≡◌, refl, Bytes, bytes_eq, List, [], ◌∷◌, length, Bool, true, false, not, ◌&&◌,
  ltb, leb, Option, none, some, arith, if◌then◌else◌,
}
use reticulum.Interface.{HeldAnnounce, Interface}
use reticulum.Interface.Limit.{
  is_below, freq_threshold, incoming_announce_frequency, should_ingress_limit,
}

abbrev pub Held : Type 0
Held = List (Bytes × HeldAnnounce)

abbrev pub has_key : Bytes → Held → Bool
has_key k [] = false
has_key k ((j, v) ∷ d) = if bytes_eq j k then true else has_key k d

-- A key that is there keeps its place.
unfoldable pub put : Bytes → HeldAnnounce → Held → Held
put k v [] = (k, v) ∷ []
put k v ((j, w) ∷ d) = let rest = put k v d in if bytes_eq j k then (j, v) ∷ d else (j, w) ∷ rest

-- `dict.pop`, of a key that is there.
unfoldable pub pop : Bytes → Held → Held
pop k [] = []
pop k ((j, w) ∷ d) = let rest = pop k d in if bytes_eq j k then d else (j, w) ∷ rest

unfoldable pub hold_announce : HeldAnnounce → Interface → Interface
hold_announce a i =
    if has_key a.destination_hash i.held_announces
    then record i { held_announces = put a.destination_hash a i.held_announces }
    else if not (leb i.ic_max_held_announces (length i.held_announces))
    then record i { held_announces = put a.destination_hash a i.held_announces }
    else i

-- The loop over the held announces: the first of those with the fewest hops, below `min_hops`.
unfoldable pub select : ℕ → Option HeldAnnounce → Held → Option HeldAnnounce
select min_hops selected [] = selected
select min_hops selected ((k, a) ∷ d) =
    if ltb a.hops min_hops then select a.hops (some a) d else select min_hops selected d

-- PATHFINDER_M
abbrev pub max_hops : ℕ
max_hops = 128

abbrev pub release : ℕ → Option HeldAnnounce → Interface → Option HeldAnnounce × Interface
release now none i = (none, i)
release now (some a) i = (
  some a,
  record i {
    ic_held_release = now + i.ic_held_release_interval;
    held_announces = pop a.destination_hash i.held_announces;
  },
)

-- The announce that is given back to Transport.inbound, if one is. `should_ingress_limit` may have
-- ended a burst, also where nothing is released.
unfoldable pub process_held_announces : ℕ → Interface → Option HeldAnnounce × Interface
process_held_announces now i =
    let (limited, i') = should_ingress_limit now i in
    if not limited && (ltb 0 (length i'.held_announces) && ltb i'.ic_held_release now)
    then if is_below (incoming_announce_frequency now i') (freq_threshold now i')
      then release now (select max_hops none i'.held_announces) i'
      else (none, i')
    else (none, i')

-- What happens to the held announces of an interface, in any order.
pub data Step : Type 0 where
  hold : HeldAnnounce → Step
  process : ℕ → Step

pub step : Step → Interface → Interface
unfolding hold_announce process_held_announces
step (hold a) i = hold_announce a i
step (process now) i = (process_held_announces now i).1

pub run : List Step → Interface → Interface
unfolding step
run [] i = i
run (s ∷ ss) i = run ss (step s i)

length-put :
    (k : Bytes) (v : HeldAnnounce) (d : Held)
    → length (put k v d) ≡ (if has_key k d then length d else suc (length d))
unfolding put
length-put k v [] = refl
length-put k v ((j, w) ∷ d) = ground (arith, length-put k v d)

length-pop : (k : Bytes) (d : Held) → length (pop k d) ≤ length d
unfolding pop
length-pop k [] = omega arith
length-pop k ((j, w) ∷ d) = ground (arith, length-pop k d)

abbrev pub IsLimited : Interface → Type 0
IsLimited i = length i.held_announces ≤ i.ic_max_held_announces

hold_announce-IsLimited :
    (a : HeldAnnounce) (i : Interface) → IsLimited i → IsLimited (hold_announce a i)
unfolding hold_announce
hold_announce-IsLimited a i h = ground (arith, length-put a.destination_hash a i.held_announces)

-- Ingress control leaves the held announces alone.
pub should_ingress_limit-held :
    (now : ℕ) (i : Interface)
    → ((should_ingress_limit now i).1.held_announces ≡ i.held_announces)
      × ((should_ingress_limit now i).1.ic_max_held_announces ≡ i.ic_max_held_announces)
      × ((should_ingress_limit now i).1.ic_held_release_interval ≡ i.ic_held_release_interval)
unfolding should_ingress_limit
should_ingress_limit-held now i = ground arith

release-IsLimited :
    (now : ℕ) (o : Option HeldAnnounce) (i : Interface)
    → IsLimited i
    → IsLimited (release now o i).1
release-IsLimited now none i h = h
release-IsLimited now (some a) i h =
    omega (arith, length-pop a.destination_hash i.held_announces, h)

process-IsLimited :
    (now : ℕ) (i : Interface) → IsLimited i → IsLimited (process_held_announces now i).1
unfolding process_held_announces
process-IsLimited now i h =
    let i' : Interface = (should_ingress_limit now i).1 in
    ground (
      arith,
      should_ingress_limit-held now i,
      release-IsLimited now (select max_hops none i'.held_announces) i',
    )

-- However announces are held and released, an interface never holds more of them than its maximum.
pub run-IsLimited : (ss : List Step) (i : Interface) → IsLimited i → IsLimited (run ss i)
unfolding run step
run-IsLimited [] i h = h
run-IsLimited (hold a ∷ ss) i h = run-IsLimited ss _ (hold_announce-IsLimited a i h)
run-IsLimited (process now ∷ ss) i h = run-IsLimited ss _ (process-IsLimited now i h)
