-- ===== src/Resource/Request.antt =====
-- The receiving side of a resource, and Resource.request_next.
use reticulum.Prelude.{
  ℕ, ◌+◌, ◌-◌, Bytes, List, [], ◌∷◌, length, take, drop, get_elem?, Bool, true, false, ltb, leb,
  ◌==◌, Option, none, some, if◌then◌else◌,
}
use reticulum.Resource.{Status, complete, failed, rank}

-- A part or a map hash that is not there yet is `none`. `completed` is consecutive_completed_height
-- + 1, which starts at 0. `outstanding_parts` is `requested - arrived`: it may fall below 0, where
-- parts arrive that the last request did not ask for. Rates and times are not part of the state.
pub record Receiver : Type 0 where
  pub status : Status
  pub total_parts : ℕ
  pub parts : List (Option Bytes)
  pub hashmap : List (Option Bytes)
  pub hashmap_height : ℕ
  pub completed : ℕ
  pub received_count : ℕ
  pub requested : ℕ
  pub arrived : ℕ
  pub window : ℕ
  pub window_min : ℕ
  pub window_max : ℕ
  pub fast_rate_rounds : ℕ
  pub very_slow_rate_rounds : ℕ
  pub retries_left : ℕ
  pub waiting_for_hmu : Bool
  pub assembly_lock : Bool
  pub waits_for_response : Bool  -- `self.req_resp == None`

abbrev pub is_failed : Status → Bool
is_failed failed = true
is_failed _ = false

-- `self.hashmap[i]`; the list has one entry for each part.
abbrev pub entry_at : List (Option Bytes) → ℕ → Option Bytes
entry_at hashmap i = elim (get_elem? hashmap i) [ none ↦ none | some h ↦ h ]

-- The loop over the parts of the window: the hashes that it requests, of the parts that are missing,
-- and whether it came to one whose hash is not known. `i` counts them, `pn` is the part's number.
unfoldable pub collect_missing :
    ℕ → List (Option Bytes) → ℕ → ℕ → List (Option Bytes) → List Bytes × Bool
collect_missing window hashmap i pn [] = ([], false)
collect_missing window hashmap i pn (some part ∷ parts) =
    let rest = collect_missing window hashmap i (pn + 1) parts in
    if leb window i then ([], false) else rest
collect_missing window hashmap i pn (none ∷ parts) = elim (entry_at hashmap pn) [
  | none ↦ ([], true)
  | some h ↦
      let (hashes, exhausted) = collect_missing window hashmap (i + 1) (pn + 1) parts in
      if leb window (i + 1) then (h ∷ [], false) else (h ∷ hashes, exhausted)
]

-- A request packet's content, behind the hash of the resource: the last known map hash, where the
-- hashmap is exhausted, and the requested hashes.
pub record Request : Type 0 where
  pub last_map_hash : Option Bytes
  pub requested_hashes : List Bytes

-- What an operation does besides: `broken` is an exception.
pub data Action : Type 0 where
  nothing start_assembly broken cancelled : Action
  sends : Request → Action

unfoldable pub cancel : Receiver → Receiver
cancel r = if ltb (rank r.status) (rank complete) then record r { status = failed } else r

-- `self.hashmap[self.hashmap_height-1]`, where -1 is the last.
abbrev pub last_known : Receiver → Option Bytes
last_known r =
    entry_at r.hashmap
      (if r.hashmap_height == 0 then length r.hashmap - 1 else r.hashmap_height - 1)

-- `sent` is whether the packet is sent without an exception.
abbrev pub send_request : Bool → Request → Receiver → Action × Receiver
send_request sent q r =
    if sent then (sends q, record r { waits_for_response = true }) else (cancelled, cancel r)

abbrev pub finish_request : Bool → List Bytes → Bool → Receiver → Action × Receiver
finish_request sent hashes false r =
    send_request sent (record { last_map_hash = none; requested_hashes = hashes }) r
finish_request sent hashes true r = elim (last_known r) [
  | none ↦ (broken, r)
  | some h ↦
      send_request sent (record { last_map_hash = some h; requested_hashes = hashes })
        (record r { waiting_for_hmu = true })
]

unfoldable pub request_next : Bool → Receiver → Action × Receiver
unfolding collect_missing cancel
request_next sent r =
    if is_failed r.status
    then (nothing, r)
    else if r.waiting_for_hmu
    then (nothing, r)
    else (let (hashes, exhausted) =
          collect_missing r.window r.hashmap 0 r.completed
            (take r.window (drop r.completed r.parts)) in
        finish_request sent hashes exhausted (record r { requested = length hashes; arrived = 0 }))
