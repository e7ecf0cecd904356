-- ===== src/Interface/Limit.antt =====
-- Interface.optimise_mtu, the announce frequencies and should_ingress_limit.
use reticulum.Prelude.{
  ℕ, ◌+◌, ◌-◌, ◌*◌, ◌≤◌, ◌<◌, ◌≡◌, refl, List, [], ◌∷◌, ◌++◌, length, drop, length-drop, Bool, true,
  false, ltb, leb, ◌==◌, Option, none, some, arith, if◌then◌else◌,
}
use reticulum.Interface.{Interface}

unfoldable pub optimise_mtu : Interface → Interface
optimise_mtu i =
    if i.autoconfigure_mtu
    then record i {
      hw_mtu =
          if leb 1000000000 i.bitrate
          then some 524288
          else if ltb 750000000 i.bitrate
          then some 262144
          else if ltb 400000000 i.bitrate
          then some 131072
          else if ltb 200000000 i.bitrate
          then some 65536
          else if ltb 100000000 i.bitrate
          then some 32768
          else if ltb 10000000 i.bitrate
          then some 16384
          else if ltb 5000000 i.bitrate
          then some 8192
          else if ltb 2000000 i.bitrate
          then some 4096
          else if ltb 1000000 i.bitrate
          then some 2048
          else if ltb 62500 i.bitrate
          then some 1024
          else none;
    }
    else i

abbrev pub mtu_or_zero : Option ℕ → ℕ
mtu_or_zero none = 0
mtu_or_zero (some n) = n

-- IA_FREQ_SAMPLES and OA_FREQ_SAMPLES
abbrev pub freq_samples : ℕ
freq_samples = 6

-- `deque(maxlen = 6).append`. A parent interface, which is told of the announce too, does the same.
unfoldable pub append_sample : ℕ → List ℕ → List ℕ
append_sample now samples =
    let longer = samples ++ now ∷ [] in drop (length longer - freq_samples) longer

unfoldable pub received_announce : ℕ → Interface → Interface
unfolding append_sample
received_announce now i = record i { ia_freq_deque = append_sample now i.ia_freq_deque }

unfoldable pub sent_announce : ℕ → Interface → Interface
unfolding append_sample
sent_announce now i = record i { oa_freq_deque = append_sample now i.oa_freq_deque }

-- A frequency as a fraction: so many announces in so many milliseconds.
pub record Frequency : Type 0 where
  pub announces : ℕ
  pub millis : ℕ

abbrev never : Frequency
never = record { announces = 0; millis = 1 }

-- The differences of neighbours, and the time since the last sample.
unfoldable pub delta_sum : ℕ → ℕ → List ℕ → ℕ
delta_sum now last [] = now - last
delta_sum now last (t ∷ ts) = (t - last) + delta_sum now t ts

abbrev average : ℕ → ℕ → Frequency
average dq_len delta = if delta == 0 then never else record { announces = dq_len; millis = delta }

unfoldable pub announce_frequency : ℕ → List ℕ → Frequency
announce_frequency now [] = never
announce_frequency now (t ∷ []) = never
announce_frequency now (t ∷ u ∷ ts) = average (length (t ∷ u ∷ ts)) (delta_sum now t (u ∷ ts))

unfoldable pub incoming_announce_frequency : ℕ → Interface → Frequency
incoming_announce_frequency now i = announce_frequency now i.ia_freq_deque

unfoldable pub outgoing_announce_frequency : ℕ → Interface → Frequency
outgoing_announce_frequency now i = announce_frequency now i.oa_freq_deque

-- `freq < threshold` and `freq > threshold`, the threshold in tenths of a hertz.
abbrev pub is_below : Frequency → ℕ → Bool
is_below f threshold = ltb (f.announces * 10000) (threshold * f.millis)

abbrev pub is_above : Frequency → ℕ → Bool
is_above f threshold = ltb (threshold * f.millis) (f.announces * 10000)

unfoldable pub freq_threshold : ℕ → Interface → ℕ
freq_threshold now i =
    if ltb (now - i.created) i.ic_new_time then i.ic_burst_freq_new else i.ic_burst_freq

unfoldable pub should_ingress_limit : ℕ → Interface → Bool × Interface
unfolding freq_threshold incoming_announce_frequency
should_ingress_limit now i =
    if i.ingress_control
    then (let threshold = freq_threshold now i in
        let freq = incoming_announce_frequency now i in
        if i.ic_burst_active
        then (
          true,
          if is_below freq threshold
              then if ltb (i.ic_burst_activated + i.ic_burst_hold) now
                then record i {
                  ic_burst_active = false;
                  ic_held_release = now + i.ic_burst_penalty;
                }
                else i
              else i,
        )
        else if is_above freq threshold
        then (true, record i { ic_burst_active = true; ic_burst_activated = now })
        else (false, i))
    else (false, i)

-- Samples in the order of their times, from one on and none after `now`.
abbrev pub InTime : ℕ → ℕ → List ℕ → Type 0
InTime now last [] = last ≤ now
InTime now last (t ∷ ts) = (last ≤ t) × InTime now t ts

delta_sum_lem :
    (now last : ℕ) (ts : List ℕ) → InTime now last ts → delta_sum now last ts ≡ now - last
unfolding delta_sum
delta_sum_lem now last [] h = refl
delta_sum_lem now last (t ∷ ts) h = omega (arith, delta_sum_lem now t ts h.1, last_le now t ts h.1)
  where
    last_le : (now last : ℕ) (ts : List ℕ) → InTime now last ts → last ≤ now
    last_le now last [] h = h
    last_le now last (t ∷ ts) h = omega (arith, h.0, last_le now t ts h.1)

-- The frequency of two or more samples in the order of their times is their number by the time
-- since the oldest of them.
pub announce_frequency-eq :
    (now t u : ℕ) (ts : List ℕ)
    → InTime now t (u ∷ ts)
    → t < now
    → announce_frequency now (t ∷ u ∷ ts)
      ≡ record { announces = length (t ∷ u ∷ ts); millis = now - t }
unfolding announce_frequency
announce_frequency-eq now t u ts h lt = ground (arith, delta_sum_lem now t (u ∷ ts) h)

-- The deque never holds more than six samples, and the newest is the last one noted.
pub length-append_sample :
    (now : ℕ) (samples : List ℕ) → length (append_sample now samples) ≤ freq_samples
unfolding append_sample
length-append_sample now samples =
    omega (arith, length-drop (length (samples ++ now ∷ []) - freq_samples) (samples ++ now ∷ []))

-- A faster interface never gets a smaller hardware MTU.
pub optimise_mtu-monotone :
    (i j : Interface)
    → i.autoconfigure_mtu ≡ true
    → j.autoconfigure_mtu ≡ true
    → i.bitrate ≤ j.bitrate
    → mtu_or_zero (optimise_mtu i).hw_mtu ≤ mtu_or_zero (optimise_mtu j).hw_mtu
unfolding optimise_mtu
optimise_mtu-monotone i j ai aj h = ground arith

-- While a burst is active every announce is limited, until the frequency has fallen below the
-- threshold and the hold time is over; then the burst ends, this announce still limited, and held
-- announces wait for the penalty.
pub should_ingress_limit-active :
    (now : ℕ) (i : Interface)
    → i.ingress_control ≡ true
    → i.ic_burst_active ≡ true
    → ((should_ingress_limit now i).0 ≡ true)
      × (((should_ingress_limit now i).1.ic_burst_active ≡ false)
          → (is_below (incoming_announce_frequency now i) (freq_threshold now i) ≡ true)
            × (i.ic_burst_activated + i.ic_burst_hold < now)
            × ((should_ingress_limit now i).1.ic_held_release ≡ now + i.ic_burst_penalty))
unfolding should_ingress_limit
should_ingress_limit-active now i on active = ground arith
