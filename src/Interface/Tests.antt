-- ===== src/Interface/Tests.antt =====
-- An interface at concrete values.
use reticulum.Prelude.{
  ◌≡◌, refl, [], ◌∷◌, length, true, false, none, some, arith, replicate, ltb, All, ◌+◌,
}
use reticulum.Interface.{Interface, HeldAnnounce, Queued}
use reticulum.Interface.Limit.{
  announce_frequency, should_ingress_limit, incoming_announce_frequency, freq_threshold, delta_sum,
  sent_announce, append_sample,
}
use reticulum.Interface.Held.{process_held_announces, pop, select}
use reticulum.Interface.Queue.{
  process_announce_queue, stale_entries, remove_entries, fresh_entries, is_stale, remove_entry,
  candidates, min_hops, with_hops, sort_by_time, insert_by_time, send_first, send_entry, wait_time,
}
use reticulum.Interface.Chosen.{process_announce_queue-sent, In, Behind}

abbrev near : HeldAnnounce
near = record { destination_hash = 1 ∷ []; raw = 7 ∷ []; hops = 2 }

abbrev far : HeldAnnounce
far = record { destination_hash = 2 ∷ []; raw = 8 ∷ []; hops = 5 }

abbrev old : Queued
old = record { destination = 1 ∷ []; time = 5; hops = 1; emitted = 1; raw = replicate 200 1 }

abbrev early : Queued
early = record {
  destination = 2 ∷ [];
  time = 90000000;
  hops = 2;
  emitted = 1;
  raw = replicate 100 2;
}

abbrev late : Queued
late = record {
  destination = 3 ∷ [];
  time = 90000500;
  hops = 2;
  emitted = 1;
  raw = replicate 100 3;
}

-- An interface at 62500 bit/s, with announces held and queued and a burst running.
abbrev interface : Interface
interface = record {
  autoconfigure_mtu = true;
  bitrate = 62500;
  hw_mtu = none;
  created = 0;
  ingress_control = true;
  ic_max_held_announces = 2;
  ic_burst_hold = 60000;
  ic_burst_active = true;
  ic_burst_activated = 1000;
  ic_held_release = 0;
  ic_burst_freq_new = 35;
  ic_burst_freq = 120;
  ic_new_time = 7200000;
  ic_burst_penalty = 300000;
  ic_held_release_interval = 30000;
  held_announces = (2 ∷ [], far) ∷ (1 ∷ [], near) ∷ [];
  ia_freq_deque = 1000 ∷ 1100 ∷ 1200 ∷ [];
  oa_freq_deque = [];
  announce_cap = 2;
  announce_allowed_at = 0;
  announce_queue = old ∷ late ∷ early ∷ [];
}

abbrev quiet : Interface
quiet = record interface { ic_burst_active = false }

burst_ends : (should_ingress_limit 70000 interface).1.ic_burst_active ≡ false
unfolding should_ingress_limit freq_threshold incoming_announce_frequency announce_frequency
    delta_sum
burst_ends = refl

-- With the frequency fallen, the nearer of the two is released.
abbrev released : Interface
released = record quiet { held_announces = (2 ∷ [], far) ∷ []; ic_held_release = 530000 }

process_near : process_held_announces 500000 quiet ≡ (some near, released)
unfolding process_held_announces should_ingress_limit freq_threshold incoming_announce_frequency
    announce_frequency delta_sum select pop
process_near = refl

fresh : fresh_entries 90001000 interface.announce_queue ≡ late ∷ early ∷ []
unfolding fresh_entries is_stale
fresh = refl

process_announce_queue-sent_example :
    (e : Queued) × (In e (late ∷ early ∷ []) × All (Behind e) (late ∷ early ∷ []))
    × ((process_announce_queue (λ raw. true) 90001000 interface).sent ≡ some e.raw)
    × ((process_announce_queue (λ raw. true) 90001000 interface).interface.announce_queue
        ≡ remove_entry e (late ∷ early ∷ []))
    × ((process_announce_queue (λ raw. true) 90001000 interface).interface.announce_allowed_at
        ≡ 90001000 + wait_time interface e)
    × ((process_announce_queue (λ raw. true) 90001000 interface).again
        ≡ ltb 0 (length (remove_entry e (late ∷ early ∷ []))))
process_announce_queue-sent_example =
    process_announce_queue-sent (λ raw. true) 90001000 interface late (early ∷ []) (λ raw. refl)
      (omega arith) fresh

-- The older of the two entries with the fewest hops is sent; the stale one is gone.
sent_early :
    (process_announce_queue (λ raw. true) 90001000 interface).interface.announce_queue ≡ late ∷ []
unfolding process_announce_queue stale_entries remove_entries is_stale remove_entry candidates
    min_hops with_hops sort_by_time insert_by_time send_first send_entry sent_announce append_sample
sent_early = refl
