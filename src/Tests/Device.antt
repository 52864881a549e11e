-- ===== src/Tests/Device.antt =====
-- The transmit queue of the TLS tunnel, and the inputs of a TUN device.
use pacetun.Base.{
  ◌+◌, ◌*◌, ◌<◌, All, ℕ, ◌≡◌, refl, List, [], ◌∷◌, Bool, true, false, replicate, codes, arith, cut,
  add64, sub64,
}
use pacetun.Base.Int.{pos}
use pacetun.Flow.{list_eq}
use pacetun.Config.{Config, new_config}
use pacetun.Config.Value.{digits, leb_int}
use pacetun.Runtime.{Queued, Stats, TxQueue, make_room, enqueue}
use pacetun.Runtime.Queue.{Fits, Queues, enqueue-Fits}
use pacetun.Traffic.Shaper.{BurstShaper, new_shaper, bulk, ready}
use pacetun.Traffic.Shaper.Due.{Poll, AllRefused, ready_in_time}
use pacetun.Tun.{Family, inet, fine, ip_only, safe_token, validate_cidr, validate_tun_inputs}
use pacetun.Tun.Safe.{Accepted, validate_tun_inputs-Accepted}

abbrev settings : Config
settings = record (new_config (codes "none") false (pos 0) (pos 0) (pos 0) (pos 0)) {
  queue_packets = 2;
  queue_bytes = 100;
}

abbrev no_counts : Stats
no_counts = record {
  drop_queue = 0;
  drop_delay = 0;
  queue_pkts = 0;
  queue_bytes = 0;
  queue_peak_pkts = 0;
  queue_peak_bytes = 0;
  tx_stalls = 0;
  reconnect_pong_timeout = 0;
  reconnect_tx_timeout = 0;
  reconnect_idle = 0;
  reconnect_session = 0;
  reconnect_network = 0;
  reconnect_manual = 0;
  adaptive_batch_packets = 1;
}

abbrev item : ℕ → Queued
item n = record { bytes = replicate n 7; enqueued = 5; payload = true }

abbrev two_items : TxQueue
two_items = record { packets = item 40 ∷ item 50 ∷ []; bytes = 90; stats = no_counts }

two_items-Fits : Fits settings two_items
two_items-Fits = record { counted = refl; few_bytes = omega arith; few_packets = omega arith }

enqueue-Fits_example :
    Fits settings (enqueue two_items (item 30) settings false)
    × Queues settings false two_items.packets
        (item 30)
        (enqueue two_items (item 30) settings false).packets
enqueue-Fits_example =
    enqueue-Fits settings (item 30) (omega arith) (omega arith) two_items false two_items-Fits

-- The first item makes room.
oldest_leaves : (enqueue two_items (item 30) settings false).packets ≡ item 50 ∷ item 30 ∷ []
unfolding enqueue make_room add64 sub64
oldest_leaves = refl

abbrev any_address : Family → List ℕ → Bool
any_address family address = true

accepted :
    validate_tun_inputs any_address
      (codes "phtun0")
      (codes "10.0.0.2/30")
      (codes "10.0.0.1/30")
      (pos 1280)
    ≡ fine inet
unfolding validate_tun_inputs safe_token validate_cidr ip_only cut digits leb_int list_eq
accepted = refl

validate_tun_inputs-Accepted_example :
    Accepted any_address
      (codes "phtun0")
      (codes "10.0.0.2/30")
      (codes "10.0.0.1/30")
      (pos 1280)
      inet
validate_tun_inputs-Accepted_example =
    validate_tun_inputs-Accepted any_address (codes "phtun0") (codes "10.0.0.2/30")
      (codes "10.0.0.1/30") (pos 1280) inet accepted

abbrev idle_shaper : BurstShaper
idle_shaper = new_shaper 1000

abbrev first_poll : Poll
first_poll = record { packets = 1; age_us = 0; draw = 4000; now = 2000 }

abbrev second_poll : Poll
second_poll = record { packets = 2; age_us = 3000; draw = 0; now = 5000 }

refused_twice : AllRefused 5 idle_shaper (first_poll ∷ second_poll ∷ [])
unfolding ready bulk add64 sub64
refused_twice = (refl, (refl, tt))

ready_in_time_example : All (λ q. q.now < 2000 + 5 * 1000) (first_poll ∷ second_poll ∷ [])
ready_in_time_example =
    ready_in_time 5 idle_shaper first_poll (second_poll ∷ []) refl (omega arith) (omega arith)
      (omega arith, (omega arith, tt)) refused_twice
