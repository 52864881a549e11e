-- ===== src/Config/Capped.antt =====
-- apply_resource_cap of cdn/src/config.cpp against the ranges of validate_config.
use pacetun.Base.{ℕ, ◌≤◌, ◌≡◌, refl, List, min, codes, Bool-cases, inl, inr, arith}
use pacetun.Base.Int.{ℤ, pos, negsuc}
use pacetun.Flow.{list_eq}
use pacetun.Config.{Config}
use pacetun.Config.Value.{leb_int, min_int, max_int}
use pacetun.Config.Profile.{apply_resource_cap}
use pacetun.Config.Valid.{Within}

abbrev pub Between : ℕ → ℕ → ℕ → Type 0
Between lo hi n = (lo ≤ n) × (n ≤ hi)

-- The ranges of the fields that the cap changes.
pub record Ranges (c : Config) : Type 0 where
  pub record_buffer : Between 65536 16777216 c.max_record_buffer_bytes
  pub packets : Between 16 1000000 c.queue_packets
  pub bytes : Between 65536 2147483648 c.queue_bytes
  pub delay : Within 10 60000 c.queue_delay_ms
  pub batch : Within 1 256 c.batch_packets
  pub batch_size : Between 1024 4194304 c.batch_bytes
  pub send_buffer : Within 65536 1073741824 c.sndbuf
  pub receive_buffer : Within 65536 1073741824 c.rcvbuf
  pub stats : Within 1 300 c.stats_interval_sec

min_int-Within : (v : ℤ) (k lo hi : ℕ) → lo ≤ k → Within lo hi v → Within lo hi (min_int v (pos k))
unfolding min_int leb_int
min_int-Within (pos n) k lo hi h w = ground (arith, w)
min_int-Within (negsuc n) k lo hi h w = absurd w

max_int-Within : (v : ℤ) (k lo hi : ℕ) → k ≤ hi → Within lo hi v → Within lo hi (max_int v (pos k))
unfolding max_int leb_int
max_int-Within (pos n) k lo hi h w = ground (arith, w)
max_int-Within (negsuc n) k lo hi h w = absurd w

min-Between : (n k lo hi : ℕ) → lo ≤ k → Between lo hi n → Between lo hi (min n k)
min-Between n k lo hi h w = (omega (arith, w.0), omega (arith, w.1))

min_int_idem : (v : ℤ) (k : ℕ) → min_int (min_int v (pos k)) (pos k) ≡ min_int v (pos k)
unfolding min_int leb_int
min_int_idem (pos n) k = ground arith
min_int_idem (negsuc n) k = ground arith

max_int_idem : (v : ℤ) (k : ℕ) → max_int (max_int v (pos k)) (pos k) ≡ max_int v (pos k)
unfolding max_int leb_int
max_int_idem (pos n) k = ground arith
max_int_idem (negsuc n) k = ground arith

min_idem : (n k : ℕ) → min (min n k) k ≡ min n k
min_idem n k = omega arith

-- If the limits of the queue, of the batches, of the buffers and of the statistics are in the
-- ranges of validate_config, they are in them after apply_resource_cap, and a second application
-- changes nothing.
pub apply_resource_cap-Ranges :
    (c : Config) (r : List ℕ)
    → Ranges c
    → Ranges (apply_resource_cap c r)
      × (apply_resource_cap (apply_resource_cap c r) r ≡ apply_resource_cap c r)
unfolding apply_resource_cap
apply_resource_cap-Ranges c r h = elim (Bool-cases (list_eq r (codes "lowmem"))) [
  | inl low ↦ rw low (
    record {
      record_buffer =
          min-Between c.max_record_buffer_bytes 131072 65536 16777216 (omega arith) h.record_buffer;
      packets = min-Between c.queue_packets 512 16 1000000 (omega arith) h.packets;
      bytes = min-Between c.queue_bytes 1048576 65536 2147483648 (omega arith) h.bytes;
      delay = min_int-Within c.queue_delay_ms 250 10 60000 (omega arith) h.delay;
      batch = min_int-Within c.batch_packets 4 1 256 (omega arith) h.batch;
      batch_size = min-Between c.batch_bytes 8192 1024 4194304 (omega arith) h.batch_size;
      send_buffer = min_int-Within c.sndbuf 524288 65536 1073741824 (omega arith) h.send_buffer;
      receive_buffer =
          min_int-Within c.rcvbuf 524288 65536 1073741824 (omega arith) h.receive_buffer;
      stats = max_int-Within c.stats_interval_sec 10 1 300 (omega arith) h.stats;
    },
    rw
        (
          min_idem c.max_record_buffer_bytes 131072,
          min_idem c.queue_packets 512,
          min_idem c.queue_bytes 1048576,
          min_int_idem c.queue_delay_ms 250,
          min_int_idem c.batch_packets 4,
          min_idem c.batch_bytes 8192,
          min_int_idem c.sndbuf 524288,
          min_int_idem c.rcvbuf 524288,
          max_int_idem c.stats_interval_sec 10,
        )
        refl,
  )
  | inr other ↦ rw other (h, refl)
]
