-- ===== src/Config/Profile.antt =====
-- The profiles of cdn/src/config.cpp: apply_profile and apply_resource_cap.
use pacetun.Base.{ℕ, List, not, if◌then◌else◌, min, codes}
use pacetun.Base.Int.{pos}
use pacetun.Flow.{list_eq}
use pacetun.Config.{Config}
use pacetun.Config.Value.{min_int, max_int}

unfoldable pub apply_profile : Config → List ℕ → Config
unfolding list_eq
apply_profile c p =
    if list_eq p (codes "balanced")
    then record c {
      queue_packets = 4096;
      queue_bytes = 8388608;
      queue_delay_ms = pos 500;
      batch_packets = pos 8;
      batch_bytes = 16384;
      queue_target_delay_ms = pos 40;
      sndbuf = pos 4194304;
      rcvbuf = pos 4194304;
      keepalive_sec = pos 10;
      rtt_probe_sec = pos 5;
      websocket_poll_ms = pos 5;
    }
    else if list_eq p (codes "lightning")
    then record c {
      queue_packets = 2048;
      queue_bytes = 4194304;
      queue_delay_ms = pos 25;
      batch_packets = pos 1;
      batch_bytes = 4096;
      queue_target_delay_ms = pos 10;
      sndbuf = pos 2097152;
      rcvbuf = pos 2097152;
      keepalive_sec = pos 5;
      rtt_probe_sec = pos 3;
      websocket_poll_ms = pos 1;
    }
    else if list_eq p (codes "bulk")
    then record c {
      queue_packets = 8192;
      queue_bytes = 16777216;
      queue_delay_ms = pos 1000;
      batch_packets = pos 32;
      batch_bytes = 65536;
      queue_target_delay_ms = pos 100;
      sndbuf = pos 8388608;
      rcvbuf = pos 8388608;
      keepalive_sec = pos 15;
      rtt_probe_sec = pos 10;
      websocket_poll_ms = pos 15;
    }
    else if list_eq p (codes "ultra")
    then record c {
      queue_packets = 16384;
      queue_bytes = 33554432;
      queue_delay_ms = pos 750;
      batch_packets = pos 64;
      batch_bytes = 131072;
      queue_target_delay_ms = pos 60;
      sndbuf = pos 16777216;
      rcvbuf = pos 16777216;
      keepalive_sec = pos 10;
      rtt_probe_sec = pos 5;
      websocket_poll_ms = pos 2;
    }
    else c

unfoldable pub apply_resource_cap : Config → List ℕ → Config
unfolding list_eq min_int max_int
apply_resource_cap c r = if not (list_eq r (codes "lowmem")) then c else record c {
  max_record_buffer_bytes = min c.max_record_buffer_bytes 131072;
  queue_packets = min c.queue_packets 512;
  queue_bytes = min c.queue_bytes 1048576;
  queue_delay_ms = min_int c.queue_delay_ms (pos 250);
  batch_packets = min_int c.batch_packets (pos 4);
  batch_bytes = min c.batch_bytes 8192;
  sndbuf = min_int c.sndbuf (pos 524288);
  rcvbuf = min_int c.rcvbuf (pos 524288);
  stats_interval_sec = max_int c.stats_interval_sec (pos 10);
}
