-- ===== src/Runtime.antt =====
-- The transmit queue of the TLS tunnel and the reasons of a reconnect, cdn/src/runtime.cpp: enqueue,
-- effective_batch_packets, the delay check of tunnel_loop, failure_code and classify_reconnect.
pub mod Queue
use pacetun.Base.{
  ℕ, suc, ◌+◌, ◌-◌, ◌*◌, ◌/◌, List, [], ◌∷◌, ◌++◌, Bool, true, false, not, ◌&&◌, ◌||◌, Option, none,
  some, ltb, leb, ◌==◌, if◌then◌else◌, length, is_empty, min, max, add64, sub64, codes,
}
use Prim.Native.String.{String}
use pacetun.Base.Int.{ℤ, pos, negsuc}
use pacetun.Config.{Config}
use pacetun.WebSocket.Http.{lower, find_text}

-- `enqueued` is in nanoseconds of the clock.
pub record Queued : Type 0 where
  pub bytes : List ℕ
  pub enqueued : ℕ
  pub payload : Bool

-- The counters that the operations here change.
pub record Stats : Type 0 where
  pub drop_queue : ℕ
  pub drop_delay : ℕ
  pub queue_pkts : ℕ
  pub queue_bytes : ℕ
  pub queue_peak_pkts : ℕ
  pub queue_peak_bytes : ℕ
  pub tx_stalls : ℕ
  pub reconnect_pong_timeout : ℕ
  pub reconnect_tx_timeout : ℕ
  pub reconnect_idle : ℕ
  pub reconnect_session : ℕ
  pub reconnect_network : ℕ
  pub reconnect_manual : ℕ
  pub adaptive_batch_packets : ℕ

-- `q`, `qb` and the counters.
pub record TxQueue : Type 0 where
  pub packets : List Queued
  pub bytes : ℕ
  pub stats : Stats

abbrev pub count_drop : Stats → Stats
count_drop s = record s { drop_queue = add64 s.drop_queue 1 }

-- The end of enqueue.
abbrev pub append : TxQueue → Queued → TxQueue
append t x =
    let q = t.packets ++ x ∷ [] in
    let qb = add64 t.bytes (length x.bytes) in
    record {
      packets = q;
      bytes = qb;
      stats = record t.stats {
        queue_pkts = length q;
        queue_bytes = qb;
        queue_peak_pkts = max t.stats.queue_peak_pkts (length q);
        queue_peak_bytes = max t.stats.queue_peak_bytes qb;
      };
    }

-- The loop that makes room. A protected front stays, and the new packet is dropped.
unfoldable pub make_room : Config → Bool → Queued → List Queued → ℕ → Stats → TxQueue
make_room cfg protect_front x [] qb st = append (record { packets = []; bytes = qb; stats = st }) x
make_room cfg protect_front x (f ∷ q) qb st =
    let rest = make_room cfg protect_front x q (sub64 qb (length f.bytes)) (count_drop st) in
    if leb cfg.queue_packets (length (f ∷ q)) || ltb cfg.queue_bytes (add64 qb (length x.bytes))
    then (if protect_front
        then record { packets = f ∷ q; bytes = qb; stats = count_drop st }
        else rest)
    else append (record { packets = f ∷ q; bytes = qb; stats = st }) x

unfoldable pub enqueue : TxQueue → Queued → Config → Bool → TxQueue
unfolding make_room
enqueue t x cfg protect_front =
    if ltb cfg.queue_bytes (length x.bytes)
    then record t { stats = count_drop t.stats }
    else make_room cfg protect_front x t.packets t.bytes t.stats

-- An int of a checked configuration, which is not negative.
abbrev pub natural : ℤ → ℕ
natural (pos n) = n
natural (negsuc n) = 0

abbrev pub age_ms : ℕ → Queued → ℕ
age_ms now f = (now - f.enqueued) / 1000000

-- The packets that are too old, at the front, unless a part of the front is sent. `queue_bytes` and
-- `queue_pkts` are stored behind the loop.
unfoldable pub drop_old : Config → ℕ → ℕ → List Queued → ℕ → Stats → TxQueue
drop_old cfg now front_offset [] qb st = record {
  packets = [];
  bytes = qb;
  stats = record st { queue_pkts = 0; queue_bytes = qb };
}
drop_old cfg now front_offset (f ∷ q) qb st =
    let rest =
      drop_old cfg now 0 q (sub64 qb (length f.bytes))
        (record st { drop_delay = add64 st.drop_delay 1 }) in
    if front_offset == 0 && ltb (natural cfg.queue_delay_ms) (age_ms now f) then rest else record {
      packets = f ∷ q;
      bytes = qb;
      stats = record st { queue_pkts = length (f ∷ q); queue_bytes = qb };
    }

-- What the batch is to be for a queue that is not empty.
abbrev pub adapted : Config → ℕ → List Queued → ℕ
adapted cfg now [] = natural cfg.adaptive_batch_min_packets
adapted cfg now (f ∷ q) =
    let low = natural cfg.adaptive_batch_min_packets in
    let high = natural cfg.adaptive_batch_max_packets in
    let age = age_ms now f in
    let target = natural cfg.queue_target_delay_ms in
    if leb target age
    then high
    else if ltb age (target / 4) && leb (length (f ∷ q)) 4
    then low
    else low + (high - low) * min (length (f ∷ q)) 64 / 64

unfoldable pub effective_batch_packets : List Queued → Config → Stats → ℕ → ℕ × Stats
effective_batch_packets q cfg st now =
    let low = natural cfg.adaptive_batch_min_packets in
    let high = natural cfg.adaptive_batch_max_packets in
    let chosen =
      if cfg.adaptive_batching
      then max low (min (adapted cfg now q) high)
      else natural cfg.batch_packets in
    (chosen, record st { adaptive_batch_packets = chosen })

abbrev pub is_found : Option ℕ → Bool
is_found none = false
is_found (some n) = true

-- `reason.find(text) != npos`, and contains_insensitive.
abbrev pub mentions : List ℕ → String → Bool
mentions reason text = is_found (find_text (codes text) reason)

unfoldable pub contains_insensitive : List ℕ → String → Bool
unfolding lower find_text
contains_insensitive reason text = is_found (find_text (lower (codes text)) (lower reason))

unfoldable pub failure_code : ℕ → List ℕ → String
unfolding contains_insensitive find_text
failure_code phase reason =
    if contains_insensitive reason "HTTP/1.1 502" || contains_insensitive reason "502 Bad Gateway"
    then "HTTP_502_GATEWAY"
    else if contains_insensitive reason "HTTP/1.1 504" || contains_insensitive reason "504 Gateway"
    then "HTTP_504_TIMEOUT"
    else if contains_insensitive reason "DNS resolution failed"
        || contains_insensitive reason "DNS returned no usable"
    then "DNS_RESOLUTION_FAILED"
    else if contains_insensitive reason "certificate verify"
        || contains_insensitive reason "certificate has expired"
        || contains_insensitive reason "hostname mismatch"
    then "TLS_CERTIFICATE_FAILED"
    else if contains_insensitive reason "TCP connect failed"
        && contains_insensitive reason "timed out"
    then "TCP_CONNECT_TIMEOUT"
    else if contains_insensitive reason "TLS handshake timeout"
    then "TLS_HANDSHAKE_TIMEOUT"
    else if mentions reason "authenticated probe reply timeout"
    then "AUTH_PROBE_TIMEOUT"
    else if mentions reason "control requested reconnect"
    then "MANUAL_RECONNECT"
    else if mentions reason "carrier PONG timeout"
    then "WEBSOCKET_PONG_TIMEOUT"
    else if mentions reason "WebSocket peer close received"
    then "WEBSOCKET_PEER_CLOSE"
    else if mentions reason "authentication" || mentions reason "key confirmation"
    then "AUTHENTICATION_FAILED"
    else if mentions reason "WebSocket upgrade"
    then "WEBSOCKET_UPGRADE_FAILED"
    else if phase == 3
    then "TCP_CONNECT_FAILED"
    else if phase == 4
    then "TLS_HANDSHAKE_FAILED"
    else if phase == 5
    then "CARRIER_UPGRADE_FAILED"
    else "ESTABLISHED_CONNECTION_LOST"

unfoldable pub classify_reconnect : List ℕ → Stats → Stats
unfolding find_text
classify_reconnect reason st =
    if mentions reason "authenticated probe reply timeout"
    then st
    else if mentions reason "PONG timeout"
    then record st { reconnect_pong_timeout = add64 st.reconnect_pong_timeout 1 }
    else if mentions reason "TX no-progress timeout"
    then record st {
      reconnect_tx_timeout = add64 st.reconnect_tx_timeout 1;
      tx_stalls = add64 st.tx_stalls 1;
    }
    else if mentions reason "idle timeout"
    then record st { reconnect_idle = add64 st.reconnect_idle 1 }
    else if mentions reason "session max age"
    then record st { reconnect_session = add64 st.reconnect_session 1 }
    else if mentions reason "control requested reconnect"
    then record st { reconnect_manual = add64 st.reconnect_manual 1 }
    else record st { reconnect_network = add64 st.reconnect_network 1 }
