-- ===== src/Config/Validate.antt =====
-- validate_config of cdn/src/config.cpp, with range, validate_http_field and validate_endpoint. The checks stand
-- in the order of the source, each with the exception it throws, if it does.
use Prim.Native.String.{String}
use pacetun.Base.{
  ℕ, List, [], ◌∷◌, ◌++◌, Bool, true, false, not, ◌&&◌, ◌||◌, Option, none, some, ltb, leb, ◌==◌,
  if◌then◌else◌, length, is_empty, u64, codes, cut,
}
use pacetun.Base.Int.{ℤ, pos}
use pacetun.Flow.{list_eq}
use pacetun.Config.{Config}
use pacetun.Config.Value.{
  FieldError, out_of_range, is_required, too_long, bad_characters, must_use_ipv6,
  must_use_host_port, invalid_host_port, invalid_port, port_out_of_range, ConfigError, in_field,
  refused, leb_int, max_int, add_int, is_zero, size_of, long_of, digits,
}

abbrev pub Check : Type 0
Check = Option ConfigError

abbrev pub eq : List ℕ → String → Bool
eq s t = list_eq s (codes t)

unfoldable pub range : String → ℤ → ℤ → ℤ → Check
unfolding leb_int
range name v lo hi =
    if not (leb_int lo v) || not (leb_int v hi) then some (in_field name out_of_range) else none

abbrev pub guard : Bool → String → Check
guard broken message = if broken then some (refused message) else none

abbrev pub more_than : ℕ → ℤ → Bool
more_than n v = not (leb_int v (pos n))

abbrev pub starts_with_slash : List ℕ → Bool
starts_with_slash [] = false
starts_with_slash (c ∷ s) = c == b'/'

-- `s.find("..") != npos`
unfoldable pub has_dots : List ℕ → Bool
has_dots [] = false
has_dots (c ∷ []) = false
has_dots (c ∷ d ∷ s) = c == b'.' && d == b'.' || has_dots (d ∷ s)

abbrev pub plain : List ℕ → Bool
plain [] = true
plain (c ∷ s) = not (leb c 32 || c == 127) && plain s

unfoldable pub http_field : String → List ℕ → ℕ → Bool → Check
http_field name s max_len allow_empty =
    if is_empty s
    then (if allow_empty then none else some (in_field name is_required))
    else if ltb max_len (length s)
    then some (in_field name too_long)
    else if plain s
    then none
    else some (in_field name bad_characters)

abbrev pub all_digits : List ℕ → Bool
all_digits [] = true
all_digits (c ∷ s) = leb b'0' c && leb c b'9' && all_digits s

-- The port, behind the checks of its form. std::stoul throws from 2 ^ 64 on.
abbrev pub port_field : String → List ℕ → Check
port_field name port =
    let value = digits 10 0 port in
    if not (all_digits port)
    then some (in_field name invalid_host_port)
    else if leb u64 value
    then some (in_field name invalid_port)
    else if ltb value 1 || ltb 65535 value
    then some (in_field name port_out_of_range)
    else none

-- `[host]:port`, from behind the `[`.
abbrev pub bracketed : String → Option (List ℕ × List ℕ) → Check
bracketed name (some (h ∷ host, colon ∷ p ∷ port)) =
    if not (colon == b':') then some (in_field name must_use_ipv6) else port_field name (p ∷ port)
bracketed name _ = some (in_field name must_use_ipv6)

-- `host:port`; a second colon stands in the port.
abbrev pub absent : Option (List ℕ × List ℕ) → Bool
absent none = true
absent (some s) = false

abbrev pub plain_host : String → Option (List ℕ × List ℕ) → Check
plain_host name (some (h ∷ host, p ∷ port)) =
    if not (absent (cut b':' (p ∷ port)))
    then some (in_field name must_use_host_port)
    else port_field name (p ∷ port)
plain_host name _ = some (in_field name must_use_host_port)

unfoldable pub endpoint : String → List ℕ → Check
unfolding cut digits
endpoint name [] = some (in_field name FieldError.is_empty)
endpoint name (c ∷ s) =
    if c == b'[' then bracketed name (cut b']' s) else plain_host name (cut b':' (c ∷ s))

unfoldable pub first_checks : Config → List Check
unfolding range http_field endpoint list_eq has_dots leb_int max_int add_int size_of long_of
first_checks c =
    range "max_connections" c.max_connections (pos 1) (pos 4)
    ∷ range "pool_drain_sec" c.pool_drain_sec (pos 1) (pos 120)
    ∷ range "pool_idle_poll_ms" c.pool_idle_poll_ms (pos 1) (pos 250)
    ∷ guard
        (not (eq c.address_family "auto")
          && not (eq c.address_family "ipv4")
          && not (eq c.address_family "ipv6"))
        "address_family must be auto, ipv4 or ipv6"
    ∷ guard (more_than 1 c.max_connections && not (eq c.transport "websocket"))
        "max_connections requires websocket"
    ∷ guard (more_than 2 c.max_connections && eq c.resource_profile "lowmem")
        "lowmem limits max_connections to 2"
    ∷ range "websocket_control_padding_bytes" c.websocket_control_padding_bytes (pos 0) (pos 1024)
    ∷ guard
        (not (eq c.browser_profile "none")
          && not (eq c.browser_profile "firefox120")
          && not (eq c.browser_profile "chrome120"))
        "invalid browser_profile"
    ∷ range "shaping_startup_ms" c.shaping_startup_ms (pos 0) (pos 10000)
    ∷ range "shaping_delay_ms" c.shaping_delay_ms (pos 0) (pos 10)
    ∷ range "shaping_rate_bytes" c.shaping_rate_bytes (pos 0) (pos 65536)
    ∷ range "shaping_burst_bytes" c.shaping_burst_bytes (pos 0) (pos 65536)
    ∷ guard
        (c.traffic_shaping
          && (not (eq c.transport "websocket")
              || is_zero c.websocket_padding_max_bytes
              || is_zero c.websocket_control_padding_bytes))
        "traffic_shaping requires websocket transport and nonzero data/control padding limits"
    ∷ range "padding_budget_pct" c.padding_budget_pct (pos 0) (pos 50)
    ∷ range "latency_renew_ms" c.latency_renew_ms (pos 0) (pos 60000)
    ∷ range "latency_renew_samples" c.latency_renew_samples (pos 2) (pos 20)
    ∷ range "latency_renew_cooldown_sec" c.latency_renew_cooldown_sec (pos 60) (pos 3600)
    ∷ range "idle_probe_sec" c.idle_probe_sec (pos 0) (pos 300)
    ∷ range "reply_degraded_sec" c.reply_degraded_sec (pos 2) (pos 60)
    ∷ range "reply_renew_sec" c.reply_renew_sec (pos 5) (pos 120)
    ∷ range "reply_timeout_sec" c.reply_timeout_sec (pos 10) (pos 300)
    ∷ range "candidate_max_rtt_ms" c.candidate_max_rtt_ms (pos 100) (pos 5000)
    ∷ guard
        (leb_int c.reply_renew_sec c.reply_degraded_sec
          || leb_int c.reply_timeout_sec c.reply_renew_sec)
        "reply deadlines must increase: degraded < renew < timeout"
    ∷ range "timing_jitter_pct" c.timing_jitter_pct (pos 0) (pos 30)
    ∷ guard (not (eq c.log_format "human") && not (eq c.log_format "legacy"))
        "log_format must be human or legacy"
    ∷ guard (not (is_zero c.websocket_control_padding_bytes) && not (eq c.transport "websocket"))
        "control padding requires websocket"
    ∷ guard
        (not (is_zero c.websocket_control_padding_bytes)
          && ltb c.batch_bytes (
              size_of (
                add_int
                  (max_int (add_int c.mtu c.websocket_padding_max_bytes)
                    (add_int (pos 8) c.websocket_control_padding_bytes))
                  (pos 35))))
        "batch_bytes too small for padded envelope"
    ∷ range "websocket_padding_max_bytes" c.websocket_padding_max_bytes (pos 0) (pos 1024)
    ∷ guard (not (is_zero c.websocket_padding_max_bytes) && not (eq c.transport "websocket"))
        "padding requires websocket transport"
    ∷ []

unfoldable pub place_checks : Config → List Check
unfolding range http_field endpoint list_eq has_dots leb_int max_int add_int size_of long_of
place_checks c =
    guard (not (eq c.transport "tls") && not (eq c.transport "websocket"))
      "transport must be tls or websocket"
    ∷ guard (not (eq c.mode "server") && not (eq c.mode "client")) "mode must be server or client"
    ∷ guard (eq c.mode "server" && is_empty c.listen) "listen is required in server mode"
    ∷ guard (eq c.mode "client" && (is_empty c.server || is_empty c.server_name))
        "server and server_name are required in client mode"
    ∷ guard (eq c.mode "server" && is_empty c.server_name) "server_name is required in server mode"
    ∷ http_field "server_name" c.server_name 255 false
    ∷ http_field "host_header" c.host_header 255 true
    ∷ (if eq c.mode "server" then endpoint "listen" c.listen else endpoint "server" c.server)
    ∷ guard (not (starts_with_slash c.path)) "path must start with /"
    ∷ http_field "path" c.path 2048 false
    ∷ guard (is_empty c.dev || ltb 15 (length c.dev)) "dev must contain 1..15 characters"
    ∷ guard (is_empty c.cidr || is_empty c.peer_cidr) "cidr and peer_cidr are required"
    ∷ guard
        (eq c.mode "server" && eq c.transport "tls" && (is_empty c.tls_cert || is_empty c.tls_key))
        "tls_cert and tls_key are required in server mode"
    ∷ guard (not (eq c.tls_backend "openssl") && not (eq c.tls_backend "utls"))
        "tls_backend must be openssl or utls"
    ∷ guard
        (eq c.tls_backend "utls"
          && (not (eq c.mode "client")
              || not (eq c.transport "websocket")
              || not c.websocket_tls
              || not c.verify_peer))
        "uTLS adapter requires authenticated HTTPS WebSocket client"
    ∷ guard (eq c.tls_backend "utls" && c.edge_dns_rotation)
        "disable edge_dns_rotation with uTLS: adapter performs DNS resolution"
    ∷ guard
        (eq c.tls_backend "utls"
          && (is_empty c.tls_adapter_socket
              || not (starts_with_slash c.tls_adapter_socket)
              || leb 100 (length c.tls_adapter_socket)
              || has_dots c.tls_adapter_socket))
        "tls_adapter_socket must be a short absolute path without .."
    ∷ guard (c.edge_dns_rotation && (not (eq c.mode "client") || not (eq c.transport "websocket")))
        "edge_dns_rotation requires websocket client"
    ∷ guard
        (eq c.mode "client"
          && eq c.transport "websocket"
          && (not c.websocket_tls || not c.verify_peer))
        "WSS requires websocket_tls=1 and verify_peer=1"
    ∷ guard
        (eq c.mode "client"
          && (not (eq c.transport "websocket") || c.websocket_tls)
          && c.verify_peer
          && is_empty c.tls_ca)
        "tls_ca is required when verify_peer=1"
    ∷ guard (is_empty c.psk_file) "psk_file is required"
    ∷ guard
        (not (eq c.profile "balanced")
          && not (eq c.profile "lightning")
          && not (eq c.profile "bulk")
          && not (eq c.profile "ultra"))
        "profile must be balanced, lightning, bulk, or ultra"
    ∷ guard (not (eq c.resource_profile "normal") && not (eq c.resource_profile "lowmem"))
        "resource_profile must be normal or lowmem"
    ∷ []

unfoldable pub number_checks : Config → List Check
unfolding range http_field endpoint list_eq has_dots leb_int max_int add_int size_of long_of
number_checks c =
    range "mtu" c.mtu (pos 576) (pos 9000)
    ∷ range "websocket_ping_sec" c.websocket_ping_sec (pos 0) (pos 300)
    ∷ range "websocket_pong_timeout_sec" c.websocket_pong_timeout_sec (pos 0) (pos 120)
    ∷ range "websocket_poll_ms" c.websocket_poll_ms (pos 1) (pos 100)
    ∷ range "websocket_upgrade_timeout_sec" c.websocket_upgrade_timeout_sec (pos 1) (pos 120)
    ∷ range "websocket_io_timeout_sec" c.websocket_io_timeout_sec (pos 1) (pos 300)
    ∷ range "listen_backlog" c.listen_backlog (pos 16) (pos 4096)
    ∷ range "session_max_age_sec" c.session_max_age_sec (pos 0) (pos 604800)
    ∷ range "max_record_buffer_bytes" (long_of c.max_record_buffer_bytes) (pos 65536) (pos 16777216)
    ∷ range "control_mode" c.control_mode (pos 0) (pos 511)
    ∷ range "queue_packets" (long_of c.queue_packets) (pos 16) (pos 1000000)
    ∷ range "queue_bytes" (long_of c.queue_bytes) (pos 65536) (pos 2147483648)
    ∷ range "queue_delay_ms" c.queue_delay_ms (pos 10) (pos 60000)
    ∷ range "batch_packets" c.batch_packets (pos 1) (pos 256)
    ∷ range "batch_bytes" (long_of c.batch_bytes) (pos 1024) (pos 4194304)
    ∷ guard
        (eq c.transport "websocket"
          && ltb c.batch_bytes (
              size_of (
                add_int (add_int c.mtu (pos 32)) (
                  if is_zero c.websocket_padding_max_bytes
                  then pos 0
                  else add_int (pos 2) c.websocket_padding_max_bytes))))
        "batch_bytes must be at least mtu + 32 (plus 2 + websocket_padding_max_bytes when padding is enabled) for PTT5 WebSocket records"
    ∷ range "adaptive_batch_min_packets" c.adaptive_batch_min_packets (pos 1) (pos 256)
    ∷ range "adaptive_batch_max_packets" c.adaptive_batch_max_packets c.adaptive_batch_min_packets
        (pos 256)
    ∷ range "queue_target_delay_ms" c.queue_target_delay_ms (pos 1) (pos 60000)
    ∷ guard
        (eq c.transport "websocket"
          && c.adaptive_batching
          && not (leb_int c.queue_target_delay_ms c.queue_delay_ms))
        "queue_target_delay_ms must not exceed queue_delay_ms for adaptive WebSocket batching"
    ∷ range "connect_timeout_sec" c.connect_timeout_sec (pos 1) (pos 300)
    ∷ range "idle_timeout_sec" c.idle_timeout_sec (pos 5) (pos 3600)
    ∷ range "keepalive_sec" c.keepalive_sec (pos 0) (pos 300)
    ∷ range "rtt_probe_sec" c.rtt_probe_sec (pos 0) (pos 300)
    ∷ range "reconnect_initial_ms" c.reconnect_initial_ms (pos 100) (pos 60000)
    ∷ range "reconnect_max_ms" c.reconnect_max_ms c.reconnect_initial_ms (pos 600000)
    ∷ range "reconnect_jitter_pct" c.reconnect_jitter_pct (pos 0) (pos 50)
    ∷ range "tcp_keepidle_sec" c.tcp_keepidle_sec (pos 1) (pos 3600)
    ∷ range "tcp_keepintvl_sec" c.tcp_keepintvl_sec (pos 1) (pos 300)
    ∷ range "tcp_keepcnt" c.tcp_keepcnt (pos 1) (pos 20)
    ∷ range "tcp_user_timeout_ms" c.tcp_user_timeout_ms (pos 1000) (pos 600000)
    ∷ range "sndbuf" c.sndbuf (pos 65536) (pos 1073741824)
    ∷ range "rcvbuf" c.rcvbuf (pos 65536) (pos 1073741824)
    ∷ range "stats_interval_sec" c.stats_interval_sec (pos 1) (pos 300)
    ∷ guard (is_empty c.control_socket) "control_socket is required"
    ∷ guard (leb 100 (length c.control_socket)) "control_socket path is too long"
    ∷ []

-- The first exception.
unfoldable pub first_error : List Check → Option ConfigError
first_error [] = none
first_error (none ∷ cs) = first_error cs
first_error (some e ∷ cs) = some e

unfoldable pub validate_config : Config → Option ConfigError
unfolding first_error first_checks place_checks number_checks
validate_config c = first_error (first_checks c ++ (place_checks c ++ number_checks c))
